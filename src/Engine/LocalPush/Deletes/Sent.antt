-- ===== src/Engine/LocalPush/Deletes/Sent.antt =====
-- What a whole delete sweep has sent.
use valv.Base.{◌≡◌, refl, String, ℕ, Bool, List, Option, none, some, arith}
use valv.Base.Members.{some-injective}
use valv.Engine.LocalPush.Deletes.Safe.{root, Sent, started, ensure-same, sweep-Safe}
use valv.Base.Exec.{bind-holds}
use valv.Http.{Reply}
use valv.Json.{Json}
use valv.Protocol.{SubmitOpRequest}
use valv.Engine.LocalPush.State.{LocalPath, Push, ensure_not_update_required}
use valv.Engine.LocalPush.Deletes.{
  MirrorNode, submit_deletes_for_missing, seed_of, live_mirror_nodes, sweep_from,
}

module _ (fuel : ℕ) (J : Json) (backend : SubmitOpRequest → Reply J.Value) (now : String)
    (exists : LocalPath → Bool) (folder_id : String) (scope_node_id : Option String) where
  sweep_from-Sent :
      (nodes : List MirrorNode) (p : Push) (found : Option MirrorNode) (seed : MirrorNode)
      → found ≡ some seed
      → Sent fuel J exists nodes seed.node_id p
          (sweep_from fuel J backend now exists folder_id scope_node_id nodes found p).1.submitted
  sweep_from-Sent nodes p none seed h = ground arith
  sweep_from-Sent nodes p (some found) seed h =
      rw (← some-injective found seed h)
        (sweep-Safe fuel J exists nodes found.node_id p backend now folder_id fuel _
          (refl, refl, refl, (root, tt), started)).4

  -- Every request that the sweep sends deletes a node of the mirror's tree below the root of the
  -- mount, which no failed move has deferred, which is not on disk where the tree has it, and which
  -- the tables of versions and chunks, as they were at the start, allow to delete.
  pub deletes-Sent :
      (p : Push) (seed : MirrorNode)
      → seed_of scope_node_id (live_mirror_nodes folder_id p.db) ≡ some seed
      → Sent fuel J exists
          (live_mirror_nodes folder_id p.db)
          seed.node_id
          p
          (submit_deletes_for_missing fuel J backend now exists folder_id scope_node_id
            p).1.submitted
  unfolding submit_deletes_for_missing
  deletes-Sent p seed h =
      let nodes = live_mirror_nodes folder_id p.db in
      bind-holds (λ q. Sent fuel J exists nodes seed.node_id p q.submitted)
        ensure_not_update_required _ p (rw (ensure-same p) started)
        (λ a q. rw (ensure-same p) (sweep_from-Sent nodes p (seed_of scope_node_id nodes) seed h))
