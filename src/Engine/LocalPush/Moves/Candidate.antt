-- ===== src/Engine/LocalPush/Moves/Candidate.antt =====
-- Which node an entry on disk is taken for.
use valv.Base.{◌≡◌, ap, String, string_eq, ℕ, Bool, true, List, [], ◌∷◌, Option, some, All, arith}
use mathlib.Core.Path.{subst}
use valv.Base.Members.{In, In-single, some-injective}
use valv.Persistence.Db.{Db, LocalNode}
use valv.Protocol.{NodeType}
use valv.Sql.{select_all}
use valv.Sql.Laws.{select_all-In, select_all-holds}
use valv.Engine.LocalPush.State.{LocalPath}
use valv.Engine.LocalPush.Moves.{is_candidate, only, live_nodes, find_missing_move_candidate}

only-single : (ns : List LocalNode) (n : LocalNode) → only ns ≡ some n → ns ≡ n ∷ []
only-single [] n h = ground arith
only-single (m ∷ []) n h = ap (λ k. k ∷ []) (some-injective m n h)
only-single (m ∷ k ∷ t) n h = ground arith

module _ (exists : LocalPath → Bool) (folder_id : String) (scope_node_id : Option String)
    (abs_path : LocalPath) (parent_node_id name : String) (node_type : NodeType) (fuel : ℕ)
    (db : Db) where
  -- The test of the filter, on the nodes of the mirror.
  abbrev pub passes : LocalNode → Bool
  passes =
      is_candidate exists folder_id scope_node_id abs_path parent_node_id name node_type fuel
        (live_nodes folder_id db)

  candidate-single :
      (n : LocalNode)
      → find_missing_move_candidate exists folder_id scope_node_id abs_path parent_node_id name
          node_type fuel db
        ≡ some n
      → select_all passes (live_nodes folder_id db) ≡ n ∷ []
  unfolding find_missing_move_candidate
  candidate-single n h = only-single (select_all passes (live_nodes folder_id db)) n h

  -- The node that an entry is taken for is a row of the mirror that passes the test, in the folder
  -- and not deleted, and it is the only such row that does.
  pub candidate-Only :
      (n : LocalNode)
      → find_missing_move_candidate exists folder_id scope_node_id abs_path parent_node_id name
          node_type fuel db
        ≡ some n
      → (passes n ≡ true)
        × In n (live_nodes folder_id db)
        × ((m : LocalNode) → In m (live_nodes folder_id db) → passes m ≡ true → m ≡ n)
  candidate-Only n h =
      let nodes = live_nodes folder_id db in
      let one = candidate-single n h in
      let found =
        subst (All (λ m. (passes m ≡ true) × In m nodes)) one (select_all-holds passes nodes) in
      (
        found.0.0,
        found.0.1,
        λ m i t. In-single m n (subst (In m) one (select_all-In passes m nodes i t)),
      )
