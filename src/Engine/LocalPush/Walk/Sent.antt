-- ===== src/Engine/LocalPush/Walk/Sent.antt =====
-- What a whole run of the push sends.
use valv.Base.{
  ◌≡◌, refl, sym, String, ℕ, ℤ, zero, suc, Bool, List, [], ◌∷◌, Option, none, some, arith,
  Option-cases, inl, inr, ◌⊎◌, All,
}
use mathlib.Core.Path.{subst}
use valv.Base.Members.{In, All-In, All-weaken, some-injective}
use valv.Base.Exec.{bind-holds}
use valv.Base.Result.{Result, ok, err}
use valv.Errors.{Error}
use valv.Persistence.Db.{LocalNode}
use valv.Persistence.Nodes.{get_root_node}
use valv.Protocol.{SubmitOpRequest}
use valv.Engine.VersionPush.{Outside}
use valv.Engine.LocalPush.State.{LocalPath, Push, ensure_not_update_required}
use valv.Engine.LocalPush.Deletes.{
  MirrorNode, live_mirror_nodes, seed_of, submit_deletes_for_missing,
}
use valv.Engine.LocalPush.Deletes.Safe.{ensure-same, Sent}
use valv.Engine.LocalPush.Deletes.Sent.{deletes-Sent}
use valv.Engine.LocalPush.Listing.{Listed}
use valv.Engine.LocalPush.Walk.{
  Walk, Ended, visit_dir, walk, continue_with, pop_dir, finish_run, run_from, after_ensure,
  started_run, push_local_inner,
}
use valv.Engine.LocalPush.Walk.Requests.{NotDelete}
use valv.Engine.LocalPush.Walk.Folder.{visit_dir-On}

-- No request but those sent before is a deletion.
abbrev pub NoDeletes : List SubmitOpRequest → List SubmitOpRequest → Type 0
NoDeletes before = All (λ r. NotDelete r ⊎ In r before)

same-NoDeletes : (s : List SubmitOpRequest) → NoDeletes s s
same-NoDeletes s = All-weaken _ _ s (λ r i. inr i) (All-In s)

module _ (fuel : ℕ) (O : Outside) (now : String) (read_dir : LocalPath → Option (List Listed))
    (exists : LocalPath → Bool) (stat : LocalPath → Option (ℕ × ℤ)) (folder_id : String)
    (scope_node_id : Option String) (device_name date : String) where
  visit_dir-NoDeletes :
      (before : List SubmitOpRequest) (dir_path : LocalPath) (parent_node_id : String) (w : Walk)
      → NoDeletes before w.push.submitted
      → NoDeletes before
          (visit_dir fuel O now read_dir exists stat folder_id scope_node_id device_name date
            dir_path parent_node_id w).1.push.submitted
  visit_dir-NoDeletes before dir_path parent_node_id w h =
      visit_dir-On fuel O now read_dir exists stat folder_id scope_node_id device_name date dir_path
        parent_node_id (λ l q s. NoDeletes before s)
        (λ e t kind d. record {
          weaken = λ q s n. n;
          send = λ q s r k n. (inl k, n);
          enter = λ k q s i n. n;
        })
        w (λ l q. h) h

  -- The walk sends no deletion, whatever it finds on disk and whatever is answered.
  pub walk-NoDeletes :
      (rounds : ℕ) (before : List SubmitOpRequest) (w v : Walk) (r : Result Error Unit)
      → NoDeletes before w.push.submitted
      → walk fuel O now read_dir exists stat folder_id scope_node_id device_name date rounds w
        ≡ some (r, v)
      → NoDeletes before v.push.submitted
  unfolding walk
  walk-NoDeletes zero before w v r h e = ground (arith, e)
  walk-NoDeletes (suc n) before w v r h e = round (walk-NoDeletes n before) w.push.queue e
    where
      continued :
          (rest : (w' : Walk)
            → NoDeletes before w'.push.submitted
            → walk fuel O now read_dir exists stat folder_id scope_node_id device_name date n w'
              ≡ some (r, v)
            → NoDeletes before v.push.submitted)
          (visited : Result Error Unit × Walk)
          → NoDeletes before visited.1.push.submitted
          → continue_with
              (walk fuel O now read_dir exists stat folder_id scope_node_id device_name date n)
              visited
            ≡ some (r, v)
          → NoDeletes before v.push.submitted
      continued rest (ok u, w') k q = rest w' k q
      continued rest (err f, w') k q =
          subst (λ x. NoDeletes before x.1.push.submitted) (some-injective (err f, w') (r, v) q) k

      round :
          ((w' v' : Walk) (r' : Result Error Unit)
            → NoDeletes before w'.push.submitted
            → walk fuel O now read_dir exists stat folder_id scope_node_id device_name date n w'
              ≡ some (r', v')
            → NoDeletes before v'.push.submitted)
          → (queue : List (LocalPath × String))
          → pop_dir
              (λ front w'.
                continue_with
                  (walk fuel O now read_dir exists stat folder_id scope_node_id device_name date n)
                  (visit_dir fuel O now read_dir exists stat folder_id scope_node_id device_name
                    date front.0 front.1 w'))
              queue
              w
            ≡ some (r, v)
          → NoDeletes before v.push.submitted
      round rest [] q =
          subst (λ x. NoDeletes before x.1.push.submitted) (some-injective (ok tt, w) (r, v) q) h
      round rest (front ∷ t) q =
          continued (λ w'. rest w' v r)
            (visit_dir fuel O now read_dir exists stat folder_id scope_node_id device_name date
              front.0 front.1 (record w { push = record w.push { queue = t } }))
            (visit_dir-NoDeletes before front.0 front.1 _ h) q

  -- What a run from the state `w` has sent at its end: no deletion, or what the sweep sends from the
  -- state that a complete walk left.
  pub data RunSent (rounds : ℕ) (w : Walk) : List SubmitOpRequest → Type 0 where
    quiet : (s : List SubmitOpRequest) → NoDeletes w.push.submitted s → RunSent rounds w s
    swept :
        (s : List SubmitOpRequest) (root : LocalNode) (v : Walk) (seed : MirrorNode)
        → get_root_node folder_id w.push.db ≡ some root
        → walk fuel O now read_dir exists stat folder_id scope_node_id device_name date rounds (
            started_run fuel O now read_dir exists stat folder_id scope_node_id device_name date
              root w)
          ≡ some (ok tt, v)
        → NoDeletes w.push.submitted v.push.submitted
        → seed_of scope_node_id (live_mirror_nodes folder_id v.push.db) ≡ some seed
        → Sent fuel O.json exists (live_mirror_nodes folder_id v.push.db) seed.node_id v.push s
        → RunSent rounds w s

  no_seed-same :
      (p : Push)
      → seed_of scope_node_id (live_mirror_nodes folder_id p.db) ≡ none
      → (submit_deletes_for_missing fuel O.json O.submit now exists folder_id scope_node_id
          p).1.submitted
        ≡ p.submitted
  unfolding submit_deletes_for_missing
  no_seed-same p h =
      bind-holds (λ q. q.submitted ≡ p.submitted) ensure_not_update_required _ p
        (rw (ensure-same p) refl) (λ a q. rw (ensure-same p) (rw h refl))

  finish-RunSent :
      (rounds : ℕ) (w v : Walk) (r : Result Error Unit) (root : LocalNode) (ended : Ended)
      → get_root_node folder_id w.push.db ≡ some root
      → walk fuel O now read_dir exists stat folder_id scope_node_id device_name date rounds (
          started_run fuel O now read_dir exists stat folder_id scope_node_id device_name date root
            w)
        ≡ ended
      → finish_run fuel O now read_dir exists stat folder_id scope_node_id device_name date ended
        ≡ some (r, v)
      → RunSent rounds w v.push.submitted
  finish-RunSent rounds w v r root none found e q = ground (arith, q)
  finish-RunSent rounds w v r root (some (err f, u)) found e q =
      subst (λ x. RunSent rounds w x.1.push.submitted) (some-injective (err f, u) (r, v) q)
        (quiet _
          (walk-NoDeletes rounds w.push.submitted _ u (err f) (same-NoDeletes w.push.submitted) e))
  finish-RunSent rounds w v r root (some (ok t, u)) found e q =
      let kept =
        walk-NoDeletes rounds w.push.submitted _ u (ok t) (same-NoDeletes w.push.submitted) e in
      subst (λ x. RunSent rounds w x.1.push.submitted) (some-injective _ (r, v) q)
        (elim (Option-cases (seed_of scope_node_id (live_mirror_nodes folder_id u.push.db))) [
          | inl n ↦ quiet _ (subst (NoDeletes w.push.submitted) (sym (no_seed-same u.push n)) kept)
          | inr (seed, n) ↦
              swept _ root u seed found e kept n
                (deletes-Sent fuel O.json O.submit now exists folder_id scope_node_id u.push seed n)
        ])

  -- Whatever the disk and the answers are, every deletion that a whole run sends is sent by the sweep
  -- after a complete walk, from the state that the walk left.
  pub push-Sent :
      (rounds : ℕ) (w v : Walk) (r : Result Error Unit)
      → push_local_inner fuel O now read_dir exists stat folder_id scope_node_id device_name date
          rounds w
        ≡ some (r, v)
      → RunSent rounds w v.push.submitted
  unfolding push_local_inner
  push-Sent rounds w v r e = ensured (ensure_not_update_required w.push).0 (
      subst
        (λ p.
          after_ensure fuel O now read_dir exists stat folder_id scope_node_id device_name date
            rounds ((ensure_not_update_required w.push).0, record w { push = p })
          ≡ some (r, v))
        (ensure-same w.push) e)
    where
      rooted :
          (root : Option LocalNode)
          → get_root_node folder_id w.push.db ≡ root
          → run_from fuel O now read_dir exists stat folder_id scope_node_id device_name date rounds
              root w
            ≡ some (r, v)
          → RunSent rounds w v.push.submitted
      rooted none found q =
          subst (λ x. RunSent rounds w x.1.push.submitted) (some-injective (_, w) (r, v) q)
            (quiet _ (same-NoDeletes w.push.submitted))
      rooted (some root) found q = finish-RunSent rounds w v r root _ found refl q

      ensured :
          (t : Result Error Unit)
          → after_ensure fuel O now read_dir exists stat folder_id scope_node_id device_name date
              rounds
              (t, w)
            ≡ some (r, v)
          → RunSent rounds w v.push.submitted
      ensured (err f) q =
          subst (λ x. RunSent rounds w x.1.push.submitted) (some-injective (err f, w) (r, v) q)
            (quiet _ (same-NoDeletes w.push.submitted))
      ensured (ok u) q = rooted (get_root_node folder_id w.push.db) refl q
