-- ===== src/Engine/LocalPush/Walk/Ends.antt =====
-- The walk over a finite disk comes to an end.
use valv.Base.{
  ◌≡◌, refl, ap, ◌∙◌, String, ℕ, ℤ, zero, suc, ◌+◌, ◌≤◌, ◌<◌, Bool, true, List, [], ◌∷◌, ◌++◌,
  Option, some, arith, Bool-cases, inl, inr, if◌then◌else◌, is_some,
}
use valv.Base.Result.{Result, ok, err}
use valv.Errors.{Error}
use valv.Persistence.Db.{LocalNode}
use valv.Engine.VersionPush.{Outside}
use valv.Engine.LocalPush.State.{LocalPath}
use valv.Engine.LocalPush.Listing.{
  EntryInfo, Listed, sort_entries, insert_entry, comes_first, readable,
}
use valv.Engine.LocalPush.Walk.{Walk, Ended, visit_dir, walk, continue_with, pop_dir, started_run}
use valv.Engine.LocalPush.Walk.Requests.{OnRun}
use valv.Engine.LocalPush.Walk.Folder.{AllowsEntry, visit_dir-On}

module _ (size : LocalPath → ℕ) where
  -- What an entry adds to the count: a folder itself and the folders below it.
  abbrev entry_weight : LocalPath → EntryInfo → ℕ
  entry_weight dir_path e = if e.is_dir then suc (size (dir_path ++ (e.name ∷ []))) else 0

  unfoldable pub folders_in : LocalPath → List EntryInfo → ℕ
  folders_in dir_path [] = 0
  folders_in dir_path (e ∷ t) = entry_weight dir_path e + folders_in dir_path t

  unfoldable weigh : List (LocalPath × String) → ℕ
  weigh [] = 0
  weigh ((path, node_id) ∷ t) = suc (size path) + weigh t

  folders_in-insert_entry :
      (dir_path : LocalPath) (e : EntryInfo) (l : List EntryInfo)
      → folders_in dir_path (insert_entry e l) ≡ entry_weight dir_path e + folders_in dir_path l
  unfolding folders_in insert_entry
  folders_in-insert_entry dir_path e [] = refl
  folders_in-insert_entry dir_path e (f ∷ t) = elim (Bool-cases (comes_first e f)) [
    | inl q ↦ rw q refl
    | inr q ↦ rw q (rw (folders_in-insert_entry dir_path e t) (omega arith))
  ]

  folders_in-sort_entries :
      (dir_path : LocalPath) (l : List EntryInfo)
      → folders_in dir_path (sort_entries l) ≡ folders_in dir_path l
  unfolding folders_in sort_entries
  folders_in-sort_entries dir_path [] = refl
  folders_in-sort_entries dir_path (e ∷ t) =
      folders_in-insert_entry dir_path e (sort_entries t)
      ∙ ap (λ n. entry_weight dir_path e + n) (folders_in-sort_entries dir_path t)

  weigh-append :
      (q : List (LocalPath × String)) (path : LocalPath) (node_id : String)
      → weigh (q ++ ((path, node_id) ∷ [])) ≡ weigh q + suc (size path)
  unfolding weigh
  weigh-append [] path node_id = omega arith
  weigh-append ((p, i) ∷ t) path node_id = rw (weigh-append t path node_id) (omega arith)

  -- The count, with the entries that are left of the folder at hand.
  abbrev Weighs : LocalPath → ℕ → List EntryInfo → OnRun
  Weighs dir_path bound l q s = weigh q + folders_in dir_path l ≤ bound

  weighs-AllowsEntry :
      (dir_path : LocalPath) (bound : ℕ) (e : EntryInfo) (t : List EntryInfo)
      → AllowsEntry dir_path e (Weighs dir_path bound (e ∷ t)) (Weighs dir_path bound t)
  unfolding folders_in
  weighs-AllowsEntry dir_path bound e t kind is_dir = record {
    weaken = λ q s h. omega arith;
    send = λ q s r n h. h;
    enter = λ k q s node_id h.
        let path = dir_path ++ (e.name ∷ []) in
        let h' = rw (is_dir k) at h in rw (weigh-append q path node_id) (omega arith);
  }

  -- Every folder that can be read has fewer folders below it than `size` says.
  abbrev pub FiniteDisk : (LocalPath → Option (List Listed)) → Type 0
  FiniteDisk read_dir =
      (dir_path : LocalPath) (l : List Listed)
      → read_dir dir_path ≡ some l
      → folders_in dir_path (readable l) ≤ size dir_path

  module _ (fuel : ℕ) (O : Outside) (now : String) (read_dir : LocalPath → Option (List Listed))
      (exists : LocalPath → Bool) (stat : LocalPath → Option (ℕ × ℤ)) (folder_id : String)
      (scope_node_id : Option String) (device_name date : String)
      (finite : FiniteDisk read_dir) where
    visit_dir-weigh :
        (dir_path : LocalPath) (parent_node_id : String) (w : Walk)
        → weigh
            (visit_dir fuel O now read_dir exists stat folder_id scope_node_id device_name date
              dir_path parent_node_id w).1.push.queue
          ≤ weigh w.push.queue + size dir_path
    unfolding folders_in
    visit_dir-weigh dir_path parent_node_id w =
        let bound = weigh w.push.queue + size dir_path in
        let kept =
          visit_dir-On fuel O now read_dir exists stat folder_id scope_node_id device_name date
            dir_path parent_node_id (Weighs dir_path bound) (weighs-AllowsEntry dir_path bound) w
            (λ l q.
              let less = finite dir_path l q in
              rw (folders_in-sort_entries dir_path (readable l)) (omega arith))
            (omega arith) in
        omega arith

    continue-ends :
        (rest : Walk → Ended) (r : Result Error Unit × Walk)
        → is_some (rest r.1) ≡ true
        → is_some (continue_with rest r) ≡ true
    continue-ends rest (ok u, w) h = h
    continue-ends rest (err e, w) h = refl

    walk-ends :
        (rounds : ℕ) (w : Walk)
        → weigh w.push.queue < rounds
        → is_some
            (walk fuel O now read_dir exists stat folder_id scope_node_id device_name date rounds w)
          ≡ true
    unfolding walk weigh
    walk-ends zero w h = absurd (omega arith)
    walk-ends (suc n) w h = round (walk-ends n) w.push.queue h
      where
        round :
            ((v : Walk)
              → weigh v.push.queue < n
              → is_some (
                  walk fuel O now read_dir exists stat folder_id scope_node_id device_name date n v)
                ≡ true)
            → (queue : List (LocalPath × String)) → weigh queue < suc n
            → is_some (
                pop_dir
                  (λ front w'.
                    continue_with
                      (walk fuel O now read_dir exists stat folder_id scope_node_id device_name date
                        n)
                      (visit_dir fuel O now read_dir exists stat folder_id scope_node_id device_name
                        date front.0 front.1 w'))
                  queue
                  w)
              ≡ true
        round ends [] less = refl
        round ends ((path, node_id) ∷ t) less =
            let w' = record w { push = record w.push { queue = t } } in
            let visited = visit_dir-weigh path node_id w' in
            continue-ends _
              (visit_dir fuel O now read_dir exists stat folder_id scope_node_id device_name date
                path node_id w')
              (ends _ (omega arith))

    -- On a disk with finitely many folders, the loop of a run over its queue of folders, which starts
    -- with the root of the mount, ends in at most one round more than there are folders with the root,
    -- or before that with an error, whatever the backend answers. The walks up the mirror's tree within
    -- a round are those of the model, which end.
    pub walk_from_root-ends :
        (rounds : ℕ) (root : LocalNode) (w : Walk)
        → suc (suc (size [])) ≤ rounds
        → is_some (
            walk fuel O now read_dir exists stat folder_id scope_node_id device_name date rounds (
              started_run fuel O now read_dir exists stat folder_id scope_node_id device_name date
                root w))
          ≡ true
    unfolding weigh
    walk_from_root-ends rounds root w h = walk-ends rounds _ (omega arith)
