-- ===== src/Engine/LocalPush/Walk/Folder.antt =====
-- What the walk sends for a folder, and what it puts on the queue.
use valv.Base.{
  ◌≡◌, refl, ◌∙◌, inl, inr, String, string_eq, nat_eq, ℕ, ℤ, Bool, true, false, List, [], ◌∷◌, ◌++◌,
  ◌&&◌, Option, none, some, arith, Bool-cases,
}
use valv.Base.Exec.{bind-holds}
use valv.Base.Result.{Result, ok}
use valv.Errors.{Error}
use valv.Persistence.Db.{LocalNode}
use valv.Protocol.{NodeType, file, folder}
use valv.Engine.VersionPush.{Outside}
use valv.Engine.LocalPush.State.{LocalPath, Push, ensure_not_update_required}
use valv.Engine.LocalPush.Moves.{process_moved_entry, find_missing_move_candidate}
use valv.Engine.LocalPush.Listing.{
  EntryInfo, Listed, unreadable, listed, is_conflict_copy_name, sort_entries, readable,
  count_unreadable,
}
use valv.Engine.LocalPush.Walk.{
  Walk, is_null_node, if_live, on_run, create_unless, move_or_create, process_dir, process_file,
  dispatch_entry, process_entry, process_entries, read_entries, visit_dir,
}
use valv.Engine.LocalPush.Walk.Requests.{OnRun, Allows, taken-After}
use valv.Engine.LocalPush.Walk.Entry.{On, ensure-OnRun, existing-On, create_entry-On}

-- A predicate that allows what the walk does for one entry, with the kind that the entry has.
abbrev pub AllowsEntry : LocalPath → EntryInfo → OnRun → OnRun → Type 0
AllowsEntry dir_path e before after =
    (kind : NodeType)
    → (kind ≡ folder → e.is_dir ≡ true)
    → Allows kind (dir_path ++ (e.name ∷ [])) before after

count_unreadable-OnRun :
    (holds : OnRun) (entries : List Listed) (p : Push)
    → On holds p
    → On holds (count_unreadable entries p).1
unfolding count_unreadable
count_unreadable-OnRun holds [] p h = h
count_unreadable-OnRun holds (unreadable ∷ t) p h = count_unreadable-OnRun holds t _ h
count_unreadable-OnRun holds (listed e ∷ t) p h = count_unreadable-OnRun holds t p h

module _ (fuel : ℕ) (O : Outside) (now : String) (read_dir : LocalPath → Option (List Listed))
    (exists : LocalPath → Bool) (stat : LocalPath → Option (ℕ × ℤ)) (folder_id : String)
    (scope_node_id : Option String) (device_name date : String) (dir_path : LocalPath)
    (parent_node_id : String) where
  module _ (before after : OnRun) where
    move_or_create-On :
        (name : String) (kind : NodeType) (w : Walk)
        → Allows kind (dir_path ++ (name ∷ [])) before after
        → On before w.push
        → On after
            (move_or_create fuel O now read_dir exists stat folder_id scope_node_id device_name date
              dir_path parent_node_id name kind w).1.push
    unfolding move_or_create process_moved_entry
    move_or_create-On name kind w allows h =
        let abs_path = dir_path ++ (name ∷ []) in
        let both =
          taken-After exists folder_id scope_node_id abs_path parent_node_id name O.json O.submit
            before after kind allows
            (find_missing_move_candidate exists folder_id scope_node_id abs_path parent_node_id name
              kind fuel w.push.db)
            w.push h in
        bind-holds (λ v. On after v.push)
          (on_run (
            process_moved_entry exists folder_id scope_node_id abs_path parent_node_id name kind
              O.json O.submit fuel))
          (λ moved.
            create_unless fuel O now read_dir exists stat folder_id scope_node_id device_name date
              moved dir_path parent_node_id name kind)
          w both.0 (λ moved q. created moved _ both.0 (λ t. both.1 (q ∙ t)))
      where
        created :
            (moved : Bool) (v : Walk)
            → On after v.push
            → (◌≡◌ {A = Result Error Bool} (ok moved) (ok false) → On before v.push)
            → On after
                (create_unless fuel O now read_dir exists stat folder_id scope_node_id device_name
                  date moved dir_path parent_node_id name kind v).1.push
        created true v a b = a
        created false v a b =
            let abs_path = dir_path ++ (name ∷ []) in
            create_entry-On O folder_id parent_node_id name abs_path device_name date
              (stat abs_path) before after kind (record { push = v.push; dir = v.files dir_path })
              allows (b refl)

    process_dir-On :
        (e : EntryInfo) (node : Option LocalNode) (w : Walk)
        → e.is_dir ≡ true
        → AllowsEntry dir_path e before after
        → On before w.push
        → On after
            (process_dir fuel O now read_dir exists stat folder_id scope_node_id device_name date
              dir_path parent_node_id e.name node w).1.push
    process_dir-On e (some node) w d allows h =
        (allows folder (λ t. d)).enter refl _ _ node.node_id h
    process_dir-On e none w d allows h =
        move_or_create-On e.name folder w (allows folder (λ t. d)) h

    process_file-On :
        (e : EntryInfo) (node : Option LocalNode) (w : Walk)
        → Allows file (dir_path ++ (e.name ∷ [])) before after
        → On before w.push
        → On after
            (process_file fuel O now read_dir exists stat folder_id scope_node_id device_name date
              dir_path parent_node_id e.name node w).1.push
    process_file-On e (some node) w allows h = allows.weaken _ _ (
        existing-On O folder_id e.name device_name date (stat (dir_path ++ (e.name ∷ []))) before
          node (record { push = w.push; dir = w.files dir_path }) h)
    process_file-On e none w allows h = move_or_create-On e.name file w allows h

    dispatch_entry-On :
        (e : EntryInfo) (node : Option LocalNode) (w : Walk)
        → AllowsEntry dir_path e before after
        → On before w.push
        → On after
            (dispatch_entry fuel O now read_dir exists stat folder_id scope_node_id device_name date
              dir_path parent_node_id e node w).1.push
    unfolding dispatch_entry
    dispatch_entry-On e node w allows h =
        let skip = (allows file (λ t. ground (arith, t))).weaken _ _ h in
        elim (Bool-cases (e.is_file && is_null_node node && is_conflict_copy_name e.name)) [
          | inl q ↦ rw q skip
          | inr q ↦ rw q (elim (Bool-cases e.is_dir) [
            | inl d ↦ rw d (process_dir-On e (if_live node) w d allows h)
            | inr d ↦ rw d (elim (Bool-cases e.is_file) [
              | inl k ↦
                  rw k (process_file-On e (if_live node) w (allows file (λ t. ground (arith, t))) h)
              | inr k ↦ rw k skip
            ])
          ])
        ]

    process_entry-On :
        (e : EntryInfo) (w : Walk)
        → AllowsEntry dir_path e before after
        → On before w.push
        → On after
            (process_entry fuel O now read_dir exists stat folder_id scope_node_id device_name date
              dir_path parent_node_id e w).1.push
    unfolding process_entry
    process_entry-On e w allows h =
        let weaken = (allows file (λ t. ground (arith, t))).weaken _ _ in
        let h' = ensure-OnRun before w.push h in
        bind-holds (λ v. On after v.push) (on_run ensure_not_update_required) _ w (weaken h')
          (λ a q. elim (Bool-cases e.is_symlink) [
            | inl s ↦ rw s (weaken h')
            | inr s ↦ rw s (dispatch_entry-On e _ _ allows h')
          ])

  -- What holds with the entries that are left, from one entry to the next.
  module _ (holds : List EntryInfo → OnRun)
      (allows : (e : EntryInfo) (t : List EntryInfo)
        → AllowsEntry dir_path e (holds (e ∷ t)) (holds t)) where
    all_weaken :
        (l : List EntryInfo) (q : List (LocalPath × String)) (s : List _)
        → holds l q s
        → holds [] q s
    all_weaken [] q s h = h
    all_weaken (e ∷ t) q s h =
        all_weaken t q s ((allows e t file (λ k. ground (arith, k))).weaken q s h)

    process_entries-On :
        (l : List EntryInfo) (w : Walk)
        → On (holds l) w.push
        → On
            (holds [])
            (process_entries fuel O now read_dir exists stat folder_id scope_node_id device_name
              date dir_path parent_node_id l w).1.push
    unfolding process_entries
    process_entries-On [] w h = h
    process_entries-On (e ∷ t) w h =
        let h' = process_entry-On (holds (e ∷ t)) (holds t) e w (allows e t) h in
        bind-holds (λ v. On (holds []) v.push)
          (process_entry fuel O now read_dir exists stat folder_id scope_node_id device_name date
            dir_path parent_node_id e)
          _ w (all_weaken t _ _ h') (λ a q. process_entries-On t _ h')

    pub visit_dir-On :
        (w : Walk)
        → ((l : List Listed)
            → read_dir dir_path ≡ some l
            → On (holds (sort_entries (readable l))) w.push)
        → (On (holds []) w.push)
        → On
            (holds [])
            (visit_dir fuel O now read_dir exists stat folder_id scope_node_id device_name date
              dir_path parent_node_id w).1.push
    unfolding visit_dir
    visit_dir-On w h h0 =
        bind-holds (λ v. On (holds []) v.push) (on_run ensure_not_update_required) _ w
          (ensure-OnRun (holds []) w.push h0) (λ a q. entries (read_dir dir_path) refl)
      where
        entries :
            (found : Option (List Listed))
            → read_dir dir_path ≡ found
            → On
                (holds [])
                (read_entries fuel O now read_dir exists stat folder_id scope_node_id device_name
                  date dir_path parent_node_id found
                  (on_run ensure_not_update_required w).1).1.push
        entries none q = ensure-OnRun (holds []) w.push h0
        entries (some l) q =
            let start = ensure-OnRun (holds (sort_entries (readable l))) w.push (h l q) in
            let counted = count_unreadable-OnRun (holds (sort_entries (readable l))) l _ start in
            bind-holds (λ v. On (holds []) v.push) (on_run (count_unreadable l)) _ _
              (all_weaken (sort_entries (readable l)) _ _ counted)
              (λ a t. process_entries-On (sort_entries (readable l)) _ counted)
