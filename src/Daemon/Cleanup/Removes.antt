-- ===== src/Daemon/Cleanup/Removes.antt =====
-- What a cleanup takes from the disk.
use valv.Base.{
  ◌≡◌, refl, sym, ◌∙◌, String, ◌==◌, string_eq, ℕ, zero, suc, leb, length, Bool, true, false, List,
  [], ◌∷◌, ◌++◌, reverse, Option, none, some, All, arith, inl, inr, ◌⊎◌, Bool-cases,
}
use mathlib.Core.Path.{subst}
use mathlib.Core.List.{reverse_aux}
use valv.Base.Exec.{bind-holds}
use valv.Base.Result.{Result, ok, err, ok-injective}
use valv.Base.Members.{In, All-In, All-append}
use valv.Errors.{Error}
use valv.Persistence.Db.{LocalNode}
use valv.Persistence.Nodes.{is_null}
use valv.Engine.LocalPush.State.{LocalPath}
use valv.Daemon.Disk.{
  Entry, regular, directory, Disk, is_within, same_path, entry_at, clear, metadata, remove_file,
  remove_dir_all, unlink, unlink_all,
}
use valv.Daemon.Disk.Laws.{entry_at-clear, same_path-≡}
use valv.Daemon.Versions.{Site}
use valv.Daemon.Pulled.{load_nodes_by_id}
use valv.Daemon.Cleanup.{
  tree_children, root_of, child_path, queue_children, deleted_children, collect_deleted,
  insert_by_depth, sort_by_depth, is_not_found, ignore_missing, remove_path, remove_paths,
  remove_collected, remove_below, cleanup_deleted_mount_paths,
}

-- Where the mirror's tree has a node, deleted or not: the root of the folder at the root of the mount,
-- and a child below its parent, under its name.
pub data Place (nodes : List LocalNode) : LocalPath → String → Type 0 where
  top : (root : LocalNode) → root_of nodes ≡ some root → Place nodes [] root.node_id
  below :
      (path : LocalPath) (parent_id : String) (node : LocalNode)
      → Place nodes path parent_id
      → In node (tree_children nodes parent_id)
      → Place nodes (child_path path node) node.node_id

-- The place of a node that is deleted.
pub data DeletedPlace (nodes : List LocalNode) : LocalPath → Type 0 where
  deleted_place :
      (path : LocalPath) (parent_id : String) (node : LocalNode)
      → Place nodes path parent_id
      → In node (tree_children nodes parent_id)
      → is_null node.deleted_at ≡ false
      → DeletedPlace nodes (child_path path node)

-- What is gone was at or below the place of a deleted node, and nothing else has changed.
abbrev pub OnlyDeleted : List LocalNode → Disk → Disk → Type 0
OnlyDeleted nodes d d' =
    (q : LocalPath)
    → (entry_at q d' ≡ entry_at q d)
      ⊎ ((entry_at q d' ≡ none) × ((p : LocalPath) × DeletedPlace nodes p × (is_within p q ≡ true)))

OnlyDeleted-trans :
    (nodes : List LocalNode) (a b c : Disk)
    → OnlyDeleted nodes a b
    → OnlyDeleted nodes b c
    → OnlyDeleted nodes a c
OnlyDeleted-trans nodes a b c f g q = joined (f q) (g q)
  where
    joined :
        (entry_at q b ≡ entry_at q a)
          ⊎ ((entry_at q b ≡ none)
              × ((p : LocalPath) × DeletedPlace nodes p × (is_within p q ≡ true)))
        → (entry_at q c ≡ entry_at q b)
          ⊎ ((entry_at q c ≡ none)
              × ((p : LocalPath) × DeletedPlace nodes p × (is_within p q ≡ true)))
        → (entry_at q c ≡ entry_at q a)
          ⊎ ((entry_at q c ≡ none)
              × ((p : LocalPath) × DeletedPlace nodes p × (is_within p q ≡ true)))
    joined (inl s) (inl t) = inl (t ∙ s)
    joined (inr s) (inl t) = inr (t ∙ s.0, s.1)
    joined x (inr t) = inr t

module _ (nodes : List LocalNode) where
  cleared-OnlyDeleted :
      (p : LocalPath) (test : LocalPath → Bool) (d : Disk)
      → DeletedPlace nodes p
      → ((q : LocalPath) → test q ≡ true → is_within p q ≡ true)
      → OnlyDeleted nodes d (clear test d)
  cleared-OnlyDeleted p test d place inside q =
      let now = entry_at-clear test q d in
      elim (Bool-cases (test q)) [
        | inl t ↦ inr (rw t at now, (p, place, inside q t))
        | inr t ↦ inl (rw t at now)
      ]

  unlink-OnlyDeleted :
      (p : LocalPath) (found : Result Error Entry) (d : Disk)
      → DeletedPlace nodes p
      → OnlyDeleted nodes d (unlink p found d).1
  unlink-OnlyDeleted p (err e) d place = λ q. inl refl
  unlink-OnlyDeleted p (ok directory) d place = λ q. inl refl
  unlink-OnlyDeleted p (ok (regular b)) d place =
      cleared-OnlyDeleted p (same_path p) d place
        (λ q s. subst (λ r. is_within p r ≡ true) (same_path-≡ p q s) (within_self p))
    where
      within_self : (r : LocalPath) → is_within r r ≡ true
      within_self [] = refl
      within_self (a ∷ r) = ground (arith, within_self r)

  unlink_all-OnlyDeleted :
      (p : LocalPath) (found : Result Error Entry) (d : Disk)
      → DeletedPlace nodes p
      → OnlyDeleted nodes d (unlink_all p found d).1
  unlink_all-OnlyDeleted p (err e) d place = λ q. inl refl
  unlink_all-OnlyDeleted p (ok (regular b)) d place = λ q. inl refl
  unlink_all-OnlyDeleted p (ok directory) d place =
      cleared-OnlyDeleted p (is_within p) d place (λ q s. s)

  ignore_missing-state : (r : Result Error Unit × Disk) → (ignore_missing r).1 ≡ r.1
  ignore_missing-state (ok u, d) = refl
  ignore_missing-state (err e, d) = elim (Bool-cases (is_not_found e)) [
    | inl q ↦ rw q refl
    | inr q ↦ rw q refl
  ]

  remove_path-OnlyDeleted :
      (p : LocalPath) (node_type : String) (d : Disk)
      → DeletedPlace nodes p
      → OnlyDeleted nodes d (remove_path p node_type d).1
  unfolding remove_file remove_dir_all
  remove_path-OnlyDeleted p node_type d place = elim (Bool-cases (node_type == "folder")) [
    | inl t ↦ rw t (
        subst (OnlyDeleted nodes d) (sym (ignore_missing-state (remove_dir_all p d)))
          (unlink_all-OnlyDeleted p (metadata p d) d place))
    | inr t ↦ rw t (
        subst (OnlyDeleted nodes d) (sym (ignore_missing-state (remove_file p d)))
          (unlink-OnlyDeleted p (metadata p d) d place))
  ]

  -- Every path of a list is the place of a deleted node.
  abbrev AllDeleted : List (LocalPath × String) → Type 0
  AllDeleted = All (λ x. DeletedPlace nodes x.0)

  remove_paths-OnlyDeleted :
      (l : List (LocalPath × String)) (d : Disk)
      → AllDeleted l
      → OnlyDeleted nodes d (remove_paths l d).1
  unfolding remove_paths
  remove_paths-OnlyDeleted [] d h = λ q. inl refl
  remove_paths-OnlyDeleted ((p, t) ∷ l) d h =
      let first = remove_path-OnlyDeleted p t d h.0 in
      bind-holds (OnlyDeleted nodes d) (remove_path p t) (λ u. remove_paths l) d first
        (λ a q.
          OnlyDeleted-trans nodes d (remove_path p t d).1 _ first
            (remove_paths-OnlyDeleted l (remove_path p t d).1 h.1))

  insert-AllDeleted :
      (x : LocalPath × String) (l : List (LocalPath × String))
      → DeletedPlace nodes x.0
      → AllDeleted l
      → AllDeleted (insert_by_depth x l)
  unfolding insert_by_depth
  insert-AllDeleted x [] p h = (p, tt)
  insert-AllDeleted x (y ∷ t) p h = elim (Bool-cases (leb (length x.0) (length y.0))) [
    | inl q ↦ rw q (p, h)
    | inr q ↦ rw q (h.0, insert-AllDeleted x t p h.1)
  ]

  sort-AllDeleted : (l : List (LocalPath × String)) → AllDeleted l → AllDeleted (sort_by_depth l)
  unfolding sort_by_depth
  sort-AllDeleted [] h = tt
  sort-AllDeleted (x ∷ t) h = insert-AllDeleted x (sort_by_depth t) h.0 (sort-AllDeleted t h.1)

  reverse_aux-AllDeleted :
      (l acc : List (LocalPath × String))
      → AllDeleted l
      → AllDeleted acc
      → AllDeleted (reverse_aux l acc)
  reverse_aux-AllDeleted [] acc h k = k
  reverse_aux-AllDeleted (x ∷ t) acc h k = reverse_aux-AllDeleted t (x ∷ acc) h.1 (h.0, k)

  deleted_children-AllDeleted :
      (path : LocalPath) (parent_id : String) (l : List LocalNode)
      → Place nodes path parent_id
      → All (λ n. In n (tree_children nodes parent_id)) l
      → AllDeleted (deleted_children path l)
  unfolding deleted_children
  deleted_children-AllDeleted path parent_id [] place h = tt
  deleted_children-AllDeleted path parent_id (n ∷ t) place h =
      let rest = deleted_children-AllDeleted path parent_id t place h.1 in
      elim (Bool-cases (is_null n.deleted_at)) [
        | inl q ↦ rw q rest
        | inr q ↦ rw q (deleted_place path parent_id n place h.0 q, rest)
      ]

  queue_children-Places :
      (path : LocalPath) (parent_id : String) (l : List LocalNode)
      → Place nodes path parent_id
      → All (λ n. In n (tree_children nodes parent_id)) l
      → All (λ x. Place nodes x.1 x.0) (queue_children path l)
  unfolding queue_children
  queue_children-Places path parent_id [] place h = tt
  queue_children-Places path parent_id (n ∷ t) place h =
      (below path parent_id n place h.0, queue_children-Places path parent_id t place h.1)

  collect-AllDeleted :
      (fuel : ℕ) (queue : List (String × LocalPath)) (acc found : List (LocalPath × String))
      → All (λ x. Place nodes x.1 x.0) queue
      → AllDeleted acc
      → collect_deleted fuel nodes queue acc ≡ ok found
      → AllDeleted found
  unfolding collect_deleted
  collect-AllDeleted zero queue acc found p h e = ground (arith, e)
  collect-AllDeleted (suc fuel) [] acc found p h e = subst AllDeleted (ok-injective acc found e) h
  collect-AllDeleted (suc fuel) ((id, path) ∷ queue) acc found p h e =
      let children = tree_children nodes id in
      collect-AllDeleted fuel (queue ++ queue_children path children)
        (acc ++ deleted_children path children) found
        (All-append _ queue (queue_children path children) p.1
          (queue_children-Places path id children p.0 (All-In children)))
        (All-append _ acc (deleted_children path children) h
          (deleted_children-AllDeleted path id children p.0 (All-In children)))
        e

  removed-OnlyDeleted :
      (found : Result Error (List (LocalPath × String))) (d : Disk)
      → ((l : List (LocalPath × String)) → found ≡ ok l → AllDeleted l)
      → OnlyDeleted nodes d (remove_collected found d).1
  removed-OnlyDeleted (err e) d h = λ q. inl refl
  removed-OnlyDeleted (ok l) d h =
      remove_paths-OnlyDeleted (reverse (sort_by_depth l)) d
        (reverse_aux-AllDeleted (sort_by_depth l) [] (sort-AllDeleted l (h l refl)) tt)

  below-OnlyDeleted :
      (fuel : ℕ) (root : Option LocalNode) (d : Disk)
      → root_of nodes ≡ root
      → OnlyDeleted nodes d (remove_below fuel nodes root d).1
  below-OnlyDeleted fuel none d h = λ q. inl refl
  below-OnlyDeleted fuel (some root) d h =
      removed-OnlyDeleted _ d
        (λ l e. collect-AllDeleted fuel ((root.node_id, []) ∷ []) [] l (top root h, tt) tt e)

-- A cleanup writes nothing, and takes nothing from the disk but what is at or below a path where the
-- mirror's tree has a deleted node.
pub cleanup-OnlyDeleted :
    (fuel : ℕ) (folder_id : String) (s : Site)
    → OnlyDeleted
        (load_nodes_by_id folder_id s.db)
        s.disk
        (cleanup_deleted_mount_paths fuel folder_id s).1.disk
unfolding cleanup_deleted_mount_paths
cleanup-OnlyDeleted fuel folder_id s =
    let nodes = load_nodes_by_id folder_id s.db in
    below-OnlyDeleted nodes fuel (root_of nodes) s.disk refl
