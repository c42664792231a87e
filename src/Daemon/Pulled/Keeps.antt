-- ===== src/Daemon/Pulled/Keeps.antt =====
-- A conflict copy that is pulled takes the place of no file.
use valv.Base.{
  ◌≡◌, refl, sym, ◌∙◌, String, true, false, [], ◌∷◌, ◌++◌, ℕ, Option, none, some, arith, Bool-cases,
  inl, inr, ◌⊎◌,
}
use mathlib.Core.Path.{subst}
use valv.Base.Exec.{◌>>=◌, ◌>>◌, bind-holds}
use valv.Base.Result.{ok, Result-cases, ok-injective}
use valv.Base.Text.{before_code}
use valv.Storage.Chunking.{Bytes}
use valv.Engine.ConflictCopy.{conflict_name, disambiguate_conflict_path}
use valv.Engine.ConflictCopy.Disambiguate.{disambiguate-free}
use valv.Engine.DeltaPull.{PulledNode}
use valv.Engine.LocalPush.State.{LocalPath}
use valv.Daemon.Disk.{
  regular, directory, Disk, entry_at, exists, same_path, is_within, write_file, split_path,
}
use valv.Daemon.Disk.Laws.{same_path-≡}
use valv.Daemon.Disk.Frame.{Grows, create_dir_all-Grows, write_file-other}
use valv.Daemon.Versions.{
  Site, Backend, on_disk, download_and_store_version, download_verified_version,
}
use valv.Daemon.Pulled.{
  listing, conflict_path_in, conflict_copy_path, create_parent, write_conflict_copy,
}

-- A file with its content, at a path of the disk.
abbrev pub HasFile : LocalPath → Bytes → Disk → Type 0
HasFile q bytes d = entry_at q d ≡ some (regular bytes)

listing-free :
    (dir : LocalPath) (name : String) (d : Disk)
    → listing dir d name ≡ none
    → exists (dir ++ (name ∷ [])) d ≡ false
listing-free dir name d h = elim (Bool-cases (exists (dir ++ (name ∷ [])) d)) [
  | inl q ↦ ground (arith, rw q at h)
  | inr q ↦ q
]

path_in-free :
    (device_name date : String) (d : Disk) (parts : Option (LocalPath × String)) (path : LocalPath)
    → conflict_path_in device_name date d parts ≡ ok path
    → exists path d ≡ false
path_in-free device_name date d none path h = ground (arith, h)
path_in-free device_name date d (some (dir, file_name)) path h =
    let wanted = conflict_name file_name device_name date in
    elim (Result-cases (disambiguate_conflict_path (listing dir d) wanted)) [
      | inl (e, q) ↦ ground (arith, rw q at h)
      | inr (name, q) ↦
          subst (λ p. exists p d ≡ false) (ok-injective (dir ++ (name ∷ [])) path (rw q at h))
            (listing-free dir name d (disambiguate-free (listing dir d) wanted name q))
    ]

-- The path that is chosen is free.
conflict_copy_path-free :
    (original : LocalPath) (device_name date : String) (d : Disk) (path : LocalPath)
    → conflict_copy_path original device_name date d ≡ ok path
    → exists path d ≡ false
unfolding conflict_copy_path
conflict_copy_path-free original device_name date d path h =
    path_in-free device_name date d (split_path original) path h

Grows-HasFile :
    (dir q : LocalPath) (bytes : Bytes) (d d' : Disk)
    → Grows dir d d'
    → HasFile q bytes d
    → HasFile q bytes d'
Grows-HasFile dir q bytes d d' grows h = kept (grows q)
  where
    kept :
        (entry_at q d' ≡ entry_at q d)
          ⊎ ((is_within q dir ≡ true) × (entry_at q d ≡ none) × (entry_at q d' ≡ some directory))
        → entry_at q d' ≡ some (regular bytes)
    kept (inl s) = s ∙ h
    kept (inr s) = ground (arith, sym s.1 ∙ h)

pub create_parent-HasFile :
    (parts : Option (LocalPath × String)) (q : LocalPath) (bytes : Bytes) (d : Disk)
    → HasFile q bytes d
    → HasFile q bytes (create_parent parts d).1
create_parent-HasFile none q bytes d h = h
create_parent-HasFile (some (dir, name)) q bytes d h =
    Grows-HasFile dir q bytes d _ (create_dir_all-Grows dir d) h

differs :
    (path q : LocalPath) (d : Disk)
    → exists q d ≡ true
    → exists path d ≡ false
    → same_path path q ≡ false
differs path q d present free = elim (Bool-cases (same_path path q)) [
  | inr n ↦ n
  | inl same ↦
      let gone = subst (λ p. exists p d ≡ false) (same_path-≡ path q same) free in
      ground (arith, present, gone)
]

module _ (fuel : ℕ) (B : Backend) (folder_id : String) (scope_node_id : Option String)
    (device_id : String) where
  downloaded-disk :
      (node_id version_id : String) (s : Site)
      → (download_and_store_version B folder_id node_id version_id s).1.disk ≡ s.disk
  unfolding download_and_store_version
  downloaded-disk node_id version_id s =
      elim (Result-cases (download_verified_version B folder_id node_id version_id)) [
        | inl (e, q) ↦ rw q refl
        | inr (found, q) ↦ rw q refl
      ]

  -- Every file that is on disk is there with its content after a pulled conflict copy is written, or
  -- fails to be, where the folders above the files are on disk.
  pub conflict_copy-HasFile :
      (pulled : PulledNode) (version_id : String) (canonical q : LocalPath) (bytes : Bytes)
      (s : Site)
      → exists q s.disk ≡ true
      → HasFile q bytes s.disk
      → HasFile q bytes
          (write_conflict_copy fuel B folder_id scope_node_id device_id pulled version_id canonical
            s).1.disk
  unfolding write_conflict_copy
  conflict_copy-HasFile pulled version_id canonical q bytes s present h =
      let date = before_code 84 pulled.applied_at in
      elim (Result-cases (conflict_copy_path canonical pulled.actor_device_id date s.disk)) [
        | inl (e, c) ↦ rw c h
        | inr (path, c) ↦ rw c (
            written path (
              differs path q s.disk present
                (conflict_copy_path-free canonical pulled.actor_device_id date s.disk path c)))
      ]
    where
      written :
          (path : LocalPath)
          → same_path path q ≡ false
          → HasFile q bytes
              ((on_disk (create_parent (split_path path))
                  >> (download_and_store_version B folder_id pulled.node_id version_id
                      >>= λ content. on_disk (write_file (B.write_fault path) path content)))
                s).1.disk
      written path other =
          let kept = create_parent-HasFile (split_path path) q bytes s.disk h in
          bind-holds (λ x. HasFile q bytes x.disk) (on_disk (create_parent (split_path path))) _ s
            kept
            (λ u e.
              let made = (on_disk (create_parent (split_path path)) s).1 in
              let down = downloaded-disk pulled.node_id version_id made in
              let kept' = subst (HasFile q bytes) (sym down) kept in
              bind-holds (λ x. HasFile q bytes x.disk)
                (download_and_store_version B folder_id pulled.node_id version_id) _ made kept'
                (λ content e'.
                  write_file-other (B.write_fault path) path q content _ other ∙ kept'))
