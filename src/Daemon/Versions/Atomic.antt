-- ===== src/Daemon/Versions/Atomic.antt =====
-- What `write_atomic` leaves on disk.
use valv.Base.{◌≡◌, sym, ap, ◌∙◌, String, true, false, Option, none, some, arith, inl, inr, ◌⊎◌}
use mathlib.Core.Path.{subst}
use valv.Base.Result.{Result, ok, err, Result-cases}
use valv.Errors.{Error}
use valv.Storage.Chunking.{Bytes}
use valv.Engine.LocalPush.State.{LocalPath}
use valv.Daemon.Disk.{
  regular, directory, Disk, same_path, is_within, entry_at, create_dir_all, write_file, split_path,
}
use valv.Daemon.Disk.Frame.{
  Grows, create_dir_all-Grows, write_file-other, write_file-stored, Renamed, rename-Renamed,
  remove_file-other, split_path-append, is_within-parent,
}
use valv.Daemon.Versions.{temp_path, write_and_rename, remove_after, write_atomic}

abbrev pub Target : LocalPath → Bytes → Disk → Result Error Unit × Disk → Type 0
Target path bytes d (ok u, d') = entry_at path d' ≡ some (regular bytes)
Target path bytes d (err e, d') = entry_at path d' ≡ entry_at path d

pub written-Target :
    (path : LocalPath) (bytes : Bytes) (d : Disk) (r : Result Error Unit × Disk)
    → r.0 ≡ ok tt
    → Target path bytes d r
    → entry_at path r.1 ≡ some (regular bytes)
written-Target path bytes d (ok u, d') h t = t
written-Target path bytes d (err e, d') h t = ground (arith, h)

-- The path has the new content after a success, and what it had before after a failure. Every other
-- path but the temporary one is as before, except for new folders at or above `dir`.
abbrev pub AllOrNothing :
    (temp path dir : LocalPath) → Bytes → Disk → Result Error Unit × Disk → Type 0
AllOrNothing temp path dir bytes d r =
    Target path bytes d r
    × ((q : LocalPath)
        → same_path temp q ≡ false
        → same_path path q ≡ false
        → (entry_at q r.1 ≡ entry_at q d)
          ⊎ ((is_within q dir ≡ true) × (entry_at q d ≡ none) × (entry_at q r.1 ≡ some directory)))

-- The same of the closure, and of the removal after it, where no folder is made.
abbrev Replaced : (temp path : LocalPath) → Bytes → Disk → Result Error Unit × Disk → Type 0
Replaced temp path bytes d r =
    Target path bytes d r
    × ((q : LocalPath)
        → same_path temp q ≡ false
        → same_path path q ≡ false
        → entry_at q r.1 ≡ entry_at q d)

Renamed-Replaced :
    (temp path : LocalPath) (bytes : Bytes) (d d' : Disk) (r : Result Error Unit × Disk)
    → same_path temp path ≡ false
    → ((q : LocalPath) → same_path temp q ≡ false → entry_at q d' ≡ entry_at q d)
    → Renamed temp path (regular bytes) d' r
    → Replaced temp path bytes d r
Renamed-Replaced temp path bytes d d' (ok u, e) n same h = (h.0, λ q t p. h.1 q t p ∙ same q t)
Renamed-Replaced temp path bytes d d' (err f, e) n same h =
    (ap (entry_at path) h ∙ same path n, λ q t p. ap (entry_at q) h ∙ same q t)

module _ (fault : LocalPath → Option Bytes) (temp_suffix : String) where
  write_and_rename-Replaced :
      (temp path : LocalPath) (bytes : Bytes) (d : Disk)
      → same_path temp path ≡ false
      → Replaced temp path bytes d (write_and_rename fault temp_suffix temp path bytes d)
  write_and_rename-Replaced temp path bytes d n =
      let same = λ (q : LocalPath) (t : same_path temp q ≡ false).
        write_file-other (fault temp) temp q bytes d t in
      elim (Result-cases (write_file (fault temp) temp bytes d).0) [
        | inl (e, q) ↦ rw q (same path n, λ k t p. same k t)
        | inr (u, q) ↦ rw q (
            Renamed-Replaced temp path bytes d (write_file (fault temp) temp bytes d).1 _ n same (
              rename-Renamed temp path bytes (write_file (fault temp) temp bytes d).1 n
                (write_file-stored (fault temp) temp bytes d q)))
      ]

  remove_after-Replaced :
      (temp path : LocalPath) (bytes : Bytes) (d : Disk) (r : Result Error Unit × Disk)
      → same_path temp path ≡ false
      → Replaced temp path bytes d r
      → Replaced temp path bytes d (remove_after fault temp_suffix temp r.0 r.1)
  remove_after-Replaced temp path bytes d (ok u, d') n h = h
  remove_after-Replaced temp path bytes d (err e, d') n h =
      (remove_file-other temp path d' n ∙ h.0, λ q t p. remove_file-other temp q d' t ∙ h.1 q t p)

  after_dirs :
      (temp path dir : LocalPath) (bytes : Bytes) (d d' : Disk) (r : Result Error Unit × Disk)
      → entry_at path d' ≡ entry_at path d
      → Grows dir d d'
      → Replaced temp path bytes d' r
      → AllOrNothing temp path dir bytes d r
  after_dirs temp path dir bytes d d' r same grows h =
      (target r h.0, λ q t p. other q (h.1 q t p) (grows q))
    where
      target : (x : Result Error Unit × Disk) → Target path bytes d' x → Target path bytes d x
      target (ok u, e) k = k
      target (err f, e) k = k ∙ same

      other :
          (q : LocalPath)
          → entry_at q r.1 ≡ entry_at q d'
          → (entry_at q d' ≡ entry_at q d)
            ⊎ ((is_within q dir ≡ true) × (entry_at q d ≡ none) × (entry_at q d' ≡ some directory))
          → (entry_at q r.1 ≡ entry_at q d)
            ⊎ ((is_within q dir ≡ true) × (entry_at q d ≡ none) × (entry_at q r.1 ≡ some directory))
      other q k (inl s) = inl (k ∙ s)
      other q k (inr s) = inr (s.0, s.1, k ∙ s.2)

  -- A write of a file puts the whole content in its place or leaves what was there, also when the disk
  -- fails in the middle, and changes no other path but the temporary one, except that folders above the
  -- file may be new.
  pub write_atomic-AllOrNothing :
      (path dir : LocalPath) (name : String) (bytes : Bytes) (d : Disk)
      → split_path path ≡ some (dir, name)
      → same_path (temp_path fault temp_suffix dir name) path ≡ false
      → AllOrNothing
          (temp_path fault temp_suffix dir name)
          path
          dir
          bytes
          d
          (write_atomic fault temp_suffix path bytes d)
  unfolding write_atomic
  write_atomic-AllOrNothing path dir name bytes d h n =
      let grows = create_dir_all-Grows dir d in
      let d' = (create_dir_all dir d).1 in
      let temp = temp_path fault temp_suffix dir name in
      let same = kept (grows path) in
      rw h (elim (Result-cases (create_dir_all dir d).0) [
        | inl (e, q) ↦ rw q (same, λ k t p. grows k)
        | inr (u, q) ↦ rw q (
            after_dirs temp path dir bytes d d' _ same grows (
              remove_after-Replaced temp path bytes d' _ n
                (write_and_rename-Replaced temp path bytes d' n)))
      ])
    where
      outside : is_within path dir ≡ false
      outside =
          subst (λ p. is_within p dir ≡ false) (sym (split_path-append path dir name h))
            (is_within-parent dir name)

      kept :
          (entry_at path (create_dir_all dir d).1 ≡ entry_at path d)
            ⊎ ((is_within path dir ≡ true)
                × (entry_at path d ≡ none)
                × (entry_at path (create_dir_all dir d).1 ≡ some directory))
          → entry_at path (create_dir_all dir d).1 ≡ entry_at path d
      kept (inl s) = s
      kept (inr s) = ground (arith, s.0, outside)
