-- ===== src/Update/Restart/SelfUpdate.antt =====
-- The daemon replaces its own binary.
use valv.Base.{
  ◌≡◌, ◌⊎◌, ◌∙◌, refl, sym, ◌==◌, string_eq, String, ℕ, Bool, true, false, none, some, arith, inl,
  inr, Bool-cases,
}
use valv.Base.Exec.{Exec, ◌>>◌, then_assoc}
use valv.Base.Result.{Result, ok, err}
use valv.Errors.{Error, io}
use valv.Update.Swap.{
  FilePath, Binary, Install, same_file, restore_binary, rename_atomic, set_executable, or_undo,
  replace_binary, put_file, tick,
}
use valv.Update.Swap.Cases.{FailsOnce, QuietFrom, rename-moves, rename-fails}
use valv.Update.Swap.Restores.{ReplacedOr, replace_binary-ReplacedOr, other_name, same_self}
use valv.Update.Restart.{remove_extracted_dir, remove_file, after_restart, swap_and_restart}
use valv.Update.Restart.Names.{remove_extracted_dir-ok, remove_extracted_dir-files}

remove_file-files :
    (fails : ℕ → Bool) (p q : FilePath) (s : Install)
    → same_file p q ≡ false
    → (remove_file fails p s).1.files q ≡ s.files q
unfolding remove_file
remove_file-files fails p q s h = elim (Bool-cases (fails s.calls)) [
  | inl f ↦ rw f refl
  | inr f ↦ rw f (rw h refl)
]

remove_file-ok : (fails : ℕ → Bool) (p : FilePath) (s : Install) → (remove_file fails p s).0 ≡ ok tt
unfolding remove_file
remove_file-ok fails p s = ground arith

-- A success with the new program in place, or a failure with the old one.
abbrev pub OldOrNew : (current : FilePath) (old new : Binary) → Result Error Unit × Install → Type 0
OldOrNew current old new r =
    ((r.0 ≡ ok tt) × (r.1.files current ≡ some (record new { executable = true })))
    ⊎ ((e : Error) × (r.0 ≡ err e) × (r.1.files current ≡ some old))

module _ (fails : ℕ → Bool) (dir name old_name : String) (staged : FilePath) (old new : Binary)
    (n : (name == old_name) ≡ false) (n' : (old_name == name) ≡ false)
    (f : (staged.0 == dir) ≡ false) (f' : (dir == staged.0) ≡ false) where
  abbrev current : FilePath
  current = (dir, name)

  abbrev backup : FilePath
  backup = (dir, old_name)

  after_restart-OldOrNew :
      (restart : Result Error Unit) (t : Install)
      → ((e : Error) → restart ≡ err e → QuietFrom fails 0)
      → t.files current ≡ some (record new { executable = true })
      → t.files backup ≡ some old
      → OldOrNew current old new (after_restart fails current backup restart t)
  unfolding restore_binary
  after_restart-OldOrNew (ok u) t quiet c b = inl (
    remove_file-ok fails backup t,
    remove_file-files fails backup current t (other_name dir old_name name n') ∙ c,
  )
  after_restart-OldOrNew (err e) t quiet c b = inr (
    e,
    refl,
    rw (rename-moves fails backup current t old (quiet e refl t.calls (omega arith)) b)
        (rw (same_self current) refl),
  )

  abbrev remove : Exec Install Error Unit
  remove = remove_extracted_dir fails staged.0

  replaced-OldOrNew :
      (restart : Result Error Unit) (s : Install) (r : Result Error Unit × Install)
      → ((e : Error) → restart ≡ err e → QuietFrom fails 0)
      → ReplacedOr fails dir name old_name staged remove old new s r
      → OldOrNew current old new
          (((λ _. r) >> (remove >> after_restart fails current backup restart)) s)
  replaced-OldOrNew restart s r quiet (inl (q, (c, b, other))) =
      rw (q, remove_extracted_dir-ok fails staged.0 r.1)
        (after_restart-OldOrNew restart (remove r.1).1 quiet
          (remove_extracted_dir-files fails staged.0 r.1 current f' ∙ c)
          (remove_extracted_dir-files fails staged.0 r.1 backup f' ∙ b))
  replaced-OldOrNew restart s r quiet (inr (e, q, (t, u, (c, other, later)))) =
      inr (e, rw q refl, rw q (rw u (remove_extracted_dir-files fails staged.0 t current f' ∙ c)))

  -- After the first step the update is a replacement, as one of the two of an installation.
  as_replacement :
      (restart : Result Error Unit) (s : Install)
      → fails s.calls ≡ false
      → s.files current ≡ some old
      → swap_and_restart fails current backup staged restart s
        ≡ ((λ _. replace_binary fails current backup staged remove s)
              >> (remove >> after_restart fails current backup restart))
            s
  unfolding swap_and_restart replace_binary
  as_replacement restart s g i =
      let undo : Exec Install Error Unit = restore_binary fails backup current >> remove in
      rw (rename-moves fails current backup s old g i) (
        sym (
          then_assoc (or_undo (rename_atomic fails staged current) undo)
            (or_undo (set_executable fails current) undo)
            (remove >> after_restart fails current backup restart)
            (put_file backup (some old) (put_file current none (tick s)))))

  -- The new binary was unpacked into another folder, and at most one call of the file system fails, none
  -- if the restart does. Then either the update succeeds, and the new binary is in place and executable,
  -- or it fails, and the old one is in place.
  pub self_update-AllOrNothing :
      (restart : Result Error Unit) (s : Install)
      → FailsOnce fails
      → s.files (dir, name) ≡ some old
      → s.files staged ≡ some new
      → ((e : Error) → restart ≡ err e → QuietFrom fails 0)
      → OldOrNew
          (dir, name)
          old
          new
          (swap_and_restart fails (dir, name) (dir, old_name) staged restart s)
  unfolding swap_and_restart
  self_update-AllOrNothing restart s once i u quiet = elim (Bool-cases (fails s.calls)) [
    | inl g ↦ rw (rename-fails fails current backup s g) (inr (io, refl, i))
    | inr g ↦ rw (as_replacement restart s g i) (
        replaced-OldOrNew restart s (replace_binary fails current backup staged remove s) quiet (
          replace_binary-ReplacedOr fails dir name old_name staged remove old new s once n n' f f' i
            u))
  ]
