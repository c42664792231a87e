-- ===== src/Update/Restart/AllOrNothing.antt =====
-- An update of both programs leaves either both new ones or both old ones.
use mathlib.Core.Path.{subst}
use valv.Base.{
  ◌≡◌, ◌⊎◌, ◌∙◌, refl, sym, ◌==◌, string_eq, String, ℕ, Bool, true, false, none, some, arith, inl,
  inr,
}
use valv.Base.Exec.{Exec, pure}
use valv.Base.Result.{Result, ok, err, Result-cases}
use valv.Errors.{Error, rolled_back, not_rolled_back}
use valv.Update.Swap.{
  Binary, Install, SwapBackup, restore_binary, rollback_optional, replace_binary, swap, rollback,
  put_file, tick,
}
use valv.Update.Swap.Restores.{
  ReplacedOr, replace_binary-ReplacedOr, other_name, other_folder, same_self, Elsewhere,
}
use valv.Update.Swap.Cases.{FailsOnce, QuietFrom, rename-moves}
use valv.Update.Restart.Names.{
  remove_extracted_dir-ok, remove_extracted_dir-files, all_differ, other_file,
}
use valv.Update.Restart.{
  remove_extracted_dir, handle_failed_restart, confirm_or_roll_back, install_staged,
}

failed_restart-errs :
    (fails : ℕ → Bool) (b : SwapBackup) (t : Install)
    → (e : Error) × ((handle_failed_restart fails b t).0 ≡ err e)
unfolding handle_failed_restart
failed_restart-errs fails b t = elim (Result-cases (rollback fails b t).0) [
  | inl (x, q) ↦ (not_rolled_back, rw q refl)
  | inr (u, q) ↦ (rolled_back, rw q refl)
]

abbrev pub BothNew : (dir : String) (new_valv new_valvd : Binary) → Install → Type 0
BothNew dir new_valv new_valvd t =
    (t.files (dir, "valv") ≡ some (record new_valv { executable = true }))
    × (t.files (dir, "valvd") ≡ some (record new_valvd { executable = true }))

abbrev pub BothOld : (dir : String) (valv valvd : Binary) → Install → Type 0
BothOld dir valv valvd t =
    (t.files (dir, "valv") ≡ some valv) × (t.files (dir, "valvd") ≡ some valvd)

-- A success with both new programs, or a failure with both old ones.
abbrev pub Sound :
    (dir : String) (valv valvd new_valv new_valvd : Binary) → Result Error Unit × Install → Type 0
Sound dir valv valvd new_valv new_valvd r =
    ((r.0 ≡ ok tt) × BothNew dir new_valv new_valvd r.1)
    ⊎ ((e : Error) × (r.0 ≡ err e) × BothOld dir valv valvd r.1)

module _ (fails : ℕ → Bool) (once : FailsOnce fails) (dir cli_dir valvd_dir : String)
    (valv valvd new_valv new_valvd : Binary) (s : Install) (cd : (cli_dir == dir) ≡ false)
    (dc : (dir == cli_dir) ≡ false) (vd : (valvd_dir == dir) ≡ false)
    (dv : (dir == valvd_dir) ≡ false) (i : s.files (dir, "valv") ≡ some valv)
    (j : s.files (dir, "valvd") ≡ some valvd) (k : s.files (cli_dir, "valv") ≡ some new_valv)
    (l : s.files (valvd_dir, "valvd") ≡ some new_valvd) where
  abbrev Backups : Install → Type 0
  Backups t = (t.files (dir, "valv.old") ≡ some valv) × (t.files (dir, "valvd.old") ≡ some valvd)

  abbrev backup : SwapBackup
  backup = record {
    valv_current = some (dir, "valv");
    valv_backup = some (dir, "valv.old");
    valvd_current = some (dir, "valvd");
    valvd_backup = some (dir, "valvd.old");
  }

  abbrev undo_valv : Exec Install Error Unit
  undo_valv = rollback_optional fails (some (dir, "valv.old")) (some (dir, "valv"))

  abbrev first : Result Error Unit × Install
  first = replace_binary fails (dir, "valv") (dir, "valv.old") (cli_dir, "valv") (pure tt) s

  abbrev second : Result Error Unit × Install
  second =
      replace_binary fails (dir, "valvd") (dir, "valvd.old") (valvd_dir, "valvd") undo_valv first.1

  -- The roll-back of `valv`, after the one of `valvd`.
  undo_valv-BothOld :
      (t : Install)
      → QuietFrom fails t.calls
      → t.files (dir, "valv.old") ≡ some valv
      → t.files (dir, "valvd") ≡ some valvd
      → BothOld dir valv valvd (undo_valv t).1
  unfolding restore_binary
  undo_valv-BothOld t quiet old d =
      rw
        (rename-moves fails (dir, "valv.old") (dir, "valv") t valv (quiet t.calls (omega arith))
          old)
        (
          rw (same_self (dir, "valv")) refl,
          rw
              (
                other_name dir "valv" "valvd" all_differ.4,
                other_name dir "valv.old" "valvd" all_differ.6,
              )
              d,
        )

  rollback-BothOld :
      (t : Install)
      → QuietFrom fails 0
      → Backups t
      → BothOld dir valv valvd (handle_failed_restart fails backup t).1
  unfolding handle_failed_restart rollback
  rollback-BothOld t quiet (a, b) =
      let t1 = put_file (dir, "valv") (some valv) (put_file (dir, "valv.old") none (tick t)) in
      let moved : t1.files (dir, "valvd.old") ≡ some valvd =
        rw
          (
            other_name dir "valv" "valvd.old" all_differ.8,
            other_name dir "valv.old" "valvd.old" all_differ.10,
          )
          b in
      rw
        (
          rename-moves fails (dir, "valv.old") (dir, "valv") t valv (quiet t.calls (omega arith)) a,
          rename-moves fails (dir, "valvd.old") (dir, "valvd") t1 valvd
              (quiet t1.calls (omega arith)) moved,
        )
        (
          rw
              (
                other_name dir "valvd" "valv" all_differ.5,
                other_name dir "valvd.old" "valv" all_differ.7,
                same_self (dir, "valv"),
              )
              refl,
          rw (same_self (dir, "valvd")) refl,
        )

  first-cases :
      ReplacedOr fails dir "valv" "valv.old" (cli_dir, "valv") (pure tt) valv new_valv s first
  first-cases =
      replace_binary-ReplacedOr fails dir "valv" "valv.old" (cli_dir, "valv") (pure tt) valv
        new_valv s once all_differ.0 all_differ.1 cd dc i k

  -- What the replacement of `valv` leaves alone.
  abbrev FirstKept : Install → Type 0
  FirstKept t =
      (t.files (dir, "valvd") ≡ some valvd) × (t.files (valvd_dir, "valvd") ≡ some new_valvd)

  first-Kept : (t : Install) → Elsewhere dir "valv" "valv.old" (cli_dir, "valv") s t → FirstKept t
  first-Kept t e = (
    e (dir, "valvd") (other_name dir "valv" "valvd" all_differ.4)
          (other_name dir "valv.old" "valvd" all_differ.6)
          (other_folder (cli_dir, "valv") (dir, "valvd") cd)
        ∙ j,
    e (valvd_dir, "valvd") (other_folder (dir, "valv") (valvd_dir, "valvd") dv)
          (other_folder (dir, "valv.old") (valvd_dir, "valvd") dv)
          (other_file (cli_dir, "valv") (valvd_dir, "valvd") all_differ.4)
        ∙ l,
  )

  second-cases :
      FirstKept first.1
      → ReplacedOr fails dir "valvd" "valvd.old"
          (valvd_dir, "valvd")
          undo_valv
          valvd
          new_valvd
          first.1
          second
  second-cases (d, n) =
      replace_binary-ReplacedOr fails dir "valvd" "valvd.old" (valvd_dir, "valvd") undo_valv valvd
        new_valvd first.1 once all_differ.2 all_differ.3 vd dv d n

  -- What the replacement of `valvd` leaves alone.
  second-Kept :
      (t u : Install)
      → Elsewhere dir "valvd" "valvd.old" (valvd_dir, "valvd") t u
      → (u.files (dir, "valv") ≡ t.files (dir, "valv"))
        × (u.files (dir, "valv.old") ≡ t.files (dir, "valv.old"))
  second-Kept t u e = (
    e (dir, "valv") (other_name dir "valvd" "valv" all_differ.5)
        (other_name dir "valvd.old" "valv" all_differ.7)
        (other_folder (valvd_dir, "valvd") (dir, "valv") vd),
    e (dir, "valv.old") (other_name dir "valvd" "valv.old" all_differ.9)
        (other_name dir "valvd.old" "valv.old" all_differ.11)
        (other_folder (valvd_dir, "valvd") (dir, "valv.old") vd),
  )

  abbrev swapped : Result Error SwapBackup × Install
  swapped = swap fails dir (some (cli_dir, "valv")) (some (valvd_dir, "valvd")) s

  swap-cases :
      (Path (Result Error SwapBackup × Install) swapped (ok backup, second.1)
        × BothNew dir new_valv new_valvd second.1
        × Backups second.1)
      ⊎ ((e : Error) × (swapped.0 ≡ err e) × BothOld dir valv valvd swapped.1)
  unfolding swap
  swap-cases = elim first-cases [
    | inr (e, q, (t, u, (v, other, quiet))) ↦
        inr (e, rw q refl, rw q (rw u (v, (first-Kept t other).0)))
    | inl (q, (v, old, other)) ↦
        let kept = first-Kept first.1 other in
        elim (second-cases kept) [
          | inr (e, r, (t, u, (d, other', quiet))) ↦
              let more = second-Kept first.1 t other' in
              inr (
                e,
                rw q (rw r refl),
                rw q (rw r (rw u (undo_valv-BothOld t quiet (more.1 ∙ old) d))),
              )
          | inl (r, (d, oldd, other')) ↦
              let more = second-Kept first.1 second.1 other' in
              inl (rw q (rw r refl), ((more.0 ∙ v), d), ((more.1 ∙ old), oldd))
        ]
  ]

  abbrev cleaned : Install → Install
  cleaned t = (remove_extracted_dir fails valvd_dir (remove_extracted_dir fails cli_dir t).1).1

  cleaned-files :
      (t : Install) (name : String) → (cleaned t).files (dir, name) ≡ t.files (dir, name)
  cleaned-files t name =
      remove_extracted_dir-files fails valvd_dir (remove_extracted_dir fails cli_dir t).1
        (dir, name) dv
      ∙ remove_extracted_dir-files fails cli_dir t (dir, name) dc

  abbrev pub installed : Result Error Unit → Result Error Unit × Install
  installed confirmed =
      install_staged fails dir (some (cli_dir, "valv")) (some (valvd_dir, "valvd")) confirmed s

  -- The installation after a swap that succeeds.
  after_swap :
      (confirmed : Result Error Unit)
      → Path (Result Error SwapBackup × Install) swapped (ok backup, second.1)
      → installed confirmed
        ≡ confirm_or_roll_back fails backup (some (valvd_dir, "valvd")) confirmed (cleaned second.1)
  unfolding install_staged
  after_swap confirmed q =
      rw
        (
          q,
          remove_extracted_dir-ok fails cli_dir second.1,
          remove_extracted_dir-ok fails valvd_dir (remove_extracted_dir fails cli_dir second.1).1,
        )
        refl

  confirmed-Sound :
      (confirmed : Result Error Unit) (t : Install)
      → ((e : Error) → confirmed ≡ err e → QuietFrom fails 0)
      → BothNew dir new_valv new_valvd t
      → Backups t
      → Sound dir valv valvd new_valv new_valvd
          (confirm_or_roll_back fails backup (some (valvd_dir, "valvd")) confirmed t)
  confirmed-Sound (ok u) t quiet new old = inl (refl, new)
  confirmed-Sound (err e) t quiet new old =
      let failed = failed_restart-errs fails backup t in
      inr (failed.0, failed.1, rollback-BothOld t (quiet e refl) old)

  -- Both programs are installed, from two folders apart from theirs, and at most one call of the file
  -- system fails, none if the restart of the daemon does. Then either the installation succeeds, and
  -- both new programs are in place and executable, or it fails, and both old ones are in place.
  pub install-AllOrNothing :
      (confirmed : Result Error Unit)
      → ((e : Error) → confirmed ≡ err e → QuietFrom fails 0)
      → Sound dir valv valvd new_valv new_valvd (installed confirmed)
  unfolding install_staged
  install-AllOrNothing confirmed quiet = elim swap-cases [
    | inr (e, q, old) ↦ inr (e, rw q refl, rw q old)
    | inl (q, new, old) ↦
        subst (Sound dir valv valvd new_valv new_valvd) (sym (after_swap confirmed q)) (
          confirmed-Sound confirmed (cleaned second.1) quiet
            (cleaned-files second.1 "valv" ∙ new.0, cleaned-files second.1 "valvd" ∙ new.1)
            (cleaned-files second.1 "valv.old" ∙ old.0, cleaned-files second.1 "valvd.old" ∙ old.1))
  ]
