-- ===== src/Update/Restart.antt =====
-- What follows a swap: the restart of the daemon and the roll-back in crates/valv-cli/src/update.rs, and
-- the whole of `swap_and_restart` in crates/valvd/src/self_update.rs.

pub mod Names
pub mod AllOrNothing
pub mod Leaves
pub mod SelfUpdate
use valv.Base.{
  String, ◌==◌, string_eq, ℕ, leb, Bool, true, false, List, [], ◌∷◌, Option, none, some,
  if◌then◌else◌,
}
use valv.Base.Exec.{Exec, pure, raise, lift, ◌>>=◌, ◌>>◌}
use valv.Base.Result.{Result, ok, err}
use valv.Errors.{Error, restart_failed, rolled_back, not_rolled_back}
use valv.Update.Assets.{StagedComponent}
use valv.Update.Swap.{
  FilePath, Install, SwapBackup, tick, put_file, or_undo, ignore, restore_binary, rename_atomic,
  set_executable, swap, rollback,
}

-- The polls: whether the daemon reports the version, and the time after that.
unfoldable pub poll_daemon_version : (deadline : ℕ) → List (Bool × ℕ) → Bool
poll_daemon_version deadline [] = false
poll_daemon_version deadline ((reported, now) ∷ polls) =
    let rest = poll_daemon_version deadline polls in
    if reported then true else if leb deadline now then false else rest

-- What `restart_daemon` gives, and the polls.
abbrev pub confirm : Bool → Result Error Unit
confirm true = ok tt
confirm false = err restart_failed

unfoldable pub restart_and_confirm :
    (restart : Result Error Unit) (deadline : ℕ) → List (Bool × ℕ) → Result Error Unit
unfolding poll_daemon_version
restart_and_confirm (err e) deadline polls = err e
restart_and_confirm (ok u) deadline polls = confirm (poll_daemon_version deadline polls)

-- `staged_path` of a staged component.
abbrev pub staged_path : Option StagedComponent → Option FilePath
staged_path none = none
staged_path (some c) = some (c.extract_dir, c.binary_name)

-- `fs::remove_dir_all` of the folder of a staged file.
abbrev pub empty_folder : String → Install → Install
empty_folder folder s = record s { files = λ q. if q.0 == folder then none else s.files q }

module _ (fails : ℕ → Bool) where
  unfoldable pub remove_extracted_dir : String → Exec Install Error Unit
  remove_extracted_dir folder s =
      if fails s.calls then (ok tt, tick s) else (ok tt, empty_folder folder (tick s))

  abbrev pub remove_extracted : Option FilePath → Exec Install Error Unit
  remove_extracted none = pure tt
  remove_extracted (some (folder, name)) = remove_extracted_dir folder

  abbrev report_rollback : Result Error Unit → Error
  report_rollback (ok u) = rolled_back
  report_rollback (err e) = not_rolled_back

  -- The error that the source returns; the second restart changes no file.
  unfoldable pub handle_failed_restart : SwapBackup → Exec Install Error Unit
  unfolding rollback
  handle_failed_restart backup s =
      let (r, s') = rollback fails backup s in (err (report_rollback r), s')

  abbrev pub confirm_or_roll_back :
      SwapBackup → Option FilePath → Result Error Unit → Exec Install Error Unit
  confirm_or_roll_back backup none confirmed = pure tt
  confirm_or_roll_back backup (some staged) (ok u) = pure tt
  confirm_or_roll_back backup (some staged) (err e) = handle_failed_restart backup

  -- `cmd_update` from the swap on. `confirmed` is what `restart_and_confirm` gives.
  unfoldable pub install_staged :
      (install_dir : String) (cli_staged valvd_staged : Option FilePath)
      → (confirmed : Result Error Unit) → Exec Install Error Unit
  unfolding swap remove_extracted_dir handle_failed_restart
  install_staged install_dir cli_staged valvd_staged confirmed = do
    backup ← swap fails install_dir cli_staged valvd_staged
    remove_extracted cli_staged
    remove_extracted valvd_staged
    confirm_or_roll_back backup valvd_staged confirmed

  -- `fs::remove_file`, whose error is dropped.
  unfoldable pub remove_file : FilePath → Exec Install Error Unit
  remove_file p s = if fails s.calls then (ok tt, tick s) else (ok tt, put_file p none (tick s))

  abbrev pub after_restart :
      (current backup : FilePath) → Result Error Unit → Exec Install Error Unit
  after_restart current backup (ok u) = remove_file backup
  after_restart current backup (err e) = restore_binary fails backup current >> raise e

  -- `restart` is what the trigger gives. The backup is the path with the extension `old`.
  unfoldable pub swap_and_restart :
      (current_exe backup_path staged_path : FilePath) (restart : Result Error Unit)
      → Exec Install Error Unit
  unfolding rename_atomic set_executable restore_binary remove_extracted_dir remove_file
  swap_and_restart current_exe backup_path staged_path restart = do
    rename_atomic fails current_exe backup_path
    or_undo (rename_atomic fails staged_path current_exe)
        (restore_binary fails backup_path current_exe >> remove_extracted_dir staged_path.0)
    or_undo (set_executable fails current_exe)
        (restore_binary fails backup_path current_exe >> remove_extracted_dir staged_path.0)
    remove_extracted_dir staged_path.0
    after_restart current_exe backup_path restart
