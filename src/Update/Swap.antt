-- ===== src/Update/Swap.antt =====
-- How new binaries take the place of the installed ones: crates/valv-cli/src/update.rs and
-- crates/valvd/src/self_update.rs.
pub mod Cases
pub mod Restores
use valv.Base.{
  String, ◌<>◌, ◌==◌, string_eq, ℕ, suc, Bool, true, false, ◌&&◌, Option, none, some, if◌then◌else◌,
}
use valv.Base.Exec.{Exec, pure, raise, ◌>>=◌, ◌>>◌}
use valv.Base.Result.{Result, ok, err}
use valv.Base.Text.{split_file_name}
use valv.Errors.{Error, io}
use valv.Storage.Chunking.{Bytes}

-- A folder and a file name.
abbrev pub FilePath : Type 0
FilePath = String × String

pub record Binary : Type 0 where
  pub content : Bytes
  pub executable : Bool

-- `calls` counts the calls of the file system, so that a schedule can say which of them fail.
pub record Install : Type 0 where
  pub files : FilePath → Option Binary
  pub calls : ℕ

pub record SwapBackup : Type 0 where
  pub valv_current : Option FilePath
  pub valv_backup : Option FilePath
  pub valvd_current : Option FilePath
  pub valvd_backup : Option FilePath

abbrev pub same_file : FilePath → FilePath → Bool
same_file p q = p.0 == q.0 && p.1 == q.1

abbrev pub put_file : FilePath → Option Binary → Install → Install
put_file p b s = record s { files = λ q. if same_file p q then b else s.files q }

abbrev pub tick : Install → Install
tick s = record s { calls = suc s.calls }

abbrev pub move_file : (from to : FilePath) → Option Binary → Exec Install Error Unit
move_file from to none = raise io
move_file from to (some b) = λ s. (ok tt, put_file to (some b) (put_file from none s))

abbrev pub allow_run : FilePath → Option Binary → Exec Install Error Unit
allow_run p none = raise io
allow_run p (some b) = λ s. (ok tt, put_file p (some (record b { executable = true })) s)

-- The action, and after an error of it another one, whose own error is dropped.
abbrev pub undo_after :
    Exec Install Error Unit → Result Error Unit → Install → Result Error Unit × Install
undo_after undo (ok u) s = (ok u, s)
undo_after undo (err e) s = (err e, (undo s).1)

abbrev pub or_undo : Exec Install Error Unit → Exec Install Error Unit → Exec Install Error Unit
or_undo m undo s = let (r, s') = m s in undo_after undo r s'

-- `fails` says which calls of the file system fail.
module _ (fails : ℕ → Bool) where
  unfoldable pub rename_atomic : (from to : FilePath) → Exec Install Error Unit
  rename_atomic from to s =
      if fails s.calls then (err io, tick s) else move_file from to (s.files from) (tick s)

  unfoldable pub set_executable : FilePath → Exec Install Error Unit
  set_executable p s = if fails s.calls then (err io, tick s) else allow_run p (s.files p) (tick s)

  abbrev pub ignore : Exec Install Error Unit → Exec Install Error Unit
  ignore m s = (ok tt, (m s).1)

  unfoldable pub restore_binary : (backup current : FilePath) → Exec Install Error Unit
  unfolding rename_atomic
  restore_binary backup current = ignore (rename_atomic backup current)

  abbrev pub rollback_optional : Option FilePath → Option FilePath → Exec Install Error Unit
  rollback_optional (some backup) (some current) = restore_binary backup current
  rollback_optional (some backup) none = pure tt
  rollback_optional none current = pure tt

  -- The three steps for one binary, with what is undone after an error of each.
  unfoldable pub replace_binary :
      (current backup staged : FilePath)
      → (undo : Exec Install Error Unit) → Exec Install Error Unit
  unfolding rename_atomic set_executable restore_binary
  replace_binary current backup staged undo = do
    or_undo (rename_atomic current backup) undo
    or_undo (rename_atomic staged current) (restore_binary backup current >> undo)
    or_undo (set_executable current) (restore_binary backup current >> undo)

  abbrev pub swap_valv :
      (install_dir : String)
      → Option FilePath
      → Exec Install Error (Option FilePath × Option FilePath)
  swap_valv install_dir none = pure (none, none)
  swap_valv install_dir (some staged_valv) = do
    let valv_current : FilePath = (install_dir, "valv")
    let valv_backup : FilePath = (install_dir, "valv.old")
    replace_binary valv_current valv_backup staged_valv (pure tt)
    pure (some valv_current, some valv_backup)

  abbrev pub swap_valvd :
      (install_dir : String)
      → Option FilePath
      → Option FilePath × Option FilePath
      → Exec Install Error SwapBackup
  swap_valvd install_dir none (valv_current, valv_backup) = pure (record {
    valv_current = valv_current;
    valv_backup = valv_backup;
    valvd_current = none;
    valvd_backup = none;
  })
  swap_valvd install_dir (some staged_valvd) (valv_current, valv_backup) = do
    let valvd_current : FilePath = (install_dir, "valvd")
    let valvd_backup : FilePath = (install_dir, "valvd.old")
    replace_binary valvd_current valvd_backup staged_valvd
        (rollback_optional valv_backup valv_current)
    pure (record {
      valv_current = valv_current;
      valv_backup = valv_backup;
      valvd_current = some valvd_current;
      valvd_backup = some valvd_backup;
    })

  -- `UnixBinarySwap`.
  unfoldable pub swap :
      (install_dir : String) (staged_valv staged_valvd : Option FilePath)
      → Exec Install Error SwapBackup
  unfolding replace_binary restore_binary
  swap install_dir staged_valv staged_valvd =
      swap_valv install_dir staged_valv >>= swap_valvd install_dir staged_valvd

  abbrev pub roll_back_one : Option FilePath → Option FilePath → Exec Install Error Unit
  roll_back_one (some current) (some backup) = rename_atomic backup current
  roll_back_one (some current) none = pure tt
  roll_back_one none backup = pure tt

  unfoldable pub rollback : SwapBackup → Exec Install Error Unit
  unfolding rename_atomic
  rollback backup = do
    roll_back_one backup.valv_current backup.valv_backup
    roll_back_one backup.valvd_current backup.valvd_backup
