-- ===== src/Update/Command.antt =====
-- `cmd_update` of crates/valv-cli/src/update.rs: the guard, the plan for each program, the staging and the
-- installation. What it prints is its outcome.
pub mod AppManaged
use valv.Base.{
  String, ◌==◌, string_eq, list_eq, nat_eq, ℕ, Bool, true, false, not, ◌&&◌, List, [], ◌∷◌, Option,
  none, some, is_some, if◌then◌else◌,
}
use valv.Base.Exec.{Exec, pure, raise, lift, gets, ◌>>=◌, ◌>>◌}
use valv.Base.Result.{Result, ok, err, ok_or}
use valv.Errors.{Error, io}
use valv.Http.{Reply}
use valv.Releases.{Component, cli, valvd, resolve_latest_version_from}
use valv.Storage.Chunking.{Bytes}
use valv.Update.Assets.{
  Tools, StagedComponent, UpdatePlan, already_up_to_date, install, plan_update, detect_target,
  stage_component,
}
use valv.Update.Swap.{FilePath, Binary, Install}
use valv.Update.Restart.{install_staged, staged_path}
use valv.Update.Guard.{
  ManagedInstallGuard, not_managed, full_abort, daemon_managed, check_managed_install_guard,
}

-- What the command finds around it. `unpacked` is what tar has put into a folder that it made, and
-- `confirmed` what the restart of the daemon gives for a version.
pub record Machine : Type 0 where
  pub is_macos : Bool
  pub os : String
  pub arch : String
  pub home : Option String
  pub current_exe : Option FilePath
  pub launch_agent : Option String
  pub repo : String
  pub cli_version : String
  pub cli_pin : Option String
  pub valvd_pin : Option String
  pub daemon_version : Option String
  pub binary_version : Option String
  pub releases : Component → (page : ℕ) → Reply (List String)
  pub tools : Tools
  pub unpacked : (folder name : String) → Option Binary
  pub confirmed : (version : String) → Result Error Unit

-- The files, and the tarballs that were handed to tar.
pub record Update : Type 0 where
  pub files : Install
  pub tarballs : List Bytes

pub data UpdateOutcome : Type 0 where
  app_managed : UpdateOutcome
  up_to_date : (version : String) → UpdateOutcome
  updated : (valv valvd : Option StagedComponent) (daemon_app_managed : Bool) → UpdateOutcome

abbrev is_pinned : Option String → Bool
is_pinned none = false
is_pinned (some value) = not (value == "")

abbrev pub installs : UpdatePlan → Bool
installs already_up_to_date = false
installs install = true

abbrev version_or_none : Option String → Option String → String
version_or_none (some version) other = version
version_or_none none (some version) = version
version_or_none none none = "0.0.0"

abbrev with_folder : (extract_dir : String) → (String → Option Binary) → Install → Install
with_folder extract_dir names s = record s {
  files = λ q. if q.0 == extract_dir then names q.1 else s.files q;
}

module _ (fails : ℕ → Bool) (M : Machine) where
  abbrev pub unpack :
      Result Error StagedComponent → Update → Result Error (Option StagedComponent) × Update
  unpack (err e) u = (err e, u)
  unpack (ok c) u = (
    ok (some c),
    record u { files = with_folder c.extract_dir (M.unpacked c.extract_dir) u.files },
  )

  unfoldable pub stage_and_unpack :
      Component
      → (binary_name version target old_version : String)
      → Exec Update Error (Option StagedComponent)
  unfolding stage_component
  stage_and_unpack component binary_name version target old_version u =
      let (staged, tarballs) =
        stage_component M.tools M.repo component binary_name version target old_version
          u.tarballs in
      unpack staged (record u { tarballs = tarballs })

  -- The plan for the daemon, and its version now and then.
  abbrev pub plan_valvd :
      (should_consider_valvd : Bool) → Exec Update Error (Option (UpdatePlan × String × String))
  plan_valvd false = pure none
  plan_valvd true = do
    latest ← lift (resolve_latest_version_from (M.releases valvd) valvd M.valvd_pin)
    let current = version_or_none M.daemon_version M.binary_version
    pure (some (plan_update current latest (is_pinned M.valvd_pin), current, latest))

  abbrev pub valvd_action : Option (UpdatePlan × String × String) → UpdatePlan
  valvd_action none = already_up_to_date
  valvd_action (some (action, current, latest)) = action

  abbrev pub stage_cli :
      UpdatePlan → (version target : String) → Exec Update Error (Option StagedComponent)
  stage_cli already_up_to_date version target = pure none
  stage_cli install version target = stage_and_unpack cli "valv" version target M.cli_version

  abbrev pub stage_valvd :
      Option (UpdatePlan × String × String)
      → (target : String) → Exec Update Error (Option StagedComponent)
  stage_valvd none target = pure none
  stage_valvd (some (already_up_to_date, current, latest)) target = pure none
  stage_valvd (some (install, current, latest)) target =
      stage_and_unpack valvd "valvd" latest target current

  abbrev pub confirmed_for : Option StagedComponent → Result Error Unit
  confirmed_for none = ok tt
  confirmed_for (some c) = M.confirmed c.new_version

  unfoldable pub install_both :
      (install_dir : String) (cli_staged valvd_staged : Option StagedComponent)
      → Exec Update Error Unit
  unfolding install_staged
  install_both install_dir cli_staged valvd_staged u =
      let (r, s) =
        install_staged fails install_dir (staged_path cli_staged) (staged_path valvd_staged)
          (confirmed_for valvd_staged) u.files in
      (r, record u { files = s })

  -- From the plans on.
  unfoldable pub carry_out :
      (install_dir : String)
      → (cli_action : UpdatePlan) (latest_cli_version : String)
      → Option (UpdatePlan × String × String)
      → (daemon_is_app_managed : Bool) → Exec Update Error UpdateOutcome
  unfolding detect_target stage_and_unpack install_both
  carry_out install_dir cli_action latest_cli_version valvd_info daemon_is_app_managed =
      if not (installs cli_action) && not (installs (valvd_action valvd_info))
      then pure (up_to_date M.cli_version)
      else do
        target ← lift (detect_target M.os M.arch)
        cli_staged ← stage_cli cli_action latest_cli_version target
        valvd_staged ← stage_valvd valvd_info target
        install_both install_dir cli_staged valvd_staged
        pure (updated cli_staged valvd_staged daemon_is_app_managed)

  unfoldable pub update_in :
      (daemon_is_app_managed : Bool) → FilePath → Exec Update Error UpdateOutcome
  unfolding resolve_latest_version_from plan_update carry_out
  update_in daemon_is_app_managed (install_dir, name) = do
    sibling ← gets (λ u. is_some (u.files.files (install_dir, "valvd")))
    latest ← lift (resolve_latest_version_from (M.releases cli) cli M.cli_pin)
    valvd_info ← plan_valvd (sibling && not daemon_is_app_managed)
    carry_out install_dir (plan_update M.cli_version latest (is_pinned M.cli_pin)) latest valvd_info
        daemon_is_app_managed

  abbrev pub guarded : ManagedInstallGuard → Exec Update Error UpdateOutcome
  guarded full_abort = pure app_managed
  guarded daemon_managed = lift (ok_or M.current_exe io) >>= update_in true
  guarded not_managed = lift (ok_or M.current_exe io) >>= update_in false

  unfoldable pub cmd_update : Exec Update Error UpdateOutcome
  unfolding check_managed_install_guard update_in
  cmd_update =
      lift (check_managed_install_guard M.is_macos M.home M.current_exe M.launch_agent) >>= guarded
