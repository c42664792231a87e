-- ===== src/Update/Command/AppManaged.antt =====
-- What an update leaves to the app.
use mathlib.Core.Path.{subst}
use valv.Base.{
  ◌≡◌, refl, ◌∙◌, ap, inl, inr, String, ◌<>◌, ◌==◌, string_eq, list_eq, nat_eq, ℕ, Bool, true,
  false, not, ◌&&◌, List, Option, none, some, is_some, arith, Bool-cases,
}
use valv.Base.Exec.{Exec, lift, ◌>>=◌, bind-holds}
use valv.Base.Result.{Result, ok, err, Result-cases, ok-injective}
use valv.Errors.{Error}
use valv.Releases.{Component, cli, resolve_latest_version_from}
use valv.Storage.Chunking.{Bytes}
use valv.Update.Assets.{
  Tools, StagedComponent, UpdatePlan, already_up_to_date, install, plan_update, detect_target,
  stage_component, unpack_verified, staged_in, has_name, verify_tarball_checksum,
  component_asset_name, component_release_base,
}
use valv.Update.Swap.{FilePath}
use valv.Update.Guard.{
  ManagedInstallGuard, not_managed, full_abort, daemon_managed, check_managed_install_guard,
}
use valv.Update.Command.{
  unpack, is_pinned, Machine, Update, UpdateOutcome, cmd_update, guarded, update_in, carry_out,
  install_both, stage_and_unpack, stage_cli, plan_valvd,
}
use valv.Update.Restart.Leaves.{Leaves, daemon, Outside, install_staged-Leaves}

-- The action leaves the files of the installation's daemon.
Keeps : FilePath → {A : Type 0} → Exec Update Error A → Type 0
Keeps q m = (u : Update) → (m u).1.files.files q ≡ u.files.files q

bind-Keeps :
    (q : FilePath) {A B : Type 0} (m : Exec Update Error A) (k : A → Exec Update Error B)
    → Keeps q m
    → ((a : A) (u : Update) → (m u).0 ≡ ok a → Keeps q (k a))
    → Keeps q (m >>= k)
unfolding Keeps
bind-Keeps q m k first second u =
    bind-holds (λ t. t.files.files q ≡ u.files.files q) m k u (first u)
      (λ a h. second a u h (m u).1 ∙ first u)

-- Tar never unpacks into the folder.
abbrev pub UnpacksOutside : Tools → (dir : String) → Type 0
UnpacksOutside T dir =
    (tarball : Bytes) (x : String × List String) → T.extract tarball ≡ ok x → (x.0 == dir) ≡ false

module _ (fails : ℕ → Bool) (M : Machine) (dir : String) (apart : UnpacksOutside M.tools dir) where
  staged_in-Outside :
      (asset binary_name old_version version : String) (x : String × List String)
      (c : StagedComponent)
      → (x.0 == dir) ≡ false
      → staged_in M.tools asset binary_name old_version version x ≡ ok c
      → (c.extract_dir == dir) ≡ false
  staged_in-Outside asset binary_name old_version version (folder, names) c h e =
      elim (Bool-cases (has_name binary_name names)) [
        | inl q ↦ subst (λ z. (z.extract_dir == dir) ≡ false) (ok-injective _ c (rw q at e)) h
        | inr q ↦ ground (arith, rw q at e)
      ]

  unpack-Outside :
      (asset binary_name old_version version : String) (tarball sums sig : Bytes)
      (done : List Bytes) (c : StagedComponent)
      → (unpack_verified M.tools asset binary_name old_version version tarball sums sig done).0
        ≡ ok c
      → (c.extract_dir == dir) ≡ false
  unfolding unpack_verified
  unpack-Outside asset binary_name old_version version tarball sums sig done c h =
      elim (Result-cases (verify_tarball_checksum M.tools asset tarball sums)) [
        | inl (e, q) ↦ ground (arith, rw q at h)
        | inr (u, q) ↦ elim (Bool-cases (M.tools.is_signed sums sig)) [
          | inr f ↦ ground (arith, rw f at (rw q at h))
          | inl f ↦ elim (Result-cases (M.tools.extract tarball)) [
            | inl (e, x) ↦ ground (arith, rw x at (rw f at (rw q at h)))
            | inr (y, x) ↦
                staged_in-Outside asset binary_name old_version version y c (apart tarball y x)
                  (rw x at (rw f at (rw q at h)))
          ]
        ]
      ]

  stage_component-Outside :
      (component : Component) (binary_name version target old_version : String) (done : List Bytes)
      (c : StagedComponent)
      → (stage_component M.tools M.repo component binary_name version target old_version done).0
        ≡ ok c
      → (c.extract_dir == dir) ≡ false
  unfolding stage_component
  stage_component-Outside component binary_name version target old_version done c h =
      let asset = component_asset_name binary_name version target in
      let base = component_release_base M.repo component version in
      elim (Result-cases (M.tools.download (base <> ("/" <> asset)))) [
        | inl (e, q) ↦ ground (arith, rw q at h)
        | inr (tarball, q) ↦ elim (Result-cases (M.tools.download (base <> "/SHA256SUMS"))) [
          | inl (e, r) ↦ ground (arith, rw r at (rw q at h))
          | inr (sums, r) ↦ elim (Result-cases (M.tools.download (base <> "/SHA256SUMS.minisig"))) [
            | inl (e, s) ↦ ground (arith, rw s at (rw r at (rw q at h)))
            | inr (sig, s) ↦
                unpack-Outside asset binary_name old_version version tarball sums sig done c
                  (rw s at (rw r at (rw q at h)))
          ]
        ]
      ]

  unpack-Keeps :
      (r : Result Error StagedComponent) (u : Update)
      → ((c : StagedComponent) → r ≡ ok c → (c.extract_dir == dir) ≡ false)
      → (unpack fails M r u).1.files.files (daemon fails dir) ≡ u.files.files (daemon fails dir)
  unpack-Keeps (err e) u h = refl
  unpack-Keeps (ok c) u h = ground (arith, h c refl)

  unpack_staged-Outside :
      (r : Result Error StagedComponent) (u : Update) (staged : Option StagedComponent)
      → ((c : StagedComponent) → r ≡ ok c → (c.extract_dir == dir) ≡ false)
      → (unpack fails M r u).0 ≡ ok staged
      → Outside fails dir staged
  unpack_staged-Outside (err e) u staged h q = ground (arith, q)
  unpack_staged-Outside (ok c) u staged h q =
      subst (Outside fails dir) (ok-injective (some c) staged q) (h c refl)

  stage_cli-Keeps :
      (action : UpdatePlan) (version target : String)
      → Keeps (daemon fails dir) (stage_cli fails M action version target)
  unfolding Keeps stage_and_unpack
  stage_cli-Keeps already_up_to_date version target u = refl
  stage_cli-Keeps install version target u =
      let r = stage_component M.tools M.repo cli "valv" version target M.cli_version u.tarballs in
      unpack-Keeps r.0 (record u { tarballs = r.1 })
        (stage_component-Outside cli "valv" version target M.cli_version u.tarballs)

  stage_cli-Outside :
      (action : UpdatePlan) (version target : String) (u : Update) (staged : Option StagedComponent)
      → (stage_cli fails M action version target u).0 ≡ ok staged
      → Outside fails dir staged
  unfolding stage_and_unpack
  stage_cli-Outside already_up_to_date version target u staged h =
      subst (Outside fails dir) (ok-injective none staged h) tt
  stage_cli-Outside install version target u staged h =
      let r = stage_component M.tools M.repo cli "valv" version target M.cli_version u.tarballs in
      unpack_staged-Outside r.0 (record u { tarballs = r.1 }) staged
        (stage_component-Outside cli "valv" version target M.cli_version u.tarballs) h

  install_both-Keeps :
      (staged : Option StagedComponent)
      → Outside fails dir staged
      → Keeps (daemon fails dir) (install_both fails M dir staged none)
  unfolding Keeps install_both Leaves
  install_both-Keeps staged h u = install_staged-Leaves fails dir staged (ok tt) h u.files

  carry_out-Keeps :
      (action : UpdatePlan) (version : String) (managed : Bool)
      → Keeps (daemon fails dir) (carry_out fails M dir action version none managed)
  unfolding Keeps carry_out
  carry_out-Keeps already_up_to_date version managed u = refl
  carry_out-Keeps install version managed u =
      bind-Keeps (daemon fails dir) (lift (detect_target M.os M.arch)) _ (λ s. refl)
        (λ target _ _.
          bind-Keeps (daemon fails dir) (stage_cli fails M install version target) _
            (stage_cli-Keeps install version target)
            (λ staged v h.
              bind-Keeps (daemon fails dir) (install_both fails M dir staged none) _
                (install_both-Keeps staged (stage_cli-Outside install version target v staged h))
                (λ _ _ _ s. refl)))
        u

  plan_valvd-Keeps :
      (sibling : Bool) (k : Option (UpdatePlan × String × String) → Exec Update Error UpdateOutcome)
      → Keeps (daemon fails dir) (k none)
      → Keeps (daemon fails dir) (plan_valvd fails M (sibling && not true) >>= k)
  unfolding Keeps
  plan_valvd-Keeps true k h u = h u
  plan_valvd-Keeps false k h u = h u

  update_in-Keeps : (name : String) → Keeps (daemon fails dir) (update_in fails M true (dir, name))
  unfolding Keeps update_in
  update_in-Keeps name u =
      bind-Keeps (daemon fails dir)
        (lift (resolve_latest_version_from (M.releases cli) cli M.cli_pin)) _ (λ s. refl)
        (λ latest _ _.
          let action = plan_update M.cli_version latest (is_pinned M.cli_pin) in
          plan_valvd-Keeps (is_some (u.files.files (dir, "valvd")))
            (λ info. carry_out fails M dir action latest info true)
            (carry_out-Keeps action latest true))
        u

  guarded-Keeps :
      (name : String) (g : ManagedInstallGuard)
      → M.current_exe ≡ some (dir, name)
      → ¬ (g ≡ not_managed)
      → Keeps (daemon fails dir) (guarded fails M g)
  unfolding Keeps update_in
  guarded-Keeps name full_abort exe managed u = refl
  guarded-Keeps name daemon_managed exe managed u = rw exe (update_in-Keeps name u)
  guarded-Keeps name not_managed exe managed u = absurd (managed refl)

  -- Unless the guard finds that the app manages neither program, an update leaves the valvd in the folder
  -- of the command as it is, whatever the backend answers, and whatever calls of the file system fail,
  -- where tar never unpacks into the folder of the installation.
  pub update-LeavesAppDaemon :
      (name : String) (u : Update)
      → M.current_exe ≡ some (dir, name)
      → ¬ (
          check_managed_install_guard M.is_macos M.home M.current_exe M.launch_agent
          ≡ ok not_managed)
      → (cmd_update fails M u).1.files.files (dir, "valvd") ≡ u.files.files (dir, "valvd")
  unfolding cmd_update Keeps
  update-LeavesAppDaemon name u exe managed =
      bind-Keeps (daemon fails dir)
        (lift (check_managed_install_guard M.is_macos M.home M.current_exe M.launch_agent))
        (guarded fails M) (λ v. refl)
        (λ g v h. guarded-Keeps name g exe (λ e. managed (h ∙ ap ok e))) u
