-- ===== src/Tests/Update.antt =====
-- An update on small inputs: a release with its sums, and an installation of both programs.
use mathlib.Core.Path.{subst}
use valv.Base.{
  ◌≡◌, ◌⊎◌, refl, ◌==◌, string_eq, nat_eq, list_eq, String, ◌<>◌, ℕ, Bool, true, false, [], ◌∷◌,
  none, some, arith, if◌then◌else◌,
}
use valv.Base.Result.{ok, ok-injective}
use valv.Releases.{cli}
use valv.Storage.Chunking.{Bytes}
use valv.Update.Assets.{
  Tools, component_asset_name, component_release_base, checksum_for_asset, stage_component,
  attempt_self_update, plan_update, install,
}
use valv.Update.Assets.Verified.{Verified, stage-Verified}
use valv.Update.Swap.{Binary, Install, same_file}
use valv.Http.{failed}
use valv.Update.Guard.{parse_first_program_argument, check_managed_install_guard, daemon_managed}
use valv.Update.Command.{Machine, Update, cmd_update}
use valv.Update.Command.AppManaged.{UnpacksOutside, update-LeavesAppDaemon}
use valv.Update.Restart.{install_staged, swap_and_restart, poll_daemon_version}
use valv.Update.Restart.SelfUpdate.{OldOrNew, self_update-AllOrNothing}
use valv.Update.Restart.AllOrNothing.{Sound, install-AllOrNothing}

program : Unit {0}
unfolding string_eq nat_eq list_eq checksum_for_asset plan_update attempt_self_update install_staged
    swap_and_restart poll_daemon_version cmd_update
program = tt

abbrev sums : String
sums = "11 other.tar.gz\n22 *valv-1.2.3-t.tar.gz\r\n"

looked_up : checksum_for_asset sums "valv-1.2.3-t.tar.gz" ≡ some "22"
unfolding program
looked_up = refl

planned : plan_update "1.2.3" "1.10.0" false ≡ install
unfolding program
planned = refl

polled : poll_daemon_version 10 ((false, 4) ∷ (false, 11) ∷ (true, 12) ∷ []) ≡ false
unfolding program
polled = refl

-- Every download is one byte, and the text is the one above.
abbrev tools : Tools
tools = record {
  download = λ url. ok (7 ∷ []);
  from_utf8 = λ b. some sums;
  sha256_hex = λ b. "22";
  is_signed = λ a b. true;
  extract = λ b. ok ("/tmp/x", "valv" ∷ []);
}

stage-Verified_example :
    ((stage_component tools "r" cli "valv" "1.2.3" "t" "1.0.0" []).1 ≡ [])
    ⊎ ((tarball : Bytes) × (sha256sums : Bytes) × (minisig : Bytes) × (tools.download (
            component_release_base "r" cli "1.2.3"
            <> ("/" <> component_asset_name "valv" "1.2.3" "t"))
          ≡ ok tarball)
        × (tools.download (component_release_base "r" cli "1.2.3" <> "/SHA256SUMS") ≡ ok sha256sums)
        × ((stage_component tools "r" cli "valv" "1.2.3" "t" "1.0.0" []).1 ≡ tarball ∷ [])
        × Verified tools (component_asset_name "valv" "1.2.3" "t") tarball sha256sums minisig)
stage-Verified_example = stage-Verified tools "r" cli "valv" "1.2.3" "t" "1.0.0" []

abbrev binary : ℕ → Binary
binary n = record { content = n ∷ []; executable = false }

abbrev installed : Install
installed = record {
  files = λ p.
      if same_file ("/bin", "valv") p
      then some (binary 1)
      else if same_file ("/bin", "valvd") p
      then some (binary 2)
      else if same_file ("/x", "valv") p
      then some (binary 3)
      else if same_file ("/y", "valvd") p
      then some (binary 4)
      else none;
  calls = 0;
}

-- The call after the first program is in place fails.
abbrev fails : ℕ → Bool
fails n = n == 4

put_back :
    (install_staged fails "/bin"
        (some ("/x", "valv"))
        (some ("/y", "valvd"))
        (ok tt)
        installed).1.files
      ("/bin", "valv")
    ≡ some (record (binary 1) { executable = false })
unfolding program
put_back = refl

install-AllOrNothing_example :
    Sound "/bin"
      (binary 1)
      (binary 2)
      (binary 3)
      (binary 4)
      (install_staged fails "/bin" (some ("/x", "valv")) (some ("/y", "valvd")) (ok tt) installed)
unfolding program
install-AllOrNothing_example =
    install-AllOrNothing fails (λ m n f g. ground arith) "/bin" "/x" "/y" (binary 1) (binary 2)
      (binary 3) (binary 4) installed refl refl refl refl refl refl refl refl (ok tt)
      (λ e h. ground (arith, h))

-- The daemon replaces itself, and the call that would remove its backup fails.
self_update-AllOrNothing_example :
    OldOrNew
      ("/bin", "valvd")
      (binary 2)
      (binary 4)
      (swap_and_restart fails
        ("/bin", "valvd")
        ("/bin", "valvd.old")
        ("/y", "valvd")
        (ok tt)
        installed)
unfolding program
self_update-AllOrNothing_example =
    self_update-AllOrNothing fails "/bin" "valvd" "valvd.old" ("/y", "valvd") (binary 2) (binary 4)
      refl refl refl refl (ok tt) installed (λ m n f g. ground arith) refl refl
      (λ e h. ground (arith, h))

-- A machine on which the app has registered the daemon, with newer releases of both programs.
abbrev plist : String
plist =
    "<dict><key>Label</key><string>dev</string><key>ProgramArguments</key>\n<array>\n<string>/h/Library/Application Support/Valv/bin/valv&amp;d</string><string>run</string></array></dict>"

registered :
    parse_first_program_argument plist ≡ some "/h/Library/Application Support/Valv/bin/valv&d"
unfolding program
registered = refl

abbrev machine : Machine
machine = record {
  is_macos = true;
  os = "macos";
  arch = "aarch64";
  home = some "/h";
  current_exe = some ("/bin", "valv");
  launch_agent = some plist;
  repo = "r";
  cli_version = "1.0.0";
  cli_pin = some "v1.2.3";
  valvd_pin = some "v1.2.3";
  daemon_version = none;
  binary_version = none;
  releases = λ c page. failed;
  tools = record tools {
    sha256_hex = λ b. "33";
    from_utf8 = λ b. some "33 valv-1.2.3-aarch64-apple-darwin.tar.gz";
  };
  unpacked = λ folder name. if name == "valv" then some (binary 3) else none;
  confirmed = λ version. ok tt;
}

abbrev found : Update
found = record { files = installed; tarballs = [] }

guarded_by :
    check_managed_install_guard true (some "/h") (some ("/bin", "valv")) (some plist)
    ≡ ok daemon_managed
unfolding program
guarded_by = refl

-- The command line is replaced, and one tarball was unpacked.
replaced :
    ((cmd_update (λ n. false) machine found).1.files.files ("/bin", "valv")
      ≡ some (record (binary 3) { executable = true }))
    × ((cmd_update (λ n. false) machine found).1.tarballs ≡ (7 ∷ []) ∷ [])
unfolding program
replaced = (refl, refl)

tar-Outside : UnpacksOutside machine.tools "/bin"
unfolding program
tar-Outside tarball x h =
    subst (λ y. (y.0 == "/bin") ≡ false) (ok-injective ("/tmp/x", "valv" ∷ []) x h) refl

update-LeavesAppDaemon_example :
    (cmd_update fails machine found).1.files.files ("/bin", "valvd") ≡ some (binary 2)
unfolding program
update-LeavesAppDaemon_example =
    update-LeavesAppDaemon fails machine "/bin" tar-Outside "valv" found refl (λ h. cc)
