-- ===== src/Update/Assets.antt =====
-- The assets of a release and their checks: crates/valv-sync/src/update.rs, whose functions
-- crates/valv-cli/src/update.rs has copies of, and the staging of a component there and in
-- crates/valvd/src/self_update.rs.

pub mod Verified
use valv.Base.{
  String, ◌<>◌, ◌==◌, string_eq, Bool, true, false, ◌&&◌, ◌||◌, List, [], ◌∷◌, Option, none, some,
  if◌then◌else◌,
}
use valv.Base.Exec.{Exec, pure, raise, lift, modify, ◌>>=◌, ◌>>◌}
use valv.Base.Result.{Result, ok, err, ok_or}
use valv.Base.Text.{lines, split_whitespace}
use valv.Errors.{
  Error, decode, unsupported_platform, missing_checksum, checksum_mismatch, missing_binary,
  bad_signature,
}
use valv.Releases.{Component, valvd, tag_prefix, is_newer_version}
use valv.Storage.Chunking.{Bytes}

unfoldable pub component_asset_name : (binary_name version target : String) → String
component_asset_name binary_name version target =
    binary_name <> ("-" <> (version <> ("-" <> (target <> ".tar.gz"))))

unfoldable pub component_release_base : (repo : String) → Component → (version : String) → String
unfolding tag_prefix
component_release_base repo component version =
    "https://github.com/" <> (repo <> ("/releases/download/" <> (tag_prefix component <> version)))

unfoldable pub detect_target : (os arch : String) → Result Error String
detect_target os arch =
    if os == "macos" && arch == "aarch64"
    then ok "aarch64-apple-darwin"
    else if os == "linux" && arch == "x86_64"
    then ok "x86_64-unknown-linux-gnu"
    else err unsupported_platform

-- The hash of a line, if the line is about the asset.
abbrev pub hash_of : (asset : String) → List String → Option String
hash_of asset [] = none
hash_of asset (hash ∷ []) = none
hash_of asset (hash ∷ name ∷ rest) =
    if name == asset || name == "*" <> asset then some hash else none

abbrev pub or_later : Option String → Option String → Option String
or_later (some hash) later = some hash
or_later none later = later

unfoldable pub checksum_in : (asset : String) → List String → Option String
unfolding split_whitespace
checksum_in asset [] = none
checksum_in asset (line ∷ rest) =
    or_later (hash_of asset (split_whitespace line)) (checksum_in asset rest)

unfoldable pub checksum_for_asset : (sha256sums asset : String) → Option String
unfolding checksum_in lines
checksum_for_asset sha256sums asset = checksum_in asset (lines sha256sums)

-- What is outside the program: the downloads, UTF-8, SHA-256, minisign, and tar, which gives the folder
-- and the names in it.
pub record Tools : Type 0 where
  pub download : (url : String) → Result Error Bytes
  pub from_utf8 : Bytes → Option String
  pub sha256_hex : Bytes → String
  pub is_signed : (sha256sums minisig : Bytes) → Bool
  pub extract : Bytes → Result Error (String × List String)

pub record StagedComponent : Type 0 where
  pub extract_dir : String
  pub binary_name : String
  pub old_version : String
  pub new_version : String

abbrev pub has_name : String → List String → Bool
has_name name [] = false
has_name name (n ∷ names) = n == name || has_name name names

module _ (T : Tools) where
  abbrev match_hash : (asset : String) → Bytes → Option String → Result Error Unit
  match_hash asset tarball none = err (missing_checksum asset)
  match_hash asset tarball (some expected) =
      if T.sha256_hex tarball == expected then ok tt else err (checksum_mismatch asset)

  abbrev check_sums : (asset : String) → Bytes → Option String → Result Error Unit
  check_sums asset tarball none = err decode
  check_sums asset tarball (some sha256sums) =
      match_hash asset tarball (checksum_for_asset sha256sums asset)

  unfoldable pub verify_tarball_checksum :
      (asset : String) (tarball_bytes sha256sums_bytes : Bytes) → Result Error Unit
  unfolding checksum_for_asset
  verify_tarball_checksum asset tarball_bytes sha256sums_bytes =
      check_sums asset tarball_bytes (T.from_utf8 sha256sums_bytes)

  abbrev pub verify_sha256sums : (sha256sums minisig : Bytes) → Result Error Unit
  verify_sha256sums sha256sums minisig =
      if T.is_signed sha256sums minisig then ok tt else err bad_signature

  -- The store is the tarballs that were handed to tar, the last one first.
  abbrev pub extract_tarball : Bytes → Exec (List Bytes) Error (String × List String)
  extract_tarball tarball done = (T.extract tarball, tarball ∷ done)

  abbrev pub staged_in :
      (asset binary_name old_version version : String)
      → String × List String
      → Result Error StagedComponent
  staged_in asset binary_name old_version version (extract_dir, names) =
      if has_name binary_name names
      then ok (record {
        extract_dir = extract_dir;
        binary_name = binary_name;
        old_version = old_version;
        new_version = version;
      })
      else err (missing_binary asset)

  -- From the downloaded files on.
  unfoldable pub unpack_verified :
      (asset binary_name old_version version : String) (tarball sha256sums minisig : Bytes)
      → Exec (List Bytes) Error StagedComponent
  unfolding verify_tarball_checksum
  unpack_verified asset binary_name old_version version tarball sha256sums minisig = do
    lift (verify_tarball_checksum asset tarball sha256sums)
    lift (verify_sha256sums sha256sums minisig)
    extracted ← extract_tarball tarball
    lift (staged_in asset binary_name old_version version extracted)

  unfoldable pub stage_component :
      (repo : String)
      → Component
      → (binary_name version target old_version : String) → Exec (List Bytes) Error StagedComponent
  unfolding component_asset_name component_release_base unpack_verified
  stage_component repo component binary_name version target old_version = do
    let asset = component_asset_name binary_name version target
    let release_base = component_release_base repo component version
    tarball ← lift (T.download (release_base <> ("/" <> asset)))
    sha256sums ← lift (T.download (release_base <> "/SHA256SUMS"))
    minisig ← lift (T.download (release_base <> "/SHA256SUMS.minisig"))
    unpack_verified asset binary_name old_version version tarball sha256sums minisig

  -- `attempt_self_update` up to the swap. The daemon's version before is not looked at.
  unfoldable pub attempt_self_update :
      (os arch repo latest_version : String) → Exec (List Bytes) Error StagedComponent
  unfolding detect_target stage_component
  attempt_self_update os arch repo latest_version = do
    target ← lift (detect_target os arch)
    stage_component repo valvd "valvd" latest_version target ""

pub data UpdatePlan : Type 0 where
  already_up_to_date install : UpdatePlan

unfoldable pub plan_update : (current_version latest_version : String) (pinned : Bool) → UpdatePlan
unfolding is_newer_version
plan_update current_version latest_version pinned =
    if pinned
    then install
    else if is_newer_version latest_version current_version
    then install
    else already_up_to_date
