-- ===== src/Releases.antt =====
-- crates/valv-sync/src/update.rs: which release of a component is the latest.
pub mod Newest
use Prim.Native.Char.{Char, code}
use Prim.Native.String.{[] as end_of, ◌∷◌ as ◌∷ₛ◌}
use valv.Base.{
  String, ◌==◌, string_eq, nat_eq, ℕ, zero, suc, ◌+◌, ◌-◌, ◌*◌, ltb, length, Bool, true, false,
  ◌&&◌, ◌||◌, List, [], ◌∷◌, Option, none, some, if◌then◌else◌,
}
use valv.Base.Result.{Result, ok, err}
use valv.Base.Text.{before_code, split_at, strip_prefix, in_range, has_code}
use valv.Errors.{Error, no_release}
use valv.Http.{Reply}
use valv.Storage.Batch.{read_reply}

pub data Component : Type 0 where
  cli valvd : Component

unfoldable pub tag_prefix : Component → String
tag_prefix cli = "cli-v"
tag_prefix valvd = "valvd-v"

pub record Version : Type 0 where
  pub major : ℕ
  pub minor : ℕ
  pub patch : ℕ

-- The order of `[u64; 3]`.
unfoldable pub is_greater : Version → Version → Bool
is_greater a b =
    ltb b.major a.major
    || a.major == b.major && (ltb b.minor a.minor || a.minor == b.minor && ltb b.patch a.patch)

abbrev u64_end : ℕ
u64_end = 18446744073709551616

-- `str::parse::<u64>` of a text without a sign, from the digits that are read. A value that does not fit
-- is an error.
unfoldable pub parse_digits : ℕ → String → Option ℕ
parse_digits n end_of = some n
parse_digits n (c ∷ₛ s) =
    let value = n * 10 + (code c - 48) in
    let rest = parse_digits value s in if in_range 48 57 c && ltb value u64_end then rest else none

unfoldable pub parse_u64 : String → Option ℕ
unfolding parse_digits
parse_u64 s = if s == "" then none else parse_digits 0 s

abbrev three : Option ℕ → Option ℕ → Option ℕ → Option Version
three (some major) (some minor) (some patch) =
    some (record { major = major; minor = minor; patch = patch })
three _ _ _ = none

abbrev parse_parts : List String → Option Version
parse_parts (major ∷ minor ∷ patch ∷ []) =
    three (parse_u64 major) (parse_u64 minor) (parse_u64 patch)
parse_parts _ = none

unfoldable pub parse_semver_prefix : String → Option Version
unfolding parse_u64 before_code split_at
parse_semver_prefix version = parse_parts (split_at 46 (before_code 43 (before_code 45 version)))

abbrev greater_versions : Option Version → Option Version → Bool
greater_versions (some candidate) (some current) = is_greater candidate current
greater_versions _ _ = false

unfoldable pub is_newer_version : (candidate current : String) → Bool
unfolding parse_semver_prefix is_greater
is_newer_version candidate current =
    greater_versions (parse_semver_prefix candidate) (parse_semver_prefix current)

-- A release with a version, and that version.
abbrev pub Candidate : Type 0
Candidate = Version × String

abbrev versioned : String → Option Version → Option Candidate
versioned version none = none
versioned version (some parsed) = some (parsed, version)

abbrev after_prefix : Option String → Option Candidate
after_prefix none = none
after_prefix (some version) =
    if version == "" then none else versioned version (parse_semver_prefix version)

unfoldable pub candidate : (prefix tag_name : String) → Option Candidate
unfolding parse_semver_prefix strip_prefix
candidate prefix tag_name = after_prefix (strip_prefix prefix tag_name)

unfoldable pub better : Option Candidate → Option Candidate → Option Candidate
unfolding is_greater
better best none = best
better none (some c) = some c
better (some b) (some c) = if is_greater c.0 b.0 then some c else some b

-- The loop over the releases of a page.
unfoldable pub scan_page :
    (prefix : String) → Option Candidate → (tag_names : List String) → Option Candidate
unfolding better candidate
scan_page prefix best [] = best
scan_page prefix best (t ∷ ts) = scan_page prefix (better best (candidate prefix t)) ts

abbrev pub releases_page_size : ℕ
releases_page_size = 100

abbrev pub max_releases_pages : ℕ
max_releases_pages = 20

abbrev pub version_of : (prefix : String) → Option Candidate → Result Error String
version_of prefix none = err (no_release prefix)
version_of prefix (some (parsed, version)) = ok version

-- `releases` has the reply to the request for each page.
module _ (releases : (page : ℕ) → Reply (List String)) (prefix : String) where
  abbrev pub after_page :
      (rest : Option Candidate → Result Error String)
      → Option Candidate
      → Result Error (List String)
      → Result Error String
  after_page rest best (err e) = err e
  after_page rest best (ok tag_names) =
      let best' = scan_page prefix best tag_names in
      if ltb (length tag_names) releases_page_size then version_of prefix best' else rest best'

  unfoldable pub read_pages : (left page : ℕ) → Option Candidate → Result Error String
  unfolding scan_page
  read_pages zero page best = version_of prefix best
  read_pages (suc left) page best =
      after_page (read_pages left (suc page)) best (read_reply (releases page))

-- `trim_start_matches('v')`.
unfoldable pub trim_v : String → String
trim_v end_of = ""
trim_v (c ∷ₛ s) = if has_code 118 c then trim_v s else c ∷ₛ s

abbrev unless_pinned : Option String → Result Error String → Result Error String
unless_pinned none latest = latest
unless_pinned (some pinned) latest = if pinned == "" then latest else ok (trim_v pinned)

unfoldable pub resolve_latest_version_from :
    (releases : (page : ℕ) → Reply (List String))
    → Component
    → (pinned : Option String) → Result Error String
unfolding tag_prefix read_pages trim_v
resolve_latest_version_from releases component pinned =
    unless_pinned pinned (read_pages releases (tag_prefix component) max_releases_pages 1 none)
