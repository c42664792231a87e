-- ===== src/Tests/Releases.antt =====
-- A release_list of releases.
use valv.Base.{◌≡◌, refl, string_eq, nat_eq, ℕ, true, none, some, List, [], ◌∷◌, String}
use valv.Base.Result.{ok}
use valv.Base.Text.{before_code, split_at, strip_prefix}
use valv.Http.{Reply, body}
use valv.Releases.{
  valvd, Candidate, tag_prefix, is_greater, parse_digits, parse_u64, parse_semver_prefix,
  is_newer_version, candidate, better, scan_page, read_pages, trim_v, resolve_latest_version_from,
  max_releases_pages,
}
use valv.Releases.Newest.{Newest, tags_read, latest-Newest}

program : Unit {0}
unfolding string_eq nat_eq before_code split_at strip_prefix tag_prefix is_greater parse_digits
    parse_u64 parse_semver_prefix is_newer_version candidate better scan_page read_pages trim_v
    resolve_latest_version_from
program = tt

abbrev release_list : ℕ → Reply (List String)
release_list page = body ("valvd-v0.9.0" ∷ "cli-v2.0.0" ∷ "valvd-v0.10.0" ∷ "valvd-vnext" ∷ [])

newer : is_newer_version "0.10.0" "0.9.1-rc1" ≡ true
unfolding program
newer = refl

too_large : parse_u64 "18446744073709551616" ≡ none
unfolding program
too_large = refl

pinned : resolve_latest_version_from release_list valvd (some "v0.1.0") ≡ ok "0.1.0"
unfolding program
pinned = refl

latest-Newest_example :
    (c : Candidate) × (c.1 ≡ "0.10.0")
    × Newest
        (tag_prefix valvd)
        none
        (tags_read (tag_prefix valvd) release_list max_releases_pages 1)
        c
unfolding program
latest-Newest_example = latest-Newest release_list valvd "0.10.0" refl
