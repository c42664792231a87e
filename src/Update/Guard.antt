-- ===== src/Update/Guard.antt =====
-- The guard of crates/valv-cli/src/update.rs: which programs belong to the Valv app, whose own updater
-- replaces them, and the property list of the launch agent that it reads.
use Prim.Native.String.{[] as end_of, ◌∷◌ as ◌∷ₛ◌}
use valv.Base.{
  String, ◌<>◌, ◌==◌, string_eq, list_eq, ℕ, zero, suc, ◌+◌, ◌-◌, ltb, Bool, true, false, ◌&&◌,
  List, [], ◌∷◌, Option, none, some, if◌then◌else◌,
}
use valv.Base.Result.{Result, ok, err}
use valv.Base.Text.{split_at, starts_with, strip_prefix, drop_empty}
use valv.Errors.{Error, no_home, io}
use valv.Update.Swap.{FilePath}

-- `str::find`, and the two halves of a text at an offset. Offsets count characters.
unfoldable pub find : (pattern s : String) → Option ℕ
unfolding strip_prefix
find pattern end_of = if pattern == "" then some 0 else none
find pattern (c ∷ₛ s) = elim (find pattern s) [
  | none ↦ if starts_with (c ∷ₛ s) pattern then some 0 else none
  | some n ↦ if starts_with (c ∷ₛ s) pattern then some 0 else some (suc n)
]

unfoldable pub drop_chars : ℕ → String → String
drop_chars zero s = s
drop_chars (suc n) end_of = end_of
drop_chars (suc n) (c ∷ₛ s) = drop_chars n s

unfoldable pub take_chars : ℕ → String → String
take_chars zero s = ""
take_chars (suc n) end_of = ""
take_chars (suc n) (c ∷ₛ s) = c ∷ₛ take_chars n s

unfoldable pub chars : String → ℕ
chars end_of = 0
chars (c ∷ₛ s) = suc (chars s)

-- `str::replace` by one text of another that is not empty, where `skip` characters of a match are still
-- to be passed over.
unfoldable pub replace_from : (skip : ℕ) (pattern by s : String) → String
unfolding strip_prefix chars
replace_from skip pattern by end_of = ""
replace_from (suc n) pattern by (c ∷ₛ s) = replace_from n pattern by s
replace_from zero pattern by (c ∷ₛ s) = elim (starts_with (c ∷ₛ s) pattern) [
  | true ↦ by <> replace_from (chars pattern - 1) pattern by s
  | false ↦ c ∷ₛ replace_from 0 pattern by s
]

abbrev pub replace : (pattern by s : String) → String
replace = replace_from 0

unfoldable pub xml_unescape : String → String
unfolding replace_from
xml_unescape value =
    replace "&amp;" "&"
      (replace "&apos;" "'" (replace "&quot;" "\"" (replace "&gt;" ">" (replace "&lt;" "<" value))))

-- The text from the end of the first marker to the first closing marker.
abbrev cut : (start end : Option ℕ) (skip : ℕ) (s : String) → Option String
cut (some start) (some end) skip s =
    if ltb end (start + skip)
    then none
    else some (take_chars (end - (start + skip)) (drop_chars (start + skip) s))
cut _ _ skip s = none

unfoldable pub between : (opening closing s : String) → Option String
unfolding find take_chars drop_chars chars
between opening closing s = cut (find opening s) (find closing s) (chars opening) s

abbrev key_marker : String
key_marker = "<key>ProgramArguments</key>"

abbrev after_find : Option ℕ → String → Option String
after_find none s = none
after_find (some n) s = some (drop_chars (n + chars key_marker) s)

abbrev then_between : (opening closing : String) → Option String → Option String
then_between opening closing none = none
then_between opening closing (some s) = between opening closing s

abbrev unescaped : Option String → Option String
unescaped none = none
unescaped (some s) = some (xml_unescape s)

unfoldable pub parse_first_program_argument : (plist_contents : String) → Option String
unfolding find between xml_unescape drop_chars chars
parse_first_program_argument plist_contents = unescaped (
    then_between "<string>" "</string>" (
      then_between "<array>" "</array>"
        (after_find (find key_marker plist_contents) plist_contents)))

-- The components of a path. The first one is empty if the path starts at the root.
abbrev without_dots : List String → List String
without_dots [] = []
without_dots (s ∷ t) = let rest = without_dots t in if s == "." then rest else s ∷ rest

abbrev after_first : List String → List String
after_first [] = []
after_first (s ∷ t) = s ∷ without_dots (drop_empty t)

unfoldable pub components : String → List String
unfolding split_at drop_empty
components path = if path == "" then [] else after_first (split_at 47 path)

-- `Path::starts_with`.
unfoldable pub has_parents : (path base : List String) → Bool
has_parents path [] = true
has_parents [] (b ∷ base) = false
has_parents (p ∷ path) (b ∷ base) = p == b && has_parents path base

pub data ManagedInstallGuard : Type 0 where
  not_managed full_abort daemon_managed : ManagedInstallGuard

abbrev daemon_guard : (app_bin_dir : String) → Option String → ManagedInstallGuard
daemon_guard app_bin_dir none = not_managed
daemon_guard app_bin_dir (some registered) =
    if has_parents (components registered) (components app_bin_dir)
    then daemon_managed
    else not_managed

unfoldable pub classify_managed_install :
    (app_bin_dir current_exe_parent : String) → Option String → ManagedInstallGuard
unfolding components has_parents
classify_managed_install app_bin_dir current_exe_parent registered_valvd_path =
    if components current_exe_parent == components app_bin_dir
    then full_abort
    else daemon_guard app_bin_dir registered_valvd_path

-- The text of the property list, if the file can be read.
abbrev registered_in : Option String → Option String
registered_in none = none
registered_in (some contents) = parse_first_program_argument contents

abbrev guard_at : Option String → Option FilePath → Option String → Result Error ManagedInstallGuard
guard_at none current_exe plist = err no_home
guard_at (some home) none plist = err io
guard_at (some home) (some (folder, name)) plist = ok (
    classify_managed_install (home <> "/Library/Application Support/Valv/bin") folder
      (registered_in plist))

unfoldable pub check_managed_install_guard :
    (is_macos : Bool) (home : Option String) (current_exe : Option FilePath) (plist : Option String)
    → Result Error ManagedInstallGuard
unfolding classify_managed_install parse_first_program_argument
check_managed_install_guard is_macos home current_exe plist =
    if is_macos then guard_at home current_exe plist else ok not_managed
