-- ===== src/Base/Text.antt =====
-- Text by its characters: the operations of `str` and of file names that the program uses.
use Prim.Native.Nat.{ℕ}
use Prim.Native.Char.{Char, code}
use Prim.Native.String.{String, [], ◌∷◌}
use mathlib.Core.Bool.{Bool, true, false, ◌||◌, ◌&&◌}
use mathlib.Core.List.{List, [], ◌∷◌}
use mathlib.Core.Option.{Option, none, some}
use native.Mathlib.Decide.{ℕ_discrete}
use mathlib.Core.Logic.{ite}
use valv.Base.Lists.{if◌then◌else◌, is_some}
use valv.Base.Equality.{string_eq, ◌==◌}
use valv.Base.Int.{leb}

abbrev pub has_code : ℕ → Char → Bool
has_code n c = ite (ℕ_discrete (code c) n) true false

-- `str::strip_prefix`: what follows the prefix.
unfoldable pub strip_prefix : String → String → Option String
unfolding ℕ_discrete
strip_prefix [] s = some s
strip_prefix (c ∷ p) [] = none
strip_prefix (c ∷ p) (d ∷ s) =
    let rest = strip_prefix p s in if has_code (code c) d then rest else none

-- `str::starts_with`.
abbrev pub starts_with : String → String → Bool
starts_with s p = is_some (strip_prefix p s)

-- `str::contains`.
unfoldable pub contains : String → String → Bool
unfolding strip_prefix
contains p [] = starts_with [] p
contains p (d ∷ s) = starts_with (d ∷ s) p || contains p s

-- The text before the last dot, and the text after it.
unfoldable pub rsplit_at_dot : String → Option (String × String)
unfolding ℕ_discrete
rsplit_at_dot [] = none
rsplit_at_dot (c ∷ s) = elim (rsplit_at_dot s) [
  | some (a, b) ↦ some (c ∷ a, b)
  | none ↦ if has_code 46 c then some ([], s) else none
]

-- `Path::file_stem` and `Path::extension` of a file name.
abbrev pub stem_or_whole : String → Option (String × String) → String × Option String
stem_or_whole s none = (s, none)
stem_or_whole s (some (a, b)) = if a == "" then (s, none) else (a, some b)

unfoldable pub split_file_name : String → String × Option String
unfolding rsplit_at_dot
split_file_name s = if s == ".." then (s, none) else stem_or_whole s (rsplit_at_dot s)

-- `s.split(c).next()`, for the character with the given code.
unfoldable pub before_code : ℕ → String → String
unfolding ℕ_discrete
before_code n [] = []
before_code n (c ∷ s) = let rest = before_code n s in if has_code n c then [] else c ∷ rest

-- `char::is_whitespace`, and `s.trim().is_empty()`.
abbrev pub in_range : ℕ → ℕ → Char → Bool
in_range low high c = leb low (code c) && leb (code c) high

abbrev is_whitespace : Char → Bool
is_whitespace c =
    in_range 9 13 c
    || has_code 32 c
    || has_code 133 c
    || has_code 160 c
    || has_code 5760 c
    || in_range 8192 8202 c
    || in_range 8232 8233 c
    || has_code 8239 c
    || has_code 8287 c
    || has_code 12288 c

unfoldable pub is_blank : String → Bool
unfolding ℕ_discrete
is_blank [] = true
is_blank (c ∷ s) = is_whitespace c && is_blank s

abbrev onto_first : Char → List String → List String
onto_first c [] = (c ∷ []) ∷ []
onto_first c (s ∷ t) = (c ∷ s) ∷ t

-- `s.split(c)`, for the character with the given code.
unfoldable pub split_at : ℕ → String → List String
unfolding ℕ_discrete
split_at n [] = "" ∷ []
split_at n (c ∷ s) =
    let rest = split_at n s in if has_code n c then "" ∷ rest else onto_first c rest

-- A text cut at every character that passes a test.
unfoldable pub split_where : (Char → Bool) → String → List String
split_where test [] = "" ∷ []
split_where test (c ∷ s) =
    let rest = split_where test s in if test c then "" ∷ rest else onto_first c rest

unfoldable pub drop_empty : List String → List String
drop_empty [] = []
drop_empty (s ∷ t) = let rest = drop_empty t in if s == "" then rest else s ∷ rest

-- `str::split_whitespace`.
unfoldable pub split_whitespace : String → List String
unfolding ℕ_discrete split_where drop_empty
split_whitespace s = drop_empty (split_where is_whitespace s)

-- A line without its carriage return.
unfoldable pub strip_return : String → String
unfolding ℕ_discrete
strip_return [] = []
strip_return (c ∷ s) =
    let rest = strip_return s in if has_code 13 c && s == "" then [] else c ∷ rest

-- The pieces between line feeds, the last one only if it is not empty.
unfoldable pub trim_lines : List String → List String
unfolding strip_return
trim_lines [] = []
trim_lines (s ∷ []) = if s == "" then [] else s ∷ []
trim_lines (s ∷ t ∷ rest) = strip_return s ∷ trim_lines (t ∷ rest)

-- `str::lines`.
unfoldable pub lines : String → List String
unfolding split_at trim_lines
lines s = trim_lines (split_at 10 s)
