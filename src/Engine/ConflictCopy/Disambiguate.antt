-- ===== src/Engine/ConflictCopy/Disambiguate.antt =====
-- A conflict copy takes a name that no file has.
use valv.Base.{
  ◌≡◌, String, ◌==◌, string_eq, ℕ, zero, suc, ◌+◌, ◌<◌, ◌≤◌, true, false, Option, none, some,
  is_some, arith, Option-cases, inl, inr,
}
use valv.Base.Result.{ok, err, Result-cases}
use valv.Errors.{Error}
use valv.Storage.Chunking.{Bytes}
use valv.Engine.ConflictCopy.{
  Dir, numbered, first_free, disambiguate_conflict_path, materialize_conflict_copy, conflict_name,
}

module _ (dir : Dir) (desired : String) where
  first_free-free :
      (left counter : ℕ) (path : String)
      → first_free dir desired left counter ≡ ok path
      → dir path ≡ none
  unfolding first_free
  first_free-free zero counter path h = ground arith
  first_free-free (suc left) counter path h =
      ground (arith, first_free-free left (suc counter) path)

  pub disambiguate-free :
      (path : String) → disambiguate_conflict_path dir desired ≡ ok path → dir path ≡ none
  unfolding disambiguate_conflict_path
  disambiguate-free path h = ground (arith, first_free-free 19 2 path)

  first_free-taken :
      (left counter : ℕ) (e : Error)
      → first_free dir desired left counter ≡ err e
      → (n : ℕ) → counter ≤ n
      → n < counter + left
      → is_some (dir (numbered desired n)) ≡ true
  unfolding first_free
  first_free-taken zero counter e h n l u = ground arith
  first_free-taken (suc left) counter e h n l u =
      ground (arith, first_free-taken left (suc counter) e _ n)

-- The folder with one more file.
abbrev pub Adds : String → Option Bytes → Dir → Dir → Type 0
Adds path bytes dir dir' =
    (dir path ≡ none) × (dir' path ≡ bytes) × ((k : String) → (path == k) ≡ false → dir' k ≡ dir k)

-- A conflict copy that is made has a name that no file had and the content of the original, and
-- every other file stays as it was, the original included.
pub conflict_copy-Adds :
    (name device_name date path : String) (dir : Dir)
    → (materialize_conflict_copy (some name) device_name date dir).0 ≡ ok path
    → Adds path (dir name) dir (materialize_conflict_copy (some name) device_name date dir).1
unfolding materialize_conflict_copy
conflict_copy-Adds name device_name date path dir h =
    elim (Result-cases (disambiguate_conflict_path dir (conflict_name name device_name date))) [
      | inl (e, q) ↦ ground (arith, q)
      | inr (p, q) ↦ elim (Option-cases (dir name)) [
        | inl e ↦ ground (arith, q, e)
        | inr (b, e) ↦ (
          ground (arith, q, e, disambiguate-free dir (conflict_name name device_name date) p q),
          ground (arith, q, e),
          λ k d. ground (arith, q, e),
        )
      ]
    ]

-- No name for a conflict copy is found only when the desired name and each of the nineteen numbered
-- ones is taken.
pub disambiguate-taken :
    (dir : Dir) (desired : String) (e : Error)
    → disambiguate_conflict_path dir desired ≡ err e
    → (is_some (dir desired) ≡ true)
      × ((n : ℕ) → 2 ≤ n → n ≤ 20 → is_some (dir (numbered desired n)) ≡ true)
unfolding disambiguate_conflict_path
disambiguate-taken dir desired e h =
    (ground arith, λ n l u. ground (arith, first_free-taken dir desired 19 2 e _ n l _))

-- Every file is still there, with its content, also when the copy fails.
pub materialize-keeps :
    (original : Option String) (device_name date k : String) (dir : Dir) (bytes : Bytes)
    → dir k ≡ some bytes
    → (materialize_conflict_copy original device_name date dir).1 k ≡ some bytes
unfolding materialize_conflict_copy
materialize-keeps none device_name date k dir bytes h = h
materialize-keeps (some name) device_name date k dir bytes h =
    elim (Result-cases (disambiguate_conflict_path dir (conflict_name name device_name date))) [
      | inl (e, q) ↦ ground (arith, q)
      | inr (p, q) ↦ elim (Option-cases (dir name)) [
        | inl e ↦ ground (arith, q, e)
        | inr (b, e) ↦
            ground (arith, q, e, disambiguate-free dir (conflict_name name device_name date) p q)
      ]
    ]
