-- ===== src/Base/Slices.antt =====
-- Slices of a sequence by native positions.
use Prim.Native.Nat.{ℕ, zero, suc, ◌+◌}
use mathlib.Core.Path.{◌≡◌, refl, ap, sym, ◌∙◌}
use mathlib.Core.List.{List, [], ◌∷◌, ◌++◌}
use native.Mathlib.Omega.{arith}
use valv.Base.Lists.{length}

suc_plus : (m n : ℕ) → suc (m + n) ≡ suc m + n
suc_plus m n = omega arith

module _ {ℓ} {A : Type ℓ} where
  unfoldable pub take : ℕ → List A → List A
  take zero xs = []
  take (suc n) [] = []
  take (suc n) (x ∷ xs) = x ∷ take n xs

  unfoldable pub drop : ℕ → List A → List A
  drop zero xs = xs
  drop (suc n) [] = []
  drop (suc n) (x ∷ xs) = drop n xs

  pub take-drop : (n : ℕ) (xs : List A) → take n xs ++ drop n xs ≡ xs
  unfolding take drop
  take-drop zero xs = refl
  take-drop (suc n) [] = refl
  take-drop (suc n) (x ∷ xs) = ground (arith, take-drop n xs)

  drop-nil : (n : ℕ) (xs : List A) → xs ≡ [] → drop n xs ≡ []
  unfolding drop
  drop-nil zero xs h = h
  drop-nil (suc n) xs h = rw h refl

  pub drop-drop : (m n : ℕ) (xs : List A) → drop n (drop m xs) ≡ drop (m + n) xs
  unfolding drop
  drop-drop zero n xs = ap (λ k. drop k xs) (omega arith)
  drop-drop (suc m) n [] = drop-nil n [] refl ∙ sym (drop-nil (suc m + n) [] refl)
  drop-drop (suc m) n (x ∷ xs) = drop-drop m n xs ∙ ap (λ k. drop k (x ∷ xs)) (suc_plus m n)

  pub drop-length : (xs : List A) → drop (length xs) xs ≡ []
  unfolding drop
  drop-length [] = refl
  drop-length (x ∷ xs) = drop-length xs
