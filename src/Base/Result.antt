-- ===== src/Base/Result.antt =====
-- `Result` and its `?`.
use mathlib.Core.Path.{◌≡◌, refl}
use mathlib.Core.Logic.{◌⊎◌, inl, inr}
use mathlib.Core.Option.{Option, none, some}
use native.Mathlib.Omega.{arith}

pub data Result {ℓ} (E A : Type ℓ) : Type ℓ where
  ok : A → Result E A
  err : E → Result E A

-- `Option::ok_or`.
abbrev pub ok_or {ℓ} : {E A : Type ℓ} → Option A → E → Result E A
ok_or (some a) e = ok a
ok_or none e = err e

-- The `?` of a plain function.
infixl 5 ◌>>=◌
abbrev pub ◌>>=◌ {ℓ} : {E A B : Type ℓ} → Result E A → (A → Result E B) → Result E B
ok a >>= f = f a
err e >>= f = err e

pub Result-cases {ℓ} :
    {E A : Type ℓ} (r : Result E A) → ((e : E) × (r ≡ err e)) ⊎ ((a : A) × (r ≡ ok a))
Result-cases (ok a) = inr (a, refl)
Result-cases (err e) = inl (e, refl)

pub ok-injective {ℓ} : {E A : Type ℓ} (a b : A) → Path (Result E A) (ok a) (ok b) → a ≡ b
ok-injective a b h = ground arith
