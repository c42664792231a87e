-- ===== src/Base/Exec.antt =====
-- Methods that write to a store and may fail. What was written before a failure stays written.
use mathlib.Core.Path.{◌≡◌, refl}
use mathlib.Core.Logic.{inl, inr}
use valv.Base.Result.{Result, ok, err, Result-cases}

abbrev pub Exec {ℓ} : Type ℓ → Type ℓ → Type ℓ → Type ℓ
Exec S E A = S → Result E A × S

module _ {ℓ} {S E A : Type ℓ} where
  abbrev pub pure : A → Exec S E A
  pure a s = (ok a, s)

  abbrev pub raise : E → Exec S E A
  raise e s = (err e, s)

  -- A result that does not touch the store.
  abbrev pub lift : Result E A → Exec S E A
  lift r s = (r, s)

  abbrev pub gets : (S → A) → Exec S E A
  gets f s = (ok (f s), s)

module _ {ℓ} {S E A B : Type ℓ} where
  abbrev pub resume : Result E A → (A → Exec S E B) → Exec S E B
  resume (ok a) k s = k a s
  resume (err e) k s = (err e, s)

  infixl 5 ◌>>=◌ ◌>>◌
  abbrev pub ◌>>=◌ : Exec S E A → (A → Exec S E B) → Exec S E B
  ◌>>=◌ m k s = let (r, s') = m s in resume r k s'

  abbrev pub ◌>>◌ : Exec S E A → Exec S E B → Exec S E B
  m >> k = m >>= λ _. k

-- A statement that cannot fail.
abbrev pub modify {ℓ} : {S E : Type ℓ} → (S → S) → Exec S E (Unit {ℓ})
modify f s = (ok tt, f s)

-- What holds of the store after a first action, and after the second one if the first succeeds,
-- holds after both.
pub bind-holds {ℓ κ} :
    {S E A B : Type ℓ} (P : S → Type κ) (m : Exec S E A) (k : A → Exec S E B) (s : S)
    → P (m s).1
    → ((a : A) → (m s).0 ≡ ok a → P (k a (m s).1).1)
    → P ((m >>= k) s).1
bind-holds P m k s first second = elim (Result-cases (m s).0) [
  | inl (e, q) ↦ rw q first
  | inr (a, q) ↦ rw q (second a q)
]

pub then_assoc {ℓ} :
    {S E A B C : Type ℓ} (l : Exec S E A) (m : Exec S E B) (n : Exec S E C) (s : S)
    → ((l >> m) >> n) s ≡ (l >> (m >> n)) s
then_assoc l m n s = elim (Result-cases (l s).0) [ inl (e, q) ↦ rw q refl | inr (a, q) ↦ rw q refl ]
