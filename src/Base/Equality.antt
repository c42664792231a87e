-- ===== src/Base/Equality.antt =====
-- Equality tests: `==` at every type whose equality is decided.
use Prim.Native.Nat.{ℕ}
use Prim.Native.String.{String}
use mathlib.Core.Path.{◌≡◌, refl, ap}
use mathlib.Core.Logic.{ite, dite}
use mathlib.Core.Bool.{Bool, true, false, Bool-discrete}
use mathlib.Core.Option.{Option, none, some, none-ne-some, some-ne-none, some-injective}
use mathlib.Core.List.{List, [], ◌∷◌}
use native.Mathlib.Decide.{ℕ_discrete}
use text.Mathlib.Text
use text.Mathlib.TextEquality.{eq_iff}

pub record Eq {ℓ} (A : Type ℓ) : Type ℓ where
  pub dec : Discrete A

module _ {ℓ} {A : Type ℓ} ⦃e : Eq A⦄ where
  infix 50 ◌==◌
  abbrev pub ◌==◌ : A → A → Bool
  a == b = ite (e.dec a b) true false

  option_dec : Discrete (Option A)
  option_dec none none = yes refl
  option_dec none (some b) = no (none-ne-some b)
  option_dec (some a) none = no (some-ne-none a)
  option_dec (some a) (some b) =
      dite (e.dec a b) (λ p. yes (ap some p)) (λ n. no (λ p. n (some-injective a b p)))

  pub cons_head : (a b : A) (xs ys : List A) → a ∷ xs ≡ b ∷ ys → a ≡ b
  cons_head a b xs ys h = cc

  pub cons_tail : (a b : A) (xs ys : List A) → a ∷ xs ≡ b ∷ ys → xs ≡ ys
  cons_tail a b xs ys h = cc

  list_dec : Discrete (List A)
  list_dec [] [] = yes refl
  list_dec [] (b ∷ ys) = no (λ p. cc)
  list_dec (a ∷ xs) [] = no (λ p. cc)
  list_dec (a ∷ xs) (b ∷ ys) =
      dite (e.dec a b)
        (λ p.
          dite (list_dec xs ys) (λ q. yes (λ i. p i ∷ q i))
            (λ n. no (λ r. n (cons_tail a b xs ys r))))
        (λ n. no (λ r. n (cons_head a b xs ys r)))

  instance unfoldable pub list_eq : Eq (List A)
  unfolding list_dec
  list_eq = record { dec = list_dec }

  instance unfoldable pub option_eq : Eq (Option A)
  unfolding option_dec
  option_eq = record { dec = option_dec }

-- Shut in proofs, where a split on `s == t` gives the equation or its negation.
instance unfoldable pub string_eq : Eq String
string_eq = record {
  dec = λ s t.
      dite (Bool-discrete (Text.◌==◌ s t) true) (λ same. yes ((eq_iff s t).0 same))
        (λ differ. no (λ p. differ ((eq_iff s t).1 p)));
}

instance unfoldable pub nat_eq : Eq ℕ
unfolding ℕ_discrete
nat_eq = record { dec = ℕ_discrete }
