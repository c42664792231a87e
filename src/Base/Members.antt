-- ===== src/Base/Members.antt =====
-- The elements of a list.
use mathlib.Core.Path.{◌≡◌, refl}
use mathlib.Core.List.{List, [], ◌∷◌, ◌++◌}
use mathlib.Core.Option.{some}
use native.Mathlib.Omega.{arith}
use valv.Base.Lists.{All}

-- An element of a list.
pub data In {A : Type 0} (x : A) : List A → Type 0 where
  here : (xs : List A) → In x (x ∷ xs)
  there : (y : A) (xs : List A) → In x xs → In x (y ∷ xs)

pub All-weaken :
    {A : Type 0} (P Q : A → Type 0) (xs : List A) → ((x : A) → P x → Q x) → All P xs → All Q xs
All-weaken P Q [] f h = tt
All-weaken P Q (x ∷ xs) f (h, t) = (f x h, All-weaken P Q xs f t)

pub All-In : {A : Type 0} (xs : List A) → All (λ x. In x xs) xs
All-In [] = tt
All-In (x ∷ xs) =
    (here xs, All-weaken (λ y. In y xs) (λ y. In y (x ∷ xs)) xs (λ y i. there x xs i) (All-In xs))

pub All-append :
    {A : Type 0} (P : A → Type 0) (xs ys : List A) → All P xs → All P ys → All P (xs ++ ys)
All-append P [] ys h k = k
All-append P (x ∷ xs) ys (h, t) k = (h, All-append P xs ys t k)

pub some-injective : {A : Type 0} (a b : A) → some a ≡ some b → a ≡ b
some-injective a b h = ground arith

-- An element of a list of one.
pub In-single : {A : Type 0} (x y : A) → In x (y ∷ []) → x ≡ y
In-single x _ (here _) = refl
In-single x _ (there _ _ i) = elim i [ ]
