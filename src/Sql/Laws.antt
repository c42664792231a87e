-- ===== src/Sql/Laws.antt =====
-- What a statement does to the row of a primary key.
use valv.Base.{
  true, false, All, Bool-cases, inl, inr, ◌≡◌, Bool, Option, none, some, List, [], ◌∷◌,
  if◌then◌else◌, Eq, ◌==◌, arith,
}
use valv.Sql.{select_first, select_all, update, delete, upsert, row_of, NodupKeys}
use valv.Base.Members.{In, here, there, All-weaken, some-injective}
use mathlib.Core.Path.{subst}
use mathlib.Core.Option

-- The row, if it does not pass the test of a DELETE.
abbrev pub unless {ℓ} : {R : Type ℓ} → (R → Bool) → Option R → Option R
unless p none = none
unless p (some r) = if p r then none else some r

module _ {ℓ κ} {R : Type ℓ} {K : Type κ} ⦃e : Eq K⦄ (key : R → K) where
  pub row_of-key : (k : K) (t : List R) (r : R) → row_of key k t ≡ some r → key r ≡ k
  unfolding select_first
  row_of-key k [] r h = ground arith
  row_of-key k (s ∷ t) r h = ground (arith, row_of-key k t r)

  -- An UPDATE of the row of key `j`.
  pub row_of-update :
      (j k : K) (f : R → R) (t : List R)
      → ((r : R) → key (f r) ≡ key r)
      → row_of key k (update (λ r. key r == j) f t)
        ≡ (if j == k then Option.map f (row_of key k t) else row_of key k t)
  unfolding select_first update
  row_of-update j k f [] h = ground arith
  row_of-update j k f (r ∷ t) h = ground (arith, h r, row_of-update j k f t h)

  -- An upsert, where the merged row keeps its key.
  pub row_of-upsert :
      (merge : R → R) (r : R) (k : K) (t : List R)
      → ((s : R) → key (merge s) ≡ key r)
      → row_of key k (upsert (λ s. key s == key r) merge r t) ≡ (
          if key r == k
          then some (Option.get_or (Option.map merge (row_of key k t)) r)
          else row_of key k t)
  unfolding select_first upsert
  row_of-upsert merge r k [] h = ground arith
  row_of-upsert merge r k (s ∷ t) h = ground (arith, h s, row_of-upsert merge r k t h)

  pub row_of-delete :
      (p : R → Bool) (k : K) (t : List R)
      → NodupKeys key t
      → row_of key k (delete p t) ≡ unless p (row_of key k t)
  unfolding select_first delete
  row_of-delete p k [] u = ground arith
  row_of-delete p k (r ∷ t) u = ground (arith, row_of-delete p k t u.1)

  pub update-NodupKeys :
      (j : K) (f : R → R) (t : List R)
      → ((r : R) → key (f r) ≡ key r)
      → NodupKeys key t
      → NodupKeys key (update (λ r. key r == j) f t)
  unfolding select_first update
  update-NodupKeys j f [] h u = tt
  update-NodupKeys j f (r ∷ t) h u =
      ground (arith, h r, row_of-update j (key r) f t h, update-NodupKeys j f t h u.1)

  pub upsert-NodupKeys :
      (merge : R → R) (r : R) (t : List R)
      → ((s : R) → key (merge s) ≡ key r)
      → NodupKeys key t
      → NodupKeys key (upsert (λ s. key s == key r) merge r t)
  unfolding select_first upsert
  upsert-NodupKeys merge r [] h u = ground arith
  upsert-NodupKeys merge r (s ∷ t) h u =
      ground (arith, h s, row_of-upsert merge r (key s) t h, upsert-NodupKeys merge r t h u.1)

  pub delete-NodupKeys : (p : R → Bool) (t : List R) → NodupKeys key t → NodupKeys key (delete p t)
  unfolding select_first delete
  delete-NodupKeys p [] u = tt
  delete-NodupKeys p (r ∷ t) u =
      ground (arith, row_of-delete p (key r) t u.1, delete-NodupKeys p t u.1)

  -- An UPDATE of a key that no row has.
  pub update_absent :
      (k : K) (f : R → R) (t : List R) → row_of key k t ≡ none → update (λ r. key r == k) f t ≡ t
  unfolding select_first update
  update_absent k f [] h = ground arith
  update_absent k f (r ∷ t) h = ground (arith, update_absent k f t)

-- The rows of a SELECT.
pub select_all-In :
    {R : Type 0} (p : R → Bool) (r : R) (t : List R) → In r t → p r ≡ true → In r (select_all p t)
unfolding select_all
select_all-In p r [] i h = elim i [ ]
select_all-In p r (_ ∷ _) (here t) h = rw h (here (select_all p t))
select_all-In p r (_ ∷ _) (there s t i) h = elim (Bool-cases (p s)) [
  | inl e ↦ rw e (there s (select_all p t) (select_all-In p r t i h))
  | inr e ↦ rw e (select_all-In p r t i h)
]

pub select_all-holds :
    {R : Type 0} (p : R → Bool) (t : List R) → All (λ r. (p r ≡ true) × In r t) (select_all p t)
unfolding select_all
select_all-holds p [] = tt
select_all-holds p (s ∷ t) =
    let rest =
      All-weaken _ (λ r. (p r ≡ true) × In r (s ∷ t)) (select_all p t) (λ r h. (h.0, there s t h.1))
        (select_all-holds p t) in
    elim (Bool-cases (p s)) [ inl e ↦ rw e ((e, here t), rest) | inr e ↦ rw e rest ]

module _ {κ} {R : Type 0} {K : Type κ} ⦃e : Eq K⦄ (key : R → K) where
  row_of-In_step :
      (k : K) (s : R) (t : List R) (r : R) (b : Bool)
      → (if b then some s else row_of key k t) ≡ some r
      → (row_of key k t ≡ some r → In r t)
      → In r (s ∷ t)
  row_of-In_step k s t r true h f = subst (λ x. In x (s ∷ t)) (some-injective s r h) (here t)
  row_of-In_step k s t r false h f = there s t (f h)

  -- A row that is found is one of the table.
  pub row_of-In : (k : K) (t : List R) (r : R) → row_of key k t ≡ some r → In r t
  unfolding select_first
  row_of-In k [] r h = ground arith
  row_of-In k (s ∷ t) r h = row_of-In_step k s t r (key s == k) h (row_of-In k t r)
