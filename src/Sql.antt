-- ===== src/Sql.antt =====
-- SQL statements on a table, as functions on the list of its rows. The program's statements are
-- all of these shapes: a test stands for the WHERE clause, a function for the SET clause. Rows
-- come in insertion order, and an upsert keeps the place of the row that it updates.
pub mod Laws
use valv.Base.{◌≡◌, Bool, Option, none, some, List, [], ◌∷◌, ℕ, suc, if◌then◌else◌, Eq, ◌==◌}

module _ {ℓ} {R : Type ℓ} where
  -- SELECT … WHERE p, through `query_row(…).optional()`: the first row, if any.
  unfoldable pub select_first : (R → Bool) → List R → Option R
  select_first p [] = none
  select_first p (r ∷ t) = if p r then some r else select_first p t

  -- SELECT … WHERE p, every row.
  unfoldable pub select_all : (R → Bool) → List R → List R
  select_all p [] = []
  select_all p (r ∷ t) = let rest = select_all p t in if p r then r ∷ rest else rest

  -- UPDATE … SET f WHERE p.
  unfoldable pub update : (R → Bool) → (R → R) → List R → List R
  update p f [] = []
  update p f (r ∷ t) = (if p r then f r else r) ∷ update p f t

  -- DELETE … WHERE p.
  unfoldable pub delete : (R → Bool) → List R → List R
  delete p [] = []
  delete p (r ∷ t) = let rest = delete p t in if p r then rest else r ∷ rest

  -- INSERT INTO … VALUES r ON CONFLICT(key) DO UPDATE SET merge, where `p` tests for r's key.
  unfoldable pub upsert : (R → Bool) → (R → R) → R → List R → List R
  upsert p merge r [] = r ∷ []
  upsert p merge r (s ∷ t) = if p s then merge s ∷ t else s ∷ upsert p merge r t

module _ {ℓ κ} {R : Type ℓ} {K : Type κ} ⦃e : Eq K⦄ (key : R → K) where
  -- The row of a primary key.
  abbrev pub row_of : K → List R → Option R
  row_of k t = select_first (λ r. key r == k) t

  -- No two rows have one primary key.
  abbrev pub NodupKeys : List R → Type ℓ
  NodupKeys [] = Unit
  NodupKeys (r ∷ t) = (row_of (key r) t ≡ none) × NodupKeys t
