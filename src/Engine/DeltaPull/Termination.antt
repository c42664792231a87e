-- ===== src/Engine/DeltaPull/Termination.antt =====
-- The loop of `pull_delta` ends: each further round begins at a larger cursor.
use valv.Base.{
  ◌≡◌, refl, String, string_eq, ℕ, zero, suc, ◌+◌, ◌<◌, true, false, List, [], arith, Bool-cases,
  inl, inr, ℤ, ◌≤ℤ◌, is_some, leb_ℤ, ltb_ℤ, pos_part, neg_part,
}
use valv.Base.Result.{Result, ok, err}
use valv.Errors.{Error}
use valv.Json.{Json}
use valv.Persistence.Db.{Db}
use valv.Persistence.Mounts.{get_cursor, set_cursor}
use valv.Protocol.{DeltaPullResponse}
use valv.Engine.DeltaPull.{PulledNode, Backend, Pull, finish_page, round, pull_loop, pull_delta}
use valv.Http.{Reply, body}

module _ (J : Json) (f : String) (b : Backend J) where
  -- No page of the backend goes past the log number `top`.
  abbrev pub PagesUpTo : ℤ → Type 0
  PagesUpTo top =
      (n : ℕ) (c : ℤ) (delta : DeltaPullResponse J.Value)
      → b.ops_reply n c ≡ body delta
      → delta.up_to_seq ≤ℤ top

  -- There is fuel for one round, and one for each number from the cursor up to `top`.
  abbrev pub Fuelled : ℕ → ℤ → ℤ → Type 0
  Fuelled fuel c top = (0 < fuel) × (pos_part top + neg_part c < pos_part c + neg_part top + fuel)

  finish_page-ends :
      (again : ℤ → List PulledNode → Db → Pull J) (c : ℤ) (delta : DeltaPullResponse J.Value)
      → (r : Result Error (List PulledNode) × Db)
      → (leb_ℤ delta.up_to_seq c ≡ false
          → (p : List PulledNode) (db : Db) → is_some (again delta.up_to_seq p db) ≡ true)
      → is_some (finish_page J f b again c delta r) ≡ true
  unfolding finish_page
  finish_page-ends again c delta (err e, db) ih = refl
  finish_page-ends again c delta (ok pulled, db) ih = elim (Bool-cases (leb_ℤ delta.up_to_seq c)) [
    | inl e ↦ ground (arith, e)
    | inr e ↦ ground (arith, e, ih e pulled (set_cursor f delta.up_to_seq db))
  ]

  round-ends :
      (again : ℤ → List PulledNode → Db → Pull J) (n : ℕ) (c : ℤ) (pulled : List PulledNode)
      (db : Db)
      → (reply : Reply (DeltaPullResponse J.Value))
      → ((delta : DeltaPullResponse J.Value)
          → reply ≡ body delta
          → leb_ℤ delta.up_to_seq c ≡ false
          → (p : List PulledNode) (db : Db) → is_some (again delta.up_to_seq p db) ≡ true)
      → is_some (round J f b again n c pulled db reply) ≡ true
  unfolding round
  round-ends again n c pulled db (body delta) ih = elim (Bool-cases (ltb_ℤ delta.up_to_seq c)) [
    | inl e ↦ rw e
    | inr e ↦ rw e (finish_page-ends again c delta _ (ih delta refl))
  ]
  round-ends again n c pulled db _ ih = refl

  pull_loop-ends :
      (top : ℤ)
      → PagesUpTo top
      → (fuel n : ℕ) (c : ℤ) (pulled : List PulledNode) (db : Db) → Fuelled fuel c top
      → is_some (pull_loop J f b fuel n c pulled db) ≡ true
  unfolding pull_loop
  pull_loop-ends top pages zero n c pulled db h = absurd (omega arith)
  pull_loop-ends top pages (suc fuel) n c pulled db h =
      round-ends (pull_loop J f b fuel (suc n)) n c pulled db (b.ops_reply n c)
        (λ delta e more p db'.
          pull_loop-ends top pages fuel (suc n) delta.up_to_seq p db'
            (ground (arith, pages n c delta e)))

  -- If no page goes past `top`, a pull with that fuel comes to a result.
  pub pull_delta-ends :
      (top : ℤ) (fuel : ℕ) (db : Db)
      → PagesUpTo top
      → Fuelled fuel (get_cursor f db) top
      → is_some (pull_delta J f b fuel db) ≡ true
  unfolding pull_delta
  pull_delta-ends top fuel db pages h = pull_loop-ends top pages fuel 0 (get_cursor f db) [] db h
