-- ===== src/Engine/DeltaPull/Cursor.antt =====
-- The stored cursor: it never goes back while pages are pulled, and it says how far the mirror is.
use valv.Base.{
  ◌≡◌, refl, ◌≢◌, String, string_eq, ℕ, zero, suc, true, none, some, List, [], ◌∷◌, ◌++◌, arith,
  Bool-cases, inl, inr, ℤ, ◌≤ℤ◌, ◌||◌, ◌∙◌, leb_ℤ, ltb_ℤ, ≤ℤ_refl,
}
use valv.Base.Result.{Result, ok, err, Result-cases}
use valv.Errors.{Error}
use valv.Json.{Json}
use valv.Persistence.Db.{Db}
use valv.Persistence.Mounts.{get_cursor, set_cursor}
use valv.Persistence.Mounts.Laws.{
  is_mounted, get_cursor-set_cursor, get_cursor-mounts, is_mounted-mounts, is_mounted-set_cursor,
}
use valv.Persistence.OpLog.{Entry, apply_op_log_entry}
use valv.Persistence.OpLog.Mounts.{mounts-apply}
use valv.Protocol.{DeltaPullResponse}
use valv.Engine.DeltaPull.{
  PulledNode, build_pulled_node, apply_ops, is_empty, Backend, Pull, finish_page, round, pull_loop,
  pull_delta,
}
use valv.Http.{Reply, gone, body}

module _ (J : Json) where
  pub apply_ops-mounts :
      (now : ℕ → String) (i : ℕ) (ops : List (Entry J)) (pulled : List PulledNode) (db : Db)
      → (apply_ops J now i ops pulled db).1.mounts ≡ db.mounts
  unfolding apply_ops
  apply_ops-mounts now i [] pulled db = refl
  apply_ops-mounts now i (op ∷ ops) pulled db =
      elim (Result-cases (apply_op_log_entry J (now i) op db).0) [
        | inl (e, f) ↦ ground (arith, f, mounts-apply J op db (now i))
        | inr (pre, f) ↦
            let db1 = (apply_op_log_entry J (now i) op db).1 in
            elim (Result-cases (build_pulled_node J op pre db1)) [
              | inl (e, g) ↦ ground (arith, f, g, mounts-apply J op db (now i))
              | inr (node, g) ↦ ground (
                arith,
                f,
                g,
                mounts-apply J op db (now i),
                apply_ops-mounts now (suc i) ops (pulled ++ node ∷ []) db1,
              )
            ]
      ]

  -- The cursor stored after a pull that began at `cursor`: at least that, and after a success the
  -- one that the pull returns.
  abbrev pub Settled : String → ℤ → Pull J → Type 0
  Settled f cursor none = Unit
  Settled f cursor (some (err e, db)) = cursor ≤ℤ get_cursor f db
  Settled f cursor (some (ok (seq, pulled), db)) = (cursor ≤ℤ seq) × (get_cursor f db ≡ seq)

  module _ (f : String) (b : Backend J) where
    -- Every reply but 410.
    abbrev pub NeverGone : Type 0
    NeverGone = (n : ℕ) (c : ℤ) → b.ops_reply n c ≢ gone

    Settled-weaken : (c d : ℤ) (p : Pull J) → c ≤ℤ d → Settled f d p → Settled f c p
    Settled-weaken c d none h s = tt
    Settled-weaken c d (some (err e, db)) h s = omega arith
    Settled-weaken c d (some (ok (seq, pulled), db)) h s = (omega arith, s.1)

    finish_page-Settled :
        (again : ℤ → List PulledNode → Db → Pull J) (c : ℤ) (delta : DeltaPullResponse J.Value)
        → (r : Result Error (List PulledNode) × Db)
        → ((d : ℤ) (p : List PulledNode) (db : Db)
            → get_cursor f db ≡ d
            → is_mounted f db ≡ true
            → Settled f d (again d p db))
        → c ≤ℤ delta.up_to_seq
        → get_cursor f r.1 ≡ c
        → is_mounted f r.1 ≡ true
        → Settled f c (finish_page J f b again c delta r)
    unfolding finish_page
    finish_page-Settled again c delta (err e, db) ih h g m = ground arith
    finish_page-Settled again c delta (ok pulled, db) ih h g m =
        elim (Bool-cases (is_empty J delta.ops || leb_ℤ delta.up_to_seq c)) [
          | inl e ↦ rw e (h, stored)
          | inr e ↦
              rw e (Settled-weaken c seq (again seq pulled db') h (ih seq pulled db' stored still))
        ]
      where
        seq : ℤ
        seq = delta.up_to_seq

        db' : Db
        db' = set_cursor f seq db

        stored : get_cursor f db' ≡ seq
        stored = ground (arith, get_cursor-set_cursor f f seq db, m)

        still : is_mounted f db' ≡ true
        still = is_mounted-set_cursor f f seq db ∙ m

    round-Settled :
        (again : ℤ → List PulledNode → Db → Pull J) (n : ℕ) (c : ℤ) (pulled : List PulledNode)
        (db : Db)
        → (reply : Reply (DeltaPullResponse J.Value))
        → ((d : ℤ) (p : List PulledNode) (db : Db)
            → get_cursor f db ≡ d
            → is_mounted f db ≡ true
            → Settled f d (again d p db))
        → reply ≢ gone
        → get_cursor f db ≡ c
        → is_mounted f db ≡ true
        → Settled f c (round J f b again n c pulled db reply)
    unfolding round
    round-Settled again n c pulled db gone ih h g m = absurd (h refl)
    round-Settled again n c pulled db (body delta) ih h g m =
        elim (Bool-cases (ltb_ℤ delta.up_to_seq c)) [
          | inl e ↦ rw e (rw g (≤ℤ_refl c))
          | inr e ↦
              rw e (finish_page-Settled again c delta applied ih (ground (arith, e)) cursor mounted)
        ]
      where
        applied : Result Error (List PulledNode) × Db
        applied = apply_ops J (b.now n) 0 delta.ops pulled db

        same : applied.1.mounts ≡ db.mounts
        same = apply_ops-mounts (b.now n) 0 delta.ops pulled db

        cursor : get_cursor f applied.1 ≡ c
        cursor = get_cursor-mounts f applied.1 db same ∙ g

        mounted : is_mounted f applied.1 ≡ true
        mounted = is_mounted-mounts f applied.1 db same ∙ m
    round-Settled again n c pulled db _ ih h g m = rw g (≤ℤ_refl c)

    pull_loop-Settled :
        NeverGone
        → (fuel n : ℕ) (c : ℤ) (pulled : List PulledNode) (db : Db) → get_cursor f db ≡ c
        → is_mounted f db ≡ true
        → Settled f c (pull_loop J f b fuel n c pulled db)
    unfolding pull_loop
    pull_loop-Settled never zero n c pulled db g m = tt
    pull_loop-Settled never (suc fuel) n c pulled db g m =
        round-Settled (pull_loop J f b fuel (suc n)) n c pulled db (b.ops_reply n c)
          (pull_loop-Settled never fuel (suc n)) (never n c) g m

    -- A pull of a mounted folder, where no reply is a 410, never moves the stored cursor back,
    -- whether it succeeds or fails; and after a success the stored cursor is the one it returns.
    pub pull_delta-Settled :
        (fuel : ℕ) (db : Db)
        → NeverGone
        → is_mounted f db ≡ true
        → Settled f (get_cursor f db) (pull_delta J f b fuel db)
    unfolding pull_delta
    pull_delta-Settled fuel db never m =
        pull_loop-Settled never fuel 0 (get_cursor f db) [] db refl m
