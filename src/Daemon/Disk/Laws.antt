-- ===== src/Daemon/Disk/Laws.antt =====
-- What is on disk after a change.
use valv.Base.{
  ◌≡◌, refl, ap, ◌∙◌, ◌==◌, string_eq, Bool, true, false, ◌&&◌, [], ◌∷◌, none, some, arith,
  Bool-cases, inl, inr, if◌then◌else◌,
}
use valv.Sql.{select_first, delete}
use valv.Engine.LocalPush.State.{LocalPath}
use valv.Daemon.Disk.{Entry, Disk, same_path, entry_at, clear, put}

pub same_path-≡ : (p q : LocalPath) → same_path p q ≡ true → p ≡ q
same_path-≡ [] [] h = refl
same_path-≡ [] (b ∷ q) h = ground (arith, h)
same_path-≡ (a ∷ p) [] h = ground (arith, h)
same_path-≡ (a ∷ p) (b ∷ q) h =
    let both = heads_same h in rw both.0 (ap (λ t. b ∷ t) (same_path-≡ p q both.1))
  where
    heads_same : (a == b && same_path p q) ≡ true → (a ≡ b) × (same_path p q ≡ true)
    heads_same k = ground (arith, k)

pub same_path_refl : (p : LocalPath) → same_path p p ≡ true
same_path_refl [] = refl
same_path_refl (a ∷ p) = ground (arith, same_path_refl p)

-- Two paths that are the same are interchangeable in tests.
pub same_path-test :
    (test : LocalPath → Bool) (p q : LocalPath) → same_path p q ≡ true → test p ≡ test q
same_path-test test p q h = ap test (same_path-≡ p q h)

pub entry_at-clear :
    (test : LocalPath → Bool) (q : LocalPath) (d : Disk)
    → entry_at q (clear test d) ≡ (if test q then none else entry_at q d)
unfolding select_first delete
entry_at-clear test q [] = elim (Bool-cases (test q)) [ inl t ↦ rw t refl | inr t ↦ rw t refl ]
entry_at-clear test q (r ∷ d) = elim (Bool-cases (test r.path)) [
  | inl t ↦ elim (Bool-cases (same_path q r.path)) [
    | inl s ↦
        let u = same_path-test test q r.path s ∙ t in
        rw t (rw (entry_at-clear test q d) (rw u refl))
    | inr s ↦ rw t (rw s (entry_at-clear test q d))
  ]
  | inr t ↦ elim (Bool-cases (same_path q r.path)) [
    | inl s ↦ let u = same_path-test test q r.path s ∙ t in rw t (rw s (rw u refl))
    | inr s ↦ rw t (rw s (entry_at-clear test q d))
  ]
]

pub same_path-sym : (p q : LocalPath) → same_path p q ≡ same_path q p
same_path-sym [] [] = refl
same_path-sym [] (b ∷ q) = refl
same_path-sym (a ∷ p) [] = refl
same_path-sym (a ∷ p) (b ∷ q) = ground (arith, same_path-sym p q)

pub entry_at-put :
    (p q : LocalPath) (e : Entry) (d : Disk)
    → entry_at q (put p e d) ≡ (if same_path p q then some e else entry_at q d)
unfolding select_first
entry_at-put p q e d = elim (Bool-cases (same_path q p)) [
  | inl s ↦ rw s (rw (same_path-sym p q ∙ s) refl)
  | inr s ↦
      let s' = same_path-sym p q ∙ s in
      let cleared = entry_at-clear (same_path p) q d in rw s (rw s' (rw s' at cleared))
]

pub entry_at-put_same :
    (p q : LocalPath) (e : Entry) (d : Disk)
    → same_path p q ≡ true
    → entry_at q (put p e d) ≡ some e
entry_at-put_same p q e d h = entry_at-put p q e d ∙ ap (λ b. if b then some e else entry_at q d) h

pub entry_at-put_other :
    (p q : LocalPath) (e : Entry) (d : Disk)
    → same_path p q ≡ false
    → entry_at q (put p e d) ≡ entry_at q d
entry_at-put_other p q e d h = entry_at-put p q e d ∙ ap (λ b. if b then some e else entry_at q d) h

pub entry_at-clear_other :
    (test : LocalPath → Bool) (q : LocalPath) (d : Disk)
    → test q ≡ false
    → entry_at q (clear test d) ≡ entry_at q d
entry_at-clear_other test q d h =
    entry_at-clear test q d ∙ ap (λ b. if b then none else entry_at q d) h

pub entry_at-clear_same :
    (test : LocalPath → Bool) (q : LocalPath) (d : Disk)
    → test q ≡ true
    → entry_at q (clear test d) ≡ none
entry_at-clear_same test q d h =
    entry_at-clear test q d ∙ ap (λ b. if b then none else entry_at q d) h
