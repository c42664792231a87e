-- ===== src/Update/Swap/Cases.antt =====
-- The replacement of one binary, by the call of the file system that fails.
use mathlib.Core.Path.{subst}
use valv.Base.{
  ◌≡◌, ◌⊎◌, refl, sym, string_eq, ℕ, ◌≤◌, suc, Bool, true, false, none, some, arith, inl, inr,
  Bool-cases,
}
use valv.Base.Exec.{Exec}
use valv.Base.Result.{Result, ok, err}
use valv.Errors.{Error, io}
use valv.Update.Swap.{
  FilePath, Binary, Install, same_file, rename_atomic, set_executable, restore_binary,
  replace_binary, put_file, tick,
}

-- At most one call of the file system fails.
abbrev pub FailsOnce : (ℕ → Bool) → Type 0
FailsOnce fails = (m n : ℕ) → fails m ≡ true → fails n ≡ true → m ≡ n

-- No call from the given one on fails.
abbrev pub QuietFrom : (ℕ → Bool) → ℕ → Type 0
QuietFrom fails k = (n : ℕ) → k ≤ n → fails n ≡ false

once-quiet :
    (fails : ℕ → Bool) (k m : ℕ) → FailsOnce fails → fails k ≡ true → suc k ≤ m → QuietFrom fails m
once-quiet fails k m once f l n h = elim (Bool-cases (fails n)) [
  | inl g ↦ absurd (omega (arith, once k n f g))
  | inr g ↦ g
]

abbrev Apart : (p q : FilePath) → Type 0
Apart p q = same_file p q ≡ false

module _ (fails : ℕ → Bool) where
  pub rename-fails :
      (from to : FilePath) (s : Install)
      → fails s.calls ≡ true
      → rename_atomic fails from to s ≡ (err io, tick s)
  unfolding rename_atomic
  rename-fails from to s f = rw f refl

  pub rename-moves :
      (from to : FilePath) (s : Install) (b : Binary)
      → fails s.calls ≡ false
      → s.files from ≡ some b
      → rename_atomic fails from to s ≡ (ok tt, put_file to (some b) (put_file from none (tick s)))
  unfolding rename_atomic
  rename-moves from to s b f e = rw f (rw e refl)

  executable-fails :
      (p : FilePath) (s : Install)
      → fails s.calls ≡ true
      → set_executable fails p s ≡ (err io, tick s)
  unfolding set_executable
  executable-fails p s f = rw f refl

  executable-sets :
      (p : FilePath) (s : Install) (b : Binary)
      → fails s.calls ≡ false
      → s.files p ≡ some b
      → set_executable fails p s
        ≡ (ok tt, put_file p (some (record b { executable = true })) (tick s))
  unfolding set_executable
  executable-sets p s b f e = rw f (rw e refl)

-- The paths of one binary, and a path that has nothing to do with it.
module _ (fails : ℕ → Bool) (once : FailsOnce fails) (current backup staged : FilePath)
    (undo : Exec Install Error Unit) (s : Install) (old new : Binary)
    (cb : same_file current backup ≡ false) (bc : same_file backup current ≡ false)
    (sc : same_file staged current ≡ false) (cs : same_file current staged ≡ false)
    (bs : same_file backup staged ≡ false) (sb : same_file staged backup ≡ false)
    (cc' : same_file current current ≡ true) (bb : same_file backup backup ≡ true)
    (installed : s.files current ≡ some old) (unpacked : s.files staged ≡ some new) where
  -- The state before `undo`.
  abbrev Restored : Install → Type 0
  Restored t =
      (t.files current ≡ some old)
      × ((q : FilePath) → Apart current q → Apart backup q → Apart staged q → t.files q ≡ s.files q)
      × QuietFrom fails t.calls

  abbrev Replaced : Install → Type 0
  Replaced t =
      (t.files current ≡ some (record new { executable = true }))
      × (t.files backup ≡ some old)
      × ((q : FilePath) → Apart current q → Apart backup q → Apart staged q → t.files q ≡ s.files q)

  abbrev Outcome : Result Error Unit × Install → Type 0
  Outcome r =
      ((r.0 ≡ ok tt) × Replaced r.1)
      ⊎ ((e : Error) × (r.0 ≡ err e) × ((t : Install) × (r.1 ≡ (undo t).1) × Restored t))

  -- After each of the first two steps.
  abbrev moved : Install
  moved = put_file backup (some old) (put_file current none (tick s))

  abbrev placed : Install
  placed = put_file current (some new) (put_file staged none (tick moved))

  abbrev put_back : Install → Install
  put_back t = put_file current (some old) (put_file backup none (tick t))

  first-fails :
      fails s.calls ≡ true
      → replace_binary fails current backup staged undo s ≡ (err io, (undo (tick s)).1)
  unfolding replace_binary
  first-fails f = rw (rename-fails fails current backup s f) refl

  first : fails s.calls ≡ false → rename_atomic fails current backup s ≡ (ok tt, moved)
  first f = rename-moves fails current backup s old f installed

  moved-staged : moved.files staged ≡ some new
  moved-staged = rw (bs, cs) unpacked

  placed-backup : placed.files backup ≡ some old
  placed-backup = rw (cb, sb, bb) refl

  second-fails :
      fails s.calls ≡ false
      → fails (suc s.calls) ≡ true
      → replace_binary fails current backup staged undo s
        ≡ (err io, (undo (put_back (tick moved))).1)
  unfolding replace_binary restore_binary
  second-fails f g =
      rw
        (
          first f,
          rename-fails fails staged current moved g,
          rename-moves fails backup current (tick moved) old
              (once-quiet fails (suc s.calls) (suc (suc s.calls)) once g (omega arith)
                (suc (suc s.calls)) (omega arith))
              (rw bb refl),
        )
        refl

  abbrev calls_3 : ℕ
  calls_3 = suc (suc (suc s.calls))

  third-fails :
      fails s.calls ≡ false
      → fails (suc s.calls) ≡ false
      → fails (suc (suc s.calls)) ≡ true
      → replace_binary fails current backup staged undo s
        ≡ (err io, (undo (put_back (tick placed))).1)
  unfolding replace_binary restore_binary
  third-fails f g h =
      rw
        (
          first f,
          rename-moves fails staged current moved new g moved-staged,
          executable-fails fails current placed h,
          rename-moves fails backup current (tick placed) old
              (once-quiet fails (suc (suc s.calls)) calls_3 once h (omega arith) calls_3
                (omega arith))
              placed-backup,
        )
        refl

  none-fails :
      fails s.calls ≡ false
      → fails (suc s.calls) ≡ false
      → fails (suc (suc s.calls)) ≡ false
      → replace_binary fails current backup staged undo s
        ≡ (ok tt, put_file current (some (record new { executable = true })) (tick placed))
  unfolding replace_binary
  none-fails f g h =
      rw
        (
          first f,
          rename-moves fails staged current moved new g moved-staged,
          executable-sets fails current placed new h (rw cc' refl),
        )
        refl

  put_back-Restored :
      (t : Install) (k : ℕ)
      → fails k ≡ true
      → suc k ≤ suc t.calls
      → ((q : FilePath) → Apart current q → Apart backup q → Apart staged q → t.files q ≡ s.files q)
      → Restored (put_back t)
  put_back-Restored t k f h keeps = (
    rw cc' refl,
    (λ q a b c. rw (a, b) (keeps q a b c)),
    once-quiet fails k (suc t.calls) once f h,
  )

  pub replace_binary-Outcome : Outcome (replace_binary fails current backup staged undo s)
  replace_binary-Outcome = elim (Bool-cases (fails s.calls)) [
    | inl f ↦ subst Outcome (sym (first-fails f)) (
        inr (
          io,
          refl,
          (
            tick s,
            refl,
            (
              installed,
              (λ q a b c. refl),
              once-quiet fails s.calls (suc s.calls) once f (omega arith),
            ),
          ),
        ))
    | inr f ↦ elim (Bool-cases (fails (suc s.calls))) [
      | inl g ↦ subst Outcome (sym (second-fails f g)) (
          inr (
            io,
            refl,
            (
              put_back (tick moved),
              refl,
              put_back-Restored (tick moved) (suc s.calls) g (omega arith)
                  (λ q a b c. rw (b, a) refl),
            ),
          ))
      | inr g ↦ elim (Bool-cases (fails (suc (suc s.calls)))) [
        | inl h ↦ subst Outcome (sym (third-fails f g h)) (
            inr (
              io,
              refl,
              (
                put_back (tick placed),
                refl,
                put_back-Restored (tick placed) (suc (suc s.calls)) h (omega arith)
                    (λ q a b c. rw (a, c, b) refl),
              ),
            ))
        | inr h ↦
            subst Outcome (sym (none-fails f g h))
              (inl (refl, (rw cc' refl, (rw (cb, sb, bb) refl), (λ q a b c. rw (a, c, b) refl))))
      ]
    ]
  ]
