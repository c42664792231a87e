-- ===== src/Daemon/Health.antt =====
-- `BackendHealth` of crates/valvd/src/main.rs and the restart of a file watcher in
-- crates/valvd/src/tasks.rs: what the daemon keeps of earlier outcomes.
use valv.Base.{
  ◌≡◌, refl, ℕ, zero, suc, ◌*◌, ◌≤◌, ◌∙◌, ap, leb, nat_eq, ◌==◌, Bool, true, false, List, [], ◌∷◌,
  arith, Bool-cases, inl, inr, if◌then◌else◌,
}

abbrev max : ℕ → ℕ → ℕ
max a b = if leb a b then b else a

abbrev min : ℕ → ℕ → ℕ
min a b = if leb a b then a else b

-- Seconds since 1970. `current_unix_seconds` is not negative.
pub record BackendHealth : Type 0 where
  pub last_success_at : ℕ
  pub last_failure_at : ℕ

unfoldable pub record_success : (now : ℕ) → BackendHealth → BackendHealth
record_success now h = record h { last_success_at = max now h.last_failure_at }

unfoldable pub record_failure : (now : ℕ) → BackendHealth → BackendHealth
record_failure now h = record h { last_failure_at = max now (suc h.last_success_at) }

unfoldable pub is_connected : BackendHealth → Bool
is_connected h = leb h.last_failure_at h.last_success_at

-- Times in milliseconds.
abbrev liveness_threshold : ℕ
liveness_threshold = 3000

abbrev initial_backoff : ℕ
initial_backoff = 1000

abbrev max_backoff : ℕ
max_backoff = 30000

unfoldable pub next_watcher_backoff : (previous lived : ℕ) → ℕ
next_watcher_backoff previous lived =
    if leb liveness_threshold lived
    then 0
    else if previous == 0
    then initial_backoff
    else min (previous * 2) max_backoff

-- An outcome of a call of the backend, and when it was recorded.
pub data Outcome : Type 0 where
  success failure : (now : ℕ) → Outcome

unfoldable pub record_outcome : Outcome → BackendHealth → BackendHealth
unfolding record_success record_failure
record_outcome (success now) h = record_success now h
record_outcome (failure now) h = record_failure now h

abbrev succeeded : Outcome → Bool
succeeded (success now) = true
succeeded (failure now) = false

unfoldable pub record_all : List Outcome → BackendHealth → BackendHealth
unfolding record_outcome
record_all [] h = h
record_all (o ∷ os) h = record_all os (record_outcome o h)

abbrev pub last_succeeded : Bool → List Outcome → Bool
last_succeeded b [] = b
last_succeeded b (o ∷ os) = last_succeeded (succeeded o) os

recorded : (o : Outcome) (h : BackendHealth) → is_connected (record_outcome o h) ≡ succeeded o
unfolding record_outcome record_success record_failure is_connected
recorded (success now) h = ground arith
recorded (failure now) h = ground arith

-- The daemon is connected exactly if the last recorded outcome was a success, whatever the clock said at
-- each of them, also where it went back.
pub connected-last :
    (os : List Outcome) (h : BackendHealth)
    → is_connected (record_all os h) ≡ last_succeeded (is_connected h) os
unfolding record_all
connected-last [] h = refl
connected-last (o ∷ os) h =
    connected-last os (record_outcome o h) ∙ ap (λ b. last_succeeded b os) (recorded o h)

-- The backoff after watchers that lived for the given times, one after the other.
unfoldable pub backoff_after : (previous : ℕ) → List ℕ → ℕ
unfolding next_watcher_backoff
backoff_after previous [] = previous
backoff_after previous (lived ∷ rest) = backoff_after (next_watcher_backoff previous lived) rest

-- How many watchers in a row, up to the last one, have lived for less than three seconds, where `k` of
-- them have ended before the list.
abbrev pub short_lives : (k : ℕ) → List ℕ → ℕ
short_lives k [] = k
short_lives k (lived ∷ rest) = short_lives (if leb 3000 lived then 0 else suc k) rest

-- A second, doubled `k` times.
abbrev pub doubled : ℕ → ℕ
doubled zero = 1000
doubled (suc k) = doubled k * 2

-- None, or a second that is doubled with each further watcher, and half a minute at most.
abbrev pub pause_for : (shorts : ℕ) → ℕ
pause_for zero = 0
pause_for (suc k) = min (doubled k) 30000

doubled-lower : (k : ℕ) → 1000 ≤ doubled k
doubled-lower zero = omega arith
doubled-lower (suc k) = let lower = doubled-lower k in omega arith

next-pause :
    (k lived : ℕ)
    → next_watcher_backoff (pause_for k) lived ≡ pause_for (if leb 3000 lived then 0 else suc k)
unfolding next_watcher_backoff nat_eq
next-pause zero lived = elim (Bool-cases (leb 3000 lived)) [ inl l ↦ rw l refl | inr l ↦ rw l refl ]
next-pause (suc k) lived = ground (arith, doubled-lower k)

backoff-from :
    (k : ℕ) (lives : List ℕ) → backoff_after (pause_for k) lives ≡ pause_for (short_lives k lives)
unfolding backoff_after
backoff-from k [] = refl
backoff-from k (lived ∷ rest) =
    ap (λ b. backoff_after b rest) (next-pause k lived)
    ∙ backoff-from (if leb 3000 lived then 0 else suc k) rest

-- After watchers that lived for the given times, the pause that `next_watcher_backoff` computes is none
-- if the last of them lived for three seconds, and else a second, doubled with each further one that
-- lived for less since the last one that did not, and half a minute at most.
pub backoff-doubles : (lives : List ℕ) → backoff_after 0 lives ≡ pause_for (short_lives 0 lives)
backoff-doubles lives = backoff-from 0 lives
