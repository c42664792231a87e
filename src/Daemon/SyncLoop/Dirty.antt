-- ===== src/Daemon/SyncLoop/Dirty.antt =====
-- A change on disk is pushed before a pull can overwrite it.
use valv.Base.{
  ◌≡◌, refl, String, ◌==◌, string_eq, nat_eq, ℕ, ◌-◌, Bool, true, false, ◌&&◌, List, [], ◌∷◌, ◌++◌,
  Option, none, some, ℤ, pos, leb_ℤ, inl, inr, Bool-cases, if◌then◌else◌,
}
use valv.Daemon.SyncLoop.{
  SyncLoop, Action, reconciled, pulled, Wake, tick, notified, deadline_reached, dirty_notified,
  watcher_exited, respawn_due, marked, Event, respawn_watcher, handle_watcher_exit, respawn_or_wait,
  take_notification, periodic, after_dirty, reach_deadline, reach_respawn, take_wake, step_loop,
  run_loop, without_handle, back_off, mark,
}

-- Still dirty with nothing done, or a reconcile as the first action.
abbrev pub PushedFirst : SyncLoop × List Action → Type 0
PushedFirst (s, []) = s.dirty ≡ true
PushedFirst (s, reconciled ∷ rest) = Unit
PushedFirst (s, pulled ∷ rest) = ⊥

respawn_watcher-dirty :
    (e : Event) (s : SyncLoop) → s.dirty ≡ true → (respawn_watcher e s).dirty ≡ true
unfolding respawn_watcher
respawn_watcher-dirty e s h = elim (Bool-cases e.has_token) [
  | inl q ↦ elim (Bool-cases e.has_tasks) [ inl t ↦ rw q (rw t refl) | inr t ↦ rw q (rw t h) ]
  | inr q ↦ rw q h
]

respawn_or_wait-dirty :
    (e : Event) (s : SyncLoop) → s.dirty ≡ true → (respawn_or_wait e s).dirty ≡ true
respawn_or_wait-dirty e s h = elim (Bool-cases (s.watcher.backoff == 0)) [
  | inl q ↦ rw q (respawn_watcher-dirty e s h)
  | inr q ↦ rw q h
]

take_notification-dirty :
    (folder_id : String) (now : ℕ) (n : Option (String × ℤ)) (s : SyncLoop)
    → s.dirty ≡ true
    → (take_notification folder_id now n s).dirty ≡ true
unfolding take_notification
take_notification-dirty folder_id now none s h = h
take_notification-dirty folder_id now (some (folder, seq)) s h =
    elim (Bool-cases (folder == folder_id)) [
      | inr q ↦ rw q h
      | inl q ↦ elim (Bool-cases (leb_ℤ seq (pos 0) && leb_ℤ (pos 0) seq)) [
        | inl t ↦ rw q (rw t refl)
        | inr t ↦ rw q (rw t h)
      ]
    ]

periodic-PushedFirst :
    (paused : Bool) (s : SyncLoop) → s.dirty ≡ true → PushedFirst (periodic paused s)
periodic-PushedFirst true s h = h
periodic-PushedFirst false s h = rw h tt

after_dirty-PushedFirst :
    (paused : Bool) (s : SyncLoop) → s.dirty ≡ true → PushedFirst (after_dirty paused s)
after_dirty-PushedFirst true s h = h
after_dirty-PushedFirst false s h = rw h tt

deadline-PushedFirst :
    (paused : Bool) (s : SyncLoop) (deadline : Option ℕ)
    → s.dirty ≡ true
    → PushedFirst (reach_deadline paused s deadline)
deadline-PushedFirst paused s none h = h
deadline-PushedFirst paused s (some d) h =
    periodic-PushedFirst paused (record s { notify_deadline = none }) h

reach_respawn-dirty :
    (e : Event) (s : SyncLoop) (due : Option ℕ)
    → s.dirty ≡ true
    → (reach_respawn e s due).dirty ≡ true
reach_respawn-dirty e s none h = h
reach_respawn-dirty e s (some t) h =
    respawn_watcher-dirty e (record s { watcher = record s.watcher { respawn_at = none } }) h

wake-PushedFirst :
    (folder_id : String) (e : Event) (w : Wake) (s : SyncLoop)
    → s.dirty ≡ true
    → PushedFirst (take_wake folder_id e w s)
unfolding take_wake handle_watcher_exit
wake-PushedFirst folder_id e tick s h = periodic-PushedFirst e.paused s h
wake-PushedFirst folder_id e (notified n) s h = take_notification-dirty folder_id e.now n s h
wake-PushedFirst folder_id e deadline_reached s h =
    deadline-PushedFirst e.paused s s.notify_deadline h
wake-PushedFirst folder_id e dirty_notified s h = after_dirty-PushedFirst e.paused s h
wake-PushedFirst folder_id e watcher_exited s h = elim (Bool-cases s.watcher.handle) [
  | inl q ↦ rw q (
      respawn_or_wait-dirty e
        (without_handle
          (back_off (e.now - s.watcher.spawned_at) (mark (record s { watcher_alive = false }))))
        refl)
  | inr q ↦ rw q h
]
wake-PushedFirst folder_id e respawn_due s h = reach_respawn-dirty e s s.watcher.respawn_at h
wake-PushedFirst folder_id e marked s h = refl

step_loop-PushedFirst :
    (folder_id : String) (e : Event) (s : SyncLoop)
    → s.dirty ≡ true
    → PushedFirst (step_loop folder_id e s)
step_loop-PushedFirst folder_id e s h = split s.returned
  where
    split : (b : Bool) → PushedFirst (if b then (s, []) else take_wake folder_id e e.wake s)
    split true = h
    split false = wake-PushedFirst folder_id e e.wake s h

-- Once a mount is dirty, the first thing that the loop does with it is a reconcile, and until then it
-- stays dirty: no order of ticks, notifications, pauses and restarts of the watcher makes the loop pull
-- it before.
pub run_loop-PushedFirst :
    (folder_id : String) (es : List Event) (s : SyncLoop)
    → s.dirty ≡ true
    → PushedFirst (run_loop folder_id es s)
unfolding run_loop
run_loop-PushedFirst folder_id [] s h = h
run_loop-PushedFirst folder_id (e ∷ es) s h =
    joined (step_loop folder_id e s) (step_loop-PushedFirst folder_id e s h)
      (λ s' h'. run_loop-PushedFirst folder_id es s' h')
  where
    joined :
        (r : SyncLoop × List Action)
        → PushedFirst r
        → ((s' : SyncLoop) → s'.dirty ≡ true → PushedFirst (run_loop folder_id es s'))
        → PushedFirst ((run_loop folder_id es r.0).0, r.1 ++ (run_loop folder_id es r.0).1)
    joined (s', []) k rest = rest s' k
    joined (s', reconciled ∷ done) k rest = tt
    joined (s', pulled ∷ done) k rest = k
