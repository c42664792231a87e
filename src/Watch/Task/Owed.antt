-- ===== src/Watch/Task/Owed.antt =====
-- A change during a pause is owed to the sync loop until the mount is marked.
use valv.Base.{
  ◌≡◌, refl, Bool, true, false, ◌||◌, List, [], ◌∷◌, Option, none, some, All, arith, inl, inr,
  Option-cases,
}
use valv.Base.Exec.{Exec}
use valv.Base.Result.{ok, err, Result-cases}
use valv.Errors.{Error, is_update_required}
use valv.Watch.Events.{
  FsEvent, WatchSignal, event, dirty, NotifyEvent, map_notify_event,
  should_mark_suppressed_during_pause,
}
use valv.Watch.Task.{
  Stage, at_head, settling, receiving, collecting, locking, answered, closed, Watcher, Act, notify,
  set_paused, set_fs_events_paused, set_update_required, take_dirty, disconnected, turn, on_notify,
  handle_each, handle_fs_events, fs_watch_task, step_watch, run_watch,
}

-- Every act but that of the sync loop, which takes the mark.
abbrev pub is_take : Act → Bool
is_take take_dirty = true
is_take (notify e) = false
is_take (set_paused b) = false
is_take (set_fs_events_paused b) = false
is_take (set_update_required b) = false
is_take disconnected = false
is_take turn = false

abbrev pub owed : {S : Type 0} → Watcher S → Bool
owed w = w.suppressed_during_pause || w.needs_reconcile

noted_at :
    {S : Type 0} (w : Watcher S) (e : NotifyEvent) (signal : WatchSignal)
    → map_notify_event e ≡ some signal
    → w.paused ≡ true
    → w.fs_events_paused ≡ false
    → owed (on_notify (some e) w) ≡ true
unfolding on_notify should_mark_suppressed_during_pause
noted_at w e signal m p f = ground (arith, m, p, f)

module _ {S : Type 0} (handle : FsEvent → Exec S Error Unit)
    (order : List FsEvent → List FsEvent) where
  -- The handlers leave the two marks as they are.
  handle_each-marks :
      (es : List FsEvent) (w : Watcher S)
      → ((handle_each handle es w).1.suppressed_during_pause ≡ w.suppressed_during_pause)
        × ((handle_each handle es w).1.needs_reconcile ≡ w.needs_reconcile)
  unfolding handle_each
  handle_each-marks [] w = (refl, refl)
  handle_each-marks (e ∷ es) w = elim (Result-cases (handle e w.world).0) [
    | inl (x, q) ↦ ground (arith, q, Option-cases (is_update_required x))
    | inr (u, q) ↦
        ground (arith, q, handle_each-marks es (record w { world = (handle e w.world).1 }))
  ]

  on_notify-owed :
      (e : Option NotifyEvent) (w : Watcher S) → owed w ≡ true → owed (on_notify e w) ≡ true
  unfolding on_notify
  on_notify-owed none w h = h
  on_notify-owed (some e) w h = elim (Option-cases (map_notify_event e)) [
    | inl q ↦ ground (arith, q)
    | inr (event x, q) ↦ ground (arith, q)
    | inr (dirty, q) ↦ ground (arith, q)
  ]

  task-owed :
      (stage : Stage) (w : Watcher S)
      → owed w ≡ true
      → owed (fs_watch_task handle order stage w) ≡ true
  unfolding fs_watch_task handle_fs_events
  task-owed at_head w h = ground arith
  task-owed settling w h = ground arith
  task-owed receiving w h = ground arith
  task-owed (collecting e) w h = ground arith
  task-owed (locking events) w h = ground (arith, handle_each-marks events w)
  task-owed (answered (ok b)) w h = ground arith
  task-owed (answered (err x)) w h = ground arith
  task-owed closed w h = h

  step-owed :
      (a : Act) (w : Watcher S)
      → is_take a ≡ false
      → owed w ≡ true
      → owed (step_watch handle order a w) ≡ true
  unfolding step_watch
  step-owed (notify e) w n h = on_notify-owed e w h
  step-owed (set_paused b) w n h = h
  step-owed (set_fs_events_paused b) w n h = h
  step-owed (set_update_required b) w n h = h
  step-owed take_dirty w n h = ground arith
  step-owed disconnected w n h = ground arith
  step-owed turn w n h = task-owed w.stage w h

  run-owed :
      (acts : List Act) (w : Watcher S)
      → All (λ a. is_take a ≡ false) acts
      → owed w ≡ true
      → owed (run_watch handle order acts w) ≡ true
  unfolding run_watch
  run-owed [] w n h = h
  run-owed (a ∷ acts) w (n, ns) h =
      run-owed acts (step_watch handle order a w) ns (step-owed a w n h)

  settling-marks :
      (stage : Stage) (w : Watcher S)
      → stage ≡ settling
      → owed w ≡ true
      → (fs_watch_task handle order stage w).needs_reconcile ≡ true
  unfolding fs_watch_task
  settling-marks settling w s h = ground arith
  settling-marks at_head w s h = ground arith
  settling-marks receiving w s h = ground arith
  settling-marks (collecting e) w s h = ground arith
  settling-marks (locking events) w s h = ground arith
  settling-marks (answered r) w s h = ground arith
  settling-marks closed w s h = ground arith

  -- A change that is reported while the user has paused the daemon, and not while it writes files
  -- itself, is owed after any acts that follow, in any order, as long as the sync loop does not take
  -- the mark: it is noted in the watcher, or the mount is marked. If the task then stands in the wait
  -- after a pause that it has seen, its next step marks the mount.
  pub suppressed-Owed :
      (w : Watcher S) (e : NotifyEvent) (signal : WatchSignal) (acts : List Act)
      → map_notify_event e ≡ some signal
      → w.paused ≡ true
      → w.fs_events_paused ≡ false
      → All (λ a. is_take a ≡ false) acts
      → (owed (run_watch handle order acts (on_notify (some e) w)) ≡ true)
        × ((run_watch handle order acts (on_notify (some e) w)).stage ≡ settling
            → (run_watch handle order
                (turn ∷ [])
                (run_watch handle order acts (on_notify (some e) w))).needs_reconcile
              ≡ true)
  unfolding run_watch step_watch
  suppressed-Owed w e signal acts m p f n =
      let noted = noted_at w e signal m p f in
      let later = run-owed acts (on_notify (some e) w) n noted in
      let end = run_watch handle order acts (on_notify (some e) w) in
      (later, λ s. settling-marks end.stage end s later)
