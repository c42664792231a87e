-- ===== src/Watch/Task/Batch.antt =====
-- What becomes of a batch.
use mathlib.Core.Path.{subst}
use valv.Base.{
  ◌≡◌, ◌⊎◌, refl, sym, Bool, true, false, List, [], ◌∷◌, map, Option, none, some, arith, inl, inr,
  Option-cases,
}
use valv.Base.Exec.{Exec}
use valv.Base.Result.{Result, ok, err, Result-cases}
use valv.Errors.{Error, is_update_required}
use valv.Watch.Events.{FsEvent, event, dirty, NotifyEvent, map_notify_event}
use valv.Watch.Task.{
  locking, answered, Watcher, notify, turn, on_notify, handle_each, handle_fs_events, fs_watch_task,
  step_watch, run_watch,
}

module _ {S : Type 0} (handle : FsEvent → Exec S Error Unit) where
  -- The handlers of all the events, one after the other, where none of them fails.
  abbrev pub handles_all : List FsEvent → S → Option S
  handles_all [] world = some world
  handles_all (e ∷ es) world =
      let (r, world') = handle e world in elim r [ ok u ↦ handles_all es world' | err x ↦ none ]

  -- What a batch has come to when the task goes on.
  abbrev pub Accounted : List FsEvent → S → Watcher S → Type 0
  Accounted events world w =
      (handles_all events world ≡ some w.world)
      ⊎ ((w.update_required ≡ true) ⊎ (w.needs_reconcile ≡ true))

  -- The same, before the answer is looked at.
  abbrev Pending : List FsEvent → S → Result Error Bool → Watcher S → Type 0
  Pending events world r w =
      (Path (Result Error Bool) r (ok true) → handles_all events world ≡ some w.world)
      × (Path (Result Error Bool) r (ok false) → w.update_required ≡ true)

  handle_each-Pending :
      (es : List FsEvent) (w : Watcher S)
      → Pending es w.world (handle_each handle es w).0 (handle_each handle es w).1
  unfolding handle_each
  handle_each-Pending [] w = ground arith
  handle_each-Pending (e ∷ es) w = elim (Result-cases (handle e w.world).0) [
    | inl (x, q) ↦ ground (arith, q, Option-cases (is_update_required x))
    | inr (u, q) ↦
        ground (arith, q, handle_each-Pending es (record w { world = (handle e w.world).1 }))
  ]

  handle_fs_events-Pending :
      (es : List FsEvent) (w : Watcher S)
      → Pending es w.world (handle_fs_events handle es w).0 (handle_fs_events handle es w).1
  unfolding handle_fs_events
  handle_fs_events-Pending es w = ground (arith, handle_each-Pending es w)

  module _ (order : List FsEvent → List FsEvent) where
    notify-frame :
        (e : Option NotifyEvent) (w : Watcher S)
        → ((on_notify e w).world ≡ w.world)
          × ((on_notify e w).stage ≡ w.stage)
          × ((on_notify e w).update_required ≡ w.update_required)
    unfolding on_notify
    notify-frame none w = (refl, refl, refl)
    notify-frame (some e) w = elim (Option-cases (map_notify_event e)) [
      | inl q ↦ ground (arith, q)
      | inr (event x, q) ↦ ground (arith, q)
      | inr (dirty, q) ↦ ground (arith, q)
    ]

    arrivals-frame :
        (arrived : List (Option NotifyEvent)) (w : Watcher S)
        → ((run_watch handle order (map notify arrived) w).world ≡ w.world)
          × ((run_watch handle order (map notify arrived) w).stage ≡ w.stage)
          × ((run_watch handle order (map notify arrived) w).update_required ≡ w.update_required)
    unfolding run_watch step_watch
    arrivals-frame [] w = (refl, refl, refl)
    arrivals-frame (e ∷ arrived) w =
        ground (arith, notify-frame e w, arrivals-frame arrived (on_notify e w))

    answer-Accounted :
        (events : List FsEvent) (world : S) (r : Result Error Bool) (w w' : Watcher S)
        → Pending events world r w
        → w'.world ≡ w.world
        → w'.update_required ≡ w.update_required
        → Accounted events world (fs_watch_task handle order (answered r) w')
    unfolding fs_watch_task
    answer-Accounted events world (ok true) w w' p f u = inl (rw f (p.0 refl))
    answer-Accounted events world (ok false) w w' p f u = inr (inl (rw u (p.1 refl)))
    answer-Accounted events world (err x) w w' p f u = inr (inr refl)

    -- A task that waits for the lock of the mount with a batch, after the second look at the pause,
    -- takes the lock, handles the batch and goes on. Whatever notifications arrive while it does, then
    -- the handlers of all the events have run one after the other and none has failed, or the mount is
    -- halted for an update, or it is marked for a reconcile.
    pub batch-Accounted :
        (events : List FsEvent) (arrived : List (Option NotifyEvent)) (w : Watcher S)
        → w.stage ≡ locking events
        → Accounted events w.world (
            run_watch handle order
              (turn ∷ [])
              (run_watch handle order (map notify arrived) (run_watch handle order (turn ∷ []) w)))
    unfolding run_watch step_watch fs_watch_task
    batch-Accounted events arrived w s =
        let held = (handle_fs_events handle events w).1 in
        let answer = (handle_fs_events handle events w).0 in
        let before = record held { stage = answered answer } in
        let frame = arrivals-frame arrived before in
        let after = run_watch handle order (map notify arrived) before in
        let moved =
          answer-Accounted events w.world answer held after (handle_fs_events-Pending events w)
            frame.0 frame.2 in
        subst
          (λ stage. Accounted events w.world (
            step_watch handle order turn
              (run_watch handle order (map notify arrived) (fs_watch_task handle order stage w))))
          (sym s)
          (subst (λ stage. Accounted events w.world (fs_watch_task handle order stage after))
            (sym frame.1) moved)
