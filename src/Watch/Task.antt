-- ===== src/Watch/Task.antt =====
-- The task of crates/valv-sync/src/watch/mod.rs that reads the events of a mount, and the callback that
-- sends them. An act is a stretch that runs without a wait: one of the callback, of the task between two
-- of its waits, or of someone else who writes a shared flag. Any order of acts is possible.
pub mod Owed
pub mod Batch
use valv.Base.{
  Bool, true, false, ◌||◌, List, [], ◌∷◌, ◌++◌, Option, none, some, is_some, if◌then◌else◌,
}
use valv.Base.Exec.{Exec}
use valv.Base.Result.{Result, ok, err}
use valv.Errors.{Error, UpdateRequired, is_update_required}
use valv.Watch.Events.{
  FsEvent, WatchSignal, event, dirty, NotifyEvent, map_notify_event,
  should_mark_suppressed_during_pause, collapse_events,
}

-- Where the task stands: at the head of its loop, in the wait after a pause, before an event, in the
-- wait for the rest of a batch, before the lock of the mount, after the batch, or at its end.
pub data Stage : Type 0 where
  at_head settling receiving : Stage
  collecting : FsEvent → Stage
  locking : List FsEvent → Stage
  answered : Result Error Bool → Stage
  closed : Stage

-- The channel holds 256 events, and its sender waits for room, so nothing is lost there. `world` is what
-- the handlers of the events change.
pub record Watcher (S : Type 0) : Type 0 where
  pub stage : Stage
  pub channel : List FsEvent
  pub dropped_paused_events : Bool
  pub suppressed_during_pause : Bool
  pub needs_reconcile : Bool
  pub update_required : Bool
  pub paused : Bool
  pub fs_events_paused : Bool
  pub world : S

-- `none` is an error of the notify crate. `take_dirty` is the sync loop's, and `disconnected` the end of
-- the sender.
pub data Act : Type 0 where
  notify : Option NotifyEvent → Act
  set_paused set_fs_events_paused set_update_required : Bool → Act
  take_dirty disconnected turn : Act

module _ {S : Type 0} where
  abbrev pub is_paused : Watcher S → Bool
  is_paused w = w.paused || w.fs_events_paused

  abbrev deliver : Option WatchSignal → Watcher S → Watcher S
  deliver (some (event e)) w = record w { channel = w.channel ++ (e ∷ []) }
  deliver (some dirty) w = record w { needs_reconcile = true }
  deliver none w = w

  abbrev suppress : Option WatchSignal → Watcher S → Watcher S
  suppress signal w =
      if should_mark_suppressed_during_pause w.paused w.fs_events_paused signal
      then record w { suppressed_during_pause = true }
      else w

  -- The callback of `watch_mount`.
  unfoldable pub on_notify : Option NotifyEvent → Watcher S → Watcher S
  unfolding map_notify_event should_mark_suppressed_during_pause
  on_notify none w = w
  on_notify (some e) w =
      if is_paused w then suppress (map_notify_event e) w else deliver (map_notify_event e) w

  unfoldable pub drain_pending_events : Watcher S → Watcher S
  drain_pending_events w = record w { channel = [] }

  abbrev go : Stage → Watcher S → Watcher S
  go stage w = record w { stage = stage }

  module _ (handle_fs_event : FsEvent → Exec S Error Unit) where
    abbrev pub stop_on :
        Option UpdateRequired → Error → S → Watcher S → Result Error Bool × Watcher S
    stop_on (some u) error world w = (ok false, record w { update_required = true; world = world })
    stop_on none error world w = (err error, record w { world = world })

    -- The loop of `handle_fs_events`.
    unfoldable pub handle_each : List FsEvent → Watcher S → Result Error Bool × Watcher S
    unfolding is_update_required
    handle_each [] w = (ok true, w)
    handle_each (e ∷ es) w =
        let (r, world) = handle_fs_event e w.world in
        elim r [
          | ok u ↦ handle_each es (record w { world = world })
          | err error ↦ stop_on (is_update_required error) error world w
        ]

    unfoldable pub handle_fs_events : List FsEvent → Watcher S → Result Error Bool × Watcher S
    unfolding handle_each
    handle_fs_events events w = if w.update_required then (ok false, w) else handle_each events w

    abbrev at_loop_head : Watcher S → Watcher S
    at_loop_head w =
        if w.update_required
        then drain_pending_events w
        else if is_paused w
        then record (drain_pending_events w) { dropped_paused_events = true }
        else if w.dropped_paused_events
        then go settling w
        else go receiving w

    -- `swap(false)`, and the mark.
    abbrev pub report_suppressed : Watcher S → Watcher S
    report_suppressed w =
        if w.suppressed_during_pause
        then record w { suppressed_during_pause = false; needs_reconcile = true }
        else w

    abbrev leave_pause : Watcher S → Watcher S
    leave_pause w =
        report_suppressed
          (record (drain_pending_events w) { dropped_paused_events = false; stage = at_head })

    abbrev receive : List FsEvent → Watcher S → Watcher S
    receive [] w = w
    receive (e ∷ es) w = record w { channel = es; stage = collecting e }

    -- The end of `debounce_next_batch`, and the second look at the flags.
    abbrev collected : List FsEvent → Watcher S → Watcher S
    collected events w =
        if is_paused w
        then record w { channel = []; dropped_paused_events = true; stage = at_head }
        else record w { channel = []; stage = locking events }

    abbrev handled : Result Error Bool × Watcher S → Watcher S
    handled (outcome, w) = go (answered outcome) w

    abbrev finish_batch : Result Error Bool → Watcher S → Watcher S
    finish_batch (ok true) w = go at_head w
    finish_batch (ok false) w = go at_head (drain_pending_events w)
    finish_batch (err error) w =
        go at_head (drain_pending_events (record w { needs_reconcile = true }))

    module _ (order : List FsEvent → List FsEvent) where
      -- The task from one wait to the next.
      unfoldable pub fs_watch_task : Stage → Watcher S → Watcher S
      unfolding drain_pending_events handle_fs_events collapse_events
      fs_watch_task at_head w = at_loop_head w
      fs_watch_task settling w = leave_pause w
      fs_watch_task receiving w = receive w.channel w
      fs_watch_task (collecting e) w = collected (collapse_events order (e ∷ w.channel)) w
      fs_watch_task (locking events) w = handled (handle_fs_events events w)
      fs_watch_task (answered outcome) w = finish_batch outcome w
      fs_watch_task closed w = w

      -- `recv` gives the events that are left before it gives `none`.
      abbrev end_if_empty : Stage → List FsEvent → Watcher S → Watcher S
      end_if_empty receiving [] w = go closed w
      end_if_empty _ _ w = w

      unfoldable pub step_watch : Act → Watcher S → Watcher S
      unfolding on_notify fs_watch_task
      step_watch (notify e) w = on_notify e w
      step_watch (set_paused b) w = record w { paused = b }
      step_watch (set_fs_events_paused b) w = record w { fs_events_paused = b }
      step_watch (set_update_required b) w = record w { update_required = b }
      step_watch take_dirty w = record w { needs_reconcile = false }
      step_watch disconnected w = end_if_empty w.stage w.channel w
      step_watch turn w = fs_watch_task w.stage w

      unfoldable pub run_watch : List Act → Watcher S → Watcher S
      unfolding step_watch
      run_watch [] w = w
      run_watch (a ∷ acts) w = run_watch acts (step_watch a w)
