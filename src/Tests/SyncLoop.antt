-- ===== src/Tests/SyncLoop.antt =====
-- A sync loop with a change on disk.
use valv.Base.{◌≡◌, refl, string_eq, nat_eq, Bool, true, false, none, some, List, [], ◌∷◌, pos}
use valv.Daemon.Health.{next_watcher_backoff}
use valv.Daemon.SyncLoop.{
  SyncLoop, reconciled, pulled, Wake, tick, notified, deadline_reached, watcher_exited, respawn_due,
  Event, run_loop, take_wake, take_notification, handle_watcher_exit, respawn_watcher,
}
use valv.Daemon.SyncLoop.Dirty.{PushedFirst, run_loop-PushedFirst}

program : Unit {0}
unfolding string_eq nat_eq run_loop take_wake take_notification handle_watcher_exit respawn_watcher
    next_watcher_backoff
program = tt

abbrev event : Bool → Wake → Event
event paused wake = record {
  wake = wake;
  now = 500;
  paused = paused;
  has_token = true;
  has_tasks = true;
}

abbrev start : SyncLoop
start = record {
  dirty = false;
  notify_deadline = none;
  watcher = record { handle = true; spawned_at = 0; backoff = 0; respawn_at = none };
  watcher_alive = true;
  returned = false;
}

-- A pull while nothing has changed, and a reconcile after the watcher has ended.
abbrev events : List Event
events =
    event false (notified (some ("f", pos 7)))
    ∷ event false deadline_reached
    ∷ event false watcher_exited
    ∷ event true tick
    ∷ event false respawn_due
    ∷ event false tick
    ∷ []

actions : (run_loop "f" events start).1 ≡ pulled ∷ reconciled ∷ []
unfolding program
actions = refl

run_loop-PushedFirst_example : PushedFirst (run_loop "f" events (record start { dirty = true }))
run_loop-PushedFirst_example = run_loop-PushedFirst "f" events (record start { dirty = true }) refl
