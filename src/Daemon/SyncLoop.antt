-- ===== src/Daemon/SyncLoop.antt =====
-- `sync_loop` of crates/valvd/src/tasks.rs: what wakes it, and what it does then. A wake is an argument,
-- so the order of the wakes is arbitrary; times are in milliseconds.
pub mod Dirty
use valv.Base.{
  String, ◌==◌, string_eq, nat_eq, ℕ, ◌+◌, ◌-◌, Bool, true, false, List, [], ◌∷◌, ◌++◌, Option,
  none, some, ℤ, pos, leb_ℤ, ◌&&◌, if◌then◌else◌,
}
use valv.Daemon.Health.{next_watcher_backoff}

-- `handle` says whether the watcher has a task.
pub record WatcherState : Type 0 where
  pub handle : Bool
  pub spawned_at : ℕ
  pub backoff : ℕ
  pub respawn_at : Option ℕ

-- The locals of the loop, the dirty signal, which it shares with the watcher, and whether it has
-- returned.
pub record SyncLoop : Type 0 where
  pub dirty : Bool
  pub notify_deadline : Option ℕ
  pub watcher : WatcherState
  pub watcher_alive : Bool
  pub returned : Bool

-- `reconciled` is a call of `reconcile_mount`, `pulled` one of `pull_mount_once`.
pub data Action : Type 0 where
  reconciled pulled : Action

-- The arms of the `select!`, and a mark by someone else, which may come at any time. A notification is
-- its folder and its log number, and `none` is a closed channel.
pub data Wake : Type 0 where
  tick : Wake
  notified : Option (String × ℤ) → Wake
  deadline_reached : Wake
  dirty_notified : Wake
  watcher_exited : Wake
  respawn_due : Wake
  marked : Wake

-- A wake, and what the loop finds then: the clock, whether the daemon is paused, whether the mount has a
-- credential, and whether it is still in the table of tasks.
pub record Event : Type 0 where
  pub wake : Wake
  pub now : ℕ
  pub paused : Bool
  pub has_token : Bool
  pub has_tasks : Bool

abbrev mark : SyncLoop → SyncLoop
mark s = record s { dirty = true }

abbrev wait_for_respawn : (now : ℕ) → SyncLoop → SyncLoop
wait_for_respawn now s = record s {
  watcher = record s.watcher { respawn_at = some (now + s.watcher.backoff) };
}

abbrev back_off : (lived : ℕ) → SyncLoop → SyncLoop
back_off lived s = record s {
  watcher = record s.watcher { backoff = next_watcher_backoff s.watcher.backoff lived };
}

abbrev spawned : (now : ℕ) → SyncLoop → SyncLoop
spawned now s = mark (record s {
  watcher = record s.watcher { handle = true; spawned_at = now };
  watcher_alive = true;
})

unfoldable pub respawn_watcher : Event → SyncLoop → SyncLoop
unfolding next_watcher_backoff
respawn_watcher e s =
    if e.has_token
    then if e.has_tasks then spawned e.now s else s
    else wait_for_respawn e.now (back_off 0 s)

abbrev respawn_or_wait : Event → SyncLoop → SyncLoop
respawn_or_wait e s =
    if s.watcher.backoff == 0 then respawn_watcher e s else wait_for_respawn e.now s

abbrev without_handle : SyncLoop → SyncLoop
without_handle s = record s { watcher = record s.watcher { handle = false } }

unfoldable pub handle_watcher_exit : Event → SyncLoop → SyncLoop
unfolding respawn_watcher next_watcher_backoff
handle_watcher_exit e s = respawn_or_wait e (
    without_handle
      (back_off (e.now - s.watcher.spawned_at) (mark (record s { watcher_alive = false }))))

abbrev debounce : ℕ
debounce = 1000

abbrev arm : (now : ℕ) → Option ℕ → Option ℕ
arm now none = some (now + debounce)
arm now (some deadline) = some deadline

unfoldable pub take_notification :
    (folder_id : String) (now : ℕ) → Option (String × ℤ) → SyncLoop → SyncLoop
take_notification folder_id now none s = record s { returned = true }
take_notification folder_id now (some (folder, server_seq)) s =
    if folder == folder_id
    then if leb_ℤ server_seq (pos 0) && leb_ℤ (pos 0) server_seq
      then mark s
      else record s { notify_deadline = arm now s.notify_deadline }
    else s

-- `SyncLoopWake::Periodic` and `SyncLoopWake::Dirty`, behind the test for a pause.
abbrev periodic : (paused : Bool) → SyncLoop → SyncLoop × List Action
periodic paused s =
    if paused
    then (s, [])
    else if s.dirty
    then (record s { dirty = false }, reconciled ∷ [])
    else (s, pulled ∷ [])

abbrev after_dirty : (paused : Bool) → SyncLoop → SyncLoop × List Action
after_dirty paused s =
    if paused
    then (s, [])
    else if s.dirty
    then (record s { dirty = false }, reconciled ∷ [])
    else (s, [])

abbrev reach_deadline : (paused : Bool) → SyncLoop → Option ℕ → SyncLoop × List Action
reach_deadline paused s none = (s, [])
reach_deadline paused s (some deadline) = periodic paused (record s { notify_deadline = none })

abbrev reach_respawn : Event → SyncLoop → Option ℕ → SyncLoop
reach_respawn e s none = s
reach_respawn e s (some at) =
    respawn_watcher e (record s { watcher = record s.watcher { respawn_at = none } })

-- A wake whose arm is disabled does nothing.
unfoldable pub take_wake : (folder_id : String) → Event → Wake → SyncLoop → SyncLoop × List Action
unfolding take_notification handle_watcher_exit respawn_watcher
take_wake folder_id e tick s = periodic e.paused s
take_wake folder_id e (notified n) s = (take_notification folder_id e.now n s, [])
take_wake folder_id e deadline_reached s = reach_deadline e.paused s s.notify_deadline
take_wake folder_id e dirty_notified s = after_dirty e.paused s
take_wake folder_id e watcher_exited s =
    ((if s.watcher.handle then handle_watcher_exit e s else s), [])
take_wake folder_id e respawn_due s = (reach_respawn e s s.watcher.respawn_at, [])
take_wake folder_id e marked s = (mark s, [])

-- One round of the loop, unless it has returned.
abbrev pub step_loop : (folder_id : String) → Event → SyncLoop → SyncLoop × List Action
step_loop folder_id e s = if s.returned then (s, []) else take_wake folder_id e e.wake s

-- The state after the events, and what was done, in order.
unfoldable pub run_loop : (folder_id : String) → List Event → SyncLoop → SyncLoop × List Action
unfolding take_wake
run_loop folder_id [] s = (s, [])
run_loop folder_id (e ∷ es) s =
    let (s', done) = step_loop folder_id e s in
    let (s'', rest) = run_loop folder_id es s' in (s'', done ++ rest)
