-- ===== src/Daemon/PullOnce.antt =====
-- `pull_mount_once` of crates/valvd/src/tasks.rs: a pull and what it changes on disk, without a push.
pub mod Settles
use valv.Base.{
  String, ◌==◌, string_eq, ℕ, suc, ℤ, ltb_ℤ, Bool, true, false, not, ◌&&◌, Option, none, some,
  is_some, or, List, if◌then◌else◌,
}
use valv.Base.Result.{Result, ok, err}
use valv.Errors.{Error, is_update_required}
use valv.Persistence.Db.{Db}
use valv.Persistence.Mounts.{get_cursor}
use valv.Engine.DeltaPull.{PulledNode, pull_delta}
use valv.Engine.DeltaPull
use valv.Daemon.Versions.{Site, Backend}
use valv.Daemon.Pulled.{background, apply_pulled_fs_changes}
use valv.Daemon.Cleanup.{cleanup_deleted_mount_paths}
use valv.Daemon.Health.{record_success, record_failure}
use valv.Daemon.Mounts.{
  Problem, mount_has_no_credential, failure, MountState, Daemon, begin_mount_sync, end_mount_sync,
  mark_mount_update_required, mark_credential_rejected, clear_credential_rejected,
  is_unauthenticated,
}

abbrev pub pause_watchers : Daemon → Daemon
pause_watchers d = record d { fs_events_paused = true }

abbrev pub resume_watchers_after_debounce : (was_paused : Bool) → Daemon → Daemon
resume_watchers_after_debounce was_paused d =
    if was_paused then d else record d { fs_events_paused = false }

abbrev pub healthy : (seconds : ℕ) → Daemon → Daemon
healthy seconds d = record d { backend_health = record_success seconds d.backend_health }

abbrev pub unhealthy : (seconds : ℕ) → Daemon → Daemon
unhealthy seconds d = record d { backend_health = record_failure seconds d.backend_health }

abbrev pub problem_of : {A : Type 0} → Result Error A → Option Problem
problem_of (ok a) = none
problem_of (err e) = some (failure e)

-- `now` and `seconds` are the clock.
module _ (fuel : ℕ) (B : Backend) (replies : DeltaPull.Backend B.outside.json)
    (device_id now : String) (seconds : ℕ) (mount : MountState) where
  -- The match on the error of the pull.
  unfoldable pub pull_failed : (token : String) → Error → Daemon → Daemon
  unfolding record_success record_failure mark_mount_update_required mark_credential_rejected
      is_update_required
  pull_failed token e d =
      if is_some (is_update_required e)
      then mark_mount_update_required mount.folder_id (healthy seconds d)
      else if is_unauthenticated e
      then mark_credential_rejected token (healthy seconds d)
      else unhealthy seconds d

  abbrev wake_if : Bool → Daemon → Daemon
  wake_if advanced d = if advanced then record d { cursor_wakes = suc d.cursor_wakes } else d

  -- From the end of the pull on.
  abbrev pub finish_pull : (cursor_before cursor_after : ℤ) → Option Problem → Daemon → Daemon
  finish_pull cursor_before cursor_after error d =
      wake_if (not (is_some error) && ltb_ℤ cursor_before cursor_after)
        (end_mount_sync now mount.folder_id error d)

  -- The clean-up and the changes, with the watchers paused.
  unfoldable pub apply_on_disk : List PulledNode → Daemon → Option Problem × Daemon
  unfolding cleanup_deleted_mount_paths apply_pulled_fs_changes
  apply_on_disk pulled d =
      let (cleaned, site) = cleanup_deleted_mount_paths fuel mount.folder_id d.site in
      let (applied, site') =
        apply_pulled_fs_changes fuel B mount.folder_id mount.scope_node_id device_id pulled
          background site in
      (
        or (problem_of applied) (problem_of cleaned),
        resume_watchers_after_debounce d.fs_events_paused
            (record (pause_watchers d) { site = site' }),
      )

  abbrev pub after_pull :
      (token : String) (cursor_before : ℤ) → Result Error (ℤ × List PulledNode) → Daemon → Daemon
  after_pull token cursor_before (err e) d =
      finish_pull cursor_before cursor_before (some (failure e)) (pull_failed token e d)
  after_pull token cursor_before (ok (up_to_seq, pulled)) d =
      let (error, d') =
        apply_on_disk pulled (clear_credential_rejected token (healthy seconds d)) in
      finish_pull cursor_before up_to_seq error d'

  abbrev pub pulled_into :
      (token : String) (cursor_before : ℤ) → Daemon → DeltaPull.Pull B.outside.json → Option Daemon
  pulled_into token cursor_before d none = none
  pulled_into token cursor_before d (some (result, db)) =
      some (after_pull token cursor_before result (record d { site = record d.site { db = db } }))

  abbrev pub pull_with : Option String → Daemon → Option Daemon
  pull_with none d = some (end_mount_sync now mount.folder_id (some mount_has_no_credential) d)
  pull_with (some token) d =
      pulled_into token (get_cursor mount.folder_id d.site.db) (begin_mount_sync mount.folder_id d)
        (pull_delta B.outside.json mount.folder_id replies fuel d.site.db)

  -- `none` is a pull that has run out of fuel.
  unfoldable pub pull_mount_once : Daemon → Option Daemon
  unfolding begin_mount_sync end_mount_sync clear_credential_rejected pull_failed apply_on_disk
      pull_delta get_cursor record_success
  pull_mount_once d = pull_with (or mount.mount_token d.device_token) d
