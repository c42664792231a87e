-- ===== src/Daemon/FullSync.antt =====
-- `full_sync_mount` of crates/valvd/src/tasks.rs, a push and then a pull, and `post_sync`, which runs it
-- on the mounts of a request.

pub mod Balanced
pub mod Halts
use valv.Base.{
  String, ◌==◌, string_eq, ℕ, suc, ◌+◌, ◌-◌, ℤ, pos, negsuc, pos_part, neg_part, leb, ltb_ℤ, Bool,
  true, false, not, ◌&&◌, List, [], ◌∷◌, Option, none, some, is_some, or, if◌then◌else◌,
}
use valv.Base.Result.{Result, ok, err}
use valv.Errors.{Error, is_update_required, bad_request}
use valv.Persistence.Mounts.{get_cursor}
use valv.Engine.DeltaPull.{PulledNode, pull_delta}
use valv.Engine.DeltaPull
use valv.Engine.LocalPush.State.{PushSummary}
use valv.Daemon.Versions.{Site, Backend}
use valv.Daemon.Pulled.{full, apply_pulled_fs_changes}
use valv.Daemon.Materialize.{materialize_mount_files}
use valv.Daemon.Mounts.{
  Problem, mount_has_no_credential, write_refused, failure, MountState, Daemon, update_mount,
  begin_mount_sync, end_mount_sync, mark_mount_update_required, mark_credential_rejected,
  clear_credential_rejected, set_mount_pending_ops, is_unauthenticated,
}
use valv.Daemon.PullOnce.{
  pause_watchers, resume_watchers_after_debounce, healthy, problem_of, pull_failed,
}

pub record SyncSummary : Type 0 where
  pub creates_submitted : ℕ
  pub versions_submitted : ℕ
  pub deletes_submitted : ℕ
  pub pulled_ops : ℤ
  pub errors : ℕ

abbrev pub no_changes : SyncSummary
no_changes = record {
  creates_submitted = 0;
  versions_submitted = 0;
  deletes_submitted = 0;
  pulled_ops = pos 0;
  errors = 0;
}

unfoldable pub merge_push_summary : SyncSummary → PushSummary → SyncSummary
merge_push_summary summary push = record summary {
  creates_submitted = summary.creates_submitted + push.creates_submitted;
  versions_submitted = summary.versions_submitted + push.versions_submitted;
  deletes_submitted = summary.deletes_submitted + push.deletes_submitted;
  errors = summary.errors + push.errors;
}

-- `+` on `i64`, within its range.
abbrev add : ℤ → ℤ → ℤ
add a b =
    let up = pos_part a + pos_part b in
    let down = neg_part a + neg_part b in
    if leb down up then pos (up - down) else negsuc (down - up - 1)

unfoldable pub merge_sync_summary : SyncSummary → SyncSummary → SyncSummary
merge_sync_summary summary mount_summary = record {
  creates_submitted = summary.creates_submitted + mount_summary.creates_submitted;
  versions_submitted = summary.versions_submitted + mount_summary.versions_submitted;
  deletes_submitted = summary.deletes_submitted + mount_summary.deletes_submitted;
  pulled_ops = add summary.pulled_ops mount_summary.pulled_ops;
  errors = summary.errors + mount_summary.errors;
}

abbrev pub count_error : SyncSummary → SyncSummary
count_error summary = record summary { errors = suc summary.errors }

abbrev pub errors_of : {A : Type 0} → Result Error A → ℕ
errors_of (ok a) = 0
errors_of (err e) = 1

-- What `push_local_with_update_required` gives: its result, whether it has raised the flag of the mount,
-- and the mirror and the files after it.
abbrev pub Pushed : Type 0
Pushed = Result Error PushSummary × Bool × Site

module _ (fuel : ℕ) (B : Backend) (replies : DeltaPull.Backend B.outside.json)
    (push : Site → Pushed) (device_id now : String) (seconds : ℕ) (mount : MountState) where
  abbrev pub raise_mount_flag : Bool → Daemon → Daemon
  raise_mount_flag raised d = record d {
    mounts =
        if raised
        then update_mount mount.folder_id (λ m. record m { update_required_flag = true }) d.mounts
        else d.mounts;
  }

  -- After a push that succeeded, or failed without asking for an update.
  unfoldable pub pushed_ok : (token : String) → PushSummary → Daemon → Daemon
  unfolding clear_credential_rejected set_mount_pending_ops
  pushed_ok token push_summary d =
      set_mount_pending_ops mount.folder_id
        (push_summary.creates_submitted + push_summary.versions_submitted)
        (clear_credential_rejected token d)

  -- The changes of the pull and the missing files, with the watchers paused.
  unfoldable pub apply_all :
      List PulledNode → SyncSummary → Daemon → Option Problem × SyncSummary × Daemon
  unfolding apply_pulled_fs_changes materialize_mount_files
  apply_all pulled summary d =
      let (applied, site) =
        apply_pulled_fs_changes fuel B mount.folder_id mount.scope_node_id device_id pulled full
          d.site in
      let (materialized, site') =
        materialize_mount_files fuel B mount.folder_id mount.scope_node_id device_id site in
      (
        or (problem_of applied) (problem_of materialized),
        record summary { errors = summary.errors + errors_of applied + errors_of materialized },
        resume_watchers_after_debounce d.fs_events_paused
            (record (pause_watchers d) { site = site' }),
      )

  abbrev pub refused : Bool → Option Problem → Option Problem
  refused push_forbidden error = or error (if push_forbidden then some write_refused else none)

  abbrev wake_waiters : Bool → Daemon → Daemon
  wake_waiters advanced d = if advanced then record d { cursor_wakes = suc d.cursor_wakes } else d

  -- From `mount_error` on.
  abbrev pub finish_sync :
      (push_forbidden : Bool) (cursor_before cursor_after : ℤ)
      → Option Problem × SyncSummary × Daemon
      → SyncSummary × Daemon
  finish_sync push_forbidden cursor_before cursor_after (error, summary, d) = (
    summary,
    wake_waiters (not (is_some error) && ltb_ℤ cursor_before cursor_after) (
        end_mount_sync now mount.folder_id (refused push_forbidden error)
          (set_mount_pending_ops mount.folder_id summary.errors d)),
  )

  abbrev pub after_pull_result :
      (token : String) (push_forbidden : Bool) (cursor_before : ℤ)
      → SyncSummary
      → Result Error (ℤ × List PulledNode)
      → Daemon
      → SyncSummary × Daemon
  after_pull_result token push_forbidden cursor_before summary (ok (up_to_seq, pulled)) d =
      finish_sync push_forbidden cursor_before up_to_seq (
        apply_all pulled (record summary { pulled_ops = up_to_seq })
          (clear_credential_rejected token (healthy seconds d)))
  after_pull_result token push_forbidden cursor_before summary (err e) d =
      finish_sync push_forbidden cursor_before cursor_before (
        some (failure e),
        count_error summary,
        pull_failed fuel B replies device_id now seconds mount token e d,
      )

  abbrev pub pull_into :
      (token : String) (push_forbidden : Bool) (cursor_before : ℤ)
      → SyncSummary
      → Daemon
      → DeltaPull.Pull B.outside.json
      → Option (SyncSummary × Daemon)
  pull_into token push_forbidden cursor_before summary d none = none
  pull_into token push_forbidden cursor_before summary d (some (result, db)) = some (
      after_pull_result token push_forbidden cursor_before summary result
        (record d { site = record d.site { db = db } }))

  abbrev pub pull_phase :
      (token : String) (push_forbidden : Bool) (cursor_before : ℤ)
      → SyncSummary
      → Daemon
      → Option (SyncSummary × Daemon)
  pull_phase token push_forbidden cursor_before summary d =
      pull_into token push_forbidden cursor_before summary d
        (pull_delta B.outside.json mount.folder_id replies fuel d.site.db)

  -- The early return of a push that asks for an update. `d` has its error recorded.
  abbrev pub halt_sync : Error → SyncSummary → Daemon → SyncSummary × Daemon
  halt_sync e summary d = (
    count_error summary,
    end_mount_sync now mount.folder_id (some (failure e))
        (set_mount_pending_ops mount.folder_id 0 d),
  )

  abbrev pub after_push_result :
      (token : String) (cursor_before : ℤ)
      → Result Error PushSummary
      → Daemon
      → Option (SyncSummary × Daemon)
  after_push_result token cursor_before (ok push_summary) d =
      pull_phase token push_summary.forbidden cursor_before
        (merge_push_summary no_changes push_summary) (pushed_ok token push_summary d)
  after_push_result token cursor_before (err e) d =
      let d' = pull_failed fuel B replies device_id now seconds mount token e d in
      if is_some (is_update_required e)
      then some (halt_sync e no_changes d')
      else pull_phase token false cursor_before (count_error no_changes) d'

  abbrev pub push_phase :
      (token : String) (cursor_before : ℤ) → Daemon → Pushed → Option (SyncSummary × Daemon)
  push_phase token cursor_before d (result, raised, site) =
      after_push_result token cursor_before result
        (raise_mount_flag raised (record d { site = site }))

  abbrev pub sync_with : Option String → Daemon → Option (SyncSummary × Daemon)
  sync_with none d =
      some (
        count_error no_changes,
        end_mount_sync now mount.folder_id (some mount_has_no_credential) d,
      )
  sync_with (some token) d =
      push_phase token (get_cursor mount.folder_id d.site.db)
        (raise_mount_flag mount.update_required (begin_mount_sync mount.folder_id d)) (push d.site)

  -- `none` is a pull that has run out of fuel.
  unfoldable pub full_sync_mount : Daemon → Option (SyncSummary × Daemon)
  unfolding begin_mount_sync end_mount_sync clear_credential_rejected set_mount_pending_ops
      pull_failed pushed_ok apply_all pull_delta get_cursor merge_push_summary update_mount
  full_sync_mount d = sync_with (or mount.mount_token d.device_token) d

-- The mounts that a request names, all of them if it names no folder.
abbrev is_target : Option String → MountState → Bool
is_target none mount = true
is_target (some folder_id) mount = folder_id == mount.folder_id

unfoldable pub sync_targets : Option String → List MountState → List MountState
sync_targets folder_id [] = []
sync_targets folder_id (m ∷ t) =
    let rest = sync_targets folder_id t in if is_target folder_id m then m ∷ rest else rest

module _ (sync : MountState → Daemon → Option (SyncSummary × Daemon)) where
  unfoldable pub sync_each : List MountState → SyncSummary → Daemon → Option (SyncSummary × Daemon)
  unfolding merge_sync_summary
  sync_each [] summary d = some (summary, d)
  sync_each (m ∷ ms) summary d = elim (sync m d) [
    | none ↦ none
    | some (mount_summary, d') ↦ sync_each ms (merge_sync_summary summary mount_summary) d'
  ]

  abbrev names_nothing : Option String → Bool
  names_nothing none = false
  names_nothing (some folder_id) = folder_id == ""

  unfoldable pub post_sync :
      (folder_id : Option String) → Daemon → Result Error (Option (SyncSummary × Daemon))
  unfolding sync_targets sync_each
  post_sync folder_id d =
      if names_nothing folder_id
      then err bad_request
      else ok (sync_each (sync_targets folder_id d.mounts) no_changes d)
