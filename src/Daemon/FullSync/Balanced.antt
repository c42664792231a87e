-- ===== src/Daemon/FullSync/Balanced.antt =====
-- What a full sync leaves in the daemon.
use mathlib.Core.Path.{subst}
use valv.Base.{
  ◌≡◌, refl, ap, ◌∙◌, ◌+◌, String, ℕ, ℤ, ◌<◌, ltb_ℤ, Bool, true, false, not, ◌&&◌, List, Option,
  none, some, is_some, or, arith, All, Bool-cases, inl, inr,
}
use valv.Base.Members.{some-injective}
use valv.Base.Result.{Result, ok, err}
use valv.Errors.{Error, is_update_required}
use valv.Persistence.Mounts.{get_cursor}
use valv.Engine.DeltaPull.{PulledNode, pull_delta}
use valv.Engine.DeltaPull
use valv.Engine.LocalPush.State.{PushSummary}
use valv.Daemon.Versions.{Site, Backend}
use valv.Daemon.Mounts.{
  MountState, Daemon, Problem, failure, max_u32, begin_mount_sync, end_mount_sync,
  set_mount_pending_ops, clear_credential_rejected,
}
use valv.Daemon.Mounts.Balance.{
  active_syncs_of, update_mount-counts, begun-ended, set_rejected-counts,
}
use valv.Daemon.PullOnce.{healthy, pull_failed}
use valv.Daemon.PullOnce.Settles.{pull_failed-counts}
use valv.Daemon.FullSync.{
  SyncSummary, no_changes, merge_push_summary, count_error, Pushed, raise_mount_flag, pushed_ok,
  apply_all, refused, finish_sync, after_pull_result, pull_into, halt_sync, after_push_result,
  sync_with, full_sync_mount,
}

module _ (fuel : ℕ) (B : Backend) (replies : DeltaPull.Backend B.outside.json)
    (push : Site → Pushed) (device_id now : String) (seconds : ℕ) (mount : MountState) where
  raise_mount_flag-counts :
      (raised : Bool) (d : Daemon)
      → active_syncs_of
          (raise_mount_flag fuel B replies push device_id now seconds mount raised d).mounts
        ≡ active_syncs_of d.mounts
  raise_mount_flag-counts true d =
      update_mount-counts (λ m. record m { update_required_flag = true }) mount.folder_id d.mounts
        (λ m. (refl, refl))
  raise_mount_flag-counts false d = refl

  pending-counts :
      (n : ℕ) (d : Daemon)
      → active_syncs_of (set_mount_pending_ops mount.folder_id n d).mounts
        ≡ active_syncs_of d.mounts
  unfolding set_mount_pending_ops
  pending-counts n d =
      update_mount-counts (λ m. record m { pending_ops = n }) mount.folder_id d.mounts
        (λ m. (refl, refl))

  pushed_ok-counts :
      (token : String) (s : PushSummary) (d : Daemon)
      → active_syncs_of (pushed_ok fuel B replies push device_id now seconds mount token s d).mounts
        ≡ active_syncs_of d.mounts
  unfolding pushed_ok clear_credential_rejected
  pushed_ok-counts token s d =
      pending-counts (s.creates_submitted + s.versions_submitted)
        (clear_credential_rejected token d)
      ∙ set_rejected-counts false token d.mounts

  -- A state with the counts of a sync of the mount that has begun in `start`.
  abbrev Begun : (start d : Daemon) → Type 0
  Begun start d =
      active_syncs_of d.mounts ≡ active_syncs_of (begin_mount_sync mount.folder_id start).mounts

  abbrev Restored : (start : Daemon) → SyncSummary × Daemon → Type 0
  Restored start r = active_syncs_of r.1.mounts ≡ active_syncs_of start.mounts

  module _ (start : Daemon) (h : All (λ x. x.1 < max_u32) (active_syncs_of start.mounts)) where
    ended-Restored :
        (error : Option Problem) (n : ℕ) (d : Daemon)
        → Begun start d
        → active_syncs_of
            (end_mount_sync now mount.folder_id error
              (set_mount_pending_ops mount.folder_id n d)).mounts
          ≡ active_syncs_of start.mounts
    unfolding begin_mount_sync end_mount_sync
    ended-Restored error n d b =
        begun-ended mount.folder_id now error start.mounts
          (set_mount_pending_ops mount.folder_id n d).mounts h (pending-counts n d ∙ b)

    finish_sync-Restored :
        (forbidden : Bool) (before after : ℤ) (error : Option Problem) (summary : SyncSummary)
        (d : Daemon)
        → Begun start d
        → Restored start (
            finish_sync fuel B replies push device_id now seconds mount forbidden before after
              (error, summary, d))
    finish_sync-Restored forbidden before after error summary d b =
        let problem = refused fuel B replies push device_id now seconds mount forbidden error in
        elim (Bool-cases (not (is_some error) && ltb_ℤ before after)) [
          | inl q ↦ rw q (ended-Restored problem summary.errors d b)
          | inr q ↦ rw q (ended-Restored problem summary.errors d b)
        ]

    apply_all-mounts :
        (pulled : List PulledNode) (summary : SyncSummary) (d : Daemon)
        → (apply_all fuel B replies push device_id now seconds mount pulled summary d).2.mounts
          ≡ d.mounts
    unfolding apply_all
    apply_all-mounts pulled summary d = elim (Bool-cases d.fs_events_paused) [
      | inl q ↦ rw q refl
      | inr q ↦ rw q refl
    ]

    after_pull_result-Restored :
        (token : String) (forbidden : Bool) (before : ℤ) (summary : SyncSummary)
        (r : Result Error (ℤ × List PulledNode)) (d : Daemon)
        → Begun start d
        → Restored start (
            after_pull_result fuel B replies push device_id now seconds mount token forbidden before
              summary r d)
    unfolding clear_credential_rejected
    after_pull_result-Restored token forbidden before summary (err e) d b =
        finish_sync-Restored forbidden before before (some (failure e)) (count_error summary)
          (pull_failed fuel B replies device_id now seconds mount token e d)
          (pull_failed-counts fuel B replies device_id now seconds mount token e d ∙ b)
    after_pull_result-Restored token forbidden before summary (ok (seq, pulled)) d b =
        let cleared = clear_credential_rejected token (healthy seconds d) in
        let counted = record summary { pulled_ops = seq } in
        let applied =
          apply_all fuel B replies push device_id now seconds mount pulled counted cleared in
        finish_sync-Restored forbidden before seq applied.0 applied.1 applied.2 (
          ap active_syncs_of (apply_all-mounts pulled counted cleared)
          ∙ set_rejected-counts false token d.mounts
          ∙ b)

    pull_into-Restored :
        (token : String) (forbidden : Bool) (before : ℤ) (summary : SyncSummary) (d : Daemon)
        (p : DeltaPull.Pull B.outside.json) (r : SyncSummary × Daemon)
        → Begun start d
        → pull_into fuel B replies push device_id now seconds mount token forbidden before summary d
            p
          ≡ some r
        → Restored start r
    pull_into-Restored token forbidden before summary d none r b q = ground (arith, q)
    pull_into-Restored token forbidden before summary d (some (result, db)) r b q =
        let stored = record d { site = record d.site { db = db } } in
        subst (Restored start)
          (some-injective
            (after_pull_result fuel B replies push device_id now seconds mount token forbidden
              before summary result stored)
            r q)
          (after_pull_result-Restored token forbidden before summary result stored b)

    after_push_result-Restored :
        (token : String) (before : ℤ) (result : Result Error PushSummary) (d : Daemon)
        (r : SyncSummary × Daemon)
        → Begun start d
        → after_push_result fuel B replies push device_id now seconds mount token before result d
          ≡ some r
        → Restored start r
    after_push_result-Restored token before (ok s) d r b q =
        let d' = pushed_ok fuel B replies push device_id now seconds mount token s d in
        pull_into-Restored token s.forbidden before (merge_push_summary no_changes s) d'
          (pull_delta B.outside.json mount.folder_id replies fuel d'.site.db) r
          (pushed_ok-counts token s d ∙ b) q
    after_push_result-Restored token before (err e) d r b q =
        let d' = pull_failed fuel B replies device_id now seconds mount token e d in
        let b' = pull_failed-counts fuel B replies device_id now seconds mount token e d ∙ b in
        elim (Bool-cases (is_some (is_update_required e))) [
          | inl u ↦
              subst (Restored start)
                (some-injective
                  (halt_sync fuel B replies push device_id now seconds mount e no_changes d') r
                  (rw u at q))
                (ended-Restored (some (failure e)) 0 d' b')
          | inr u ↦
              pull_into-Restored token false before (count_error no_changes) d'
                (pull_delta B.outside.json mount.folder_id replies fuel d'.site.db) r b' (rw u at q)
        ]

  -- Whatever the push does, the backend answers and the disk does, a full sync of a mount with a
  -- credential ends with the number of syncs under way that it found, of every mount.
  pub full_sync-Balanced :
      (token : String) (d : Daemon) (r : SyncSummary × Daemon)
      → or mount.mount_token d.device_token ≡ some token
      → All (λ x. x.1 < max_u32) (active_syncs_of d.mounts)
      → full_sync_mount fuel B replies push device_id now seconds mount d ≡ some r
      → active_syncs_of r.1.mounts ≡ active_syncs_of d.mounts
  unfolding full_sync_mount
  full_sync-Balanced token d r t h e =
      let found =
        subst (λ o. sync_with fuel B replies push device_id now seconds mount o d ≡ some r) t e in
      let (result, raised, site) = push d.site in
      let begun = begin_mount_sync mount.folder_id d in
      let flagged =
        raise_mount_flag fuel B replies push device_id now seconds mount mount.update_required
          begun in
      let pushed = record flagged { site = site } in
      after_push_result-Restored d h token (get_cursor mount.folder_id d.site.db) result
        (raise_mount_flag fuel B replies push device_id now seconds mount raised pushed) r
        (raise_mount_flag-counts raised pushed
          ∙ raise_mount_flag-counts mount.update_required begun)
        found
