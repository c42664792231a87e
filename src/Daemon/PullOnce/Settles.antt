-- ===== src/Daemon/PullOnce/Settles.antt =====
-- What a pull without a push leaves in the daemon.
use valv.Base.{
  ◌≡◌, refl, ap, ◌∙◌, String, ℕ, ℤ, ◌<◌, ltb_ℤ, true, false, not, ◌&&◌, List, Option, none, some,
  is_some, or, arith, All, Bool-cases, inl, inr,
}
use mathlib.Core.Path.{subst}
use valv.Base.Members.{some-injective}
use valv.Base.Result.{Result, ok, err}
use valv.Errors.{Error, is_update_required}
use valv.Persistence.Db.{Db}
use valv.Persistence.Mounts.{get_cursor}
use valv.Engine.DeltaPull.{PulledNode, pull_delta}
use valv.Engine.DeltaPull
use valv.Daemon.Versions.{Backend}
use valv.Daemon.Mounts.{
  MountState, Daemon, Problem, failure, max_u32, begin_mount_sync, end_mount_sync,
  mark_mount_update_required, mark_credential_rejected, clear_credential_rejected,
  is_unauthenticated, halted,
}
use valv.Daemon.Mounts.Balance.{
  active_syncs_of, update_mount-counts, begun-ended, set_rejected-counts,
}
use valv.Daemon.PullOnce.{
  pull_failed, apply_on_disk, finish_pull, after_pull, pulled_into, pull_with, pull_mount_once,
  healthy,
}

module _ (fuel : ℕ) (B : Backend) (replies : DeltaPull.Backend B.outside.json)
    (device_id now : String) (seconds : ℕ) (mount : MountState) where
  pub pull_failed-counts :
      (token : String) (e : Error) (d : Daemon)
      → active_syncs_of (pull_failed fuel B replies device_id now seconds mount token e d).mounts
        ≡ active_syncs_of d.mounts
  unfolding pull_failed mark_mount_update_required mark_credential_rejected
  pull_failed-counts token e d = elim (Bool-cases (is_some (is_update_required e))) [
    | inl q ↦ rw q (update_mount-counts halted mount.folder_id d.mounts (λ m. (refl, refl)))
    | inr q ↦ elim (Bool-cases (is_unauthenticated e)) [
      | inl t ↦ rw q (rw t (set_rejected-counts true token d.mounts))
      | inr t ↦ rw q (rw t refl)
    ]
  ]

  pub pull_failed-same :
      (token : String) (e : Error) (d : Daemon)
      → ((pull_failed fuel B replies device_id now seconds mount token e d).site ≡ d.site)
        × ((pull_failed fuel B replies device_id now seconds mount token e d).cursor_wakes
            ≡ d.cursor_wakes)
  unfolding pull_failed mark_mount_update_required mark_credential_rejected
  pull_failed-same token e d = elim (Bool-cases (is_some (is_update_required e))) [
    | inl q ↦ rw q (refl, refl)
    | inr q ↦ elim (Bool-cases (is_unauthenticated e)) [
      | inl t ↦ rw q (rw t (refl, refl))
      | inr t ↦ rw q (rw t (refl, refl))
    ]
  ]

  finish_pull-counts :
      (before after : ℤ) (error : Option Problem) (d start : Daemon)
      → All (λ x. x.1 < max_u32) (active_syncs_of start.mounts)
      → active_syncs_of d.mounts ≡ active_syncs_of (begin_mount_sync mount.folder_id start).mounts
      → active_syncs_of
          (finish_pull fuel B replies device_id now seconds mount before after error d).mounts
        ≡ active_syncs_of start.mounts
  unfolding begin_mount_sync end_mount_sync
  finish_pull-counts before after error d start h same =
      let done = begun-ended mount.folder_id now error start.mounts d.mounts h same in
      elim (Bool-cases (not (is_some error) && ltb_ℤ before after)) [
        | inl q ↦ rw q done
        | inr q ↦ rw q done
      ]

  apply_on_disk-mounts :
      (pulled : List PulledNode) (d : Daemon)
      → (apply_on_disk fuel B replies device_id now seconds mount pulled d).1.mounts ≡ d.mounts
  unfolding apply_on_disk
  apply_on_disk-mounts pulled d = elim (Bool-cases d.fs_events_paused) [
    | inl q ↦ rw q refl
    | inr q ↦ rw q refl
  ]

  after_pull-counts :
      (token : String) (before : ℤ) (r : Result Error (ℤ × List PulledNode)) (d start : Daemon)
      → All (λ x. x.1 < max_u32) (active_syncs_of start.mounts)
      → active_syncs_of d.mounts ≡ active_syncs_of (begin_mount_sync mount.folder_id start).mounts
      → active_syncs_of
          (after_pull fuel B replies device_id now seconds mount token before r d).mounts
        ≡ active_syncs_of start.mounts
  unfolding clear_credential_rejected
  after_pull-counts token before (err e) d start h same =
      finish_pull-counts before before (some (failure e))
        (pull_failed fuel B replies device_id now seconds mount token e d) start h
        (pull_failed-counts token e d ∙ same)
  after_pull-counts token before (ok (up_to_seq, pulled)) d start h same =
      let cleared = clear_credential_rejected token (healthy seconds d) in
      let applied = apply_on_disk fuel B replies device_id now seconds mount pulled cleared in
      finish_pull-counts before up_to_seq applied.0 applied.1 start h (
        ap active_syncs_of (apply_on_disk-mounts pulled cleared)
        ∙ set_rejected-counts false token d.mounts
        ∙ same)

  -- Whatever the backend answers and the disk does, a pull of a mount with a credential ends with the
  -- number of syncs under way that it found, of every mount.
  pub pull-Balanced :
      (token : String) (d d' : Daemon)
      → or mount.mount_token d.device_token ≡ some token
      → All (λ x. x.1 < max_u32) (active_syncs_of d.mounts)
      → pull_mount_once fuel B replies device_id now seconds mount d ≡ some d'
      → active_syncs_of d'.mounts ≡ active_syncs_of d.mounts
  unfolding pull_mount_once begin_mount_sync
  pull-Balanced token d d' t h e =
      let started =
        subst (λ o. pull_with fuel B replies device_id now seconds mount o d ≡ some d') t e in
      ended (pull_delta B.outside.json mount.folder_id replies fuel d.site.db) started
    where
      ended :
          (r : DeltaPull.Pull B.outside.json)
          → pulled_into fuel B replies device_id now seconds mount token
              (get_cursor mount.folder_id d.site.db)
              (begin_mount_sync mount.folder_id d)
              r
            ≡ some d'
          → active_syncs_of d'.mounts ≡ active_syncs_of d.mounts
      ended none q = ground (arith, q)
      ended (some (r, db)) q =
          let begun = begin_mount_sync mount.folder_id d in
          let stored = record begun { site = record d.site { db = db } } in
          let before = get_cursor mount.folder_id d.site.db in
          subst (λ x. active_syncs_of x.mounts ≡ active_syncs_of d.mounts)
            (some-injective
              (after_pull fuel B replies device_id now seconds mount token before r stored) d' q)
            (after_pull-counts token before r stored d h refl)

  -- A pull that fails changes no file, wakes no waiter and stores what the engine had written.
  pub failed-Keeps :
      (token : String) (e : Error) (db : Db) (d d' : Daemon)
      → or mount.mount_token d.device_token ≡ some token
      → pull_delta B.outside.json mount.folder_id replies fuel d.site.db ≡ some (err e, db)
      → pull_mount_once fuel B replies device_id now seconds mount d ≡ some d'
      → (d'.site ≡ record d.site { db = db }) × (d'.cursor_wakes ≡ d.cursor_wakes)
  unfolding pull_mount_once begin_mount_sync end_mount_sync
  failed-Keeps token e db d d' t r q =
      let found =
        subst (λ o. pull_with fuel B replies device_id now seconds mount o d ≡ some d') t q in
      let pulled =
        subst
          (λ x.
            pulled_into fuel B replies device_id now seconds mount token
              (get_cursor mount.folder_id d.site.db) (begin_mount_sync mount.folder_id d) x
            ≡ some d')
          r found in
      subst (λ x. (x.site ≡ record d.site { db = db }) × (x.cursor_wakes ≡ d.cursor_wakes))
        (some-injective _ d' pulled)
        (pull_failed-same token e
          (record (begin_mount_sync mount.folder_id d) { site = record d.site { db = db } }))
