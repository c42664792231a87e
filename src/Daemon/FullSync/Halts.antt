-- ===== src/Daemon/FullSync/Halts.antt =====
-- A full sync whose push asks for an update.
use valv.Base.{
  ◌≡◌, refl, ◌∙◌, ◌==◌, string_eq, String, ℕ, Bool, true, ◌&&◌, List, [], ◌∷◌, some, is_some, or,
  Bool-cases, inl, inr, if◌then◌else◌,
}
use valv.Base.Result.{err}
use valv.Errors.{Error, is_update_required}
use valv.Engine.DeltaPull
use valv.Daemon.Versions.{Site, Backend}
use valv.Daemon.Mounts.{
  MountState, Daemon, failure, update_mount, halted, begin_mount_sync, end_mount_sync, ended,
  set_mount_pending_ops, mark_mount_update_required,
}
use valv.Daemon.PullOnce.{pull_failed}
use valv.Daemon.PullOnce.Settles.{pull_failed-same}
use valv.Daemon.FullSync.{
  SyncSummary, no_changes, count_error, Pushed, raise_mount_flag, halt_sync, full_sync_mount,
}

-- The mount of a folder is halted for an update.
abbrev pub is_halted : (folder_id : String) → List MountState → Bool
is_halted folder_id [] = true
is_halted folder_id (m ∷ t) =
    if m.folder_id == folder_id
    then m.update_required && m.update_required_flag
    else is_halted folder_id t

halted-is_halted :
    (folder_id : String) (ms : List MountState)
    → is_halted folder_id (update_mount folder_id halted ms) ≡ true
unfolding update_mount
halted-is_halted folder_id [] = refl
halted-is_halted folder_id (m ∷ t) = elim (Bool-cases (m.folder_id == folder_id)) [
  | inl q ↦ rw (q, q) refl
  | inr q ↦ rw (q, q) (halted-is_halted folder_id t)
]

update_mount-is_halted :
    (f : MountState → MountState) (folder_id : String) (ms : List MountState)
    → ((m : MountState)
        → ((f m).folder_id ≡ m.folder_id)
          × ((f m).update_required ≡ m.update_required)
          × ((f m).update_required_flag ≡ m.update_required_flag))
    → is_halted folder_id (update_mount folder_id f ms) ≡ is_halted folder_id ms
unfolding update_mount
update_mount-is_halted f folder_id [] h = refl
update_mount-is_halted f folder_id (m ∷ t) h = elim (Bool-cases (m.folder_id == folder_id)) [
  | inl q ↦ rw q (rw (h m).0 (rw q (rw (h m).1 (rw (h m).2 refl))))
  | inr q ↦ rw (q, q) (update_mount-is_halted f folder_id t h)
]

module _ (fuel : ℕ) (B : Backend) (replies : DeltaPull.Backend B.outside.json)
    (push : Site → Pushed) (device_id now : String) (seconds : ℕ) (mount : MountState) where
  pull_failed-is_halted :
      (token : String) (e : Error) (d : Daemon)
      → is_some (is_update_required e) ≡ true
      → is_halted mount.folder_id
          (pull_failed fuel B replies device_id now seconds mount token e d).mounts
        ≡ true
  unfolding pull_failed mark_mount_update_required
  pull_failed-is_halted token e d u = rw u (halted-is_halted mount.folder_id d.mounts)

  -- The state after the early return.
  abbrev Halted : (site : Site) (wakes : ℕ) → SyncSummary × Daemon → Type 0
  Halted site wakes r =
      (r.0 ≡ count_error no_changes)
      × (r.1.site ≡ site)
      × (r.1.cursor_wakes ≡ wakes)
      × (is_halted mount.folder_id r.1.mounts ≡ true)

  halt_sync-Halted :
      (token : String) (e : Error) (d : Daemon)
      → is_some (is_update_required e) ≡ true
      → Halted d.site d.cursor_wakes (
          halt_sync fuel B replies push device_id now seconds mount e no_changes
            (pull_failed fuel B replies device_id now seconds mount token e d))
  unfolding end_mount_sync set_mount_pending_ops
  halt_sync-Halted token e d u =
      let d' = pull_failed fuel B replies device_id now seconds mount token e d in
      let same = pull_failed-same fuel B replies device_id now seconds mount token e d in
      let pending = λ (m : MountState). record m { pending_ops = 0 } in
      (
        refl,
        same.0,
        same.1,
        update_mount-is_halted (ended now (some (failure e))) mount.folder_id
              (update_mount mount.folder_id pending d'.mounts) (λ m. (refl, refl, refl))
            ∙ update_mount-is_halted pending mount.folder_id d'.mounts (λ m. (refl, refl, refl))
            ∙ pull_failed-is_halted token e d u,
      )

  -- When the push of a full sync asks for an update, there is no pull: the sync ends with one error, the
  -- mirror and the files are those that the push has left, no waiter is woken, and the mount is halted.
  pub full_sync-Halts :
      (token : String) (d : Daemon) (e : Error) (raised : Bool) (site : Site)
      → or mount.mount_token d.device_token ≡ some token
      → Path Pushed (push d.site) (err e, raised, site)
      → is_some (is_update_required e) ≡ true
      → (r : SyncSummary × Daemon) × (full_sync_mount fuel B replies push device_id now seconds
            mount d
          ≡ some r)
        × (r.0 ≡ count_error no_changes)
        × (r.1.site ≡ site)
        × (r.1.cursor_wakes ≡ d.cursor_wakes)
        × (is_halted mount.folder_id r.1.mounts ≡ true)
  unfolding full_sync_mount begin_mount_sync
  full_sync-Halts token d e raised site t p u =
      let flagged =
        raise_mount_flag fuel B replies push device_id now seconds mount mount.update_required
          (begin_mount_sync mount.folder_id d) in
      let pushed =
        raise_mount_flag fuel B replies push device_id now seconds mount raised
          (record flagged { site = site }) in
      let halt =
        halt_sync fuel B replies push device_id now seconds mount e no_changes
          (pull_failed fuel B replies device_id now seconds mount token e pushed) in
      let done = halt_sync-Halted token e pushed u in
      (halt, rw (t, p, u) refl, done.0, done.1, done.2, done.3)
