-- ===== src/Tests/FullSync.antt =====
-- A full sync of the mount of the daemon's tests: the push succeeds or asks for an update, and the
-- backend does not answer the pull.
use valv.Base.{◌≡◌, refl, string_eq, nat_eq, true, false, none, some, [], ◌∷◌, Option, arith}
use valv.Base.Result.{ok, err}
use valv.Errors.{update_required, mount_already_halted, is_update_required}
use valv.Engine.LocalPush.State.{PushSummary}
use valv.Sql.{select_first}
use valv.Daemon.Versions.{Site}
use valv.Daemon.Mounts.{Daemon}
use valv.Daemon.Mounts.Balance.{active_syncs_of}
use valv.Daemon.FullSync.{SyncSummary, no_changes, count_error, Pushed, full_sync_mount}
use valv.Daemon.FullSync.Balanced.{full_sync-Balanced}
use valv.Daemon.FullSync.Halts.{is_halted, full_sync-Halts}
use valv.Tests.Daemon.{backend, site, daemon, no_answer, mount}

abbrev created_one : PushSummary
created_one = record {
  creates_submitted = 1;
  versions_submitted = 0;
  deletes_submitted = 0;
  skipped = 0;
  errors = 0;
  forbidden = false;
}

abbrev push : Site → Pushed
push s = (ok created_one, false, s)

abbrev asks_update : Site → Pushed
asks_update s = (err (update_required mount_already_halted), true, s)

abbrev sync : Option (SyncSummary × Daemon)
sync = full_sync_mount 9 backend no_answer push "mac" "t" 7 mount daemon

abbrev or_none : Option (SyncSummary × Daemon) → SyncSummary × Daemon
or_none none = (no_changes, daemon)
or_none (some r) = r

-- The push is counted, and so is the pull that failed.
counted : (or_none sync).0 ≡ record no_changes { creates_submitted = 1; errors = 1 }
unfolding string_eq nat_eq select_first full_sync_mount
counted = refl

full_sync-Balanced_example : active_syncs_of (or_none sync).1.mounts ≡ ("folder-1", 1) ∷ []
unfolding string_eq nat_eq select_first full_sync_mount
full_sync-Balanced_example =
    full_sync-Balanced 9 backend no_answer push "mac" "t" 7 mount "token" daemon (or_none sync) refl
      (omega arith, tt) refl

full_sync-Halts_example :
    (r : SyncSummary × Daemon) × (full_sync_mount 9 backend no_answer asks_update "mac" "t" 7 mount
        daemon
      ≡ some r)
    × (r.0 ≡ count_error no_changes)
    × (r.1.site ≡ site)
    × (r.1.cursor_wakes ≡ 0)
    × (is_halted "folder-1" r.1.mounts ≡ true)
unfolding is_update_required
full_sync-Halts_example =
    full_sync-Halts 9 backend no_answer asks_update "mac" "t" 7 mount "token" daemon
      (update_required mount_already_halted) true site refl refl refl
