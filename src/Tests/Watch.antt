-- ===== src/Tests/Watch.antt =====
-- The watcher on small inputs: a batch, a pause, and the upload of a file.
use valv.Base.{
  ◌≡◌, refl, string_eq, nat_eq, list_eq, pos, true, false, List, [], ◌∷◌, some, map, ◌⊎◌,
}
use valv.Base.Exec.{Exec}
use valv.Base.Result.{ok}
use valv.Errors.{Error}
use valv.Sql.{select_first}
use valv.Engine.OpSubmit.{submit_op}
use valv.Persistence.Nodes.{get_node}
use valv.Persistence.Versions.{get_version}
use valv.Storage.Chunking.{chunk_ref, chunk_file}
use valv.Engine.VersionPush.{manifest_content_hash, total_length}
use valv.Tests.Push.{outside}
use valv.Tests.Sample.{mirror}
use valv.Daemon.Paths.{root_dir, normal}
use valv.Watch.Events.{
  AbsPath, component_eq, FsEvent, create, modify, collapse_events, EventKind, NotifyEvent,
  map_notify_event, event,
}
use valv.Watch.Events.Collapse.{count, touches, creates, one_if, some_of, collapse-OnePerPath}
use valv.Watch.Task.{
  Watcher, at_head, locking, settling, Act, set_paused, notify, turn, on_notify, run_watch,
}
use valv.Watch.Task.Owed.{owed, suppressed-Owed}
use valv.Watch.Task.Batch.{Accounted, batch-Accounted}
use valv.Watch.Handle.{Watched, Stat, upload_file_new_version, handle_fs_event, is_current}
use valv.Watch.Handle.Keeps.{handle-KeepsContent}
use valv.Watch.Handle.Sent.{Submitted, upload-OnlyChanged}

program : Unit {0}
unfolding string_eq nat_eq list_eq component_eq collapse_events run_watch handle_fs_event
    select_first get_node get_version upload_file_new_version chunk_file manifest_content_hash
    submit_op
program = tt

abbrev dir : AbsPath
dir = root_dir ∷ normal "m" ∷ normal "d" ∷ []

abbrev item : AbsPath
item = root_dir ∷ normal "m" ∷ normal "d" ∷ normal "a.txt" ∷ []

abbrev batch : List FsEvent
batch = modify item ∷ create item ∷ modify item ∷ create dir ∷ []

collapsed : collapse_events (λ es. es) batch ≡ create dir ∷ create item ∷ []
unfolding program
collapsed = refl

collapse-OnePerPath_example :
    (count (touches item) (collapse_events (λ es. es) batch)
      ≡ one_if (some_of (touches item) batch))
    × (count (creates item) (collapse_events (λ es. es) batch)
        ≡ one_if (some_of (creates item) batch))
collapse-OnePerPath_example = collapse-OnePerPath (λ es. es) batch item (λ test es. refl)

-- The handler counts the events that it takes.
abbrev log : FsEvent → Exec (List FsEvent) Error Unit
log e seen = (ok tt, e ∷ seen)

abbrev watcher : Watcher (List FsEvent)
watcher = record {
  stage = at_head;
  channel = [];
  dropped_paused_events = false;
  suppressed_during_pause = false;
  needs_reconcile = false;
  update_required = false;
  paused = true;
  fs_events_paused = false;
  world = [];
}

abbrev written : NotifyEvent
written = record { kind = EventKind.modify_data; paths = item ∷ []; need_rescan = false }

abbrev acts : List Act
acts = turn ∷ set_paused false ∷ turn ∷ []

after_pause : (run_watch log (λ es. es) acts (on_notify (some written) watcher)).stage ≡ settling
unfolding program
after_pause = refl

suppressed-Owed_example :
    (owed (run_watch log (λ es. es) acts (on_notify (some written) watcher)) ≡ true)
    × ((run_watch log (λ es. es) acts (on_notify (some written) watcher)).stage ≡ settling
        → (run_watch log
            (λ es. es)
            (turn ∷ [])
            (run_watch log (λ es. es) acts (on_notify (some written) watcher))).needs_reconcile
          ≡ true)
unfolding map_notify_event
suppressed-Owed_example =
    suppressed-Owed log (λ es. es) watcher written (event (modify item)) acts refl refl refl
      (refl, (refl, (refl, tt)))

abbrev busy : Watcher (List FsEvent)
busy = record watcher { stage = locking (create dir ∷ create item ∷ []); paused = false }

batch-Accounted_example : Accounted log (create dir ∷ create item ∷ []) [] (
    run_watch log
      (λ es. es)
      (turn ∷ [])
      (run_watch log
        (λ es. es)
        (notify (some written) ∷ [])
        (run_watch log (λ es. es) (turn ∷ []) busy)))
batch-Accounted_example =
    batch-Accounted log (λ es. es) (create dir ∷ create item ∷ []) (some written ∷ []) busy refl

abbrev stat : Stat
stat = record { denied = λ p. false; mtime = λ p. some (pos 3) }

abbrev watched : Watched
watched = record {
  db = mirror;
  files = λ p name. some (1 ∷ 2 ∷ []);
  folders = λ p. false;
  sent = [];
}

handle-KeepsContent_example :
    (handle_fs_event outside stat
        (root_dir ∷ normal "m" ∷ [])
        "folder-1"
        "mac"
        "2026-06-27"
        (create item)
        watched).1.files
      dir "a.txt"
    ≡ some (1 ∷ 2 ∷ [])
handle-KeepsContent_example =
    handle-KeepsContent outside stat (root_dir ∷ normal "m" ∷ []) "folder-1" "mac" "2026-06-27"
      (create item) watched dir "a.txt" (1 ∷ 2 ∷ []) refl

-- The upload of the file, whose only version is still the one before.
abbrev upload : Exec Watched Error Unit
upload =
    upload_file_new_version outside stat (root_dir ∷ normal "m" ∷ []) "folder-1" "mac" "2026-06-27"
      "n1" (pos 5) item

upload-OnlyChanged_example :
    ((is_current "n1"
          (total_length [])
          (manifest_content_hash outside (map chunk_ref []))
          watched.db
        ≡ true)
      × ((upload watched).1 ≡ watched))
    ⊎ ((is_current "n1"
            (total_length [])
            (manifest_content_hash outside (map chunk_ref []))
            watched.db
          ≡ false)
        × Submitted outside stat
            (root_dir ∷ normal "m" ∷ [])
            "folder-1"
            "mac"
            "2026-06-27"
            "n1"
            item
            (pos 5)
            []
            watched
            (upload watched).1)
unfolding program
upload-OnlyChanged_example =
    upload-OnlyChanged outside stat (root_dir ∷ normal "m" ∷ []) "folder-1" "mac" "2026-06-27" "n1"
      item (pos 5) [] watched refl refl
