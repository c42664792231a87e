-- ===== src/Tests/Daemon.antt =====
-- The daemon on a mount with the file "a.txt".
use valv.Base.{◌≡◌, refl, string_eq, nat_eq, true, false, none, some, [], ◌∷◌, map, Option}
use valv.Base.Slices.{take, drop}
use valv.Http.{body, failed}
use valv.Persistence.Db.{Db}
use valv.Persistence.Versions.{
  upsert_version, mark_content_materialized, has_materialized_content_for_version,
}
use valv.Persistence.Chunks.{mark_uploaded}
use valv.Sql.{select_first, select_all, update, upsert, delete}
use valv.Storage.Batch.{post_batch, batch_request}
use valv.Storage.Chunking.{Bytes, chunk_ref}
use valv.Storage.Download.{
  download_chunks, fetch_chunk, fetch_all, object_by_hash, sort_by_offset, insert_by_offset,
}
use valv.Engine.DeltaPull
use valv.Engine.DeltaPull.{pull_delta, PulledNode}
use valv.Base.Text.{before_code, split_file_name, rsplit_at_dot}
use valv.Engine.ConflictCopy.{conflict_name, disambiguate_conflict_path}
use valv.Daemon.Pulled.{write_conflict_copy, conflict_copy_path}
use valv.Daemon.Pulled.Moved.{Moved, move_on_disk-Moved}
use valv.Daemon.Pulled.{move_on_disk}
use valv.Daemon.Versions.{download_and_store_version}
use valv.Engine.LocalPush.State.{LocalPath}
use valv.Engine.VersionPush.{manifest_content_hash, joined_hashes}
use valv.Daemon.Disk.{
  regular, directory, Disk, entry_at, resolve, metadata, exists, split_path, make_dirs,
  create_dir_all, write_file, rename, remove_file, remove_dir_all,
}
use valv.Daemon.Versions.{
  Site, Backend, RemoteVersion, temp_path, write_atomic, fetch_remote_version,
  download_verified_version, materialize_version, persist_materialized_version,
  persist_version_metadata,
}
use valv.Daemon.Versions.Atomic.{AllOrNothing, write_atomic-AllOrNothing}
use valv.Daemon.Versions.Verified.{Verified, materialize-Stored}
use valv.Daemon.Pulled.{load_nodes_by_id}
use valv.Daemon.Cleanup.{
  cleanup_deleted_mount_paths, collect_deleted, sort_by_depth, insert_by_depth, remove_paths,
  tree_children, queue_children, deleted_children,
}
use valv.Daemon.Cleanup.Removes.{OnlyDeleted, cleanup-OnlyDeleted}
use valv.Daemon.Health.{BackendHealth, backoff_after, short_lives, pause_for, backoff-doubles}
use valv.Daemon.Mounts.{MountState, Daemon}
use valv.Daemon.PullOnce.{pull_mount_once}
use valv.Tests.Files.{digest, get, download_response, chunks, source}
use valv.Tests.Sample.{sample_json, mirror, node}
use valv.Tests.Files

program : Unit {0}
unfolding string_eq nat_eq select_first select_all update upsert delete take drop download_chunks
    fetch_chunk fetch_all object_by_hash sort_by_offset insert_by_offset post_batch batch_request
    manifest_content_hash joined_hashes resolve metadata exists split_path make_dirs create_dir_all
    write_file rename remove_file remove_dir_all write_atomic fetch_remote_version
    download_verified_version materialize_version persist_materialized_version
    persist_version_metadata upsert_version mark_content_materialized mark_uploaded
    has_materialized_content_for_version load_nodes_by_id cleanup_deleted_mount_paths
    collect_deleted sort_by_depth insert_by_depth remove_paths tree_children queue_children
    deleted_children
program = tt

abbrev pub disk : Disk
disk =
    record { path = []; entry = directory }
    ∷ record { path = "a.txt" ∷ []; entry = regular (1 ∷ []) }
    ∷ []

abbrev faulty : LocalPath → Option Bytes
faulty path = some (7 ∷ [])

-- A disk that is full leaves the file as it was.
abbrev pub a_txt : LocalPath
a_txt = "a.txt" ∷ []

full_disk : entry_at a_txt (write_atomic faulty "0" a_txt source disk).1 ≡ some (regular (1 ∷ []))
unfolding program
full_disk = refl

write_atomic-AllOrNothing_example :
    AllOrNothing
      (temp_path faulty "0" [] "a.txt")
      a_txt
      []
      source
      disk
      (write_atomic faulty "0" a_txt source disk)
unfolding program
write_atomic-AllOrNothing_example =
    write_atomic-AllOrNothing faulty "0" a_txt [] "a.txt" source disk refl refl

abbrev no_fault : LocalPath → Option Bytes
no_fault path = none

abbrev version : RemoteVersion
version = record {
  version_id = "v9";
  content_hash = "moreone";
  size_bytes = 3;
  manifest = map chunk_ref chunks;
}

abbrev pub backend : Backend
backend = record {
  outside = record Files.outside { send_batch = λ r. body download_response };
  get = get;
  versions_of = λ node_id. body (version ∷ []);
  has_token = true;
  temp_suffix = "0";
  now = "t";
  write_fault = no_fault;
}

-- "a.txt" was deleted, and then there was a new file of that name.
abbrev pub db : Db
db = record mirror {
  nodes =
      node "root" "folder-1" none "" 0
      ∷ record (node "n1" "folder-1" (some "root") "a.txt" 5) { deleted_at = some "t" }
      ∷ node "n2" "folder-1" (some "root") "a.txt" 6
      ∷ [];
}

abbrev pub site : Site
site = record { db = db; disk = disk }

materialize-Stored_example :
    (found : RemoteVersion × Bytes) × Verified backend "folder-1" "n2" "v9" found
    × (entry_at a_txt (materialize_version backend "folder-1" "n2" "v9" a_txt site).1.disk
        ≡ some (regular found.1))
    × (has_materialized_content_for_version "v9"
          (materialize_version backend "folder-1" "n2" "v9" a_txt site).1.db
        ≡ true)
unfolding program
materialize-Stored_example =
    materialize-Stored backend "folder-1" "n2" "v9" a_txt [] "a.txt" site refl refl refl

cleanup-OnlyDeleted_example :
    OnlyDeleted
      (load_nodes_by_id "folder-1" db)
      disk
      (cleanup_deleted_mount_paths 9 "folder-1" site).1.disk
unfolding program
cleanup-OnlyDeleted_example = cleanup-OnlyDeleted 9 "folder-1" site

-- The clean-up of the deleted node takes the file of the live one.
live_file_gone : entry_at a_txt (cleanup_deleted_mount_paths 9 "folder-1" site).1.disk ≡ none
unfolding program
live_file_gone = refl

-- The clock went back between the two outcomes.
abbrev pub health : BackendHealth
health = record { last_success_at = 0; last_failure_at = 0 }

backoff-doubles_example :
    backoff_after 0 (1 ∷ 9000 ∷ 2 ∷ 2 ∷ 100 ∷ [])
    ≡ pause_for (short_lives 0 (1 ∷ 9000 ∷ 2 ∷ 2 ∷ 100 ∷ []))
backoff-doubles_example = backoff-doubles (1 ∷ 9000 ∷ 2 ∷ 2 ∷ 100 ∷ [])

four_seconds : backoff_after 0 (1 ∷ 9000 ∷ 2 ∷ 2 ∷ 100 ∷ []) ≡ 4000
unfolding backoff_after nat_eq
four_seconds = refl

abbrev pub mount : MountState
mount = record {
  path = "/sync";
  folder_id = "folder-1";
  scope_node_id = none;
  mount_token = some "token";
  active_syncs = 1;
  pending_ops = 0;
  last_synced_at = none;
  update_required = false;
  update_required_flag = false;
  rejected = false;
  error = none;
}

abbrev pub daemon : Daemon
daemon = record {
  site = site;
  mounts = mount ∷ [];
  device_token = none;
  device_token_rejected = false;
  backend_health = health;
  fs_events_paused = false;
  cursor_wakes = 0;
}

abbrev pub no_answer : DeltaPull.Backend sample_json
no_answer = record { ops_reply = λ n c. failed; tree_reply = failed; now = λ n i. "t" }

abbrev pull : Option Daemon
pull = pull_mount_once 9 backend no_answer "mac" "t" 7 mount daemon

abbrev or_before : Option Daemon → Daemon
or_before none = daemon
or_before (some d) = d

abbrev copied : PulledNode
copied = record {
  node_id = "n2";
  op_type = "new_version";
  is_conflict_copy = true;
  actor_device_id = "pc";
  applied_at = "2026-06-27T10:00:00Z";
  old_name = none;
  old_parent_id = none;
  old_version_id = none;
  new_name = "a.txt";
  new_parent_id = some "root";
  new_version_id = some "v9";
  node_type = "file";
}

copy_program : Unit {0}
unfolding program write_conflict_copy conflict_copy_path before_code download_and_store_version
    conflict_name split_file_name rsplit_at_dot disambiguate_conflict_path
copy_program = tt

copy_written :
    entry_at
      ("a (conflicted copy, pc, 2026-06-27).txt" ∷ [])
      (write_conflict_copy 9 backend "folder-1" none "mac" copied "v9" a_txt site).1.disk
    ≡ some (regular source)
unfolding copy_program
copy_written = refl

abbrev b_txt : LocalPath
b_txt = "d" ∷ "b.txt" ∷ []

move_on_disk-Moved_example :
    Moved a_txt b_txt
      (1 ∷ [])
      disk
      (move_on_disk 9 backend "folder-1" none "mac" db.nodes copied a_txt b_txt site).0
      (move_on_disk 9 backend "folder-1" none "mac" db.nodes copied a_txt b_txt site).1.disk
unfolding program
move_on_disk-Moved_example =
    move_on_disk-Moved 9 backend "folder-1" none "mac" db.nodes copied a_txt b_txt (1 ∷ []) site
      refl refl refl

file_moved :
    entry_at b_txt
      (move_on_disk 9 backend "folder-1" none "mac" db.nodes copied a_txt b_txt site).1.disk
    ≡ some (regular (1 ∷ []))
unfolding program move_on_disk
file_moved = refl
