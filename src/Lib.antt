-- ===== src/Lib.antt =====
-- Valv keeps folders on a device in step with a backend. The sync engine (crates/valv-sync) keeps a
-- mirror of each folder's nodes in SQLite: `pull_delta` fetches the backend's log of operations and
-- applies it to the mirror, `tree_resync` replaces a folder's rows by the backend's tree, and local
-- changes are submitted as operations.
--
-- Files and code:
--   Base: shared names, `==` by instances, signed numbers, results, store-passing actions.
--   Sql: the shapes of SQL statement that the program uses, as functions on lists of rows.
--   Protocol: protocol/sync.rs. Errors: sync_engine/update_required.rs and the error causes.
--   Json: what the program uses of serde and serde_json, a parameter.
--   Persistence: persistence/ of crates/valv-sync. Db has the tables of schema.sql; Nodes, Mounts,
--     Versions and Chunks the statements of nodes.rs, mounts.rs, versions.rs and chunks.rs; OpLog
--     `apply_op_log_entry` and what it calls; Snapshot `apply_tree_snapshot`.
--   Http: what a reply to a request can be.
--   Storage: chunking/mod.rs (Chunking), protocol/http.rs and `post_batch` (Batch), `upload_chunks`
--     and `download_chunks` of storage/mod.rs (Upload, Download), and theorems on them.
--   Engine.DeltaPull: sync_engine/delta_pull.rs. Engine.WsClient: sync_engine/ws_client.rs, where a
--     socket is a list of polls.
--   Engine.OpSubmit, ConflictCopy, VersionPush: sync_engine/op_submit.rs, in the order of the code:
--     the reply to an operation and its effect on the mirror, `materialize_conflict_copy`, and
--     `upload_then_submit_new_version`.
--   Engine.LocalPush: sync_engine/local_push.rs, `process_moved_entry` (Moves),
--     `submit_deletes_for_missing` (Deletes), `process_existing_file` (Existing) and `create_entry`
--     (Create) on the state of a push run (State), and `push_local_inner`, which calls them (Listing
--     and Walk).
--   Daemon: crates/valvd/src/tasks.rs, and `BackendHealth` and `MountState` of main.rs. Disk has what
--     it uses of std::fs; Versions the download of a version to a path, Pulled what a pull changes on
--     disk, Cleanup and Materialize the two sweeps over the mirror's tree, Health and Mounts the state
--     that the daemon keeps, PullOnce `pull_mount_once`, which uses all of them, and FullSync
--     `full_sync_mount` and `post_sync`, with the push as a parameter. SyncLoop is `sync_loop`, as a
--     function of the wakes in any order. Polls has the polls of
--     the account and of the principals. Paths is path_resolution.rs and `resolve_node_path` of
--     nodes.rs.
--   Watch: watch/mod.rs of crates/valv-sync. Events maps and collapses the events, Task is
--     `fs_watch_task` with the callback of `watch_mount`, from one wait to the next, against acts of
--     the others in any order, Resolve finds the node of a path, and Handle is `handle_fs_event` and
--     what it calls. Task takes the handler as a parameter.
--   Releases: update.rs of crates/valv-sync, the search for the latest release.
--   Update: update.rs of crates/valv-cli, self_update.rs of crates/valvd and the rest of update.rs of
--     crates/valv-sync: the staging of a component with its checks (Assets), the swap of the binaries
--     (Swap), the restart and the roll-back (Restart), the guard of programs that the app manages
--     (Guard), and `cmd_update`, which calls them in turn (Command).
--   Tests: runs on small inputs, and the theorems at concrete inputs.
--
-- The mirror is the record `Db` of four lists of rows, and a function on `&Connection` takes and
-- returns it. A statement without ORDER BY reads rows in insertion order. A constraint of the
-- schema that refuses a row is an error; faults of SQLite itself (disk, locking), so also one
-- between the two writes of `apply_new_version`, which has no transaction, and the conversion of
-- unsigned columns are not modelled, and sizes do not overflow. Sequence numbers are signed and are
-- only compared and copied. Time, hashes, UUIDs, the cut points of FastCDC and the replies of the
-- backend and of the object store are arguments. A file is a list of bytes, a folder a function
-- from names to files. The loop of `pull_delta` takes fuel: one round for each log number from the
-- stored cursor up to the backend's last one, and one more, is enough. The walks of the local push
-- (to the root of a mount, and over the mirror's tree) take fuel too, since the source's loops do
-- not end on a cycle of parents: there the source goes on for ever, and the model's walk up gives
-- no path and its sweep stops with the error `out_of_fuel`. Without such a cycle the amount makes
-- no difference (Moves/Fuel, Deletes/Fuel and Deletes/Ends), if it is greater than the depth of the
-- rows, and the number of nodes below one and one more. The walk over the disk takes one round for
-- each folder and one more. In Daemon a disk is a list of paths with their entries, below the root
-- of one mount; a fault of the disk is a write that stops part of the way, and a link is not
-- modelled. In Update every call of the file system has a number, and a schedule says which calls
-- fail. In Watch the handling of one event is one step: what others write to the mirror during its
-- requests is not modelled. The text of an error is kept as the error.
--
-- Not modelled: the tokio tasks and their timers, the axum handlers but `post_sync`, the daemon's
-- check for an update, the notice of an update with its cache, the run of tar, and the rest of the
-- command line. Printing (`eprintln!`, `tracing`) is left out. The macOS application, the
-- TypeScript backend, the Swift kits and the scripts are outside the development.
pub mod Base
pub mod Sql
pub mod Protocol
pub mod Errors
pub mod Json
pub mod Http
pub mod Persistence
pub mod Storage
pub mod Engine
pub mod Daemon
pub mod Releases
pub mod Watch
pub mod Update
pub mod Tests
