-- ===== src/Persistence/Snapshot.antt =====
-- crates/valv-sync/src/persistence/mod.rs: a folder's rows are replaced by the server's tree.
pub mod Laws
use valv.Base.{String, ◌==◌, string_eq, none, List, [], ◌∷◌}
use valv.Base.Result.{Result, ok, err}
use valv.Base.Exec.{Exec, pure, modify, ◌>>=◌, ◌>>◌}
use valv.Errors.{Error}
use valv.Persistence.Db.{LocalNode, VersionRow, Db}
use valv.Persistence.Mounts.{set_cursor}
use valv.Persistence.Nodes.{upsert_node}
use valv.Persistence.OpLog.{node_type_to_str}
use valv.Protocol.{NodeSnapshot, FolderTreeResponse}
use valv.Sql.{delete}

abbrev pub snapshot_row : String → NodeSnapshot → LocalNode
snapshot_row folder_id node = record {
  node_id = node.node_id;
  folder_id = folder_id;
  parent_id = node.parent_id;
  name = node.name;
  node_type = node_type_to_str node.node_type;
  current_version_id = node.current_version_id;
  server_seq = node.server_seq;
  deleted_at = node.deleted_at;
  pushed_size_bytes = none;
  pushed_mtime_nanos = none;
}

unfoldable pub insert_snapshot_node : String → NodeSnapshot → Exec Db Error Unit
insert_snapshot_node folder_id node = upsert_node (snapshot_row folder_id node)

-- The loop over `resp.nodes`.
unfoldable pub insert_all : String → List NodeSnapshot → Exec Db Error Unit
insert_all folder_id [] = pure tt
insert_all folder_id (node ∷ nodes) =
    insert_snapshot_node folder_id node >> insert_all folder_id nodes

-- The two DELETE statements.
unfoldable pub clear_folder : String → Db → Db
clear_folder folder_id db = record db {
  versions = delete (λ r. r.version.folder_id == folder_id) db.versions;
  nodes = delete (λ n. n.folder_id == folder_id) db.nodes;
}

-- A transaction: an error that leaves it with `?` drops it, and rolls its writes back.
abbrev pub settle : Db → Result Error Unit × Db → Result Error Unit × Db
settle db (ok a, db') = (ok a, db')
settle db (err e, db') = (err e, db)

abbrev pub transaction : Exec Db Error Unit → Exec Db Error Unit
transaction body db = settle db (body db)

unfoldable pub apply_tree_snapshot : String → FolderTreeResponse → Exec Db Error Unit
unfolding clear_folder
apply_tree_snapshot folder_id resp = transaction (do
  modify (clear_folder folder_id)
  insert_all folder_id resp.nodes
  modify (set_cursor folder_id resp.up_to_seq))
