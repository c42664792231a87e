-- ===== src/Persistence/OpLog.antt =====
-- crates/valv-sync/src/persistence/mod.rs: one entry of the server's operation log is applied to
-- the mirror.
pub mod Row
pub mod Frame
pub mod Order
pub mod Failure
pub mod Mounts
use valv.Base.{
  String, ◌==◌, string_eq, ℤ, leb_ℤ, Bool, true, false, not, ◌&&◌, Option, none, some,
  if◌then◌else◌,
}
use valv.Base.Result.{Result, ok, err, ok_or}
use valv.Base.Exec.{Exec, pure, raise, lift, modify, ◌>>=◌, ◌>>◌}
use valv.Errors.{Error, update_required, unrecognized_op_type, decode, missing_folder, unknown_node}
use valv.Json.{Json, CreatePayload, NewVersionPayload}
use valv.Persistence.Db.{LocalNode, LocalVersion, Db}
use valv.Persistence.Nodes.{get_node, upsert_node, update_node, mark_deleted}
use valv.Persistence.Versions.{upsert_version}
use valv.Protocol.{NodeType, file, folder, OpLogEntry}
use mathlib.Core.Option

unfoldable pub node_type_to_str : NodeType → String
node_type_to_str file = "file"
node_type_to_str folder = "folder"

unfoldable pub folder_id_from_parent : String → Db → Option String
folder_id_from_parent parent_id db =
    Option.map (λ (n : LocalNode). n.folder_id) (get_node parent_id db)

-- The `match payload.folder_id` of `apply_create`.
unfoldable pub create_folder : (node_id : String) → CreatePayload → Db → Result Error String
unfolding folder_id_from_parent
create_folder node_id payload db = elim payload.folder_id [
  | some folder_id ↦ ok folder_id
  | none ↦
      ok_or (folder_id_from_parent payload.parent_id db) (missing_folder node_id payload.parent_id)
]

-- The guard of `apply_op_log_entry`: the mirror's row is as new as the entry.
abbrev pub is_stale : Option LocalNode → ℤ → Bool
is_stale none server_seq = false
is_stale (some n) server_seq = leb_ℤ server_seq n.server_seq

module _ (J : Json) where
  abbrev pub Entry : Type 0
  Entry = OpLogEntry J.Value

  -- The row that `apply_create` writes.
  abbrev pub created_row : Entry → CreatePayload → String → LocalNode
  created_row entry payload folder_id = record {
    node_id = entry.node_id;
    folder_id = folder_id;
    parent_id = some payload.parent_id;
    name = payload.name;
    node_type = node_type_to_str payload.node_type;
    current_version_id = none;
    server_seq = entry.server_seq;
    deleted_at = none;
    pushed_size_bytes = none;
    pushed_mtime_nanos = none;
  }

  unfoldable pub apply_create : Entry → Exec Db Error Unit
  unfolding create_folder
  apply_create entry = do
    payload ← lift (ok_or (J.from_create entry.op_payload) decode)
    folder_id ← λ db. (create_folder entry.node_id payload db, db)
    upsert_node (created_row entry payload folder_id)

  -- `payload.is_conflict_copy != Some(true)`.
  abbrev pub is_main_line : Option Bool → Bool
  is_main_line (some true) = false
  is_main_line _ = true

  -- The UPDATE at the end of `apply_new_version`.
  abbrev pub advance_node : Entry → NewVersionPayload → Db → Db
  advance_node entry payload = update_node entry.node_id (λ n.
      if is_main_line payload.is_conflict_copy
      then record n { current_version_id = some payload.version_id; server_seq = entry.server_seq }
      else record n { server_seq = entry.server_seq })

  -- Two writes without a transaction around them. A fault of SQLite between the two, after which the
  -- version stands without the row's update, is not modelled.
  unfoldable pub apply_new_version : Entry → Exec Db Error Unit
  apply_new_version entry = do
    payload ← lift (ok_or (J.from_new_version entry.op_payload) decode)
    node ← λ db. (ok_or (get_node entry.node_id db) (unknown_node entry.node_id), db)
    modify (
        upsert_version (record {
          version_id = payload.version_id;
          node_id = entry.node_id;
          folder_id = node.folder_id;
          content_hash = payload.content_hash;
          size_bytes = payload.size_bytes;
          manifest_json = J.manifest_to_string payload.manifest;
        }))
    modify (advance_node entry payload)

  unfoldable pub apply_rename : Entry → Exec Db Error Unit
  apply_rename entry = do
    new_name ← lift (ok_or (J.from_rename entry.op_payload) decode)
    modify (
        update_node entry.node_id
          (λ n. record n { name = new_name; server_seq = entry.server_seq }))

  unfoldable pub apply_move : Entry → Exec Db Error Unit
  apply_move entry = do
    new_parent_id ← lift (ok_or (J.from_move entry.op_payload) decode)
    modify (
        update_node entry.node_id
          (λ n. record n { parent_id = some new_parent_id; server_seq = entry.server_seq }))

  unfoldable pub apply_delete : (now : String) → Entry → Exec Db Error Unit
  apply_delete now entry = modify (mark_deleted now entry.node_id entry.server_seq)

  -- The `match entry.op_type.as_str()`.
  unfoldable pub dispatch : (now : String) → Entry → Exec Db Error Unit
  dispatch now entry =
      if entry.op_type == "create"
      then apply_create entry
      else if entry.op_type == "rename"
      then apply_rename entry
      else if entry.op_type == "move"
      then apply_move entry
      else if entry.op_type == "delete"
      then apply_delete now entry
      else if entry.op_type == "new_version"
      then apply_new_version entry
      else raise (update_required (unrecognized_op_type entry.op_type))

  -- Returns the row of the node as it was before.
  unfoldable pub apply_op_log_entry : (now : String) → Entry → Exec Db Error (Option LocalNode)
  apply_op_log_entry now entry db =
      let pre_op = get_node entry.node_id db in
      if not (entry.op_type == "create") && is_stale pre_op entry.server_seq
      then pure pre_op db
      else (dispatch now entry >> pure pre_op) db
