-- ===== src/Persistence/OpLog/Failure.antt =====
-- When the application of an entry asks for an update of the program.
use valv.Base.{◌≡◌, ◌↔◌, String, ◌==◌, string_eq, true, arith, ◌||◌, Bool, false, is_some}
use valv.Base.Result.{ok, err, Result}
use valv.Errors.{Error, update_required, is_update_required, unrecognized_op_type}
use valv.Json.{Json}
use valv.Persistence.Db.{Db}
use valv.Persistence.Nodes.{get_node, upsert_node}
use valv.Persistence.OpLog.{
  Entry, apply_op_log_entry, apply_create, apply_rename, apply_move, apply_delete,
  apply_new_version, dispatch, is_stale, create_folder,
}

-- The op types that this version of the program knows.
abbrev pub is_known : String → Bool
is_known t = t == "create" || t == "rename" || t == "move" || t == "delete" || t == "new_version"

-- The result asks for an update, as `is_update_required` sees it.
abbrev pub asks_update : {A : Type 0} → Result Error A → Bool
asks_update (ok a) = false
asks_update (err e) = is_some (is_update_required e)

module _ (J : Json) (now : String) (entry : Entry J) (db : Db) where
  create-asks : asks_update (apply_create J entry db).0 ≡ false
  unfolding apply_create upsert_node create_folder is_update_required
  create-asks = ground arith

  -- The application asks for an update exactly when the op type is unknown and the mirror's row
  -- of the node is not as new as the entry; then the message names the op type.
  pub apply-asks_update : (asks_update (apply_op_log_entry J now entry db).0 ≡ true) ↔ (
      (is_known entry.op_type ≡ false)
      × (is_stale (get_node entry.node_id db) entry.server_seq ≡ false)
      × ((apply_op_log_entry J now entry db).0
          ≡ err (update_required (unrecognized_op_type entry.op_type))))
  unfolding apply_op_log_entry dispatch apply_rename apply_move apply_delete apply_new_version
      is_update_required
  apply-asks_update = ground (arith, create-asks)
