-- ===== src/Errors.antt =====
-- crates/valv-sync/src/sync_engine/update_required.rs, and the errors of the sync engine. An
-- `anyhow::Error` is the cause that the program can still tell apart, by `downcast_ref` or by text.
use valv.Base.{String, ◌<>◌, ℕ, ℤ, Option, none, some}
use mathlib.Core.Option

pub record UpdateRequired : Type 0 where
  pub min_protocol : Option ℤ
  pub message : String

unfoldable pub unrecognized_submit_result : Option String → UpdateRequired
unrecognized_submit_result result =
    let detail =
      Option.get_or (Option.map (λ r. "unrecognized op submission result `" <> (r <> "`")) result)
        "missing op submission result" in
    record { min_protocol = none; message = detail <> "; update Valv to keep syncing" }

unfoldable pub unrecognized_op_type : String → UpdateRequired
unrecognized_op_type op_type = record {
  min_protocol = none;
  message = "unrecognized op type `" <> (op_type <> "`; update Valv to keep syncing");
}

unfoldable pub protocol_too_old : Option ℤ → Option String → UpdateRequired
protocol_too_old min_protocol message = record {
  min_protocol = min_protocol;
  message = Option.get_or message "Update Valv to keep syncing.";
}

unfoldable pub mount_already_halted : UpdateRequired
mount_already_halted = record { min_protocol = none; message = "Update Valv to keep syncing." }

pub data Error : Type 0 where
  update_required : UpdateRequired → Error
  op_forbidden : (folder_id : String) → Error
  -- SQLite refuses a row: a CHECK, UNIQUE or PRIMARY KEY constraint.
  constraint : Error
  -- A JSON value does not have the shape of the type that it is read at.
  decode : Error
  -- `create` names no folder, and its parent is not in the mirror.
  missing_folder : (node_id parent_id : String) → Error
  unknown_node : (node_id : String) → Error
  regressed : (up_to_seq cursor : ℤ) → Error
  -- `error_for_status`.
  http_status : ℕ → Error
  -- `send()` failed, or the body could not be read.
  transport : Error
  batch_object : (oid message : String) → Error
  unknown_oid missing_oid missing_action : (oid : String) → Error
  hash_mismatch : (oid expected actual : String) → Error
  unsupported_transfer : (transfer : String) → Error
  -- A file cannot be read, written or examined.
  io : Error
  -- `io::ErrorKind::NotFound`.
  not_found : Error
  version_not_found : (version_id node_id : String) → Error
  content_hash_mismatch content_size_mismatch : (version_id : String) → Error
  -- `require_token`.
  no_token : Error
  no_file_name : Error
  -- The mirror has no root node for the folder.
  no_root_node : (folder_id : String) → Error
  no_release : (prefix : String) → Error
  -- Not the program's: the fuel of a loop of the model ran out.
  out_of_fuel : Error
  exhausted : (path : String) → Error
  -- A path outside the mount, or with a component such as `..`.
  outside_mount unsupported_component : Error
  unsupported_platform : Error
  missing_checksum checksum_mismatch missing_binary : (asset : String) → Error
  bad_signature bad_request : Error
  bad_backend_url read_idle no_home : Error
  -- A failed restart of the daemon, before and after the old binaries are put back.
  restart_failed rolled_back not_rolled_back : Error

-- `downcast_ref`.
unfoldable pub is_update_required : Error → Option UpdateRequired
is_update_required (update_required u) = some u
is_update_required _ = none

-- The `ProtocolTooOldBody` of a 426 response, if its JSON could be read.
pub record ProtocolTooOldBody : Type 0 where
  pub min_protocol : Option ℤ
  pub message : Option String

-- `update_required_from_response`, for a response of status 426.
unfoldable pub update_required_from_response : Option ProtocolTooOldBody → Error
unfolding protocol_too_old
update_required_from_response none = update_required (protocol_too_old none none)
update_required_from_response (some body) =
    update_required (protocol_too_old body.min_protocol body.message)
