-- ===== src/Engine/OpSubmit.antt =====
-- crates/valv-sync/src/sync_engine/op_submit.rs: an operation is submitted, and what the backend
-- answers to a new version is written to the mirror.
pub mod Parse
pub mod Echo
use valv.Base.{
  String, ◌==◌, string_eq, nat_eq, ℕ, ℤ, Bool, true, false, ◌||◌, Option, none, some, if◌then◌else◌,
}
use valv.Base.Result.{Result, ok, err, ok_or}
use valv.Base.Exec.{Exec, pure, modify, ◌>>=◌, ◌>>◌}
use valv.Errors.{
  Error, update_required, unrecognized_submit_result, update_required_from_response, op_forbidden,
  http_status, transport, decode,
}
use valv.Http.{Reply, failed, upgrade_required, gone, status, unreadable, body}
use valv.Json.{Json}
use valv.Persistence.Db.{LocalNode, Db}
use valv.Persistence.Nodes.{update_node}
use valv.Persistence.Versions.{upsert_version}
use valv.Protocol.{
  NewVersionPayload, SubmitOpRequest, create, rename, move, delete, new_version, SubmitOpResponse,
  applied, conflict_copy, superseded, conflict,
}

unfoldable pub is_op_forbidden : Error → Bool
is_op_forbidden (op_forbidden f) = true
is_op_forbidden _ = false

abbrev pub is_known_result : String → Bool
is_known_result r = r == "applied" || r == "conflict_copy" || r == "superseded" || r == "conflict"

module _ (J : Json) where
  -- The match on `body.get("result").and_then(as_str)`.
  unfoldable pub parse_result : J.Value → Option String → Result Error SubmitOpResponse
  parse_result v none = err (update_required (unrecognized_submit_result none))
  parse_result v (some r) =
      if is_known_result r
      then ok_or (J.from_submit_response v) decode
      else err (update_required (unrecognized_submit_result (some r)))

  unfoldable pub parse_submit_op_response_body : J.Value → Result Error SubmitOpResponse
  unfolding parse_result
  parse_submit_op_response_body v = parse_result v (J.get_str v "result")

  -- From the reply to the POST.
  unfoldable pub submit_op : (folder_id : String) → Reply J.Value → Result Error SubmitOpResponse
  unfolding parse_submit_op_response_body
  submit_op folder_id failed = err transport
  submit_op folder_id (upgrade_required b) = err (update_required_from_response b)
  submit_op folder_id gone = err (http_status 410)
  submit_op folder_id (status s) =
      if s == 403 then err (op_forbidden folder_id) else err (http_status s)
  submit_op folder_id unreadable = err decode
  submit_op folder_id (body v) = parse_submit_op_response_body v

  -- The version row and the UPDATE of the node.
  unfoldable pub store_version :
      (folder_id node_id version_id : String) (server_seq : ℤ) (is_conflict_copy : Bool)
      → NewVersionPayload
      → Exec Db Error Unit
  store_version folder_id node_id version_id server_seq is_conflict_copy payload = do
    modify (
        upsert_version (record {
          version_id = version_id;
          node_id = node_id;
          folder_id = folder_id;
          content_hash = payload.content_hash;
          size_bytes = payload.size_bytes;
          manifest_json = J.manifest_to_string payload.manifest;
        }))
    modify (
        update_node node_id (λ n.
          if is_conflict_copy
          then record n { server_seq = server_seq }
          else record n { current_version_id = some version_id; server_seq = server_seq }))

  unfoldable pub apply_submitted_new_version :
      (folder_id node_id : String) → SubmitOpRequest → SubmitOpResponse → Exec Db Error Unit
  unfolding store_version
  apply_submitted_new_version folder_id node_id (new_version _ _ payload) (applied server_seq _) =
      store_version folder_id node_id payload.version_id server_seq false payload
  apply_submitted_new_version folder_id node_id (new_version _ _ payload)
        (conflict_copy server_seq _ v) =
      store_version folder_id node_id v server_seq true payload
  apply_submitted_new_version folder_id node_id (new_version _ _ _) (superseded _) = pure tt
  apply_submitted_new_version folder_id node_id (new_version _ _ _) (conflict _ _ _ _) = pure tt
  apply_submitted_new_version folder_id node_id _ _ = pure tt
