-- ===== src/Engine/LocalPush/Create.antt =====
-- `create_entry` of crates/valv-sync/src/sync_engine/local_push.rs: an entry that the mirror does not
-- know is created, and the content of a file is submitted at once.
pub mod Row
use valv.Base.{
  String, ◌==◌, string_eq, ℕ, suc, ℤ, Bool, true, false, List, [], ◌∷◌, ◌++◌, Option, none, some,
}
use valv.Base.Exec.{Exec, pure, modify, ◌>>=◌, ◌>>◌}
use valv.Base.Result.{Result, ok, err}
use valv.Errors.{Error}
use valv.Persistence.Db.{LocalNode}
use valv.Persistence.Nodes.{upsert_node}
use valv.Protocol.{
  NodeType, file, folder, SubmitOpRequest, create, SubmitOpResponse, applied, conflict_copy,
  superseded, conflict,
}
use valv.Engine.VersionPush.{Outside, upload_then_submit_new_version}
use valv.Engine.LocalPush.State.{
  LocalPath, Push, PushSummary, count_error, count_skipped, propagate_update_required,
  ensure_not_update_required, send_op,
}
use valv.Engine.LocalPush.Moves.{node_type_str, store_node}
use valv.Engine.LocalPush.Existing.{
  FilePush, on_push, push_version, count_failure, count_version, warm_push_cache,
}

-- `stat` is what `stat_push_signature` gives for the entry, `none` for an error.
module _ (O : Outside) (folder_id parent_node_id name : String) (abs_path : LocalPath)
    (device_name date : String) (stat : Option (ℕ × ℤ)) where
  unfoldable pub create_request : NodeType → SubmitOpRequest
  create_request node_type = create (record {
    node_id = O.new_node_id;
    parent_id = parent_node_id;
    name = name;
    node_type = node_type;
  })

  abbrev pub new_row : NodeType → (node_id : String) (server_seq : ℤ) → LocalNode
  new_row node_type node_id server_seq = record {
    node_id = node_id;
    folder_id = folder_id;
    parent_id = some parent_node_id;
    name = name;
    node_type = node_type_str node_type;
    current_version_id = none;
    server_seq = server_seq;
    deleted_at = none;
    pushed_size_bytes = none;
    pushed_mtime_nanos = none;
  }

  abbrev count_create : Exec Push Error Unit
  count_create = modify (λ p. record p {
    summary = record p.summary { creates_submitted = suc p.summary.creates_submitted };
  })

  abbrev pub after_upload : String → ℕ × ℤ → Result Error SubmitOpResponse → Exec Push Error Unit
  after_upload node_id (size, mtime) (ok response) =
      count_version >> warm_push_cache node_id size mtime
  after_upload node_id (size, mtime) (err error) =
      propagate_update_required error >> count_error error

  unfoldable pub upload_content :
      (node_id : String) (server_seq : ℤ) → Option (ℕ × ℤ) → Exec FilePush Error Unit
  unfolding propagate_update_required upload_then_submit_new_version
  upload_content node_id server_seq none = on_push count_failure
  upload_content node_id server_seq (some found) = do
    result ←
        push_version (
          upload_then_submit_new_version O folder_id node_id server_seq (some name) device_name
            date)
    on_push (after_upload node_id found result)

  -- A folder is put on the queue of the walk.
  unfoldable pub enter_created :
      NodeType → (node_id : String) (server_seq : ℤ) → Exec FilePush Error Unit
  unfolding upload_content
  enter_created folder node_id server_seq =
      on_push (modify (λ p. record p { queue = p.queue ++ ((abs_path, node_id) ∷ []) }))
  enter_created file node_id server_seq = upload_content node_id server_seq stat

  abbrev pub after_create : NodeType → Result Error SubmitOpResponse → Exec FilePush Error Unit
  after_create node_type (ok (applied server_seq node_id)) = do
    on_push (store_node (new_row node_type node_id server_seq))
    on_push count_create
    enter_created node_type node_id server_seq
  after_create node_type (ok (superseded _)) = on_push count_skipped
  after_create node_type (ok (conflict_copy _ _ _)) = pure tt
  after_create node_type (ok (conflict _ _ _ _)) = pure tt
  after_create node_type (err error) =
      on_push (propagate_update_required error >> count_error error)

  unfoldable pub create_entry : NodeType → Exec FilePush Error Unit
  unfolding ensure_not_update_required create_request propagate_update_required node_type_str
      enter_created
  create_entry node_type = do
    on_push ensure_not_update_required
    response ← on_push (send_op O.json O.submit folder_id (create_request node_type))
    after_create node_type response
