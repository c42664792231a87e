-- ===== src/Watch/Handle.antt =====
-- The handlers of crates/valv-sync/src/watch/mod.rs: an event of the watcher is submitted.
pub mod Keeps
pub mod Sent
use mathlib.Core.Option
use valv.Base.{
  String, ◌==◌, list_eq, string_eq, nat_eq, ℕ, ℤ, Bool, true, false, not, ◌&&◌, List, [], ◌∷◌, map,
  Option, none, some, is_some, if◌then◌else◌,
}
use valv.Base.Exec.{Exec, pure, raise, lift, gets, modify, ◌>>=◌, ◌>>◌}
use valv.Base.Result.{Result, ok, err}
use valv.Errors.{Error, io, not_found, batch_object, unknown_oid}
use valv.Http.{Reply}
use valv.Persistence.Chunks.{mark_uploaded}
use valv.Persistence.Db.{Db, LocalNode, LocalVersion}
use valv.Persistence.Nodes.{get_node, upsert_node, update_pushed_cache}
use valv.Persistence.Versions.{get_version}
use valv.Protocol.{
  NodeType, file, folder, SubmitOpRequest, SubmitOpResponse, applied, conflict_copy, superseded,
  conflict,
}
use valv.Protocol
use valv.Storage.Batch.{
  BatchRequest, BatchResponse, BatchResponseObject, BatchAction, upload, batch_request, read_reply,
}
use valv.Storage.Chunking.{Bytes, Chunk, chunk_ref, chunk_file}
use valv.Storage.Upload.{pending_chunks, pending_object, upload_action}
use valv.Engine.ConflictCopy.{Dir, materialize_conflict_copy}
use valv.Engine.OpSubmit.{submit_op, apply_submitted_new_version}
use valv.Engine.VersionPush.{Outside, manifest_content_hash, total_length, version_request}
use valv.Engine.LocalPush.Listing.{is_conflict_copy_name}
use valv.Engine.LocalPush.Moves.{node_type_str}
use valv.Watch.Events.{AbsPath, component_eq, FsEvent}
use valv.Watch.Events
use valv.Watch.Resolve.{
  split_last, parent_component, name_component, file_name, resolve_abs_path,
  resolve_parent_for_path,
}

-- The mirror, the disk and the requests that were sent, the last one first. The disk is the files of
-- each folder, and which paths are folders.
pub record Watched : Type 0 where
  pub db : Db
  pub files : AbsPath → Dir
  pub folders : AbsPath → Bool
  pub sent : List SubmitOpRequest

-- What is asked of a path besides its content: whether it cannot be examined, and its `mtime`.
pub record Stat : Type 0 where
  pub denied : AbsPath → Bool
  pub mtime : AbsPath → Option ℤ

abbrev pub on_mirror : {A : Type 0} → Exec Db Error A → Exec Watched Error A
on_mirror m w = let (r, db) = m w.db in (r, record w { db = db })

-- What runs on the files of one folder.
abbrev pub on_folder : {A : Type 0} → AbsPath → Exec Dir Error A → Exec Watched Error A
on_folder path m w =
    let (r, dir) = m (w.files path) in
    (r, record w { files = λ q. if q == path then dir else w.files q })

abbrev pub folder_of : AbsPath → AbsPath
folder_of path = Option.get_or (parent_component (split_last path)) []

-- `fs::read`.
abbrev pub content_at : AbsPath → Watched → Option Bytes
content_at path w = elim (name_component (split_last path)) [
  | none ↦ none
  | some name ↦ w.files (folder_of path) name
]

abbrev is_folder : NodeType → Bool
is_folder folder = true
is_folder file = false

abbrev is_missing : Error → Bool
is_missing not_found = true
is_missing _ = false

-- `chunks.iter().find`.
unfoldable pub find_chunk : List Chunk → String → Option Chunk
find_chunk [] oid = none
find_chunk (c ∷ cs) oid = if c.hash == oid then some c else find_chunk cs oid

unfoldable pub mark_pending : List Chunk → Db → Db
mark_pending [] db = db
mark_pending (c ∷ cs) db = mark_pending cs (mark_uploaded c.hash c.length db)

abbrev pub has_content : (size_bytes : ℕ) (content_hash : String) → Option LocalVersion → Bool
has_content size_bytes content_hash none = false
has_content size_bytes content_hash (some version) =
    version.size_bytes == size_bytes && version.content_hash == content_hash

abbrev pub current_version : Option LocalNode → Db → Option LocalVersion
current_version none db = none
current_version (some node) db = elim node.current_version_id [
  | none ↦ none
  | some v ↦ get_version v db
]

-- The current version of the node has the size and the hash already.
unfoldable pub is_current : (node_id : String) (size_bytes : ℕ) (content_hash : String) → Db → Bool
unfolding get_node get_version
is_current node_id size_bytes content_hash db =
    has_content size_bytes content_hash (current_version (get_node node_id db) db)

abbrev pub keep_signature :
    (node_id : String) (size_bytes : ℕ) → Option ℤ → SubmitOpResponse → Db → Db
keep_signature node_id size_bytes (some mtime) (applied _ _) =
    update_pushed_cache node_id size_bytes mtime
keep_signature node_id size_bytes (some mtime) (conflict_copy _ _ _) = λ db. db
keep_signature node_id size_bytes (some mtime) (superseded _) = λ db. db
keep_signature node_id size_bytes (some mtime) (conflict _ _ _ _) = λ db. db
keep_signature node_id size_bytes none response = λ db. db

unfoldable pub kind_at : Stat → AbsPath → Watched → Result Error NodeType
kind_at S path w =
    if S.denied path
    then err io
    else if w.folders path
    then ok folder
    else if is_some (content_at path w)
    then ok file
    else err not_found

module _ (O : Outside) where
  abbrev pub put_found : BatchAction → String → Option Chunk → Result Error Unit
  put_found action oid none = err (unknown_oid oid)
  put_found action oid (some c) = O.put action.href (Option.get_or action.header []) c.content

  abbrev pub put_action : List Chunk → BatchResponseObject → Option BatchAction → Result Error Unit
  put_action chunks o none = ok tt
  put_action chunks o (some action) = put_found action o.oid (find_chunk chunks o.oid)

  abbrev pub put_object : List Chunk → BatchResponseObject → Result Error Unit
  put_object chunks o = elim o.error [
    | some e ↦ err (batch_object o.oid e.message)
    | none ↦ put_action chunks o (upload_action o)
  ]

  unfoldable pub put_objects : List Chunk → List BatchResponseObject → Result Error Unit
  unfolding find_chunk
  put_objects chunks [] = ok tt
  put_objects chunks (o ∷ os) = elim (put_object chunks o) [
    | ok u ↦ put_objects chunks os
    | err e ↦ err e
  ]

  abbrev pub put_batch : List Chunk → Result Error BatchResponse → Result Error Unit
  put_batch chunks (err e) = err e
  put_batch chunks (ok batch) = put_objects chunks batch.objects

  unfoldable pub upload_pending_chunks : List Chunk → Result Error Unit
  unfolding put_objects batch_request
  upload_pending_chunks [] = ok tt
  upload_pending_chunks (c ∷ cs) =
      put_batch (c ∷ cs)
        (read_reply (O.send_batch (batch_request upload (map pending_object (c ∷ cs)))))

module _ (O : Outside) (S : Stat) (mount_path : AbsPath) (folder_id device_name date : String) where
  abbrev pub submit_logged : SubmitOpRequest → Exec Watched Error SubmitOpResponse
  submit_logged req w =
      (submit_op O.json folder_id (O.submit req), record w { sent = req ∷ w.sent })

  abbrev pub copy_beside : AbsPath → SubmitOpResponse → Exec Watched Error Unit
  copy_beside path (conflict_copy _ _ _) =
      on_folder (folder_of path)
        (materialize_conflict_copy (name_component (split_last path)) device_name date)
      >> pure tt
  copy_beside path (applied _ _) = pure tt
  copy_beside path (superseded _) = pure tt
  copy_beside path (conflict _ _ _ _) = pure tt

  -- From the response on.
  unfoldable pub store_answer :
      (node_id : String)
      → AbsPath
      → (size_bytes : ℕ) → SubmitOpRequest
      → SubmitOpResponse
      → Exec Watched Error Unit
  unfolding apply_submitted_new_version
  store_answer node_id path size_bytes req response = do
    on_mirror (apply_submitted_new_version O.json folder_id node_id req response)
    on_mirror (modify (keep_signature node_id size_bytes (S.mtime path) response))
    copy_beside path response

  -- From the pending chunks on.
  unfoldable pub submit_version :
      (node_id : String) (based_on_seq : ℤ) → AbsPath → List Chunk → Exec Watched Error Unit
  unfolding upload_pending_chunks mark_pending version_request pending_chunks store_answer
  submit_version node_id based_on_seq path chunks = do
    pending ← gets (λ w. pending_chunks chunks w.db)
    lift (upload_pending_chunks O pending)
    on_mirror (modify (mark_pending pending))
    let req = version_request O node_id based_on_seq chunks
    response ← submit_logged req
    store_answer node_id path (total_length chunks) req response

  unfoldable pub upload_file_new_version :
      (node_id : String) (based_on_seq : ℤ) → AbsPath → Exec Watched Error Unit
  unfolding submit_version is_current chunk_file manifest_content_hash total_length
  upload_file_new_version node_id based_on_seq path = do
    chunks ← λ w. (chunk_file O.digest O.cut_points (content_at path w), w)
    current ← gets (λ w.
        is_current node_id (total_length chunks) (manifest_content_hash O (map chunk_ref chunks))
          w.db)
    if current then pure tt else submit_version node_id based_on_seq path chunks

  abbrev pub entry_row : NodeType → (parent_id name node_id : String) (server_seq : ℤ) → LocalNode
  entry_row node_type parent_id name node_id server_seq = record {
    node_id = node_id;
    folder_id = folder_id;
    parent_id = some parent_id;
    name = name;
    node_type = node_type_str node_type;
    current_version_id = none;
    server_seq = server_seq;
    deleted_at = none;
    pushed_size_bytes = none;
    pushed_mtime_nanos = none;
  }

  abbrev pub after_create_op :
      NodeType → AbsPath → (parent_id name : String) → SubmitOpResponse → Exec Watched Error Unit
  after_create_op node_type path parent_id name (applied server_seq node_id) = do
    on_mirror (upsert_node (entry_row node_type parent_id name node_id server_seq))
    if is_folder node_type then pure tt else upload_file_new_version node_id server_seq path
  after_create_op node_type path parent_id name (superseded _) = pure tt
  after_create_op node_type path parent_id name (conflict_copy _ _ _) = pure tt
  after_create_op node_type path parent_id name (conflict _ _ _ _) = pure tt

  abbrev pub create_op : NodeType → (parent_id name : String) → SubmitOpRequest
  create_op node_type parent_id name = Protocol.create (record {
    node_id = O.new_node_id;
    parent_id = parent_id;
    name = name;
    node_type = node_type;
  })

  abbrev pub create_below :
      NodeType → AbsPath → (name : String) → Option LocalNode → Exec Watched Error Unit
  create_below node_type path name none = pure tt
  create_below node_type path name (some parent) = do
    response ← submit_logged (create_op node_type parent.node_id name)
    after_create_op node_type path parent.node_id name response

  abbrev pub create_named : NodeType → AbsPath → (name : String) → Exec Watched Error Unit
  create_named node_type path name = do
    parent ← λ w. (resolve_parent_for_path w.db folder_id mount_path path, w)
    create_below node_type path name parent

  abbrev pub create_found : AbsPath → Result Error NodeType → Exec Watched Error Unit
  create_found path (err e) = if is_missing e then pure tt else raise e
  create_found path (ok node_type) = do
    name ← lift (file_name path)
    if not (is_folder node_type) && is_conflict_copy_name name
        then pure tt
        else create_named node_type path name

  unfoldable pub handle_create : AbsPath → Exec Watched Error Unit
  unfolding kind_at file_name is_conflict_copy_name resolve_parent_for_path node_type_str
      upload_file_new_version
  handle_create path w = create_found path (kind_at S path w) w

  abbrev pub modify_node : AbsPath → Option LocalNode → Exec Watched Error Unit
  modify_node path none = pure tt
  modify_node path (some node) =
      if node.node_type == "file"
      then upload_file_new_version node.node_id node.server_seq path
      else pure tt

  unfoldable pub handle_modify : AbsPath → Exec Watched Error Unit
  unfolding resolve_abs_path upload_file_new_version
  handle_modify path = do
    node ← λ w. (resolve_abs_path w.db folder_id mount_path path, w)
    modify_node path node

  unfoldable pub handle_fs_event : FsEvent → Exec Watched Error Unit
  unfolding handle_create handle_modify
  handle_fs_event (Events.create path) = handle_create path
  handle_fs_event (Events.modify path) = handle_modify path
