-- ===== src/Watch/Handle/Keeps.antt =====
-- The handlers of the watcher keep the files of the mount.
use valv.Base.{
  ◌≡◌, ◌==◌, list_eq, ◌∷◌, String, ℕ, ℤ, Bool, true, false, List, Option, none, some, arith, inl,
  inr, if◌then◌else◌, not, ◌&&◌, map, string_eq,
}
use valv.Base.Exec.{Exec, pure, lift, raise, ◌>>=◌}
use valv.Base.Result.{Result, ok, err, Result-cases}
use valv.Errors.{Error}
use valv.Persistence.Db.{LocalNode}
use valv.Persistence.Nodes.{upsert_node}
use valv.Protocol.{
  NodeType, SubmitOpRequest, SubmitOpResponse, applied, conflict_copy, superseded, conflict,
}
use valv.Storage.Chunking.{Bytes, Chunk, chunk_ref, chunk_file}
use valv.Storage.Upload.{pending_chunks}
use valv.Engine.OpSubmit.{submit_op, apply_submitted_new_version}
use valv.Engine.LocalPush.Listing.{is_conflict_copy_name}
use valv.Engine.ConflictCopy.{Dir, materialize_conflict_copy}
use valv.Engine.ConflictCopy.Disambiguate.{materialize-keeps}
use valv.Engine.VersionPush.{Outside, manifest_content_hash, total_length, version_request}
use valv.Watch.Events.{AbsPath, component_eq, FsEvent}
use valv.Watch.Events
use valv.Watch.Resolve.{
  name_component, split_last, file_name, resolve_abs_path, resolve_parent_for_path,
}
use valv.Watch.Handle.{
  Watched, Stat, on_folder, folder_of, copy_beside, store_answer, submit_version,
  upload_file_new_version, after_create_op, create_below, create_named, create_found, handle_create,
  modify_node, handle_modify, handle_fs_event, is_folder, is_missing, kind_at, keep_signature,
  mark_pending, upload_pending_chunks, content_at, is_current, on_mirror, entry_row, create_op,
  submit_logged,
}

-- After the action every file is there, with its content.
abbrev pub KeepsContent : {A : Type 0} → Exec Watched Error A → Type 0
KeepsContent m =
    (w : Watched) (folder : AbsPath) (k : String) (bytes : Bytes)
    → w.files folder k ≡ some bytes
    → (m w).1.files folder k ≡ some bytes

then_keeps :
    {A B : Type 0} (m : Exec Watched Error A) (f : A → Exec Watched Error B)
    → KeepsContent m
    → ((a : A) → KeepsContent (f a))
    → KeepsContent (m >>= f)
then_keeps m f h g w folder k bytes e = elim (Result-cases (m w).0) [
  | inl (x, q) ↦ rw q (h w folder k bytes e)
  | inr (a, q) ↦ rw q (g a (m w).1 folder k bytes (h w folder k bytes e))
]

on_folder-keeps :
    {A : Type 0} (path : AbsPath) (m : Exec Dir Error A)
    → ((dir : Dir) (k : String) (bytes : Bytes) → dir k ≡ some bytes → (m dir).1 k ≡ some bytes)
    → KeepsContent (on_folder path m)
on_folder-keeps path m h w folder k bytes e = ground (arith, h (w.files path) k bytes)

if_keeps :
    {A : Type 0} (b : Bool) (m n : Exec Watched Error A)
    → KeepsContent m
    → KeepsContent n
    → KeepsContent (if b then m else n)
if_keeps true m n h g = h
if_keeps false m n h g = g

module _ (O : Outside) (S : Stat) (mount_path : AbsPath) (folder_id device_name date : String) where
  copy_beside-keeps :
      (path : AbsPath) (response : SubmitOpResponse)
      → KeepsContent (copy_beside O S mount_path folder_id device_name date path response)
  copy_beside-keeps path (applied _ _) = λ w folder k bytes e. e
  copy_beside-keeps path (superseded _) = λ w folder k bytes e. e
  copy_beside-keeps path (conflict _ _ _ _) = λ w folder k bytes e. e
  copy_beside-keeps path (conflict_copy _ _ _) =
      let name = name_component (split_last path) in
      then_keeps (on_folder (folder_of path) (materialize_conflict_copy name device_name date))
        (λ _. pure tt)
        (on_folder-keeps (folder_of path) (materialize_conflict_copy name device_name date)
          (λ dir k bytes e. materialize-keeps name device_name date k dir bytes e))
        (λ a w folder k bytes e. e)

  store_answer-keeps :
      (node_id : String) (path : AbsPath) (size_bytes : ℕ) (req : SubmitOpRequest)
      (response : SubmitOpResponse)
      → KeepsContent (
          store_answer O S mount_path folder_id device_name date node_id path size_bytes req
            response)
  unfolding store_answer
  store_answer-keeps node_id path size_bytes req response w folder k bytes e = ground (
    arith,
    e,
    Result-cases (apply_submitted_new_version O.json folder_id node_id req response w.db).0,
    copy_beside-keeps path response
        (record w {
          db =
              keep_signature node_id size_bytes (S.mtime path) response
                (apply_submitted_new_version O.json folder_id node_id req response w.db).1;
        })
        folder k bytes,
  )

  submit_version-keeps :
      (node_id : String) (based_on_seq : ℤ) (path : AbsPath) (chunks : List Chunk)
      → KeepsContent (
          submit_version O S mount_path folder_id device_name date node_id based_on_seq path chunks)
  unfolding submit_version
  submit_version-keeps node_id based_on_seq path chunks w folder k bytes e =
      let pending = pending_chunks chunks w.db in
      let req = version_request O node_id based_on_seq chunks in
      let w' = record w { db = mark_pending pending w.db; sent = req ∷ w.sent } in
      elim (Result-cases (upload_pending_chunks O pending)) [
        | inl (x, q) ↦ rw q e
        | inr (u, q) ↦ elim (Result-cases (submit_op O.json folder_id (O.submit req))) [
          | inl (x, s) ↦ ground (arith, q, s)
          | inr (response, s) ↦ ground (
            arith,
            q,
            s,
            store_answer-keeps node_id path (total_length chunks) req response w' folder k bytes e,
          )
        ]
      ]

  upload-keeps :
      (node_id : String) (based_on_seq : ℤ) (path : AbsPath)
      → KeepsContent (
          upload_file_new_version O S mount_path folder_id device_name date node_id based_on_seq
            path)
  unfolding upload_file_new_version
  upload-keeps node_id based_on_seq path w folder k bytes e =
      elim (Result-cases (chunk_file O.digest O.cut_points (content_at path w))) [
        | inl (x, q) ↦ rw q e
        | inr (chunks, q) ↦ rw q (
            if_keeps
              (is_current node_id (total_length chunks)
                (manifest_content_hash O (map chunk_ref chunks)) w.db)
              (pure tt)
              (submit_version O S mount_path folder_id device_name date node_id based_on_seq path
                chunks)
              (λ w' folder' k' bytes' e'. e')
              (submit_version-keeps node_id based_on_seq path chunks) w folder k bytes e)
      ]

  after_create_op-keeps :
      (node_type : NodeType) (path : AbsPath) (parent_id name : String)
      (response : SubmitOpResponse)
      → KeepsContent (
          after_create_op O S mount_path folder_id device_name date node_type path parent_id name
            response)
  after_create_op-keeps node_type path parent_id name (superseded _) = λ w folder k bytes e. e
  after_create_op-keeps node_type path parent_id name (conflict_copy _ _ _) =
      λ w folder k bytes e. e
  after_create_op-keeps node_type path parent_id name (conflict _ _ _ _) = λ w folder k bytes e. e
  after_create_op-keeps node_type path parent_id name (applied server_seq node_id) =
      then_keeps
        (on_mirror (
          upsert_node (
            entry_row O S mount_path folder_id device_name date node_type parent_id name node_id
              server_seq)))
        (λ _.
          if is_folder node_type
          then pure tt
          else upload_file_new_version O S mount_path folder_id device_name date node_id server_seq
              path)
        (λ w folder k bytes e. e)
        (λ _.
          if_keeps (is_folder node_type) (pure tt)
            (upload_file_new_version O S mount_path folder_id device_name date node_id server_seq
              path)
            (λ w folder k bytes e. e) (upload-keeps node_id server_seq path))

  create_below-keeps :
      (node_type : NodeType) (path : AbsPath) (name : String) (parent : Option LocalNode)
      → KeepsContent
          (create_below O S mount_path folder_id device_name date node_type path name parent)
  create_below-keeps node_type path name none = λ w folder k bytes e. e
  create_below-keeps node_type path name (some parent) =
      then_keeps
        (submit_logged O S mount_path folder_id device_name date
          (create_op O S mount_path folder_id device_name date node_type parent.node_id name))
        (after_create_op O S mount_path folder_id device_name date node_type path parent.node_id
          name)
        (λ w folder k bytes e. e) (after_create_op-keeps node_type path parent.node_id name)

  create_named-keeps :
      (node_type : NodeType) (path : AbsPath) (name : String)
      → KeepsContent (create_named O S mount_path folder_id device_name date node_type path name)
  create_named-keeps node_type path name =
      then_keeps (λ w. (resolve_parent_for_path w.db folder_id mount_path path, w))
        (create_below O S mount_path folder_id device_name date node_type path name)
        (λ w folder k bytes e. e) (create_below-keeps node_type path name)

  create_found-keeps :
      (path : AbsPath) (kind : Result Error NodeType)
      → KeepsContent (create_found O S mount_path folder_id device_name date path kind)
  create_found-keeps path (err x) =
      if_keeps (is_missing x) (pure tt) (raise x) (λ w folder k bytes e. e)
        (λ w folder k bytes e. e)
  create_found-keeps path (ok node_type) =
      then_keeps (lift (file_name path))
        (λ name.
          if not (is_folder node_type) && is_conflict_copy_name name
          then pure tt
          else create_named O S mount_path folder_id device_name date node_type path name)
        (λ w folder k bytes e. e)
        (λ name.
          if_keeps (not (is_folder node_type) && is_conflict_copy_name name) (pure tt)
            (create_named O S mount_path folder_id device_name date node_type path name)
            (λ w folder k bytes e. e) (create_named-keeps node_type path name))

  modify_node-keeps :
      (path : AbsPath) (node : Option LocalNode)
      → KeepsContent (modify_node O S mount_path folder_id device_name date path node)
  modify_node-keeps path none = λ w folder k bytes e. e
  modify_node-keeps path (some n) =
      if_keeps (n.node_type == "file")
        (upload_file_new_version O S mount_path folder_id device_name date n.node_id n.server_seq
          path)
        (pure tt) (upload-keeps n.node_id n.server_seq path) (λ w folder k bytes e. e)

  -- Whatever the store and the backend answer, and wherever it fails, the handling of an event keeps
  -- every file of every folder of the mount with its content.
  pub handle-KeepsContent :
      (e : FsEvent) → KeepsContent (handle_fs_event O S mount_path folder_id device_name date e)
  unfolding handle_fs_event handle_create handle_modify
  handle-KeepsContent (Events.create path) = λ w. create_found-keeps path (kind_at S path w) w
  handle-KeepsContent (Events.modify path) =
      then_keeps (λ w. (resolve_abs_path w.db folder_id mount_path path, w))
        (modify_node O S mount_path folder_id device_name date path) (λ w folder k bytes e. e)
        (modify_node-keeps path)
