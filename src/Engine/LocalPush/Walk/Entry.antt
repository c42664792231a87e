-- ===== src/Engine/LocalPush/Walk/Entry.antt =====
-- What the walk sends for one entry, and whether it puts it on the queue.
use valv.Base.{
  refl, String, ◌==◌, string_eq, nat_eq, ℕ, ℤ, ◌&&◌, Option, none, some, Bool-cases, inl, inr,
}
use valv.Base.Exec.{bind-holds}
use valv.Base.Result.{Result, ok, err}
use valv.Errors.{Error}
use valv.Persistence.Db.{LocalNode, LocalVersion}
use valv.Protocol.{
  NodeType, file, folder, SubmitOpResponse, applied, conflict_copy, superseded, conflict,
}
use valv.Engine.VersionPush.{Outside, upload_then_submit_new_version}
use valv.Engine.LocalPush.State.{
  LocalPath, Push, propagate_update_required, ensure_not_update_required,
}
use valv.Engine.LocalPush.Deletes.Safe.{ensure-same}
use valv.Engine.LocalPush.Moves.{store_node}
use valv.Engine.LocalPush.Existing.{
  FilePush, on_push, push_version, after_push, submit_changed, compare_hash, compare_version,
  process_existing_file, check_file, size_is, mtime_is,
}
use valv.Engine.LocalPush.Create.{
  create_request, new_row, after_create, create_entry, enter_created, upload_content, after_upload,
}
use valv.Engine.LocalPush.Walk.Requests.{OnRun, Allows, propagate-OnRun}

-- A predicate on the run of the push.
abbrev pub On : OnRun → Push → Type 0
On holds p = holds p.queue p.submitted

pub ensure-OnRun :
    (holds : OnRun) (p : Push) → On holds p → On holds (ensure_not_update_required p).1
ensure-OnRun holds p h = rw (ensure-same p) h

module _ (O : Outside) (folder_id name device_name date : String) (stat : Option (ℕ × ℤ))
    (holds : OnRun) where
  module _ (node : LocalNode) where
    after_push-On :
        (size : ℕ) (mtime : ℤ) (r : Result Error SubmitOpResponse) (p : Push)
        → On holds p
        → On holds (after_push O folder_id node name device_name date stat size mtime r p).1
    after_push-On size mtime (ok response) p h = h
    after_push-On size mtime (err e) p h =
        let h' = propagate-OnRun holds e p h in
        bind-holds (On holds) (propagate_update_required e) _ p h' (λ a q. h')

    submit_changed-On :
        (size : ℕ) (mtime : ℤ) (f : FilePush)
        → On holds f.push
        → On holds (submit_changed O folder_id node name device_name date stat size mtime f).1.push
    unfolding submit_changed
    submit_changed-On size mtime f h =
        let m =
          upload_then_submit_new_version O folder_id node.node_id node.server_seq (some name)
            device_name date in
        after_push-On size mtime _ (push_version m f).1.push h

    compare_hash-On :
        (size : ℕ) (mtime : ℤ) (stored : String) (r : Result Error String) (f : FilePush)
        → On holds f.push
        → On holds
            (compare_hash O folder_id node name device_name date stat size mtime stored r f).1.push
    unfolding compare_hash
    compare_hash-On size mtime stored (err e) f h = h
    compare_hash-On size mtime stored (ok hash) f h = elim (Bool-cases (hash == stored)) [
      | inl q ↦ rw q h
      | inr q ↦ rw q (submit_changed-On size mtime f h)
    ]

    compare_version-On :
        (size : ℕ) (mtime : ℤ) (version : Option LocalVersion) (f : FilePush)
        → On holds f.push
        → On holds
            (compare_version O folder_id node name device_name date stat size mtime version
              f).1.push
    unfolding compare_version
    compare_version-On size mtime none f h = submit_changed-On size mtime f h
    compare_version-On size mtime (some v) f h = elim (Bool-cases (v.size_bytes == size)) [
      | inl q ↦ rw q (compare_hash-On size mtime v.content_hash _ f h)
      | inr q ↦ rw q (submit_changed-On size mtime f h)
    ]

    check_file-On :
        (found : Option (ℕ × ℤ)) (f : FilePush)
        → On holds f.push
        → On holds (check_file O folder_id node name device_name date stat found f).1.push
    check_file-On none f h = h
    check_file-On (some (size, mtime)) f h =
        elim (Bool-cases
          (size_is node.pushed_size_bytes size && mtime_is node.pushed_mtime_nanos mtime)) [
            | inl q ↦ rw q h
            | inr q ↦ rw q (compare_version-On size mtime _ f h)
          ]

    pub existing-On :
        (f : FilePush)
        → On holds f.push
        → On holds (process_existing_file O folder_id node name device_name date stat f).1.push
    unfolding process_existing_file
    existing-On f h =
        let h' = ensure-OnRun holds f.push h in
        bind-holds (λ g. On holds g.push) (on_push ensure_not_update_required) _ f h'
          (λ a q. check_file-On stat _ h')

module _ (O : Outside) (folder_id parent_node_id name : String) (abs_path : LocalPath)
    (device_name date : String) (stat : Option (ℕ × ℤ)) (before after : OnRun) where
  after_upload-On :
      (node_id : String) (found : ℕ × ℤ) (r : Result Error SubmitOpResponse) (p : Push)
      → On before p
      → On before
          (after_upload O folder_id parent_node_id name abs_path device_name date stat node_id found
            r p).1
  after_upload-On node_id found (ok response) p h = h
  after_upload-On node_id found (err e) p h =
      let h' = propagate-OnRun before e p h in
      bind-holds (On before) (propagate_update_required e) _ p h' (λ a q. h')

  upload_content-On :
      (node_id : String) (seq : ℤ) (found : Option (ℕ × ℤ)) (f : FilePush)
      → On before f.push
      → On before
          (upload_content O folder_id parent_node_id name abs_path device_name date stat node_id seq
            found f).1.push
  unfolding upload_content
  upload_content-On node_id seq none f h = h
  upload_content-On node_id seq (some found) f h =
      let m = upload_then_submit_new_version O folder_id node_id seq (some name) device_name date in
      after_upload-On node_id found _ (push_version m f).1.push h

  enter_created-On :
      (kind : NodeType) (node_id : String) (seq : ℤ) (f : FilePush)
      → Allows kind abs_path before after
      → On before f.push
      → On after
          (enter_created O folder_id parent_node_id name abs_path device_name date stat kind node_id
            seq f).1.push
  unfolding enter_created
  enter_created-On folder node_id seq f allows h = allows.enter refl _ _ node_id h
  enter_created-On file node_id seq f allows h =
      allows.weaken _ _ (upload_content-On node_id seq stat f h)

  after_create-On :
      (kind : NodeType) (r : Result Error SubmitOpResponse) (f : FilePush)
      → Allows kind abs_path before after
      → On before f.push
      → On after
          (after_create O folder_id parent_node_id name abs_path device_name date stat kind r
            f).1.push
  after_create-On kind (ok (applied seq node_id)) f allows h =
      bind-holds (λ g. On after g.push)
        (on_push (
          store_node (
            new_row O folder_id parent_node_id name abs_path device_name date stat kind node_id
              seq)))
        _ f (allows.weaken _ _ h) (λ a q. enter_created-On kind node_id seq _ allows h)
  after_create-On kind (ok (superseded seq)) f allows h = allows.weaken _ _ h
  after_create-On kind (ok (conflict_copy seq m v)) f allows h = allows.weaken _ _ h
  after_create-On kind (ok (conflict m seq b c)) f allows h = allows.weaken _ _ h
  after_create-On kind (err e) f allows h =
      let h' = propagate-OnRun before e f.push h in
      allows.weaken _ _
        (bind-holds (On before) (propagate_update_required e) _ f.push h' (λ a q. h'))

  pub create_entry-On :
      (kind : NodeType) (f : FilePush)
      → Allows kind abs_path before after
      → On before f.push
      → On after
          (create_entry O folder_id parent_node_id name abs_path device_name date stat kind
            f).1.push
  unfolding create_entry create_request
  create_entry-On kind f allows h =
      let h' = ensure-OnRun before f.push h in
      bind-holds (λ g. On after g.push) (on_push ensure_not_update_required) _ f
        (allows.weaken _ _ h') (λ a q. after_create-On kind _ _ allows (allows.send _ _ _ tt h'))
