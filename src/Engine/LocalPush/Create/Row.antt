-- ===== src/Engine/LocalPush/Create/Row.antt =====
-- What the creation of a folder leaves.
use valv.Base.{
  ◌≡◌, refl, ◌∙◌, String, ◌==◌, string_eq, ℕ, ℤ, true, Option, none, some, arith, if◌then◌else◌,
}
use valv.Base.Exec.{bind-holds}
use valv.Base.Result.{ok}
use valv.Persistence.Db.{Db, LocalNode}
use valv.Persistence.Nodes.{get_node, node_type_ok}
use valv.Persistence.Nodes.Laws.{get_node-upsert_node, upserted}
use valv.Protocol.{folder, applied}
use valv.Engine.OpSubmit.{submit_op}
use valv.Engine.VersionPush.{Outside}
use valv.Engine.LocalPush.State.{LocalPath, ensure_not_update_required}
use valv.Engine.LocalPush.Existing.{FilePush, on_push}
use valv.Engine.LocalPush.Moves.{node_type_str, store_node}
use valv.Engine.LocalPush.Create.{create_request, new_row, enter_created, create_entry}

folder_type_ok : (n : LocalNode) → n.node_type ≡ "folder" → node_type_ok n ≡ true
folder_type_ok n h = ground arith

new_row-stored :
    (n : LocalNode) (k : String) (db : Db)
    → get_node n.node_id db ≡ none
    → (if n.node_id == k then some (upserted n (get_node k db)) else get_node k db) ≡ (
        if n.node_id == k
        then some (record n { pushed_size_bytes = none; pushed_mtime_nanos = none })
        else get_node k db)
new_row-stored n k db h = ground arith

module _ (O : Outside) (folder_id parent_node_id name : String) (abs_path : LocalPath)
    (device_name date : String) (stat : Option (ℕ × ℤ)) where
  -- When the backend applies the creation of a folder, in a run that it has not asked to stop, the
  -- mirror has a row for the node that the answer names, with the parent, the name and the log
  -- number, and every other row is as before.
  pub created-row :
      (f : FilePush) (seq : ℤ) (node_id k : String)
      → f.push.update_required_flag ≡ none
      → submit_op O.json folder_id (
          O.submit
            (create_request O folder_id parent_node_id name abs_path device_name date stat folder))
        ≡ ok (applied seq node_id)
      → get_node node_id f.push.db ≡ none
      → get_node k
          (create_entry O folder_id parent_node_id name abs_path device_name date stat folder
            f).1.push.db
        ≡ (if node_id == k
            then some (
                new_row O folder_id parent_node_id name abs_path device_name date stat folder
                  node_id seq)
            else get_node k f.push.db)
  unfolding create_entry ensure_not_update_required enter_created node_type_str
  created-row f seq node_id k flag r new =
      let row =
        new_row O folder_id parent_node_id name abs_path device_name date stat folder node_id seq in
      let stored =
        get_node-upsert_node row k f.push.db (folder_type_ok row refl)
        ∙ new_row-stored row k f.push.db new in
      rw flag (
        rw r (
          bind-holds
            (λ g. get_node k g.push.db ≡ (if node_id == k then some row else get_node k f.push.db))
            (on_push (store_node row)) _ _ stored (λ u e. stored)))
