-- ===== src/Engine/LocalPush/Moves/Applied.antt =====
-- What a move that the backend applies leaves in the mirror.
use valv.Base.{
  ◌≡◌, refl, ◌∙◌, String, ◌==◌, string_eq, ℕ, ℤ, Bool, true, false, Option, some, arith,
  if◌then◌else◌,
}
use valv.Base.Result.{ok}
use valv.Base.Exec.{bind-holds}
use valv.Http.{Reply}
use valv.Json.{Json}
use valv.Persistence.Db.{Db, LocalNode}
use valv.Persistence.Nodes.{column_is, get_node, node_type_ok}
use valv.Persistence.Nodes.Laws.{get_node-upsert_node, upserted}
use valv.Protocol.{NodeType, file, folder, SubmitOpRequest, move, rename, applied}
use valv.Engine.OpSubmit.{submit_op}
use valv.Engine.LocalPush.State.{LocalPath, Push}
use valv.Engine.LocalPush.Moves.{
  find_missing_move_candidate, submit_move, submit_rename, finish_move, process_moved_entry,
  store_node,
}

abbrev row_stored : LocalNode → String → Db → Option LocalNode
row_stored node k db =
    if node.node_id == k then some (upserted node (get_node k db)) else get_node k db

-- A stored row keeps the push cache that it had.
stored-row :
    (n : LocalNode) (m : LocalNode) (k : String) (db : Db)
    → get_node n.node_id db ≡ some n
    → m.node_id ≡ n.node_id
    → upserted m (some n) ≡ m
    → row_stored m k db ≡ (if n.node_id == k then some m else get_node k db)
stored-row n m k db h i u = ground arith

module _ (exists : LocalPath → Bool) (folder_id : String) (scope_node_id : Option String)
    (abs_path : LocalPath) (parent_node_id name : String) (J : Json)
    (backend : SubmitOpRequest → Reply J.Value) where
  finish_move-row :
      (node_type : NodeType) (node : LocalNode) (k : String) (q : Push)
      → node_type_ok node ≡ true
      → get_node k
          (finish_move exists folder_id scope_node_id abs_path parent_node_id name node_type J
            backend
            (some node)
            q).1.db
        ≡ row_stored node k q.db
  unfolding finish_move
  finish_move-row file node k q h =
      bind-holds (λ r. get_node k r.db ≡ row_stored node k q.db) (store_node node) _ q
        (get_node-upsert_node node k q.db h) (λ a e. get_node-upsert_node node k q.db h)
  finish_move-row folder node k q h =
      bind-holds (λ r. get_node k r.db ≡ row_stored node k q.db) (store_node node) _ q
        (get_node-upsert_node node k q.db h) (λ a e. get_node-upsert_node node k q.db h)

  module _ (node_type : NodeType) (fuel : ℕ) (p : Push) (n : LocalNode) (s : ℤ) (a k : String) where
    -- When the candidate has the name of the entry and another parent, and the backend applies the
    -- move, then the candidate's row has the new parent and the log number of the move and is as
    -- before otherwise, and no other row changes.
    pub moved-row :
        find_missing_move_candidate exists folder_id scope_node_id abs_path parent_node_id name
            node_type fuel p.db
          ≡ some n
        → get_node n.node_id p.db ≡ some n
        → node_type_ok n ≡ true
        → column_is n.parent_id parent_node_id ≡ false
        → (n.name == name) ≡ true
        → submit_op J folder_id (backend (move n.node_id n.server_seq parent_node_id))
          ≡ ok (applied s a)
        → get_node k
            (process_moved_entry exists folder_id scope_node_id abs_path parent_node_id name
              node_type J backend fuel p).1.db
          ≡ (if n.node_id == k
              then some (record n { parent_id = some parent_node_id; server_seq = s })
              else get_node k p.db)
    unfolding process_moved_entry submit_move submit_rename
    moved-row f row typed c d r =
        let moved = record n { parent_id = some parent_node_id; server_seq = s } in
        rw f (
          rw c (
            rw r (
              rw d (
                finish_move-row node_type moved k _ typed
                ∙ stored-row n moved k p.db row refl refl))))

    -- When the candidate has the parent of the entry and another name, and the backend applies the
    -- rename, then the candidate's row has the new name and the log number of the rename and is as
    -- before otherwise, and no other row changes.
    pub renamed-row :
        find_missing_move_candidate exists folder_id scope_node_id abs_path parent_node_id name
            node_type fuel p.db
          ≡ some n
        → get_node n.node_id p.db ≡ some n
        → node_type_ok n ≡ true
        → column_is n.parent_id parent_node_id ≡ true
        → (n.name == name) ≡ false
        → submit_op J folder_id (backend (rename n.node_id n.server_seq name)) ≡ ok (applied s a)
        → get_node k
            (process_moved_entry exists folder_id scope_node_id abs_path parent_node_id name
              node_type J backend fuel p).1.db
          ≡ (if n.node_id == k
              then some (record n { name = name; server_seq = s })
              else get_node k p.db)
    unfolding process_moved_entry submit_move submit_rename
    renamed-row f row typed c d r =
        let renamed = record n { name = name; server_seq = s } in
        rw f (
          rw c (
            rw d (
              rw r (
                finish_move-row node_type renamed k _ typed
                ∙ stored-row n renamed k p.db row refl refl))))
