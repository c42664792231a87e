-- ===== src/Engine/LocalPush/Moves.antt =====
-- `process_moved_entry` of crates/valv-sync/src/sync_engine/local_push.rs: an entry on disk that the
-- mirror does not know may be a node that was moved or renamed.
pub mod Candidate
pub mod Fuel
pub mod Applied
use valv.Base.{
  String, ◌==◌, string_eq, ℕ, zero, suc, Bool, true, false, ◌&&◌, ◌||◌, not, List, [], ◌∷◌, ◌++◌,
  Option, none, some, if◌then◌else◌,
}
use valv.Base.Exec.{Exec, pure, modify, ◌>>=◌, ◌>>◌}
use valv.Base.Result.{Result, ok, err}
use valv.Errors.{Error}
use valv.Http.{Reply}
use valv.Json.{Json}
use valv.Persistence.Db.{Db, LocalNode}
use valv.Persistence.Nodes.{column_is, is_null, upsert_node}
use valv.Protocol.{
  NodeType, file, folder, SubmitOpRequest, move, rename, SubmitOpResponse, applied, conflict_copy,
  superseded, conflict,
}
use valv.Sql.{select_all, row_of}
use valv.Engine.LocalPush.State.{
  LocalPath, Push, count_error, count_skipped, propagate_update_required, send_op,
}

unfoldable pub node_type_str : NodeType → String
node_type_str file = "file"
node_type_str folder = "folder"

abbrev same_path : LocalPath → LocalPath → Bool
same_path [] [] = true
same_path (a ∷ p) (b ∷ q) = a == b && same_path p q
same_path _ _ = false

abbrev pub is_scope : Option String → String → Bool
is_scope none node_id = false
is_scope (some scope) node_id = scope == node_id

abbrev pub and_then : {A B : Type 0} → Option A → (A → Option B) → Option B
and_then none f = none
and_then (some a) f = f a

-- The end of the walk at a node without a parent, and else the walk from the parent's row.
abbrev pub step_up :
    List LocalNode → Option String → LocalPath → (LocalNode → Option LocalPath) → Option LocalPath
step_up by_id none path rest = some path
step_up by_id (some parent_id) path rest = and_then (row_of (λ n. n.node_id) parent_id by_id) rest

-- The walk to the root of the mount, with the names below `current` already in `path`. On no fuel
-- the walk gives no path.
unfoldable pub walk_up :
    (fuel : ℕ) (scope_node_id : Option String) (by_id : List LocalNode) (current : LocalNode)
    → LocalPath
    → Option LocalPath
walk_up zero scope_node_id by_id current path = none
walk_up (suc fuel) scope_node_id by_id current path =
    let rest =
      λ (parent : LocalNode). walk_up fuel scope_node_id by_id parent (current.name ∷ path) in
    if is_scope scope_node_id current.node_id
    then some path
    else step_up by_id current.parent_id path rest

unfoldable pub local_node_abs_path :
    (fuel : ℕ) → Option String → List LocalNode → LocalNode → Option LocalPath
unfolding walk_up
local_node_abs_path fuel scope_node_id by_id node = walk_up fuel scope_node_id by_id node []

-- The one candidate, if there is one only.
abbrev pub only : List LocalNode → Option LocalNode
only [] = none
only (n ∷ []) = some n
only (n ∷ m ∷ t) = none

abbrev pub live_nodes : String → Db → List LocalNode
live_nodes folder_id db =
    select_all (λ n. n.folder_id == folder_id && is_null n.deleted_at) db.nodes

-- `nodes::upsert_node` on the mirror.
abbrev pub store_node : LocalNode → Exec Push Error Unit
store_node node p = let (r, db) = upsert_node node p.db in (r, record p { db = db })

module _ (exists : LocalPath → Bool) (folder_id : String) (scope_node_id : Option String)
    (abs_path : LocalPath) (parent_node_id name : String) (node_type : NodeType) where
  abbrev pub gone_from : Option LocalPath → Bool
  gone_from none = false
  gone_from (some path) = not (exists path) && not (same_path path abs_path)

  -- The test of the filter.
  unfoldable pub is_candidate : (fuel : ℕ) → List LocalNode → LocalNode → Bool
  unfolding local_node_abs_path node_type_str
  is_candidate fuel nodes node =
      node.node_type == node_type_str node_type
      && (column_is node.parent_id parent_node_id || node.name == name)
      && gone_from (local_node_abs_path fuel scope_node_id nodes node)

  unfoldable pub find_missing_move_candidate : (fuel : ℕ) → Db → Option LocalNode
  unfolding is_candidate
  find_missing_move_candidate fuel db =
      let nodes = live_nodes folder_id db in only (select_all (is_candidate fuel nodes) nodes)

  module _ (J : Json) (backend : SubmitOpRequest → Reply J.Value) where
    abbrev pub defer_delete : String → Exec Push Error Unit
    defer_delete node_id =
        modify (λ p. record p { deferred_delete_node_ids = node_id ∷ p.deferred_delete_node_ids })

    -- `none` is an early `return Ok(true)`.
    abbrev pub after_move :
        LocalNode → Result Error SubmitOpResponse → Exec Push Error (Option LocalNode)
    after_move node (err error) = do
      propagate_update_required error
      count_error error
      defer_delete node.node_id
      pure none
    after_move node (ok (applied server_seq _)) =
        pure (some (record node { parent_id = some parent_node_id; server_seq = server_seq }))
    after_move node (ok (conflict_copy _ _ _)) = count_skipped >> pure none
    after_move node (ok (superseded _)) = count_skipped >> pure none
    after_move node (ok (conflict _ _ _ _)) = count_skipped >> pure none

    unfoldable pub submit_move : LocalNode → Exec Push Error (Option LocalNode)
    unfolding propagate_update_required
    submit_move node =
        if column_is node.parent_id parent_node_id
        then pure (some node)
        else send_op J backend folder_id (move node.node_id node.server_seq parent_node_id)
          >>= after_move node

    abbrev pub after_rename :
        LocalNode → Result Error SubmitOpResponse → Exec Push Error (Option LocalNode)
    after_rename node (err error) = do
      propagate_update_required error
      store_node node
      count_error error
      defer_delete node.node_id
      pure none
    after_rename node (ok (applied server_seq _)) =
        pure (some (record node { name = name; server_seq = server_seq }))
    after_rename node (ok (conflict_copy _ _ _)) = count_skipped >> pure none
    after_rename node (ok (superseded _)) = count_skipped >> pure none
    after_rename node (ok (conflict _ _ _ _)) = count_skipped >> pure none

    unfoldable pub submit_rename : LocalNode → Exec Push Error (Option LocalNode)
    unfolding propagate_update_required
    submit_rename node =
        if node.name == name
        then pure (some node)
        else send_op J backend folder_id (rename node.node_id node.server_seq name)
          >>= after_rename node

    abbrev pub enqueue : NodeType → String → Exec Push Error Unit
    enqueue file node_id = pure tt
    enqueue folder node_id =
        modify (λ p. record p { queue = p.queue ++ ((abs_path, node_id) ∷ []) })

    -- The end of the function.
    unfoldable pub finish_move : Option LocalNode → Exec Push Error Bool
    finish_move none = pure true
    finish_move (some node) = do
      store_node node
      enqueue node_type node.node_id
      count_skipped
      pure true

    abbrev pub rename_unless : Option LocalNode → Exec Push Error (Option LocalNode)
    rename_unless none = pure none
    rename_unless (some node) = submit_rename node

    abbrev pub process_candidate : Option LocalNode → Exec Push Error Bool
    process_candidate none = pure false
    process_candidate (some node) = submit_move node >>= rename_unless >>= finish_move

    unfoldable pub process_moved_entry : (fuel : ℕ) → Exec Push Error Bool
    unfolding find_missing_move_candidate submit_move submit_rename finish_move
    process_moved_entry fuel p = process_candidate (find_missing_move_candidate fuel p.db) p
