-- ===== src/Engine/DeltaPull.antt =====
-- crates/valv-sync/src/sync_engine/delta_pull.rs: pages of the operation log are fetched and
-- applied until the backend has no more, or the folder's tree is fetched whole.
pub mod Cursor
pub mod Termination
pub mod Pulled
use mathlib.Core.Option
use valv.Base.{
  String, ◌==◌, string_eq, ℕ, zero, suc, ℤ, ltb_ℤ, leb_ℤ, Bool, true, false, ◌&&◌, ◌||◌, Option,
  none, some, or, List, [], ◌∷◌, ◌++◌, if◌then◌else◌,
}
use valv.Base.Result.{Result, ok, err, ok_or}
use valv.Base.Exec.{Exec, pure, lift, ◌>>=◌}
use valv.Errors.{
  Error, update_required_from_response, unknown_node, regressed, http_status, transport, decode,
}
use valv.Http.{Reply, failed, upgrade_required, gone, status, unreadable, body}
use valv.Json.{Json}
use valv.Persistence.Db.{LocalNode, Db}
use valv.Persistence.Mounts.{get_cursor, set_cursor}
use valv.Persistence.Nodes.{get_node}
use valv.Persistence.OpLog.{Entry, apply_op_log_entry}
use valv.Persistence.Snapshot.{apply_tree_snapshot}
use valv.Protocol.{DeltaPullResponse, FolderTreeResponse}

pub record PulledNode : Type 0 where
  pub node_id : String
  pub op_type : String
  pub is_conflict_copy : Bool
  pub actor_device_id : String
  pub applied_at : String
  pub old_name : Option String
  pub old_parent_id : Option String
  pub old_version_id : Option String
  pub new_name : String
  pub new_parent_id : Option String
  pub new_version_id : Option String
  pub node_type : String

abbrev pub and_then : {A B : Type 0} → Option A → (A → Option B) → Option B
and_then none f = none
and_then (some a) f = f a

module _ (J : Json) where
  abbrev pub payload_name : Entry J → Option String
  payload_name op =
      if op.op_type == "create"
      then J.get_str op.op_payload "name"
      else if op.op_type == "rename"
      then J.get_str op.op_payload "new_name"
      else none

  abbrev pub parent_after : Entry J → Option LocalNode → Option String
  parent_after op post_op =
      if op.op_type == "create"
      then J.get_str op.op_payload "parent_id"
      else if op.op_type == "move"
      then J.get_str op.op_payload "new_parent_id"
      else and_then post_op (λ n. n.parent_id)

  abbrev pub version_after : Entry J → Option LocalNode → Option String
  version_after op post_op =
      if op.op_type == "new_version"
      then J.get_str op.op_payload "version_id"
      else and_then post_op (λ n. n.current_version_id)

  -- The `PulledNode` at the end of `build_pulled_node`; `state` is the node after the op, or
  -- before it if it is not there after.
  abbrev pub pulled_node : Entry J → Option LocalNode → Option LocalNode → LocalNode → PulledNode
  pulled_node op pre_op post_op state = record {
    node_id = op.node_id;
    op_type = op.op_type;
    is_conflict_copy =
        op.op_type == "new_version"
        && Option.get_or (J.get_bool op.op_payload "is_conflict_copy") false;
    actor_device_id = op.actor_device_id;
    applied_at = op.applied_at;
    old_name = Option.map (λ (n : LocalNode). n.name) pre_op;
    old_parent_id = and_then pre_op (λ n. n.parent_id);
    old_version_id = and_then pre_op (λ n. n.current_version_id);
    new_name = Option.get_or (payload_name op) state.name;
    new_parent_id = parent_after op post_op;
    new_version_id = version_after op post_op;
    node_type =
        if op.op_type == "create"
        then Option.get_or (J.get_str op.op_payload "type") state.node_type
        else state.node_type;
  }

  unfoldable pub build_pulled_node : Entry J → Option LocalNode → Db → Result Error PulledNode
  build_pulled_node op pre_op db =
      let post_op = get_node op.node_id db in
      elim (or post_op pre_op) [
        | none ↦ err (unknown_node op.node_id)
        | some state ↦ ok (pulled_node op pre_op post_op state)
      ]

  -- The loop over the ops of a page, from op `i`; `now i` is the clock when op `i` is applied.
  unfoldable pub apply_ops :
      (now : ℕ → String) → ℕ → List (Entry J) → List PulledNode → Exec Db Error (List PulledNode)
  apply_ops now i [] pulled = pure pulled
  apply_ops now i (op ∷ ops) pulled = do
    pre_op ← apply_op_log_entry J (now i) op
    node ← λ db. (build_pulled_node op pre_op db, db)
    apply_ops now (suc i) ops (pulled ++ node ∷ [])

  -- The backend and the clock: the reply to the n-th request for the ops since a cursor, the
  -- reply to the request for the tree, and the time of each op of each page.
  pub record Backend : Type 0 where
    pub ops_reply : ℕ → ℤ → Reply (DeltaPullResponse J.Value)
    pub tree_reply : Reply FolderTreeResponse
    pub now : ℕ → ℕ → String

  -- The result and the mirror. `none` is a pull that has run out of fuel.
  abbrev pub Pull : Type 0
  Pull = Option (Result Error (ℤ × List PulledNode) × Db)

  -- `tree_resync`: status 410 is an error of `error_for_status` here.
  unfoldable pub tree_resync :
      String → Reply FolderTreeResponse → Db → Result Error (ℤ × List PulledNode) × Db
  tree_resync folder_id failed db = (err transport, db)
  tree_resync folder_id (upgrade_required b) db = (err (update_required_from_response b), db)
  tree_resync folder_id gone db = (err (http_status 410), db)
  tree_resync folder_id (status s) db = (err (http_status s), db)
  tree_resync folder_id unreadable db = (err decode, db)
  tree_resync folder_id (body tree) db =
      (apply_tree_snapshot folder_id tree >>= λ _. pure (tree.up_to_seq, [])) db

  abbrev pub is_empty : List (Entry J) → Bool
  is_empty [] = true
  is_empty (op ∷ ops) = false

  module _ (folder_id : String) (b : Backend) where
    -- The end of a round, once the ops of a page are applied; `again` is the next round.
    unfoldable pub finish_page :
        (again : ℤ → List PulledNode → Db → Pull)
        → (cursor : ℤ) → DeltaPullResponse J.Value
        → Result Error (List PulledNode) × Db
        → Pull
    finish_page again cursor delta (err e, db) = some (err e, db)
    finish_page again cursor delta (ok pulled, db) =
        let db' = set_cursor folder_id delta.up_to_seq db in
        let next = again delta.up_to_seq pulled db' in
        if is_empty delta.ops || leb_ℤ delta.up_to_seq cursor
        then some (ok (delta.up_to_seq, pulled), db')
        else next

    -- A round of the loop, from the reply to its request.
    unfoldable pub round :
        (again : ℤ → List PulledNode → Db → Pull)
        → (n : ℕ) → (cursor : ℤ) → List PulledNode
        → Db
        → Reply (DeltaPullResponse J.Value)
        → Pull
    unfolding finish_page
    round again n cursor pulled db failed = some (err transport, db)
    round again n cursor pulled db (upgrade_required u) =
        some (err (update_required_from_response u), db)
    round again n cursor pulled db gone = some (tree_resync folder_id b.tree_reply db)
    round again n cursor pulled db (status s) = some (err (http_status s), db)
    round again n cursor pulled db unreadable = some (err decode, db)
    round again n cursor pulled db (body delta) =
        if ltb_ℤ delta.up_to_seq cursor
        then some (err (regressed delta.up_to_seq cursor), db)
        else finish_page again cursor delta (apply_ops (b.now n) 0 delta.ops pulled db)

    unfoldable pub pull_loop : (fuel n : ℕ) → (cursor : ℤ) → List PulledNode → Db → Pull
    unfolding round
    pull_loop zero n cursor pulled db = none
    pull_loop (suc fuel) n cursor pulled db =
        round (pull_loop fuel (suc n)) n cursor pulled db (b.ops_reply n cursor)

    unfoldable pub pull_delta : (fuel : ℕ) → Db → Pull
    unfolding pull_loop
    pull_delta fuel db = pull_loop fuel 0 (get_cursor folder_id db) [] db
