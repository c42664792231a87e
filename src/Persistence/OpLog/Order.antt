-- ===== src/Persistence/OpLog/Order.antt =====
-- Entries that the mirror has seen are not applied again.
use valv.Base.{
  ◌≡◌, ◌≢◌, refl, String, string_eq, Option, none, some, arith, ℤ, ◌≤ℤ◌, Option-cases, inl, inr,
}
use valv.Base.Result.{ok}
use valv.Json.{Json}
use valv.Persistence.Db.{LocalNode, Db}
use valv.Persistence.Nodes.{get_node, mark_deleted}
use valv.Persistence.Nodes.Laws.{update_node_absent}
use valv.Persistence.OpLog.{
  Entry, apply_op_log_entry, apply_rename, apply_move, apply_delete, apply_new_version, dispatch,
}
use valv.Persistence.OpLog.Row.{row_after, row-apply}

-- The row has at least the log number `seq`.
abbrev pub Reaches : ℤ → Option LocalNode → Type 0
Reaches seq none = ⊥
Reaches seq (some m) = seq ≤ℤ m.server_seq

module _ (J : Json) (entry : Entry J) where
  fresh-Reaches :
      (now : String) (db : Db) (n : LocalNode) (pre : Option LocalNode)
      → entry.op_type ≢ "create"
      → get_node entry.node_id db ≡ some n
      → (apply_op_log_entry J now entry db).0 ≡ ok pre
      → Reaches entry.server_seq (row_after J now entry db (some n))
  unfolding row_after apply_op_log_entry dispatch apply_rename apply_move apply_delete
      apply_new_version
  fresh-Reaches now db n pre h e s = ground arith

  -- A success on a node that the mirror has leaves its row at the entry's number or above.
  apply-Reaches :
      (now : String) (db : Db) (n : LocalNode) (pre : Option LocalNode)
      → entry.op_type ≢ "create"
      → get_node entry.node_id db ≡ some n
      → (apply_op_log_entry J now entry db).0 ≡ ok pre
      → Reaches entry.server_seq (get_node entry.node_id (apply_op_log_entry J now entry db).1)
  apply-Reaches now db n pre h e s =
      ground (arith, row-apply J now entry.node_id entry db, fresh-Reaches now db n pre h e s)

  module _ (db : Db) (absent : get_node entry.node_id db ≡ none) where
    rename_absent : (apply_rename J entry db).1 ≡ db
    unfolding apply_rename
    rename_absent = elim (Option-cases (J.from_rename entry.op_payload)) [
      | inl e ↦ rw e
      | inr (s, e) ↦ rw e (update_node_absent entry.node_id _ db absent)
    ]

    move_absent : (apply_move J entry db).1 ≡ db
    unfolding apply_move
    move_absent = elim (Option-cases (J.from_move entry.op_payload)) [
      | inl e ↦ rw e
      | inr (s, e) ↦ rw e (update_node_absent entry.node_id _ db absent)
    ]

    delete_absent : (now : String) → apply_delete J now entry db ≡ (ok tt, db)
    unfolding apply_delete mark_deleted
    delete_absent now = rw (update_node_absent entry.node_id _ db absent)

    new_version_absent : (apply_new_version J entry db).1 ≡ db
    unfolding apply_new_version
    new_version_absent = ground (arith, absent)

    -- A success on a node that the mirror does not have changes nothing.
    apply_absent :
        (now later : String) (pre : Option LocalNode)
        → entry.op_type ≢ "create"
        → (apply_op_log_entry J now entry db).0 ≡ ok pre
        → apply_op_log_entry J later entry db ≡ (ok none, db)
    unfolding apply_op_log_entry dispatch
    apply_absent now later pre h s = ground (
      arith,
      absent,
      rename_absent,
      move_absent,
      delete_absent now,
      delete_absent later,
      new_version_absent,
    )

  -- A stale entry changes nothing.
  pub apply_stale :
      (now id : String) (db : Db)
      → entry.node_id ≡ id
      → entry.op_type ≢ "create"
      → Reaches entry.server_seq (get_node id db)
      → apply_op_log_entry J now entry db ≡ (ok (get_node id db), db)
  unfolding apply_op_log_entry
  apply_stale now id db same h r = ground arith

  -- Applying an entry that is not a `create` a second time, at whatever time, changes nothing and
  -- succeeds with the row that the first application left.
  pub apply-apply :
      (now later : String) (db : Db) (pre : Option LocalNode)
      → entry.op_type ≢ "create"
      → (apply_op_log_entry J now entry db).0 ≡ ok pre
      → let db' = (apply_op_log_entry J now entry db).1 in
        apply_op_log_entry J later entry db' ≡ (ok (get_node entry.node_id db'), db')
  apply-apply now later db pre h s = elim (Option-cases (get_node entry.node_id db)) [
    | inl e ↦
        ground (arith, e, apply_absent db e now now pre h s, apply_absent db e now later pre h s)
    | inr (n, e) ↦ apply_stale later entry.node_id _ refl h (apply-Reaches now db n pre h e s)
  ]
