-- ===== src/Engine/DeltaPull/Pulled.antt =====
-- What a pull reports of an op agrees with the mirror that the op leaves.
use mathlib.Core.Option
use text.Mathlib.TextEquality.{eq_iff}
use valv.Base.{
  ◌≡◌, ◌≢◌, String, ◌==◌, string_eq, true, Bool, Option, none, some, arith, Option-cases, inl, inr,
  not, ◌||◌,
}
use valv.Base.Result.{ok}
use valv.Json.{Json, ReadsFields, CreatePayload}
use valv.Persistence.Db.{LocalNode, Db}
use valv.Persistence.Nodes.{get_node}
use valv.Persistence.OpLog.{
  Entry, apply_op_log_entry, is_stale, dispatch, apply_create, apply_rename, apply_move,
  apply_delete, apply_new_version,
}
use valv.Persistence.OpLog.Row.{row_after, row-apply}
use valv.Engine.DeltaPull.{PulledNode, build_pulled_node, pulled_node}

-- Where a payload could be read at its type, a field of it has the string.
abbrev Same : Option String → Option String → Type 0
Same none o = Unit
Same (some s) o = o ≡ some s

rename-ne-move : ◌≢◌ {A = String} "rename" "move"
rename-ne-move = ground (arith, eq_iff "rename" "move")

-- The report has the name and the parent of the row.
abbrev pub Shows : PulledNode → LocalNode → Type 0
Shows p m = (p.new_name ≡ m.name) × (p.new_parent_id ≡ m.parent_id)

-- The entry is a `create`, or newer than the mirror's row of its node.
abbrev pub is_fresh : (J : Json) → Entry J → Db → Bool
is_fresh J op db = op.op_type == "create" || not (is_stale (get_node op.node_id db) op.server_seq)

apply-pre :
    (J : Json) (op : Entry J) (now : String) (db : Db) (pre : Option LocalNode)
    → (apply_op_log_entry J now op db).0 ≡ ok pre
    → pre ≡ get_node op.node_id db
unfolding apply_op_log_entry
apply-pre J op now db pre h = ground arith

module _ (J : Json) (reads : ReadsFields J) (op : Entry J)
    (obj : J.is_object op.op_payload ≡ true) where
  rename-Same : Same (J.from_rename op.op_payload) (J.get_str op.op_payload "new_name")
  rename-Same = elim (Option-cases (J.from_rename op.op_payload)) [
    | inl e ↦ rw e tt
    | inr (s, e) ↦ rw e (reads.rename_name op.op_payload s obj e)
  ]

  move-Same : Same (J.from_move op.op_payload) (J.get_str op.op_payload "new_parent_id")
  move-Same = elim (Option-cases (J.from_move op.op_payload)) [
    | inl e ↦ rw e tt
    | inr (s, e) ↦ rw e (reads.move_parent op.op_payload s obj e)
  ]

  create-name :
      Same
        (Option.map (λ (p : CreatePayload). p.name) (J.from_create op.op_payload))
        (J.get_str op.op_payload "name")
  create-name = elim (Option-cases (J.from_create op.op_payload)) [
    | inl e ↦ rw e tt
    | inr (p, e) ↦ rw e (reads.create_name op.op_payload p obj e)
  ]

  create-parent :
      Same
        (Option.map (λ (p : CreatePayload). p.parent_id) (J.from_create op.op_payload))
        (J.get_str op.op_payload "parent_id")
  create-parent = elim (Option-cases (J.from_create op.op_payload)) [
    | inl e ↦ rw e tt
    | inr (p, e) ↦ rw e (reads.create_parent op.op_payload p obj e)
  ]

  row-Shows :
      (now : String) (db : Db) (m : LocalNode) (pre : Option LocalNode)
      → is_fresh J op db ≡ true
      → row_after J now op db (get_node op.node_id db) ≡ some m
      → (apply_op_log_entry J now op db).0 ≡ ok pre
      → Shows (pulled_node J op pre (some m) m) m
  unfolding row_after apply_op_log_entry dispatch apply_create apply_rename apply_move apply_delete
      apply_new_version
  row-Shows now db m pre fresh e s =
      ground (arith, rename-Same, move-Same, create-name, create-parent, rename-ne-move)

  -- After a fresh op that is applied successfully, the report of it has the name and the parent of
  -- the row that the mirror has then, and the name of the row that it had before.
  pub pulled-agrees :
      (now : String) (db : Db) (m : LocalNode) (pre : Option LocalNode) (p : PulledNode)
      → is_fresh J op db ≡ true
      → (apply_op_log_entry J now op db).0 ≡ ok pre
      → get_node op.node_id (apply_op_log_entry J now op db).1 ≡ some m
      → build_pulled_node J op pre (apply_op_log_entry J now op db).1 ≡ ok p
      → Shows p m × (p.old_name ≡ Option.map (λ (n : LocalNode). n.name) (get_node op.node_id db))
  unfolding build_pulled_node
  pulled-agrees now db m pre p fresh s e built =
      let after : row_after J now op db (get_node op.node_id db) ≡ some m =
        ground (arith, row-apply J now op.node_id op db) in
      ground (arith, row-Shows now db m pre fresh after s, apply-pre J op now db pre s)
