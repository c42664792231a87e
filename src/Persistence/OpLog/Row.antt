-- ===== src/Persistence/OpLog/Row.antt =====
-- What an entry of the log does to the row of every node, op type by op type.
use mathlib.Core.Option
use valv.Base.{
  ◌≡◌, refl, String, ◌==◌, string_eq, true, Option, none, some, if◌then◌else◌, arith, Option-cases,
  not, ◌&&◌, inl, inr,
}
use valv.Base.Result.{ok, err, Result-cases}
use valv.Json.{Json, CreatePayload, NewVersionPayload}
use valv.Persistence.Db.{LocalNode, Db}
use valv.Persistence.Nodes.{get_node, mark_deleted, node_type_ok}
use valv.Persistence.Nodes.Laws.{get_node-update_node, get_node-upsert_node, upserted}
use valv.Persistence.Versions.{upsert_version}
use valv.Protocol.{file, folder}
use valv.Persistence.OpLog.{
  Entry, apply_create, apply_new_version, apply_rename, apply_move, apply_delete, dispatch,
  apply_op_log_entry, node_type_to_str, create_folder, created_row, is_stale, is_main_line,
}

module _ (J : Json) where
  -- The row of the entry's node after each op, from the row before; a failed op leaves it alone.
  abbrev pub row_after_create : Entry J → Db → Option LocalNode → Option LocalNode
  row_after_create entry db old = elim (J.from_create entry.op_payload) [
    | none ↦ old
    | some p ↦ elim (create_folder entry.node_id p db) [
      | err e ↦ old
      | ok f ↦ some (upserted (created_row J entry p f) old)
    ]
  ]

  abbrev pub row_after_rename : Entry J → Option LocalNode → Option LocalNode
  row_after_rename entry old = elim (J.from_rename entry.op_payload) [
    | none ↦ old
    | some s ↦
        Option.map (λ (n : LocalNode). record n { name = s; server_seq = entry.server_seq }) old
  ]

  abbrev pub row_after_move : Entry J → Option LocalNode → Option LocalNode
  row_after_move entry old = elim (J.from_move entry.op_payload) [
    | none ↦ old
    | some s ↦
        Option.map
          (λ (n : LocalNode). record n { parent_id = some s; server_seq = entry.server_seq }) old
  ]

  abbrev pub row_after_delete : String → Entry J → Option LocalNode → Option LocalNode
  row_after_delete now entry old =
      Option.map
        (λ (n : LocalNode). record n { deleted_at = some now; server_seq = entry.server_seq }) old

  abbrev pub row_after_new_version : Entry J → Option LocalNode → Option LocalNode
  row_after_new_version entry old = elim (J.from_new_version entry.op_payload) [
    | none ↦ old
    | some p ↦
        Option.map
          (λ (n : LocalNode).
            if is_main_line J p.is_conflict_copy
            then record n { current_version_id = some p.version_id; server_seq = entry.server_seq }
            else record n { server_seq = entry.server_seq })
          old
  ]

  abbrev pub advance : Entry J → NewVersionPayload → LocalNode → LocalNode
  advance entry p n =
      if is_main_line J p.is_conflict_copy
      then record n { current_version_id = some p.version_id; server_seq = entry.server_seq }
      else record n { server_seq = entry.server_seq }

  pub advance-id :
      (entry : Entry J) (p : NewVersionPayload) (n : LocalNode)
      → (advance entry p n).node_id ≡ n.node_id
  advance-id entry p n = ground arith

  pub created_row-type_ok :
      (entry : Entry J) (p : CreatePayload) (f : String)
      → node_type_ok (created_row J entry p f) ≡ true
  unfolding node_type_to_str string_eq
  created_row-type_ok entry p f =
      elim p.node_type
        as (λ t.
          node_type_ok (record (created_row J entry p f) { node_type = node_type_to_str t })
          ≡ true) [ file ↦ refl | folder ↦ refl ]

  module _ (k : String) (entry : Entry J) (db : Db) where
    pub row-create :
        get_node k (apply_create J entry db).1
        ≡ (if entry.node_id == k then row_after_create entry db (get_node k db) else get_node k db)
    unfolding apply_create
    row-create = elim (Option-cases (J.from_create entry.op_payload)) [
      | inl e ↦ ground (arith, e)
      | inr (p, e) ↦ elim (Result-cases (create_folder entry.node_id p db)) [
        | inl (x, f) ↦ ground (arith, e, f)
        | inr (x, f) ↦
            rw (e, f, row_after_create)
              (get_node-upsert_node (created_row J entry p x) k db (created_row-type_ok entry p x))
      ]
    ]

    pub row-rename :
        get_node k (apply_rename J entry db).1
        ≡ (if entry.node_id == k then row_after_rename entry (get_node k db) else get_node k db)
    unfolding apply_rename
    row-rename = elim (Option-cases (J.from_rename entry.op_payload)) [
      | inl e ↦ ground (arith, e)
      | inr (p, e) ↦ rw (e, row_after_rename) (get_node-update_node _ k _ db (λ n. refl))
    ]

    pub row-move :
        get_node k (apply_move J entry db).1
        ≡ (if entry.node_id == k then row_after_move entry (get_node k db) else get_node k db)
    unfolding apply_move
    row-move = elim (Option-cases (J.from_move entry.op_payload)) [
      | inl e ↦ ground (arith, e)
      | inr (p, e) ↦ rw (e, row_after_move) (get_node-update_node _ k _ db (λ n. refl))
    ]

    pub row-delete :
        (now : String)
        → get_node k (apply_delete J now entry db).1 ≡ (
            if entry.node_id == k
            then row_after_delete now entry (get_node k db)
            else get_node k db)
    unfolding apply_delete mark_deleted
    row-delete now = get_node-update_node _ k _ db (λ n. refl)

    pub row-new_version : get_node k (apply_new_version J entry db).1 ≡ (
        if entry.node_id == k then row_after_new_version entry (get_node k db) else get_node k db)
    unfolding apply_new_version upsert_version get_node
    row-new_version = elim (Option-cases (J.from_new_version entry.op_payload)) [
      | inl e ↦ ground (arith, e)
      | inr (p, e) ↦ elim (Option-cases (get_node entry.node_id db)) [
        | inl f ↦ ground (arith, e, f)
        | inr (n, f) ↦
            rw (e, f, row_after_new_version)
              (get_node-update_node entry.node_id k (advance entry p) db (advance-id entry p))
      ]
    ]

  -- The row of the entry's node after a fresh entry.
  abbrev pub row_after_dispatch : String → Entry J → Db → Option LocalNode → Option LocalNode
  row_after_dispatch now entry db old =
      if entry.op_type == "create"
      then row_after_create entry db old
      else if entry.op_type == "rename"
      then row_after_rename entry old
      else if entry.op_type == "move"
      then row_after_move entry old
      else if entry.op_type == "delete"
      then row_after_delete now entry old
      else if entry.op_type == "new_version"
      then row_after_new_version entry old
      else old

  -- The row of the entry's node after `apply_op_log_entry`, from the row before.
  unfoldable pub row_after : String → Entry J → Db → Option LocalNode → Option LocalNode
  row_after now entry db old =
      if not (entry.op_type == "create") && is_stale old entry.server_seq
      then old
      else row_after_dispatch now entry db old

  module _ (now k : String) (entry : Entry J) (db : Db) where
    row-dispatch : get_node k (dispatch J now entry db).1 ≡ (
        if entry.node_id == k
        then row_after_dispatch now entry db (get_node k db)
        else get_node k db)
    unfolding dispatch
    row-dispatch = ground (
      arith,
      row-create k entry db,
      row-rename k entry db,
      row-move k entry db,
      row-delete k entry db now,
      row-new_version k entry db,
    )

    -- Every row of the mirror after an entry, whatever the entry does and whether it succeeds.
    pub row-apply :
        get_node k (apply_op_log_entry J now entry db).1
        ≡ (if entry.node_id == k then row_after now entry db (get_node k db) else get_node k db)
    unfolding apply_op_log_entry row_after
    row-apply = ground (arith, row-dispatch)
