-- ===== src/Engine/OpSubmit/Echo.antt =====
-- A submitted version comes back in the log, and is not applied a second time.
use mathlib.Core.Option
use valv.Base.{
  ◌≡◌, refl, ◌≢◌, String, ◌==◌, string_eq, ℤ, ◌≤ℤ◌, Option, none, some, if◌then◌else◌, arith,
}
use valv.Base.Result.{ok}
use valv.Json.{Json}
use valv.Persistence.Db.{LocalNode, Db}
use valv.Persistence.Nodes.{get_node}
use valv.Persistence.Nodes.Laws.{get_node-update_node}
use valv.Persistence.OpLog.{Entry, apply_op_log_entry}
use valv.Persistence.OpLog.Order.{Reaches, apply_stale}
use valv.Persistence.Versions.{upsert_version}
use valv.Protocol.{
  NewVersionPayload, SubmitOpResponse, new_version, applied, conflict_copy, superseded, conflict,
}
use valv.Engine.OpSubmit.{apply_submitted_new_version}

-- The log number that the backend gave to the operation, if it stored a version.
abbrev pub stored_seq : SubmitOpResponse → Option ℤ
stored_seq (applied seq _) = some seq
stored_seq (conflict_copy seq _ _) = some seq
stored_seq (superseded _) = none
stored_seq (conflict _ _ _ _) = none

-- The row of the node after the answer.
abbrev pub row_after_answer : NewVersionPayload → SubmitOpResponse → LocalNode → LocalNode
row_after_answer p (applied seq _) n = record n {
  current_version_id = some p.version_id;
  server_seq = seq;
}
row_after_answer p (conflict_copy seq _ _) n = record n { server_seq = seq }
row_after_answer p (superseded _) n = n
row_after_answer p (conflict _ _ _ _) n = n

module _ (J : Json) (f id : String) (based_on : ℤ) (p : NewVersionPayload) where
  abbrev pub answered : SubmitOpResponse → Db → Db
  answered response db =
      (apply_submitted_new_version J f id (new_version id based_on p) response db).1

  -- After the answer to a new version, the node's row has the submitted version if it was applied,
  -- keeps its version if the backend made a conflict copy of it, and has the answer's log number in
  -- both cases; every other answer leaves it as it was, and every answer leaves the other rows.
  pub answer-row :
      (response : SubmitOpResponse) (db : Db) (k : String)
      → get_node k (answered response db) ≡ (
          if id == k
          then Option.map (row_after_answer p response) (get_node k db)
          else get_node k db)
  unfolding apply_submitted_new_version get_node upsert_version
  answer-row (applied seq m) db k =
      get_node-update_node id k (row_after_answer p (applied seq m)) db (λ n. refl)
  answer-row (conflict_copy seq m v) db k =
      get_node-update_node id k (row_after_answer p (conflict_copy seq m v)) db (λ n. refl)
  answer-row (superseded seq) db k = ground arith
  answer-row (conflict m seq base current) db k = ground arith

  module _ (response : SubmitOpResponse) (db : Db) (n : LocalNode) (seq : ℤ) (entry : Entry J) where
    -- The log numbers up to the answer's are behind the node's row.
    answered-Reaches :
        get_node id db ≡ some n
        → stored_seq response ≡ some seq
        → entry.server_seq ≤ℤ seq
        → Reaches entry.server_seq (get_node id (answered response db))
    answered-Reaches e s le = ground (arith, answer-row response db id)

    -- Once the mirror, which has a row of the node, has the answer, an entry for the same node that is not a `create` and is no newer
    -- than the answer changes nothing: so the entry of the submitted version itself, when it
    -- comes back in the log.
    pub echo_ignored :
        (now : String)
        → get_node id db ≡ some n
        → stored_seq response ≡ some seq
        → entry.server_seq ≤ℤ seq
        → entry.node_id ≡ id
        → entry.op_type ≢ "create"
        → apply_op_log_entry J now entry (answered response db)
          ≡ (ok (get_node id (answered response db)), answered response db)
    echo_ignored now e s le same h =
        apply_stale J entry now id (answered response db) same h (answered-Reaches e s le)

  -- After the answer `conflict_copy` for a row of the mirror, an entry of the same node that is not a
  -- `create` and has a log number no higher than the copy's leaves the current version of the row as
  -- it was before the answer.
  pub conflict_copy-hides :
      (m v now : String) (seq : ℤ) (db : Db) (n : LocalNode) (entry : Entry J)
      → get_node id db ≡ some n
      → entry.server_seq ≤ℤ seq
      → entry.node_id ≡ id
      → entry.op_type ≢ "create"
      → Option.map
          (λ (r : LocalNode). r.current_version_id)
          (get_node id (apply_op_log_entry J now entry (answered (conflict_copy seq m v) db)).1)
        ≡ some n.current_version_id
  conflict_copy-hides m v now seq db n entry e le same h = ground (
    arith,
    answer-row (conflict_copy seq m v) db id,
    echo_ignored (conflict_copy seq m v) db n seq entry now e refl le same h,
  )
