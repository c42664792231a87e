-- ===== src/Persistence/OpLog/Frame.antt =====
-- An entry of the log writes to its own node's row only, and never moves that row back in the log
-- unless it is a `create`.
use valv.Base.{◌≡◌, ◌≢◌, String, string_eq, Option, none, some, arith, ◌≤ℤ◌}
use valv.Json.{Json}
use valv.Persistence.Db.{LocalNode, Db}
use valv.Persistence.Nodes.{get_node}
use valv.Persistence.OpLog.{Entry, apply_op_log_entry}
use valv.Persistence.OpLog.Row.{row_after, row-apply}

-- The row `n` is still there, and its log number has not gone down.
abbrev pub Advances : LocalNode → Option LocalNode → Type 0
Advances n none = ⊥
Advances n (some m) = n.server_seq ≤ℤ m.server_seq

module _ (J : Json) (now : String) (entry : Entry J) where
  -- Applying an entry, successfully or not, leaves the row of every other node as it was.
  pub apply-frame :
      (k : String) (db : Db)
      → k ≢ entry.node_id
      → get_node k (apply_op_log_entry J now entry db).1 ≡ get_node k db
  apply-frame k db other = ground (arith, row-apply J now k entry db)

  row_after-Advances :
      (db : Db) (n : LocalNode)
      → entry.op_type ≢ "create"
      → Advances n (row_after J now entry db (some n))
  unfolding row_after
  row_after-Advances db n h = ground arith

  -- An entry that is not a `create`, applied successfully or not, never lowers the log number of
  -- a row, and removes no row.
  pub apply-seq_mono :
      (k : String) (db : Db) (n : LocalNode)
      → entry.op_type ≢ "create"
      → get_node k db ≡ some n
      → Advances n (get_node k (apply_op_log_entry J now entry db).1)
  apply-seq_mono k db n h e = ground (arith, row-apply J now k entry db, row_after-Advances db n h)
