-- ===== src/Tests/Pull.antt =====
-- Pulls from a backend that has one page.
use valv.Base.{
  ◌≡◌, refl, string_eq, ℕ, zero, suc, pos, ◌≤ℤ◌, true, false, none, some, [], ◌∷◌, arith, is_some,
}
use mathlib.Core.Option
use valv.Engine.DeltaPull.{PulledNode, Backend, pull_delta, apply_ops, build_pulled_node}
use valv.Http.{body, failed}
use valv.Engine.DeltaPull.Cursor.{Settled, NeverGone, pull_delta-Settled}
use valv.Engine.DeltaPull.Termination.{PagesUpTo, pull_delta-ends}
use valv.Persistence.Mounts.{get_cursor, set_cursor}
use valv.Persistence.Nodes.{get_node}
use valv.Persistence.OpLog.{apply_op_log_entry, dispatch, apply_rename}
use valv.Protocol.{DeltaPullResponse}
use valv.Sql.{select_first, update}
use valv.Tests.Sample.{Fields, sample_json, mirror, rename_op}

program : Unit {0}
unfolding string_eq get_node get_cursor set_cursor apply_op_log_entry dispatch apply_rename
    select_first update pull_delta build_pulled_node apply_ops
program = tt

-- The first request gets the rename, the second nothing, and any later one no response.
abbrev page : ℕ → DeltaPullResponse Fields
page zero = record { ops = rename_op ∷ []; up_to_seq = pos 7 }
page (suc n) = record { ops = []; up_to_seq = pos 7 }

abbrev pub backend : Backend sample_json
backend = record { ops_reply = λ n c. body (page n); tree_reply = failed; now = λ n i. "t" }

backend-NeverGone : NeverGone sample_json "folder-1" backend
backend-NeverGone n c = λ e. cc e

page-le : (n : ℕ) → (page n).up_to_seq ≤ℤ pos 7
page-le zero = omega arith
page-le (suc n) = omega arith

backend-PagesUpTo : PagesUpTo sample_json "folder-1" backend (pos 7)
backend-PagesUpTo n c delta e = ground (arith, page-le n)

pulled_names :
    Option.map (λ r. get_cursor "folder-1" r.1) (pull_delta sample_json "folder-1" backend 4 mirror)
    ≡ some (pos 7)
unfolding program
pulled_names = refl

pull_delta-Settled_example :
    Settled sample_json "folder-1"
      (get_cursor "folder-1" mirror)
      (pull_delta sample_json "folder-1" backend 4 mirror)
unfolding program
pull_delta-Settled_example =
    pull_delta-Settled sample_json "folder-1" backend 4 mirror backend-NeverGone refl

pull_delta-ends_example : is_some (pull_delta sample_json "folder-1" backend 4 mirror) ≡ true
unfolding program
pull_delta-ends_example =
    pull_delta-ends sample_json "folder-1" backend (pos 7) 4 mirror backend-PagesUpTo
      (omega arith, omega arith)

abbrev report : PulledNode
report = record {
  node_id = "n1";
  op_type = "rename";
  is_conflict_copy = false;
  actor_device_id = "d1";
  applied_at = "2026-06-28T00:00:00Z";
  old_name = some "a.txt";
  old_parent_id = some "root";
  old_version_id = none;
  new_name = "b.txt";
  new_parent_id = some "root";
  new_version_id = none;
  node_type = "file";
}
