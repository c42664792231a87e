-- ===== src/Tests/Mirror.antt =====
-- The mirror: entries of the log and snapshots.
use valv.Base.{◌≡◌, refl, ◌≢◌, String, ◌==◌, string_eq, pos, none, some, [], ◌∷◌, arith}
use text.Mathlib.TextEquality.{eq_iff}
use valv.Base.Result.{ok}
use valv.Persistence.Nodes.{get_node}
use valv.Persistence.Nodes.Laws.{NodeIdsUnique}
use valv.Persistence.OpLog.{apply_op_log_entry, dispatch, apply_rename}
use valv.Persistence.OpLog.Frame.{Advances, apply-seq_mono}
use valv.Persistence.OpLog.Order.{apply-apply}
use valv.Persistence.Snapshot.{apply_tree_snapshot}
use valv.Persistence.Snapshot.Laws.{written, last_of, snapshot-row}
use valv.Protocol.{FolderTreeResponse, file}
use valv.Sql.Laws.{unless}
use valv.Sql.{select_first, update}
use valv.Tests.Sample.{sample_json, mirror, node, rename_op}

-- What a run needs to compute.
program : Unit {0}
unfolding string_eq get_node apply_op_log_entry dispatch apply_rename select_first update
program = tt

not_create : ◌≢◌ {A = String} "rename" "create"
not_create = ground (arith, eq_iff "rename" "create")

renamed :
    get_node "n1" (apply_op_log_entry sample_json "t" rename_op mirror).1
    ≡ some (node "n1" "folder-1" (some "root") "b.txt" 7)
unfolding program
renamed = refl

rename_ok :
    (apply_op_log_entry sample_json "t" rename_op mirror).0
    ≡ ok (some (node "n1" "folder-1" (some "root") "a.txt" 5))
unfolding program
rename_ok = refl

apply-seq_mono_example :
    Advances
      (node "n1" "folder-1" (some "root") "a.txt" 5)
      (get_node "n1" (apply_op_log_entry sample_json "t" rename_op mirror).1)
unfolding program
apply-seq_mono_example =
    apply-seq_mono sample_json "t" rename_op "n1" mirror
      (node "n1" "folder-1" (some "root") "a.txt" 5) not_create refl

apply-apply_example :
    let db' = (apply_op_log_entry sample_json "t" rename_op mirror).1 in
    apply_op_log_entry sample_json "u" rename_op db' ≡ (ok (get_node "n1" db'), db')
apply-apply_example =
    apply-apply sample_json rename_op "t" "u" mirror
      (some (node "n1" "folder-1" (some "root") "a.txt" 5)) not_create rename_ok

mirror-NodeIdsUnique : NodeIdsUnique mirror
unfolding program
mirror-NodeIdsUnique = (refl, (refl, (refl, tt)))

abbrev fresh_tree : FolderTreeResponse
fresh_tree = record {
  nodes =
      record {
        node_id = "fresh";
        parent_id = none;
        name = "fresh.txt";
        node_type = file;
        current_version_id = none;
        server_seq = pos 100;
        deleted_at = none;
      }
      ∷ [];
  up_to_seq = pos 100;
}

snapshot-row_example :
    ((apply_tree_snapshot "folder-1" fresh_tree mirror).0 ≡ ok tt)
    × (get_node "n1" (apply_tree_snapshot "folder-1" fresh_tree mirror).1
        ≡ written "folder-1"
            (last_of "n1" fresh_tree.nodes)
            (unless (λ n. n.folder_id == "folder-1") (get_node "n1" mirror)))
snapshot-row_example = snapshot-row "folder-1" fresh_tree mirror mirror-NodeIdsUnique "n1"
