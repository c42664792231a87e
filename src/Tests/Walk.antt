-- ===== src/Tests/Walk.antt =====
-- A whole run of the push on a disk with the folder "d" and without the file "a.txt".
use valv.Base.{
  ◌≡◌, ◌==◌, refl, ℕ, ℤ, string_eq, nat_eq, pos, Bool, true, false, Option, none, some, List, [],
  ◌∷◌, ◌≤◌, is_some, arith,
}
use mathlib.Core.Path.{subst}
use valv.Base.Members.{some-injective}
use valv.Base.Result.{ok}
use valv.Persistence.Nodes.{get_node_by_parent_and_name, get_root_node, mark_deleted}
use valv.Persistence.Versions.{get_version}
use valv.Protocol.{delete}
use valv.Sql.{select_first, select_all, update}
use valv.Engine.OpSubmit.{submit_op, parse_submit_op_response_body, parse_result}
use valv.Engine.LocalPush.State.{LocalPath, ensure_not_update_required}
use valv.Engine.LocalPush.Deletes.{
  live_mirror_nodes, submit_deletes_for_missing, sweep, visit_children, visit_child, enter_child,
  delete_missing, should_delete, has_local_version, all_uploaded, children_of,
}
use valv.Engine.LocalPush.Listing.{
  EntryInfo, Listed, unreadable, listed, count_unreadable, readable, sort_entries, insert_entry,
  is_conflict_copy_name,
}
use valv.Engine.LocalPush.Walk.{
  Walk, Ended, push_local_inner, started_run, walk, visit_dir, process_entries, process_entry,
  dispatch_entry,
}
use valv.Engine.LocalPush.Walk.Ends.{folders_in, FiniteDisk, walk_from_root-ends}
use valv.Engine.LocalPush.Walk.Sent.{RunSent, push-Sent}
use valv.Tests.Sample.{node}
use valv.Tests.Push.{outside, start, db}

program : Unit {0}
unfolding string_eq nat_eq select_first select_all update get_version mark_deleted
    get_node_by_parent_and_name get_root_node submit_deletes_for_missing sweep visit_children
    visit_child enter_child delete_missing should_delete has_local_version all_uploaded children_of
    live_mirror_nodes ensure_not_update_required submit_op parse_submit_op_response_body
    parse_result push_local_inner walk visit_dir process_entries process_entry dispatch_entry
    count_unreadable readable sort_entries insert_entry is_conflict_copy_name folders_in
program = tt

abbrev d : EntryInfo
d = record { name = "d"; is_dir = true; is_file = false; is_symlink = false }

abbrev read_dir : LocalPath → Option (List Listed)
read_dir [] = some (unreadable ∷ listed d ∷ [])
read_dir (_ ∷ _) = some []

abbrev exists : LocalPath → Bool
exists (name ∷ []) = name == "d"
exists _ = true

abbrev no_stat : LocalPath → Option (ℕ × ℤ)
no_stat path = none

abbrev begin : Walk
begin = record {
  push = record start {
    db = record db {
      nodes = record (node "n3" "folder-1" (some "root") "d" 2) { node_type = "folder" } ∷ db.nodes;
    };
  };
  files = λ path name. none;
}

abbrev run : ℕ → Ended
run rounds =
    push_local_inner 5 outside "t" read_dir exists no_stat "folder-1" none "mac" "2026-06-27" rounds
      begin

abbrev end_of : Ended → Walk
end_of none = begin
end_of (some (r, w)) = w

abbrev size : LocalPath → ℕ
size [] = 1
size (_ ∷ _) = 0

disk_is_finite : FiniteDisk size read_dir
unfolding program
disk_is_finite [] l h =
    subst (λ k. folders_in size [] (readable k) ≤ 1) (some-injective _ l h) (omega arith)
disk_is_finite (a ∷ p) l h =
    subst (λ k. folders_in size (a ∷ p) (readable k) ≤ 0) (some-injective _ l h) (omega arith)

walk_from_root-ends_example :
    is_some (
      walk 5 outside "t" read_dir exists no_stat "folder-1" none "mac" "2026-06-27" 3 (
        started_run 5 outside "t" read_dir exists no_stat "folder-1" none "mac" "2026-06-27"
          (node "root" "folder-1" none "" 0)
          begin))
    ≡ true
walk_from_root-ends_example =
    walk_from_root-ends size 5 outside "t" read_dir exists no_stat "folder-1" none "mac"
      "2026-06-27" disk_is_finite 3 (node "root" "folder-1" none "" 0) begin (omega arith)

sent : (end_of (run 3)).push.submitted ≡ delete "n1" (pos 5) ∷ []
unfolding program
sent = refl

push-Sent_example :
    RunSent 5 outside "t" read_dir exists no_stat "folder-1" none "mac" "2026-06-27" 3 begin
      (end_of (run 3)).push.submitted
unfolding program
push-Sent_example =
    push-Sent 5 outside "t" read_dir exists no_stat "folder-1" none "mac" "2026-06-27" 3 begin
      (end_of (run 3)) (ok tt) refl
