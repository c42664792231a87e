-- ===== src/Tests/Fuel.antt =====
-- The sample mirror, a root with one file, is a tree, and a fuel of 4 is as good as any more.
use valv.Base.{
  false, ◌≡◌, String, ◌==◌, string_eq, ℕ, ◌≤◌, none, Bool-cases, inl, inr, arith, if◌then◌else◌,
}
use valv.Persistence.Db.{LocalNode}
use valv.Sql.{select_first, select_all}
use valv.Engine.LocalPush.Deletes.{live_mirror_nodes, children_of, submit_deletes_for_missing}
use valv.Engine.LocalPush.Deletes.Weight.{FiniteTree, below}
use valv.Engine.LocalPush.Deletes.Ends.{ran_out, deletes-ends}
use valv.Tests.Sample.{node}
use valv.Tests.Push.{json, backend, no_file, start, db}

program : Unit {0}
unfolding string_eq select_first select_all children_of live_mirror_nodes below
program = tt

abbrev size : String → ℕ
size id = if "root" == id then 1 else 0

size_bounded : (id : String) → size id ≤ 1
size_bounded id = ground arith

tree-FiniteTree : FiniteTree size (live_mirror_nodes "folder-1" db)
unfolding program
tree-FiniteTree id = elim (Bool-cases ("root" == id)) [
  | inl q ↦ rw q (omega arith)
  | inr q ↦ rw q (omega arith)
]

deletes-ends_example :
    (ran_out (submit_deletes_for_missing 4 json backend "t" no_file "folder-1" none start).0
      ≡ false)
    × (submit_deletes_for_missing 4 json backend "t" no_file "folder-1" none start
        ≡ submit_deletes_for_missing 9 json backend "t" no_file "folder-1" none start)
deletes-ends_example =
    deletes-ends size 1 4 9 json backend "t" no_file "folder-1" none start tree-FiniteTree
      size_bounded (omega arith) (omega arith)

abbrev root : LocalNode
root = node "root" "folder-1" none "" 0

abbrev depth : LocalNode → ℕ
depth n = if n.node_id == "n1" then 1 else 0
