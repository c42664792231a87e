-- ===== src/Tests/Paths.antt =====
-- The path of the sample file, and back.
use valv.Base.{◌≡◌, ◌==◌, if◌then◌else◌, refl, string_eq, none, some, List, [], ◌∷◌, arith, String}
use valv.Base.Result.{ok}
use valv.Persistence.Nodes.{
  get_node, get_root_node, get_node_by_parent_and_name, order_by_seq, head?, insert_by_seq,
}
use valv.Persistence.Nodes.Laws.{NodeIdsUnique}
use valv.Sql.{select_first, select_all}
use valv.Daemon.Paths.{
  Component, root_dir, normal, descend, node_names, resolve_path_to_node, resolve_node_path,
  mounts_with, strip_base, deepest, join_slash,
}
use valv.Daemon.Paths.RoundTrip.{names-descend}
use valv.Tests.Sample.{mirror, node}
use valv.Tests.Daemon.{mount}

program : Unit {0}
unfolding string_eq select_first select_all get_node get_root_node get_node_by_parent_and_name
    order_by_seq head? insert_by_seq descend node_names resolve_path_to_node resolve_node_path
    mounts_with strip_base deepest join_slash
program = tt

abbrev normalize : String → List Component
normalize path =
    if path == "/sync"
    then root_dir ∷ normal "sync" ∷ []
    else root_dir ∷ normal "sync" ∷ normal "a.txt" ∷ []

file_found :
    resolve_path_to_node normalize mirror (mount ∷ []) "/sync/a.txt"
    ≡ ok (record { mount = mount; folder_id = "folder-1"; node_id = "n1" })
unfolding program
file_found = refl

path_found : resolve_node_path 5 mirror "n1" none ≡ some "a.txt"
unfolding program
path_found = refl

mirror-NodeIdsUnique : NodeIdsUnique mirror
unfolding program
mirror-NodeIdsUnique = (refl, (refl, (refl, tt)))

names-descend_example : node_names normalize mirror 2 none "n1" [] ≡ some ("a.txt" ∷ [])
unfolding program
names-descend_example =
    names-descend normalize mirror "folder-1" none mirror-NodeIdsUnique ("a.txt" ∷ [])
      (node "root" "folder-1" none "" 0) (node "n1" "folder-1" (some "root") "a.txt" 5) 2 refl refl
      (λ m q. (refl, tt)) (omega arith) refl
