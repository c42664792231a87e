-- ===== src/Daemon/Materialize.antt =====
-- `materialize_mount_files` of crates/valvd/src/tasks.rs: every file and folder of the mirror is on disk
-- after a full sync.
use Prim.Native.String.{compare}
use text.Mathlib.Text.{is_lt}
use valv.Base.{
  String, ◌==◌, string_eq, ℕ, zero, suc, Bool, not, ◌&&◌, ◌||◌, List, [], ◌∷◌, ◌++◌, Option, none,
  some, if◌then◌else◌,
}
use valv.Base.Exec.{Exec, pure, raise, ◌>>◌}
use valv.Errors.{Error, out_of_fuel}
use valv.Persistence.Db.{Db, LocalNode}
use valv.Persistence.Nodes.{is_null}
use valv.Persistence.Versions.{has_materialized_content_for_version}
use valv.Sql.{select_all}
use valv.Engine.LocalPush.State.{LocalPath}
use valv.Daemon.Disk.{create_dir_all, exists}
use valv.Daemon.Versions.{Site, on_disk, Backend, materialize_version}
use valv.Daemon.Pulled.{materialize_node}
use valv.Daemon.Cleanup.{
  tree_children, root_of, child_path, queue_children, cleanup_deleted_mount_paths,
}

-- `ORDER BY parent_id IS NOT NULL, name ASC`: what may stand before an equal row.
abbrev in_order : LocalNode → LocalNode → Bool
in_order a b =
    if is_null a.parent_id
    then not (is_null b.parent_id) || not (is_lt (compare b.name a.name))
    else not (is_null b.parent_id) && not (is_lt (compare b.name a.name))

unfoldable pub insert_node : LocalNode → List LocalNode → List LocalNode
insert_node n [] = n ∷ []
insert_node n (m ∷ t) = let rest = insert_node n t in if in_order n m then n ∷ m ∷ t else m ∷ rest

unfoldable pub order_nodes : List LocalNode → List LocalNode
unfolding insert_node
order_nodes [] = []
order_nodes (n ∷ t) = insert_node n (order_nodes t)

unfoldable pub live_nodes_in_order : (folder_id : String) → Db → List LocalNode
unfolding order_nodes
live_nodes_in_order folder_id db =
    order_nodes (select_all (λ n. n.folder_id == folder_id && is_null n.deleted_at) db.nodes)

module _ (fuel : ℕ) (B : Backend) (folder_id : String) (scope_node_id : Option String)
    (device_id : String) where
  unfoldable pub materialize_children : LocalPath → List LocalNode → Exec Site Error Unit
  unfolding create_dir_all exists materialize_version has_materialized_content_for_version
  materialize_children parent_path [] = pure tt
  materialize_children parent_path (node ∷ t) =
      materialize_node fuel B folder_id scope_node_id device_id node (child_path parent_path node)
      >> materialize_children parent_path t

  -- `while let Some(parent_id) = queue.pop_front()`.
  unfoldable pub materialize_queue :
      (rounds : ℕ) → List LocalNode → List (String × LocalPath) → Exec Site Error Unit
  unfolding materialize_children tree_children queue_children
  materialize_queue zero nodes queue = raise out_of_fuel
  materialize_queue (suc rounds) nodes [] = pure tt
  materialize_queue (suc rounds) nodes ((parent_id, parent_path) ∷ queue) =
      let children = tree_children nodes parent_id in
      let rest = materialize_queue rounds nodes (queue ++ queue_children parent_path children) in
      materialize_children parent_path children >> rest

  abbrev materialize_from : List LocalNode → Option LocalNode → Exec Site Error Unit
  materialize_from nodes none = pure tt
  materialize_from nodes (some root) = do
    on_disk (create_dir_all [])
    materialize_queue fuel nodes ((root.node_id, []) ∷ [])

  abbrev materialize_live : List LocalNode → Exec Site Error Unit
  materialize_live nodes = materialize_from nodes (root_of nodes)

  unfoldable pub materialize_mount_files : Exec Site Error Unit
  unfolding materialize_queue live_nodes_in_order cleanup_deleted_mount_paths
  materialize_mount_files = do
    cleanup_deleted_mount_paths fuel folder_id
    λ s. materialize_live (live_nodes_in_order folder_id s.db) s
