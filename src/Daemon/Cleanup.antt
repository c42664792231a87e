-- ===== src/Daemon/Cleanup.antt =====
-- `cleanup_deleted_mount_paths` of crates/valvd/src/tasks.rs: what the mirror has as deleted goes from
-- the disk.
pub mod Removes
use valv.Base.{
  String, ◌==◌, string_eq, ℕ, zero, suc, leb, length, Bool, true, false, List, [], ◌∷◌, ◌++◌,
  reverse, Option, none, some, if◌then◌else◌,
}
use valv.Base.Exec.{Exec, pure, raise, ◌>>=◌, ◌>>◌}
use valv.Base.Result.{Result, ok, err}
use valv.Errors.{Error, not_found, out_of_fuel}
use valv.Persistence.Db.{LocalNode}
use valv.Persistence.Nodes.{column_is, is_null}
use valv.Sql.{select_all, select_first}
use valv.Engine.LocalPush.State.{LocalPath}
use valv.Daemon.Disk.{Disk, remove_file, remove_dir_all}
use valv.Daemon.Versions.{Site, on_disk}
use valv.Daemon.Pulled.{load_nodes_by_id}

-- The rows with a parent, in the order of the table, and the root of the folder.
unfoldable pub tree_children : List LocalNode → String → List LocalNode
tree_children nodes parent_id = select_all (λ n. column_is n.parent_id parent_id) nodes

abbrev pub root_of : List LocalNode → Option LocalNode
root_of nodes = select_first (λ n. is_null n.parent_id) nodes

abbrev pub child_path : LocalPath → LocalNode → LocalPath
child_path parent_path node = parent_path ++ (node.name ∷ [])

-- What the loop over the children puts on the queue, with the paths that `paths` has for them.
unfoldable pub queue_children : LocalPath → List LocalNode → List (String × LocalPath)
queue_children parent_path [] = []
queue_children parent_path (node ∷ t) =
    (node.node_id, child_path parent_path node) ∷ queue_children parent_path t

unfoldable pub deleted_children : LocalPath → List LocalNode → List (LocalPath × String)
deleted_children parent_path [] = []
deleted_children parent_path (node ∷ t) =
    let rest = deleted_children parent_path t in
    if is_null node.deleted_at then rest else (child_path parent_path node, node.node_type) ∷ rest

-- `while let Some(parent_id) = queue.pop_front()`.
unfoldable pub collect_deleted :
    (fuel : ℕ)
    → List LocalNode
    → List (String × LocalPath)
    → List (LocalPath × String)
    → Result Error (List (LocalPath × String))
unfolding tree_children queue_children deleted_children
collect_deleted zero nodes queue deleted_paths = err out_of_fuel
collect_deleted (suc fuel) nodes [] deleted_paths = ok deleted_paths
collect_deleted (suc fuel) nodes ((parent_id, parent_path) ∷ queue) deleted_paths =
    let children = tree_children nodes parent_id in
    collect_deleted fuel nodes (queue ++ queue_children parent_path children)
      (deleted_paths ++ deleted_children parent_path children)

unfoldable pub insert_by_depth :
    LocalPath × String → List (LocalPath × String) → List (LocalPath × String)
insert_by_depth x [] = x ∷ []
insert_by_depth x (y ∷ t) =
    let rest = insert_by_depth x t in if leb (length x.0) (length y.0) then x ∷ y ∷ t else y ∷ rest

-- `sort_by_key(|(path, _)| path.components().count())`.
unfoldable pub sort_by_depth : List (LocalPath × String) → List (LocalPath × String)
unfolding insert_by_depth
sort_by_depth [] = []
sort_by_depth (x ∷ t) = insert_by_depth x (sort_by_depth t)

abbrev pub is_not_found : Error → Bool
is_not_found not_found = true
is_not_found _ = false

abbrev pub ignore_missing : Result Error Unit × Disk → Result Error Unit × Disk
ignore_missing (ok u, d) = (ok u, d)
ignore_missing (err e, d) = if is_not_found e then (ok tt, d) else (err e, d)

abbrev pub remove_path : LocalPath → (node_type : String) → Exec Disk Error Unit
remove_path path node_type d =
    ignore_missing ((if node_type == "folder" then remove_dir_all path else remove_file path) d)

unfoldable pub remove_paths : List (LocalPath × String) → Exec Disk Error Unit
unfolding remove_file remove_dir_all
remove_paths [] = pure tt
remove_paths ((path, node_type) ∷ t) = remove_path path node_type >> remove_paths t

abbrev pub remove_collected : Result Error (List (LocalPath × String)) → Exec Disk Error Unit
remove_collected (err e) = raise e
remove_collected (ok deleted_paths) = remove_paths (reverse (sort_by_depth deleted_paths))

abbrev pub remove_below : (fuel : ℕ) → List LocalNode → Option LocalNode → Exec Disk Error Unit
remove_below fuel nodes none = pure tt
remove_below fuel nodes (some root) =
    remove_collected (collect_deleted fuel nodes ((root.node_id, []) ∷ []) [])

unfoldable pub cleanup_deleted_mount_paths : (fuel : ℕ) (folder_id : String) → Exec Site Error Unit
unfolding load_nodes_by_id collect_deleted sort_by_depth remove_paths
cleanup_deleted_mount_paths fuel folder_id s =
    let nodes = load_nodes_by_id folder_id s.db in
    on_disk (remove_below fuel nodes (root_of nodes)) s
