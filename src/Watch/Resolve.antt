-- ===== src/Watch/Resolve.antt =====
-- From a path to its node, in crates/valv-sync/src/watch/mod.rs.
use valv.Base.{String, List, [], ◌∷◌, Option, none, some}
use valv.Base.Result.{Result, ok, err, ok_or}
use valv.Errors.{Error, outside_mount, unsupported_component, no_file_name}
use valv.Persistence.Db.{Db, LocalNode}
use valv.Persistence.Nodes.{get_root_node, get_node_by_parent_and_name}
use valv.Daemon.Paths.{Component, root_dir, cur_dir, parent_dir, normal, strip_base}
use valv.Watch.Events.{AbsPath}

abbrev prefix_component : Component → Option (AbsPath × Component) → Option (AbsPath × Component)
prefix_component c none = none
prefix_component c (some (parent, last)) = some (c ∷ parent, last)

unfoldable pub split_last : AbsPath → Option (AbsPath × Component)
split_last [] = none
split_last (c ∷ []) = some ([], c)
split_last (c ∷ d ∷ path) = prefix_component c (split_last (d ∷ path))

-- `Path::parent` and `Path::file_name`.
abbrev pub parent_component : Option (AbsPath × Component) → Option AbsPath
parent_component none = none
parent_component (some (parent, root_dir)) = none
parent_component (some (parent, cur_dir)) = some parent
parent_component (some (parent, parent_dir)) = some parent
parent_component (some (parent, normal name)) = some parent

abbrev pub name_component : Option (AbsPath × Component) → Option String
name_component none = none
name_component (some (parent, root_dir)) = none
name_component (some (parent, cur_dir)) = none
name_component (some (parent, parent_dir)) = none
name_component (some (parent, normal name)) = some name

unfoldable pub file_name : AbsPath → Result Error String
unfolding split_last
file_name path = ok_or (name_component (split_last path)) no_file_name

module _ (db : Db) (folder_id : String) where
  abbrev pub next_component :
      Option LocalNode
      → (LocalNode → Result Error (Option LocalNode))
      → Result Error (Option LocalNode)
  next_component none more = ok none
  next_component (some next) more = more next

  -- The loop over the components.
  unfoldable pub resolve_components :
      List Component
      → (parent_id : String) → (found : Option LocalNode) → Result Error (Option LocalNode)
  unfolding get_node_by_parent_and_name
  resolve_components [] parent_id found = ok found
  resolve_components (normal name ∷ rest) parent_id found =
      next_component (get_node_by_parent_and_name folder_id (some parent_id) name db)
        (λ next. resolve_components rest next.node_id (some next))
  resolve_components (root_dir ∷ rest) parent_id found = err unsupported_component
  resolve_components (cur_dir ∷ rest) parent_id found = err unsupported_component
  resolve_components (parent_dir ∷ rest) parent_id found = err unsupported_component

  abbrev pub resolve_below :
      Option (List Component) → Option LocalNode → Result Error (Option LocalNode)
  resolve_below none root = err outside_mount
  resolve_below (some rel) none = ok none
  resolve_below (some []) (some root) = ok (some root)
  resolve_below (some (c ∷ rel)) (some root) = resolve_components (c ∷ rel) root.node_id none

  unfoldable pub resolve_abs_path :
      (mount_root abs_path : AbsPath) → Result Error (Option LocalNode)
  unfolding resolve_components get_root_node strip_base
  resolve_abs_path mount_root abs_path =
      resolve_below (strip_base mount_root abs_path) (get_root_node folder_id db)

  abbrev pub resolve_parent :
      (mount_root : AbsPath) → Option AbsPath → Result Error (Option LocalNode)
  resolve_parent mount_root none = ok none
  resolve_parent mount_root (some parent) = resolve_abs_path mount_root parent

  unfoldable pub resolve_parent_for_path :
      (mount_root abs_path : AbsPath) → Result Error (Option LocalNode)
  unfolding resolve_abs_path split_last
  resolve_parent_for_path mount_root abs_path =
      resolve_parent mount_root (parent_component (split_last abs_path))
