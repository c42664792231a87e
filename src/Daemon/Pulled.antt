-- ===== src/Daemon/Pulled.antt =====
-- `apply_pulled_fs_changes` of crates/valvd/src/tasks.rs: the disk follows the operations that a pull
-- has applied to the mirror.
pub mod Keeps
pub mod Moved
use mathlib.Core.Option
use valv.Base.{
  String, ◌==◌, string_eq, ℕ, Bool, true, false, not, ◌&&◌, ◌||◌, List, [], ◌∷◌, ◌++◌, Option, none,
  some, if◌then◌else◌, option_eq,
}
use valv.Base.Exec.{Exec, pure, ◌>>=◌, ◌>>◌}
use valv.Base.Result.{Result, ok, err}
use valv.Base.Text.{before_code}
use valv.Errors.{Error, no_file_name}
use valv.Persistence.Db.{Db, LocalNode}
use valv.Persistence.Versions.{
  has_materialized_content_for_version, has_materialized_content_for_node,
}
use valv.Sql.{select_all, row_of, update}
use valv.Engine.ConflictCopy.{Dir, conflict_name, disambiguate_conflict_path}
use valv.Engine.DeltaPull.{PulledNode, and_then}
use valv.Engine.LocalPush.State.{LocalPath}
use valv.Engine.LocalPush.Moves.{local_node_abs_path}
use valv.Daemon.Disk.{Disk, exists, same_path, create_dir_all, rename, write_file, split_path}
use valv.Daemon.Versions.{Site, on_disk, Backend, download_and_store_version, materialize_version}

pub data MaterializeScope : Type 0 where
  background full : MaterializeScope

-- Every row of the folder.
unfoldable pub load_nodes_by_id : String → Db → List LocalNode
load_nodes_by_id folder_id db = select_all (λ n. n.folder_id == folder_id) db.nodes

-- The walk is that of `local_node_abs_path`, from the row of the id.
unfoldable pub node_abs_path :
    (fuel : ℕ)
    → List LocalNode
    → (scope_node_id : Option String) (node_id : String) → Option LocalPath
unfolding local_node_abs_path
node_abs_path fuel nodes_by_id scope_node_id node_id =
    and_then (row_of (λ n. n.node_id) node_id nodes_by_id)
      (local_node_abs_path fuel scope_node_id nodes_by_id)

-- The row as it was before the operation.
abbrev pub old_row : PulledNode → LocalNode → LocalNode
old_row pulled node = record node {
  name = Option.get_or pulled.old_name node.name;
  parent_id = pulled.old_parent_id;
}

unfoldable pub pre_op_abs_path :
    (fuel : ℕ) → List LocalNode → (scope_node_id : Option String) → PulledNode → Option LocalPath
unfolding node_abs_path
pre_op_abs_path fuel nodes_by_id scope_node_id pulled =
    node_abs_path fuel (update (λ n. n.node_id == pulled.node_id) (old_row pulled) nodes_by_id)
      scope_node_id pulled.node_id

-- The names that are taken in a folder, whatever has them.
abbrev pub listing : LocalPath → Disk → Dir
listing dir disk name = if exists (dir ++ (name ∷ [])) disk then some [] else none

abbrev pub in_dir : LocalPath → Result Error String → Result Error LocalPath
in_dir dir (err e) = err e
in_dir dir (ok name) = ok (dir ++ (name ∷ []))

abbrev pub conflict_path_in :
    (device_name date : String) → Disk → Option (LocalPath × String) → Result Error LocalPath
conflict_path_in device_name date disk none = err no_file_name
conflict_path_in device_name date disk (some (dir, file_name)) =
    in_dir dir
      (disambiguate_conflict_path (listing dir disk) (conflict_name file_name device_name date))

unfoldable pub conflict_copy_path :
    LocalPath → (device_name date : String) → Disk → Result Error LocalPath
unfolding conflict_name disambiguate_conflict_path split_path exists
conflict_copy_path original_path device_name date disk =
    conflict_path_in device_name date disk (split_path original_path)

-- `if let Some(parent) = path.parent() { fs::create_dir_all(parent)? }`.
abbrev pub create_parent : Option (LocalPath × String) → Exec Disk Error Unit
create_parent none = pure tt
create_parent (some (dir, name)) = create_dir_all dir

-- `let Some(a) = o else { return Ok(()) }`.
abbrev pub or_return : {A : Type 0} → Option A → (A → Exec Site Error Unit) → Exec Site Error Unit
or_return none k = pure tt
or_return (some a) k = k a

module _ (fuel : ℕ) (B : Backend) (folder_id : String) (scope_node_id : Option String)
    (device_id : String) where
  abbrev pub unless_materialized :
      (node_id version_id : String) → LocalPath → Bool → Exec Site Error Unit
  unless_materialized node_id version_id path true = pure tt
  unless_materialized node_id version_id path false =
      materialize_version B folder_id node_id version_id path

  abbrev pub materialize_file :
      (node_id : String) (version_id : String) → LocalPath → Exec Site Error Unit
  materialize_file node_id version_id path s =
      unless_materialized node_id version_id path
        (has_materialized_content_for_version version_id s.db && exists path s.disk) s

  abbrev pub materialize_node : LocalNode → LocalPath → Exec Site Error Unit
  materialize_node node path =
      if node.node_type == "folder"
      then on_disk (create_dir_all path)
      else or_return node.current_version_id
          (λ version_id. materialize_file node.node_id version_id path)

  unfoldable pub materialize_single_node :
      List LocalNode → (node_id : String) → LocalPath → Exec Site Error Unit
  unfolding materialize_version has_materialized_content_for_version exists create_dir_all
  materialize_single_node nodes_by_id node_id path =
      or_return (row_of (λ n. n.node_id) node_id nodes_by_id) (λ node. materialize_node node path)

  unfoldable pub write_canonical_version :
      List LocalNode → PulledNode → (version_id : String) → Exec Site Error Unit
  unfolding materialize_version node_abs_path
  write_canonical_version nodes_by_id pulled version_id =
      or_return (node_abs_path fuel nodes_by_id scope_node_id pulled.node_id)
        (materialize_version B folder_id pulled.node_id version_id)

  abbrev wanted_at : PulledNode → Option LocalPath → Site → Bool
  wanted_at pulled none s = false
  wanted_at pulled (some path) s =
      not (has_materialized_content_for_node pulled.node_id s.db && not (exists path s.disk))

  unfoldable pub should_materialize_canonical :
      List LocalNode → PulledNode → MaterializeScope → Site → Bool
  unfolding has_materialized_content_for_node node_abs_path exists
  should_materialize_canonical nodes_by_id pulled full s = true
  should_materialize_canonical nodes_by_id pulled background s =
      wanted_at pulled (node_abs_path fuel nodes_by_id scope_node_id pulled.node_id) s

  abbrev pub write_if_wanted :
      List LocalNode → PulledNode → MaterializeScope → (version_id : String) → Exec Site Error Unit
  write_if_wanted nodes_by_id pulled scope version_id s =
      if should_materialize_canonical nodes_by_id pulled scope s
      then write_canonical_version nodes_by_id pulled version_id s
      else (ok tt, s)

  -- The arm of "rename" and "move", from the two paths on.
  unfoldable pub move_on_disk :
      List LocalNode → PulledNode → (old_path new_path : LocalPath) → Exec Site Error Unit
  unfolding exists rename create_dir_all split_path materialize_single_node
  move_on_disk nodes_by_id pulled old_path new_path s =
      if same_path old_path new_path
      then (ok tt, s)
      else if exists old_path s.disk
      then on_disk (create_parent (split_path new_path) >> rename old_path new_path) s
      else materialize_single_node nodes_by_id pulled.node_id new_path s

  -- The arm of a new version that is a conflict copy, from the path of the node on.
  unfoldable pub write_conflict_copy :
      PulledNode → (version_id : String) (canonical_path : LocalPath) → Exec Site Error Unit
  unfolding conflict_copy_path before_code create_dir_all split_path download_and_store_version
      write_file
  write_conflict_copy pulled version_id canonical_path = do
    conflict_path ← λ s. (
      conflict_copy_path canonical_path pulled.actor_device_id (before_code 84 pulled.applied_at)
          s.disk,
      s,
    )
    on_disk (create_parent (split_path conflict_path))
    bytes ← download_and_store_version B folder_id pulled.node_id version_id
    on_disk (write_file (B.write_fault conflict_path) conflict_path bytes)

  abbrev pub apply_conflict_copy : List LocalNode → PulledNode → Exec Site Error Unit
  apply_conflict_copy nodes_by_id pulled =
      if pulled.actor_device_id == device_id
      then pure tt
      else or_return pulled.new_version_id (λ version_id.
        or_return (node_abs_path fuel nodes_by_id scope_node_id pulled.node_id)
          (write_conflict_copy pulled version_id))

  abbrev pub follow_move : List LocalNode → PulledNode → Exec Site Error Unit
  follow_move nodes_by_id pulled =
      or_return (pre_op_abs_path fuel nodes_by_id scope_node_id pulled) (λ old_path.
        or_return (node_abs_path fuel nodes_by_id scope_node_id pulled.node_id)
          (move_on_disk nodes_by_id pulled old_path))

  unfoldable pub apply_pulled_fs_change :
      List LocalNode → MaterializeScope → PulledNode → Exec Site Error Unit
  unfolding node_abs_path pre_op_abs_path create_dir_all should_materialize_canonical
      write_canonical_version move_on_disk write_conflict_copy
  apply_pulled_fs_change nodes_by_id scope pulled =
      if pulled.op_type == "create" && pulled.node_type == "folder"
      then or_return (node_abs_path fuel nodes_by_id scope_node_id pulled.node_id)
          (λ path. on_disk (create_dir_all path))
      else if pulled.op_type == "create" && pulled.node_type == "file"
      then or_return pulled.new_version_id (write_if_wanted nodes_by_id pulled scope)
      else if pulled.op_type == "rename" || pulled.op_type == "move"
      then follow_move nodes_by_id pulled
      else if pulled.op_type == "new_version" && pulled.is_conflict_copy
      then apply_conflict_copy nodes_by_id pulled
      else if pulled.op_type == "new_version"
      then if pulled.old_version_id == pulled.new_version_id
        then pure tt
        else or_return pulled.new_version_id (write_if_wanted nodes_by_id pulled scope)
      else pure tt

  -- The loop, in which an error is only logged.
  unfoldable pub apply_each : List LocalNode → MaterializeScope → List PulledNode → Site → Site
  unfolding apply_pulled_fs_change
  apply_each nodes_by_id scope [] s = s
  apply_each nodes_by_id scope (pulled ∷ rest) s =
      apply_each nodes_by_id scope rest (apply_pulled_fs_change nodes_by_id scope pulled s).1

  unfoldable pub apply_pulled_fs_changes : List PulledNode → MaterializeScope → Exec Site Error Unit
  unfolding load_nodes_by_id apply_each
  apply_pulled_fs_changes pulled scope s =
      (ok tt, apply_each (load_nodes_by_id folder_id s.db) scope pulled s)
