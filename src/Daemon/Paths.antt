-- ===== src/Daemon/Paths.antt =====
-- From a path to its node, crates/valvd/src/path_resolution.rs, and back, crates/valvd/src/nodes.rs.
pub mod RoundTrip
use valv.Base.{
  String, ◌<>◌, ◌==◌, string_eq, ℕ, zero, suc, leb, length, Bool, true, false, ◌&&◌, ◌||◌, List, [],
  ◌∷◌, Option, none, some, if◌then◌else◌,
}
use valv.Base.Result.{Result, ok, err}
use valv.Base.Text.{is_blank}
use valv.Persistence.Db.{Db, LocalNode}
use valv.Persistence.Nodes.{get_node, get_root_node, get_node_by_parent_and_name, is_null}
use valv.Engine.LocalPush.Moves.{is_scope}
use valv.Daemon.Mounts.{MountState}

-- `std::path::Component`, where a path has no prefix.
pub data Component : Type 0 where
  root_dir cur_dir parent_dir : Component
  normal : String → Component

-- `Internal` is a fault of SQLite, which is not modelled.
pub data PathResolutionError : Type 0 where
  not_in_mount node_not_synced : PathResolutionError

pub record ResolvedPath : Type 0 where
  pub mount : MountState
  pub folder_id : String
  pub node_id : String

abbrev same_component : Component → Component → Bool
same_component root_dir root_dir = true
same_component cur_dir cur_dir = true
same_component parent_dir parent_dir = true
same_component (normal a) (normal b) = a == b
same_component _ _ = false

-- `path.strip_prefix(base)`.
unfoldable pub strip_base : (base path : List Component) → Option (List Component)
strip_base [] path = some path
strip_base (b ∷ base) [] = none
strip_base (b ∷ base) (c ∷ path) =
    let rest = strip_base base path in if same_component b c then rest else none

-- A mount that has the path, the rest of the path, and the number of components of the mount's path.
abbrev pub Within : Type 0
Within = MountState × List Component × ℕ

abbrev within :
    MountState → (mount_path : List Component) → Option (List Component) → List Within → List Within
within mount mount_path none found = found
within mount mount_path (some relative) found = (mount, relative, length mount_path) ∷ found

-- `max_by_key`, which gives the last of the largest.
unfoldable pub deepest : Within → List Within → Within
deepest best [] = best
deepest best (w ∷ ws) = deepest (if leb best.2 w.2 then w else best) ws

abbrev first_and_rest : List Within → Option Within
first_and_rest [] = none
first_and_rest (w ∷ ws) = some (deepest w ws)

-- `normalize` gives the components of a path after `canonicalize`, or of the path as it is.
module _ (normalize : String → List Component) (db : Db) where
  unfoldable pub mounts_with : (local_path : List Component) → List MountState → List Within
  unfolding strip_base
  mounts_with local_path [] = []
  mounts_with local_path (mount ∷ t) =
      within mount (normalize mount.path) (strip_base (normalize mount.path) local_path)
        (mounts_with local_path t)

  abbrev pub start_node : (scope_node_id : Option String) (folder_id : String) → Option LocalNode
  start_node (some scope_node_id) folder_id = get_node scope_node_id db
  start_node none folder_id = get_root_node folder_id db

  abbrev pub and_then : Option LocalNode → (LocalNode → Option LocalNode) → Option LocalNode
  and_then none k = none
  and_then (some n) k = k n

  -- The loop over the components, where `none` is a node that is not synced.
  unfoldable pub descend : (folder_id : String) → List Component → LocalNode → Option LocalNode
  unfolding get_node_by_parent_and_name
  descend folder_id [] current = some current
  descend folder_id (normal name ∷ rest) current =
      and_then (get_node_by_parent_and_name folder_id (some current.node_id) name db)
        (descend folder_id rest)
  descend folder_id (root_dir ∷ rest) current = descend folder_id rest current
  descend folder_id (cur_dir ∷ rest) current = descend folder_id rest current
  descend folder_id (parent_dir ∷ rest) current = descend folder_id rest current

  abbrev resolved : MountState → Option LocalNode → Result PathResolutionError ResolvedPath
  resolved mount none = err node_not_synced
  resolved mount (some node) =
      ok (record { mount = mount; folder_id = mount.folder_id; node_id = node.node_id })

  abbrev resolve_in : Option Within → Result PathResolutionError ResolvedPath
  resolve_in none = err not_in_mount
  resolve_in (some (mount, relative, n)) =
      resolved mount (
        and_then (start_node mount.scope_node_id mount.folder_id)
          (descend mount.folder_id relative))

  unfoldable pub resolve_path_to_node :
      List MountState → (path : String) → Result PathResolutionError ResolvedPath
  unfolding mounts_with deepest descend get_node get_root_node
  resolve_path_to_node mounts path =
      resolve_in (first_and_rest (mounts_with (normalize path) mounts))

  -- The walk of `resolve_node_path`, with the names below the current node in order. The source's loop
  -- does not end on a cycle of parents; without fuel the walk gives nothing.
  abbrev pub step_out :
      LocalNode
      → Option String
      → (String → Option (List String))
      → List String
      → Option (List String)
  step_out node none up segments = some segments
  step_out node (some parent_id) up segments = up parent_id

  abbrev pub at_node :
      (scope_node_id : Option String)
      → Option LocalNode
      → (String → List String → Option (List String))
      → List String
      → Option (List String)
  at_node scope_node_id none up segments = some segments
  at_node scope_node_id (some node) up segments =
      if is_scope scope_node_id node.node_id
      then some segments
      else step_out node node.parent_id (λ parent_id. up parent_id (node.name ∷ segments)) segments

  unfoldable pub node_names :
      (fuel : ℕ) (scope_node_id : Option String)
      → (current_id : String) → List String
      → Option (List String)
  unfolding get_node
  node_names zero scope_node_id current_id segments = none
  node_names (suc fuel) scope_node_id current_id segments =
      at_node scope_node_id (get_node current_id db) (node_names fuel scope_node_id) segments

-- `segments.join("/")`.
unfoldable pub join_slash : List String → String
join_slash [] = ""
join_slash (s ∷ []) = s
join_slash (s ∷ t ∷ rest) = s <> ("/" <> join_slash (t ∷ rest))

abbrev joined : Option (List String) → Option String
joined none = none
joined (some names) = some (join_slash names)

unfoldable pub resolve_node_path :
    (fuel : ℕ) → Db → (node_id : String) (scope_node_id : Option String) → Option String
unfolding node_names join_slash
resolve_node_path fuel db node_id scope_node_id =
    joined (node_names (λ p. []) db fuel scope_node_id node_id [])
