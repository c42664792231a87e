-- ===== src/Engine/LocalPush/Deletes.antt =====
-- `submit_deletes_for_missing` of crates/valv-sync/src/sync_engine/local_push.rs: what the mirror
-- has and the disk has not is deleted, if all its content is known to the store.
pub mod Safe
pub mod Sent
pub mod Weight
pub mod Fuel
pub mod Ends
use valv.Base.{
  String, ◌==◌, string_eq, ℕ, zero, suc, ℤ, Bool, true, false, ◌&&◌, List, [], ◌∷◌, ◌++◌, map,
  Option, none, some, is_some, if◌then◌else◌,
}
use valv.Base.Exec.{Exec, pure, raise, modify, gets, ◌>>=◌, ◌>>◌}
use valv.Base.Result.{Result, ok, err}
use valv.Errors.{Error, decode, out_of_fuel}
use valv.Http.{Reply}
use valv.Json.{Json}
use valv.Persistence.Db.{Db, LocalNode}
use valv.Persistence.Chunks.{is_uploaded}
use valv.Persistence.Nodes.{column_is, is_null, mark_deleted}
use valv.Persistence.Versions.{get_version}
use valv.Protocol.{
  ChunkRef, SubmitOpRequest, delete, SubmitOpResponse, applied, conflict_copy, superseded, conflict,
}
use valv.Sql.{select_all, select_first}
use valv.Engine.LocalPush.State.{
  LocalPath, Push, count_error, count_skipped, propagate_update_required,
  ensure_not_update_required, send_op,
}

pub record MirrorNode : Type 0 where
  pub node_id : String
  pub parent_id : Option String
  pub name : String
  pub node_type : String
  pub current_version_id : Option String
  pub server_seq : ℤ

abbrev pub mirror_node : LocalNode → MirrorNode
mirror_node n = record {
  node_id = n.node_id;
  parent_id = n.parent_id;
  name = n.name;
  node_type = n.node_type;
  current_version_id = n.current_version_id;
  server_seq = n.server_seq;
}

unfoldable pub live_mirror_nodes : String → Db → List MirrorNode
live_mirror_nodes folder_id db =
    map mirror_node (select_all (λ n. n.folder_id == folder_id && is_null n.deleted_at) db.nodes)

-- `children_map.get(parent_id)`.
unfoldable pub children_of : List MirrorNode → String → List MirrorNode
children_of nodes parent_id = select_all (λ n. column_is n.parent_id parent_id) nodes

-- The loop over the manifest.
unfoldable pub all_uploaded : List ChunkRef → Db → Bool
all_uploaded [] db = true
all_uploaded (c ∷ cs) db = is_uploaded c.chunk_hash db && all_uploaded cs db

-- Where a test fails, the error is that of the whole sweep.
unfoldable pub has_local_version : Json → String → Db → Result Error Bool
unfolding all_uploaded
has_local_version J version_id db = elim (get_version version_id db) [
  | none ↦ ok false
  | some version ↦ elim (J.manifest_from_string version.manifest_json) [
    | none ↦ err decode
    | some manifest ↦ ok (all_uploaded manifest db)
  ]
]

abbrev pub version_is_local : Json → Option String → Db → Result Error Bool
version_is_local J none db = ok false
version_is_local J (some version_id) db = has_local_version J version_id db

-- The inner loop over the children of a folder: `none` when every file is local, with the folders
-- put on the queue.
abbrev pub and_also :
    Result Error Bool → Result Error (Option (List String)) → Result Error (Option (List String))
and_also (err e) rest = err e
and_also (ok false) rest = ok none
and_also (ok true) rest = rest

unfoldable pub check_children :
    Json → Db → List MirrorNode → (queue : List String) → Result Error (Option (List String))
check_children J db [] queue = ok (some queue)
check_children J db (child ∷ t) queue =
    let push = check_children J db t (queue ++ (child.node_id ∷ [])) in
    let skip = check_children J db t queue in
    if child.node_type == "folder"
    then push
    else if child.node_type == "file"
    then and_also (version_is_local J child.current_version_id db) skip
    else skip

-- The outer loop. `check_children` gives `none` where the source returns `false`.
abbrev pub go_on :
    Result Error (Option (List String)) → (List String → Result Error Bool) → Result Error Bool
go_on (err e) rest = err e
go_on (ok none) rest = ok false
go_on (ok (some queue)) rest = rest queue

unfoldable pub descendants_are_local :
    (fuel : ℕ) → Json → Db → List MirrorNode → (queue : List String) → Result Error Bool
unfolding check_children children_of
descendants_are_local zero json db nodes queue = err out_of_fuel
descendants_are_local (suc fuel) json db nodes [] = ok true
descendants_are_local (suc fuel) json db nodes (parent_id ∷ queue) =
    go_on (check_children json db (children_of nodes parent_id) queue)
      (λ q. descendants_are_local fuel json db nodes q)

unfoldable pub folder_descendant_files_are_local :
    (fuel : ℕ) → Json → List MirrorNode → String → Db → Result Error Bool
unfolding descendants_are_local
folder_descendant_files_are_local fuel J nodes folder_node_id db =
    descendants_are_local fuel J db nodes (folder_node_id ∷ [])

-- The match on the node's type.
unfoldable pub should_delete :
    (fuel : ℕ) → Json → List MirrorNode → MirrorNode → Db → Result Error Bool
unfolding folder_descendant_files_are_local
should_delete fuel J nodes node db =
    if node.node_type == "folder"
    then folder_descendant_files_are_local fuel J nodes node.node_id db
    else if node.node_type == "file"
    then version_is_local J node.current_version_id db
    else ok false

abbrev pub is_deferred : String → List String → Bool
is_deferred node_id deferred = is_some (select_first (λ d. d == node_id) deferred)

-- `while let Some(parent_id) = queue.pop_front()`. The queue is a local of the source; the field of
-- the state stands for it, which the walk has emptied before the sweep.
abbrev pub take_front :
    (LocalPath × String → Exec Push Error Unit) → List (LocalPath × String) → Exec Push Error Unit
take_front body [] = pure tt
take_front body (front ∷ rest) = λ p. body front (record p { queue = rest })

module _ (fuel : ℕ) (J : Json) (backend : SubmitOpRequest → Reply J.Value) (now : String)
    (exists : LocalPath → Bool) (folder_id : String) (nodes : List MirrorNode) where
  abbrev count_delete : Exec Push Error Unit
  count_delete = modify (λ p. record p {
    summary = record p.summary { deletes_submitted = suc p.summary.deletes_submitted };
  })

  abbrev pub after_delete : MirrorNode → Result Error SubmitOpResponse → Exec Push Error Unit
  after_delete node (ok (applied server_seq _)) = do
    modify (λ p. record p { db = mark_deleted now node.node_id server_seq p.db })
    count_delete
  after_delete node (ok (superseded _)) = count_skipped
  after_delete node (ok (conflict_copy _ _ _)) = count_skipped
  after_delete node (ok (conflict _ _ _ _)) = count_skipped
  after_delete node (err error) = do propagate_update_required error; count_error error

  -- From `should_delete` on.
  abbrev pub delete_if : MirrorNode → Bool → Exec Push Error Unit
  delete_if node false = pure tt
  delete_if node true =
      send_op J backend folder_id (delete node.node_id node.server_seq) >>= after_delete node

  unfoldable pub delete_missing : MirrorNode → Exec Push Error Unit
  unfolding should_delete mark_deleted propagate_update_required
  delete_missing node = do
    wanted ← λ p. (should_delete fuel J nodes node p.db, p)
    delete_if node wanted

  abbrev pub unless_exists : Bool → MirrorNode → Exec Push Error Unit
  unless_exists true node = pure tt
  unless_exists false node = delete_missing node

  -- From `paths.insert` on. The path of a queued node stands beside it.
  unfoldable pub enter_child : (path : LocalPath) → MirrorNode → Exec Push Error Unit
  unfolding delete_missing
  enter_child path node = do
    modify (λ p. record p { queue = p.queue ++ ((path, node.node_id) ∷ []) })
    unless_exists (exists path) node

  abbrev pub unless_deferred : Bool → (path : LocalPath) → MirrorNode → Exec Push Error Unit
  unless_deferred true path node = pure tt
  unless_deferred false path node = enter_child path node

  -- The body of the loop over the children of a node.
  unfoldable pub visit_child : (parent_path : LocalPath) → MirrorNode → Exec Push Error Unit
  unfolding ensure_not_update_required enter_child
  visit_child parent_path node = do
    ensure_not_update_required
    deferred ← gets (λ p. is_deferred node.node_id p.deferred_delete_node_ids)
    unless_deferred deferred (parent_path ++ (node.name ∷ [])) node

  unfoldable pub visit_children : (parent_path : LocalPath) → List MirrorNode → Exec Push Error Unit
  unfolding visit_child
  visit_children parent_path [] = pure tt
  visit_children parent_path (node ∷ t) =
      visit_child parent_path node >> visit_children parent_path t

  unfoldable pub sweep : (fuel : ℕ) → Exec Push Error Unit
  unfolding visit_children children_of
  sweep zero = raise out_of_fuel
  sweep (suc k) = λ p.
      take_front (λ front. visit_children front.0 (children_of nodes front.1) >> sweep k) p.queue p

abbrev pub seed_of : Option String → List MirrorNode → Option MirrorNode
seed_of (some scope_node_id) nodes = select_first (λ n. n.node_id == scope_node_id) nodes
seed_of none nodes = select_first (λ n. is_null n.parent_id) nodes

module _ (fuel : ℕ) (J : Json) (backend : SubmitOpRequest → Reply J.Value) (now : String)
    (exists : LocalPath → Bool) (folder_id : String) (scope_node_id : Option String) where
  abbrev pub sweep_from : List MirrorNode → Option MirrorNode → Exec Push Error Unit
  sweep_from nodes none = pure tt
  sweep_from nodes (some seed) = do
    modify (λ p. record p { queue = ([], seed.node_id) ∷ [] })
    sweep fuel J backend now exists folder_id nodes fuel

  unfoldable pub submit_deletes_for_missing : Exec Push Error Unit
  unfolding sweep live_mirror_nodes
  submit_deletes_for_missing = do
    ensure_not_update_required
    nodes ← gets (λ p. live_mirror_nodes folder_id p.db)
    sweep_from nodes (seed_of scope_node_id nodes)
