-- ===== src/Engine/LocalPush/Walk.antt =====
-- `push_local_inner` of crates/valv-sync/src/sync_engine/local_push.rs: the walk over the disk, from
-- the root of the mount, and the delete sweep after it.
pub mod Requests
pub mod Entry
pub mod Folder
pub mod Ends
pub mod Sent
use Prim.Native.String.{compare}
use text.Mathlib.Text.{is_lt}
use valv.Base.{
  String, ◌==◌, string_eq, ℕ, zero, suc, ℤ, Bool, true, false, ◌&&◌, ◌||◌, not, List, [], ◌∷◌, ◌++◌,
  Option, none, some, if◌then◌else◌,
}
use valv.Base.Exec.{Exec, pure, raise, lift, gets, modify, ◌>>=◌, ◌>>◌}
use valv.Base.Result.{Result, ok, err, ok_or}
use valv.Base.Text.{contains}
use valv.Errors.{Error, no_root_node}
use valv.Persistence.Db.{LocalNode}
use valv.Persistence.Nodes.{get_node_by_parent_and_name, get_root_node, is_null}
use valv.Protocol.{NodeType, file, folder}
use valv.Engine.ConflictCopy.{Dir}
use valv.Engine.VersionPush.{Outside}
use valv.Engine.LocalPush.State.{
  LocalPath, Push, PushSummary, count_skipped, ensure_not_update_required,
}
use valv.Engine.LocalPush.Listing.{
  EntryInfo, Listed, unreadable, listed, is_conflict_copy_name, comes_first, insert_entry,
  sort_entries, readable, count_unreadable,
}
use valv.Engine.LocalPush.Moves.{process_moved_entry}
use valv.Engine.LocalPush.Existing.{FilePush, process_existing_file, count_failure}
use valv.Engine.LocalPush.Create.{create_entry}
use valv.Engine.LocalPush.Deletes.{submit_deletes_for_missing}

-- The run, and the files of each folder.
pub record Walk : Type 0 where
  pub push : Push
  pub files : LocalPath → Dir

abbrev same_path : LocalPath → LocalPath → Bool
same_path [] [] = true
same_path (a ∷ p) (b ∷ q) = a == b && same_path p q
same_path _ _ = false

abbrev pub in_folder : {A : Type 0} → LocalPath → Exec FilePush Error A → Exec Walk Error A
in_folder dir m w =
    let (r, f) = m (record { push = w.push; dir = w.files dir }) in
    (r, record { push = f.push; files = λ d. if same_path dir d then f.dir else w.files d })

abbrev pub on_run : {A : Type 0} → Exec Push Error A → Exec Walk Error A
on_run m w = let (r, push) = m w.push in (r, record w { push = push })

-- `mirror_node.filter(|node| node.deleted_at.is_none())`.
abbrev pub if_live : Option LocalNode → Option LocalNode
if_live none = none
if_live (some n) = if is_null n.deleted_at then some n else none

abbrev pub is_null_node : Option LocalNode → Bool
is_null_node none = true
is_null_node (some n) = false

-- How the loop ends. `none` says that the fuel ran out.
abbrev pub Ended : Type 0
Ended = Option (Result Error Unit × Walk)

abbrev pub continue_with : (Walk → Ended) → Result Error Unit × Walk → Ended
continue_with rest (ok u, w) = rest w
continue_with rest (err e, w) = some (err e, w)

abbrev pub pop_dir : (LocalPath × String → Walk → Ended) → List (LocalPath × String) → Walk → Ended
pop_dir body [] w = some (ok tt, w)
pop_dir body (front ∷ rest) w = body front (record w { push = record w.push { queue = rest } })

abbrev seed_parent : Option String → LocalNode → String
seed_parent none root = root.node_id
seed_parent (some scope) root = scope

abbrev empty_summary : PushSummary
empty_summary = record {
  creates_submitted = 0;
  versions_submitted = 0;
  deletes_submitted = 0;
  skipped = 0;
  errors = 0;
  forbidden = false;
}

-- The disk as the run finds it: the listing of a folder (`none` if it cannot be read), which paths
-- exist, and size and time of a file. `fuel` is that of the walks up the mirror's tree.
module _ (fuel : ℕ) (O : Outside) (now : String) (read_dir : LocalPath → Option (List Listed))
    (exists : LocalPath → Bool) (stat : LocalPath → Option (ℕ × ℤ)) (folder_id : String)
    (scope_node_id : Option String) (device_name date : String) where
  abbrev enqueue_dir : LocalPath → LocalNode → Exec Push Error Unit
  enqueue_dir abs_path node =
      modify (λ p. record p { queue = p.queue ++ ((abs_path, node.node_id) ∷ []) })

  -- The end of the branches that `process_moved_entry` leaves.
  abbrev pub create_unless :
      Bool → (dir_path : LocalPath) (parent_node_id name : String) → NodeType → Exec Walk Error Unit
  create_unless true dir_path parent_node_id name node_type = pure tt
  create_unless false dir_path parent_node_id name node_type =
      let abs_path = dir_path ++ (name ∷ []) in
      in_folder dir_path (
        create_entry O folder_id parent_node_id name abs_path device_name date (stat abs_path)
          node_type)

  unfoldable pub move_or_create :
      (dir_path : LocalPath) (parent_node_id name : String) → NodeType → Exec Walk Error Unit
  unfolding process_moved_entry create_entry
  move_or_create dir_path parent_node_id name node_type = do
    moved ← on_run (
        process_moved_entry exists folder_id scope_node_id (dir_path ++ (name ∷ [])) parent_node_id
          name node_type O.json O.submit fuel)
    create_unless moved dir_path parent_node_id name node_type

  abbrev pub process_dir :
      (dir_path : LocalPath) (parent_node_id name : String)
      → Option LocalNode
      → Exec Walk Error Unit
  process_dir dir_path parent_node_id name (some node) =
      on_run (enqueue_dir (dir_path ++ (name ∷ [])) node)
  process_dir dir_path parent_node_id name none = move_or_create dir_path parent_node_id name folder

  abbrev pub process_file :
      (dir_path : LocalPath) (parent_node_id name : String)
      → Option LocalNode
      → Exec Walk Error Unit
  process_file dir_path parent_node_id name (some node) = in_folder dir_path (
      process_existing_file O folder_id node name device_name date (stat (dir_path ++ (name ∷ []))))
  process_file dir_path parent_node_id name none = move_or_create dir_path parent_node_id name file

  -- From the look-up of the entry's node on.
  unfoldable pub dispatch_entry :
      (dir_path : LocalPath) (parent_node_id : String)
      → EntryInfo
      → Option LocalNode
      → Exec Walk Error Unit
  unfolding move_or_create process_existing_file is_conflict_copy_name
  dispatch_entry dir_path parent_node_id e mirror_node =
      if e.is_file && is_null_node mirror_node && is_conflict_copy_name e.name
      then on_run count_skipped
      else if e.is_dir
      then process_dir dir_path parent_node_id e.name (if_live mirror_node)
      else if e.is_file
      then process_file dir_path parent_node_id e.name (if_live mirror_node)
      else on_run count_skipped

  -- The body of the loop over the entries.
  unfoldable pub process_entry :
      (dir_path : LocalPath) (parent_node_id : String) → EntryInfo → Exec Walk Error Unit
  unfolding dispatch_entry ensure_not_update_required
  process_entry dir_path parent_node_id e = do
    on_run ensure_not_update_required
    if e.is_symlink then on_run count_skipped else λ w.
        dispatch_entry dir_path parent_node_id e
          (get_node_by_parent_and_name folder_id (some parent_node_id) e.name w.push.db) w

  unfoldable pub process_entries :
      (dir_path : LocalPath) (parent_node_id : String) → List EntryInfo → Exec Walk Error Unit
  unfolding process_entry
  process_entries dir_path parent_node_id [] = pure tt
  process_entries dir_path parent_node_id (e ∷ t) =
      process_entry dir_path parent_node_id e >> process_entries dir_path parent_node_id t

  abbrev pub read_entries : LocalPath → String → Option (List Listed) → Exec Walk Error Unit
  read_entries dir_path parent_node_id none = on_run count_failure
  read_entries dir_path parent_node_id (some entries) = do
    on_run (count_unreadable entries)
    process_entries dir_path parent_node_id (sort_entries (readable entries))

  -- The body of `while let Some((dir_path, parent_node_id)) = queue.pop_front()`.
  unfoldable pub visit_dir : LocalPath → String → Exec Walk Error Unit
  unfolding process_entries count_unreadable sort_entries readable
  visit_dir dir_path parent_node_id = do
    on_run ensure_not_update_required
    read_entries dir_path parent_node_id (read_dir dir_path)

  -- The loop.
  unfoldable pub walk : (rounds : ℕ) → Walk → Ended
  unfolding visit_dir
  walk zero w = none
  walk (suc n) w =
      pop_dir (λ front w'. continue_with (walk n) (visit_dir front.0 front.1 w')) w.push.queue w

  -- The locals of the function as they are before the loop.
  abbrev pub started_run : LocalNode → Walk → Walk
  started_run root w = record w {
    push = record w.push {
      summary = empty_summary;
      queue = ([], seed_parent scope_node_id root) ∷ [];
      deferred_delete_node_ids = [];
    };
  }

  abbrev finish_run : Ended → Ended
  finish_run none = none
  finish_run (some (err e, w)) = some (err e, w)
  finish_run (some (ok u, w)) = some (
      on_run (submit_deletes_for_missing fuel O.json O.submit now exists folder_id scope_node_id) w)

  abbrev run_from : (rounds : ℕ) → Option LocalNode → Walk → Ended
  run_from rounds none w = some (err (no_root_node folder_id), w)
  run_from rounds (some root) w = finish_run (walk rounds (started_run root w))

  abbrev after_ensure : (rounds : ℕ) → Result Error Unit × Walk → Ended
  after_ensure rounds (err e, w) = some (err e, w)
  after_ensure rounds (ok u, w) = run_from rounds (get_root_node folder_id w.push.db) w

  unfoldable pub push_local_inner : (rounds : ℕ) → Walk → Ended
  unfolding walk submit_deletes_for_missing ensure_not_update_required get_root_node
  push_local_inner rounds w = after_ensure rounds (on_run ensure_not_update_required w)
