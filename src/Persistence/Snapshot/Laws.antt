-- ===== src/Persistence/Snapshot/Laws.antt =====
-- After a snapshot the mirror's rows of the folder are those of the server's tree.
use valv.Base.{
  ◌≡◌, refl, String, ◌==◌, string_eq, true, Bool, Option, none, some, or, List, [], ◌∷◌,
  if◌then◌else◌, arith, ◌&&◌,
}
use valv.Base.Result.{ok}
use valv.Persistence.Db.{LocalNode, Db}
use valv.Persistence.Mounts.{set_cursor, get_cursor}
use valv.Persistence.Mounts.Laws.{is_mounted, get_cursor-set_cursor}
use valv.Persistence.Nodes.{get_node, upsert_node, node_type_ok}
use valv.Persistence.Nodes.Laws.{NodeIdsUnique, get_node-upsert_node, upserted}
use valv.Persistence.OpLog.{node_type_to_str}
use valv.Persistence.Snapshot.{
  snapshot_row, insert_snapshot_node, insert_all, clear_folder, apply_tree_snapshot,
}
use valv.Protocol.{NodeSnapshot, FolderTreeResponse, file, folder}
use valv.Sql.Laws.{row_of-delete, unless}

-- The last node of the tree with an id.
abbrev pub last_of : String → List NodeSnapshot → Option NodeSnapshot
last_of k [] = none
last_of k (s ∷ t) = or (last_of k t) (if s.node_id == k then some s else none)

-- The row after the tree's node of that id, if any, is written over the row before.
abbrev pub written : String → Option NodeSnapshot → Option LocalNode → Option LocalNode
written f none old = old
written f (some s) old = some (upserted (snapshot_row f s) old)

snapshot_row-type_ok : (f : String) (s : NodeSnapshot) → node_type_ok (snapshot_row f s) ≡ true
unfolding node_type_to_str string_eq
snapshot_row-type_ok f s =
    elim s.node_type
      as (λ t. node_type_ok (record (snapshot_row f s) { node_type = node_type_to_str t }) ≡ true) [
        | file ↦ refl
        | folder ↦ refl
      ]

insert-ok : (f : String) (s : NodeSnapshot) (db : Db) → (insert_snapshot_node f s db).0 ≡ ok tt
unfolding insert_snapshot_node upsert_node
insert-ok f s db = rw (snapshot_row-type_ok f s)

insert-row :
    (f k : String) (s : NodeSnapshot) (db : Db)
    → get_node k (insert_snapshot_node f s db).1 ≡ (
        if s.node_id == k
        then some (upserted (snapshot_row f s) (get_node k db))
        else get_node k db)
unfolding insert_snapshot_node
insert-row f k s db = get_node-upsert_node (snapshot_row f s) k db (snapshot_row-type_ok f s)

pub insert_all-ok :
    (f : String) (nodes : List NodeSnapshot) (db : Db) → (insert_all f nodes db).0 ≡ ok tt
unfolding insert_all
insert_all-ok f [] db = refl
insert_all-ok f (s ∷ t) db =
    ground (arith, insert-ok f s db, insert_all-ok f t (insert_snapshot_node f s db).1)

pub insert_all-row :
    (f k : String) (nodes : List NodeSnapshot) (db : Db)
    → get_node k (insert_all f nodes db).1 ≡ written f (last_of k nodes) (get_node k db)
unfolding insert_all
insert_all-row f k [] db = refl
insert_all-row f k (s ∷ t) db = ground (
  arith,
  insert-ok f s db,
  insert-row f k s db,
  insert_all-row f k t (insert_snapshot_node f s db).1,
)

insert_all-mounts :
    (f : String) (nodes : List NodeSnapshot) (db : Db)
    → (insert_all f nodes db).1.mounts ≡ db.mounts
unfolding insert_all insert_snapshot_node upsert_node
insert_all-mounts f [] db = refl
insert_all-mounts f (s ∷ t) db =
    ground (arith, insert_all-mounts f t (insert_snapshot_node f s db).1)

clear-mounts : (f : String) (db : Db) → (clear_folder f db).mounts ≡ db.mounts
unfolding clear_folder
clear-mounts f db = refl

clear-row :
    (f k : String) (db : Db)
    → NodeIdsUnique db
    → get_node k (clear_folder f db) ≡ unless (λ (n : LocalNode). n.folder_id == f) (get_node k db)
unfolding get_node clear_folder
clear-row f k db u =
    row_of-delete (λ (n : LocalNode). n.node_id) (λ n. n.folder_id == f) k db.nodes u

module _ (f : String) (resp : FolderTreeResponse) (db : Db) where
  abbrev filled : Db
  filled = (insert_all f resp.nodes (clear_folder f db)).1

  abbrev in_folder : LocalNode → Bool
  in_folder n = n.folder_id == f

  snapshot-eq : apply_tree_snapshot f resp db ≡ (ok tt, set_cursor f resp.up_to_seq filled)
  unfolding apply_tree_snapshot
  snapshot-eq = ground (arith, insert_all-ok f resp.nodes (clear_folder f db))

  -- A snapshot always succeeds, and the row of every node after it is this: a node of the tree has
  -- the tree's row, in the folder; any other node of the folder is gone; and a node of another
  -- folder that the tree does not mention is as it was. The push cache of a row survives only
  -- where the node was in another folder.
  pub snapshot-row :
      NodeIdsUnique db
      → (k : String)
      → ((apply_tree_snapshot f resp db).0 ≡ ok tt)
        × (get_node k (apply_tree_snapshot f resp db).1
            ≡ written f (last_of k resp.nodes) (unless in_folder (get_node k db)))
  unfolding set_cursor get_node
  snapshot-row u k =
      ground
        (arith, snapshot-eq, insert_all-row f k resp.nodes (clear_folder f db), clear-row f k db u)

  -- A snapshot writes only the cursor of its folder, if the folder is mounted.
  pub snapshot-cursor :
      (g : String)
      → get_cursor g (apply_tree_snapshot f resp db).1
        ≡ (if f == g && is_mounted g db then resp.up_to_seq else get_cursor g db)
  unfolding get_cursor
  snapshot-cursor g = ground (
    arith,
    snapshot-eq,
    get_cursor-set_cursor f g resp.up_to_seq filled,
    insert_all-mounts f resp.nodes (clear_folder f db),
    clear-mounts f db,
  )
