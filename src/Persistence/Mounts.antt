-- ===== src/Persistence/Mounts.antt =====
-- crates/valv-sync/src/persistence/mounts.rs: the `mounts` table.
pub mod Laws
use Prim.Native.String.{compare}
use text.Mathlib.Text.{is_lt}
use mathlib.Core.Option
use valv.Base.{
  String, ◌==◌, string_eq, ℤ, pos, Bool, not, ◌&&◌, Option, none, some, List, [], ◌∷◌, is_some,
  if◌then◌else◌,
}
use valv.Base.Exec.{Exec, raise, modify}
use valv.Errors.{Error, constraint}
use valv.Persistence.Db.{LocalMount, Db}
use valv.Sql.{select_first, update, delete, upsert, row_of}

-- ORDER BY path ASC.
unfoldable pub insert_by_path : LocalMount → List LocalMount → List LocalMount
insert_by_path m [] = m ∷ []
insert_by_path m (n ∷ t) =
    if is_lt (compare n.path m.path) then n ∷ insert_by_path m t else m ∷ n ∷ t

unfoldable pub order_by_path : List LocalMount → List LocalMount
unfolding insert_by_path
order_by_path [] = []
order_by_path (m ∷ t) = insert_by_path m (order_by_path t)

unfoldable pub list_mounts : Db → List LocalMount
unfolding order_by_path
list_mounts db = order_by_path db.mounts

unfoldable pub get_mount : String → Db → Option LocalMount
get_mount path db = row_of (λ m. m.path) path db.mounts

-- `folder_id` is UNIQUE: a row at another path may not hold the folder.
abbrev pub folder_taken : (path folder_id : String) → Db → Bool
folder_taken path folder_id db =
    is_some (select_first (λ m. m.folder_id == folder_id && not (m.path == path)) db.mounts)

unfoldable pub upsert_mount :
    (path folder_id : String) (grant_id scope_node_id mount_token : Option String)
    → (can_write : Bool) → Exec Db Error Unit
upsert_mount path folder_id grant_id scope_node_id mount_token can_write db =
    if folder_taken path folder_id db
    then raise constraint db
    else modify
        (λ d. record d {
          mounts =
              upsert (λ m. m.path == path)
                (λ old. record old {
                  folder_id = folder_id;
                  grant_id = grant_id;
                  scope_node_id = scope_node_id;
                  mount_token = mount_token;
                  can_write = can_write;
                })
                (record {
                  path = path;
                  folder_id = folder_id;
                  grant_id = grant_id;
                  scope_node_id = scope_node_id;
                  mount_token = mount_token;
                  cursor = pos 0;
                  can_write = can_write;
                  name = none;
                })
                d.mounts;
        })
        db

unfoldable pub set_mount_name : (path name : String) → Db → Db
set_mount_name path name db = record db {
  mounts = update (λ m. m.path == path) (λ m. record m { name = some name }) db.mounts;
}

unfoldable pub delete_mount : String → Db → Db
delete_mount path db = record db { mounts = delete (λ m. m.path == path) db.mounts }

-- `path` is the PRIMARY KEY: the new path may not be another row's.
unfoldable pub update_mount_path : (old_path new_path : String) → Exec Db Error Unit
unfolding get_mount
update_mount_path old_path new_path db =
    if is_some (get_mount old_path db)
      && is_some (get_mount new_path db)
      && not (old_path == new_path)
    then raise constraint db
    else modify
        (λ d. record d {
          mounts = update (λ m. m.path == old_path) (λ m. record m { path = new_path }) d.mounts;
        })
        db

unfoldable pub get_cursor : String → Db → ℤ
get_cursor folder_id db =
    Option.get_or (Option.map (λ m. m.cursor) (row_of (λ m. m.folder_id) folder_id db.mounts))
      (pos 0)

unfoldable pub set_cursor : String → ℤ → Db → Db
set_cursor folder_id seq db = record db {
  mounts = update (λ m. m.folder_id == folder_id) (λ m. record m { cursor = seq }) db.mounts;
}
