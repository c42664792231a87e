-- ===== src/Daemon/Disk.antt =====
-- What crates/valvd/src/tasks.rs uses of `std::fs` and `std::path`, on the files and folders below the
-- root of a mount. A path is the list of the names from there, so the root is the empty path.
pub mod Laws
pub mod Frame
use valv.Base.{
  String, ◌==◌, string_eq, Bool, true, false, not, ◌&&◌, ◌||◌, List, [], ◌∷◌, ◌++◌, Option, none,
  some, is_some, if◌then◌else◌,
}
use valv.Base.Exec.{Exec, pure, raise, lift, gets, modify, ◌>>=◌, ◌>>◌}
use valv.Base.Result.{Result, ok, err}
use valv.Errors.{Error, io, not_found}
use valv.Sql.{select_first, delete}
use valv.Storage.Chunking.{Bytes}
use valv.Engine.LocalPush.State.{LocalPath}

pub data Entry : Type 0 where
  regular : Bytes → Entry
  directory : Entry

pub record DiskRow : Type 0 where
  pub path : LocalPath
  pub entry : Entry

abbrev pub Disk : Type 0
Disk = List DiskRow

abbrev pub same_path : LocalPath → LocalPath → Bool
same_path [] [] = true
same_path (a ∷ p) (b ∷ q) = a == b && same_path p q
same_path _ _ = false

-- `starts_with`.
abbrev pub is_within : LocalPath → LocalPath → Bool
is_within [] q = true
is_within (a ∷ p) [] = false
is_within (a ∷ p) (b ∷ q) = a == b && is_within p q

abbrev entry_of : Option DiskRow → Option Entry
entry_of none = none
entry_of (some r) = some r.entry

abbrev pub entry_at : LocalPath → Disk → Option Entry
entry_at p d = entry_of (select_first (λ r. same_path p r.path) d)

abbrev pub clear : (LocalPath → Bool) → Disk → Disk
clear test d = delete (λ r. test r.path) d

abbrev pub put : LocalPath → Entry → Disk → Disk
put p e d = record { path = p; entry = e } ∷ clear (same_path p) d

-- The entry at a path, every folder on the way being one.
unfoldable pub resolve : (from : Option Entry) (done rest : LocalPath) → Disk → Result Error Entry
resolve none done rest d = err not_found
resolve (some e) done [] d = ok e
resolve (some (regular b)) done (n ∷ rest) d = err io
resolve (some directory) done (n ∷ rest) d =
    let below = done ++ (n ∷ []) in resolve (entry_at below d) below rest d

unfoldable pub metadata : LocalPath → Disk → Result Error Entry
unfolding resolve
metadata p d = resolve (entry_at [] d) [] p d

abbrev is_ok : Result Error Entry → Bool
is_ok (ok e) = true
is_ok (err e) = false

-- `Path::exists`.
unfoldable pub exists : LocalPath → Disk → Bool
unfolding metadata
exists p d = is_ok (metadata p d)

abbrev pub prefix_with : String → Option (LocalPath × String) → Option (LocalPath × String)
prefix_with a none = none
prefix_with a (some (dir, name)) = some (a ∷ dir, name)

-- The parent and the file name of a path.
unfoldable pub split_path : LocalPath → Option (LocalPath × String)
split_path [] = none
split_path (a ∷ []) = some ([], a)
split_path (a ∷ b ∷ t) = prefix_with a (split_path (b ∷ t))

abbrev pub make_dir : LocalPath → Option Entry → Exec Disk Error Unit
make_dir p none = modify (put p directory)
make_dir p (some directory) = pure tt
make_dir p (some (regular b)) = raise io

unfoldable pub make_dirs : (done rest : LocalPath) → Exec Disk Error Unit
make_dirs done [] = λ d. make_dir done (entry_at done d) d
make_dirs done (n ∷ rest) =
    let more = make_dirs (done ++ (n ∷ [])) rest in λ d. (make_dir done (entry_at done d) >> more) d

unfoldable pub create_dir_all : LocalPath → Exec Disk Error Unit
unfolding make_dirs
create_dir_all p = make_dirs [] p

abbrev pub unlink : LocalPath → Result Error Entry → Exec Disk Error Unit
unlink p (err e) = raise e
unlink p (ok directory) = raise io
unlink p (ok (regular b)) = modify (clear (same_path p))

unfoldable pub remove_file : LocalPath → Exec Disk Error Unit
unfolding metadata
remove_file p d = unlink p (metadata p d) d

abbrev pub unlink_all : LocalPath → Result Error Entry → Exec Disk Error Unit
unlink_all p (err e) = raise e
unlink_all p (ok directory) = modify (clear (is_within p))
unlink_all p (ok (regular b)) = raise io

unfoldable pub remove_dir_all : LocalPath → Exec Disk Error Unit
unfolding metadata
remove_dir_all p d = unlink_all p (metadata p d) d

-- The folder that a new entry needs.
abbrev as_folder : Result Error Entry → Result Error Unit
as_folder (err e) = err e
as_folder (ok directory) = ok tt
as_folder (ok (regular b)) = err io

abbrev pub parent_of : Option (LocalPath × String) → Disk → Result Error Unit
parent_of none d = err io
parent_of (some (dir, name)) d = as_folder (metadata dir d)

abbrev pub not_folder : Option Entry → Result Error Unit
not_folder none = ok tt
not_folder (some (regular b)) = ok tt
not_folder (some directory) = err io

abbrev pub store_file : (fault : Option Bytes) → LocalPath → Bytes → Exec Disk Error Unit
store_file none p bytes = modify (put p (regular bytes))
store_file (some part) p bytes = modify (put p (regular part)) >> raise io

abbrev both : Result Error Unit → Result Error Unit → Result Error Unit
both (err e) r = err e
both (ok u) r = r

abbrev pub store_if : Result Error Unit → Option Bytes → LocalPath → Bytes → Exec Disk Error Unit
store_if (err e) fault p bytes = raise e
store_if (ok u) fault p bytes = store_file fault p bytes

-- `File::create`, `write_all` and `sync_all`: with `some part` the disk fails after that part.
unfoldable pub write_file : (fault : Option Bytes) → LocalPath → Bytes → Exec Disk Error Unit
unfolding metadata split_path
write_file fault p bytes d =
    store_if (both (parent_of (split_path p) d) (not_folder (entry_at p d))) fault p bytes d

abbrev moved_path : (from to : LocalPath) → LocalPath → LocalPath
moved_path [] to q = to ++ q
moved_path (a ∷ from) to [] = []
moved_path (a ∷ from) to (b ∷ q) = moved_path from to q

unfoldable pub move_rows : (from to : LocalPath) → Disk → Disk
move_rows from to [] = []
move_rows from to (r ∷ t) =
    let rest = move_rows from to t in
    if is_within from r.path then record r { path = moved_path from to r.path } ∷ rest else r ∷ rest

abbrev pub is_empty : LocalPath → Disk → Bool
is_empty p [] = true
is_empty p (r ∷ t) = (same_path p r.path || not (is_within p r.path)) && is_empty p t

-- Whether an entry can take the place of what is at a path.
abbrev replaces : Entry → (to : LocalPath) → Option Entry → Disk → Bool
replaces e to none d = true
replaces (regular b) to (some (regular c)) d = true
replaces (regular b) to (some directory) d = false
replaces directory to (some (regular c)) d = false
replaces directory to (some directory) d = is_empty to d

abbrev pub take_place : Entry → (from to : LocalPath) → Disk → Disk
take_place (regular b) from to d = put to (regular b) (clear (same_path from) d)
take_place directory from to d = move_rows from to (clear (same_path to) d)

abbrev pub move_entry : Entry → (from to : LocalPath) → Exec Disk Error Unit
move_entry e from to d =
    if same_path from to
    then (ok tt, d)
    else if is_within from to || not (replaces e to (entry_at to d) d)
    then (err io, d)
    else (ok tt, take_place e from to d)

abbrev pub move_if :
    Result Error Entry → Result Error Unit → (from to : LocalPath) → Exec Disk Error Unit
move_if (err e) parent from to = raise e
move_if (ok e) (err f) from to = raise f
move_if (ok e) (ok u) from to = move_entry e from to

unfoldable pub rename : (from to : LocalPath) → Exec Disk Error Unit
unfolding metadata split_path move_rows
rename from to d = move_if (metadata from d) (parent_of (split_path to) d) from to d
