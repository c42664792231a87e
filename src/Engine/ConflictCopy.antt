-- ===== src/Engine/ConflictCopy.antt =====
-- crates/valv-sync/src/sync_engine/op_submit.rs: the file that lost a conflict is kept beside the
-- winner. Every path here is in the folder of the file, so a folder's listing stands for the disk.
pub mod Disambiguate
use Prim.Native.String.{slice}
use valv.Base.{
  String, ◌<>◌, ◌==◌, string_eq, ℕ, zero, suc, ◌+◌, ◌/◌, ◌%◌, ltb, Bool, Option, none, some,
  is_some, if◌then◌else◌,
}
use valv.Base.Exec.{Exec, pure, raise, lift, gets, modify, ◌>>=◌, ◌>>◌}
use valv.Base.Result.{Result, ok, err}
use valv.Base.Text.{split_file_name}
use valv.Errors.{Error, io, no_file_name, exhausted}
use valv.Storage.Chunking.{Bytes}

-- The files of a folder, by name.
abbrev pub Dir : Type 0
Dir = String → Option Bytes

-- `Display` of a number below 100.
abbrev decimal : ℕ → String
decimal n =
    if ltb n 10
    then slice "0123456789" n (n + 1)
    else slice "0123456789" (n / 10) (n / 10 + 1) <> slice "0123456789" (n % 10) (n % 10 + 1)

abbrev with_extension : String → Option String → String
with_extension stem none = stem
with_extension stem (some ext) = stem <> ("." <> ext)

unfoldable pub conflict_name : (file_name device_name date : String) → String
unfolding split_file_name
conflict_name file_name device_name date =
    let (stem, ext) = split_file_name file_name in
    with_extension (stem <> (" (conflicted copy, " <> (device_name <> (", " <> (date <> ")"))))) ext

-- The name with a counter.
unfoldable pub numbered : (desired : String) → ℕ → String
unfolding split_file_name
numbered desired counter =
    let (stem, ext) = split_file_name desired in
    with_extension (stem <> (" (" <> (decimal counter <> ")"))) ext

-- `for counter in counter..counter + left`.
unfoldable pub first_free : Dir → (desired : String) → (left counter : ℕ) → Result Error String
first_free dir desired zero counter = err (exhausted desired)
first_free dir desired (suc left) counter =
    let rest = first_free dir desired left (suc counter) in
    if is_some (dir (numbered desired counter)) then rest else ok (numbered desired counter)

-- The counters are 2 to 20.
unfoldable pub disambiguate_conflict_path : Dir → String → Result Error String
unfolding first_free
disambiguate_conflict_path dir desired =
    if is_some (dir desired) then first_free dir desired 19 2 else ok desired

-- `fs::copy`.
abbrev write : String → Bytes → Dir → Dir
write name bytes dir k = if name == k then some bytes else dir k

abbrev copy_to : String → Option Bytes → Exec Dir Error Unit
copy_to name none = raise io
copy_to name (some bytes) = modify (write name bytes)

-- A path without a file name, such as `..`, is `none`.
unfoldable pub materialize_conflict_copy :
    (original : Option String) (device_name date : String) → Exec Dir Error String
unfolding disambiguate_conflict_path conflict_name
materialize_conflict_copy none device_name date = raise no_file_name
materialize_conflict_copy (some name) device_name date = do
  conflict_path ← λ dir. (disambiguate_conflict_path dir (conflict_name name device_name date), dir)
  bytes ← gets (λ dir. dir name)
  copy_to conflict_path bytes
  pure conflict_path
