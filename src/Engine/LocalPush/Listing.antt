-- ===== src/Engine/LocalPush/Listing.antt =====
-- The entries of a folder as `push_local_inner` of crates/valv-sync/src/sync_engine/local_push.rs takes
-- them: those that can be examined, in order.
use Prim.Native.String.{compare}
use text.Mathlib.Text.{is_lt}
use valv.Base.{String, string_eq, Bool, ◌&&◌, ◌||◌, not, List, [], ◌∷◌, if◌then◌else◌}
use valv.Base.Exec.{Exec, pure, ◌>>◌}
use valv.Base.Text.{contains}
use valv.Errors.{Error}
use valv.Engine.LocalPush.State.{Push}
use valv.Engine.LocalPush.Existing.{count_failure}

pub record EntryInfo : Type 0 where
  pub name : String
  pub is_dir : Bool
  pub is_file : Bool
  pub is_symlink : Bool

-- What `read_dir` gives: an entry that can be examined, or one that cannot (its name is not UTF-8,
-- or it cannot be read or examined).
pub data Listed : Type 0 where
  unreadable : Listed
  listed : EntryInfo → Listed

-- `name.contains(" (conflicted copy, ")`.
unfoldable pub is_conflict_copy_name : String → Bool
unfolding contains
is_conflict_copy_name name = contains " (conflicted copy, " name

-- Folders come first, and then the names decide.
abbrev pub comes_first : EntryInfo → EntryInfo → Bool
comes_first a b =
    if a.is_dir
    then not b.is_dir || not (is_lt (compare b.name a.name))
    else not b.is_dir && not (is_lt (compare b.name a.name))

unfoldable pub insert_entry : EntryInfo → List EntryInfo → List EntryInfo
insert_entry e [] = e ∷ []
insert_entry e (f ∷ t) =
    let rest = insert_entry e t in if comes_first e f then e ∷ f ∷ t else f ∷ rest

unfoldable pub sort_entries : List EntryInfo → List EntryInfo
unfolding insert_entry
sort_entries [] = []
sort_entries (e ∷ t) = insert_entry e (sort_entries t)

-- The entries that can be examined.
unfoldable pub readable : List Listed → List EntryInfo
readable [] = []
readable (unreadable ∷ t) = readable t
readable (listed e ∷ t) = e ∷ readable t

-- One error for each entry that cannot be examined.
unfoldable pub count_unreadable : List Listed → Exec Push Error Unit
count_unreadable [] = pure tt
count_unreadable (unreadable ∷ t) = count_failure >> count_unreadable t
count_unreadable (listed e ∷ t) = count_unreadable t
