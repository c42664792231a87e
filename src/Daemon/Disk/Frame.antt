-- ===== src/Daemon/Disk/Frame.antt =====
-- What the operations on the disk leave as it was.
use valv.Base.{
  ◌≡◌, refl, sym, ap, ◌∙◌, String, string_eq, true, false, not, ◌||◌, [], ◌∷◌, ◌++◌, Option, none,
  some, arith, Bool-cases, Option-cases, inl, inr, ◌⊎◌,
}
use mathlib.Core.Path.{subst}
use valv.Base.Exec.{bind-holds}
use valv.Base.Members.{some-injective}
use valv.Base.Result.{Result, ok, err}
use valv.Errors.{Error}
use valv.Storage.Chunking.{Bytes}
use valv.Engine.LocalPush.State.{LocalPath}
use valv.Daemon.Disk.{
  Entry, regular, directory, Disk, same_path, is_within, entry_at, clear, resolve, metadata,
  make_dir, make_dirs, create_dir_all, split_path, write_file, store_file, store_if, parent_of,
  replaces, rename, move_if, move_entry, unlink, remove_file,
}
use valv.Daemon.Disk.Laws.{
  entry_at-put_same, entry_at-put_other, entry_at-clear_other, entry_at-clear_same, same_path-≡,
  same_path_refl, same_path-sym,
}

pub is_within-append : (p q : LocalPath) → is_within p (p ++ q) ≡ true
is_within-append [] q = refl
is_within-append (a ∷ p) q = ground (arith, is_within-append p q)

append-step : (p : LocalPath) (n : String) (q : LocalPath) → (p ++ (n ∷ [])) ++ q ≡ p ++ (n ∷ q)
append-step [] n q = refl
append-step (a ∷ p) n q = ap (λ t. a ∷ t) (append-step p n q)

-- Only folders at or above `dir` are new.
abbrev pub Grows : LocalPath → Disk → Disk → Type 0
Grows dir d d' =
    (q : LocalPath)
    → (entry_at q d' ≡ entry_at q d)
      ⊎ ((is_within q dir ≡ true) × (entry_at q d ≡ none) × (entry_at q d' ≡ some directory))

Grows-trans : (dir : LocalPath) (a b c : Disk) → Grows dir a b → Grows dir b c → Grows dir a c
Grows-trans dir a b c f g q = joined (f q) (g q)
  where
    joined :
        (entry_at q b ≡ entry_at q a)
          ⊎ ((is_within q dir ≡ true) × (entry_at q a ≡ none) × (entry_at q b ≡ some directory))
        → (entry_at q c ≡ entry_at q b)
          ⊎ ((is_within q dir ≡ true) × (entry_at q b ≡ none) × (entry_at q c ≡ some directory))
        → (entry_at q c ≡ entry_at q a)
          ⊎ ((is_within q dir ≡ true) × (entry_at q a ≡ none) × (entry_at q c ≡ some directory))
    joined (inl s) (inl t) = inl (t ∙ s)
    joined (inl s) (inr t) = inr (t.0, sym s ∙ t.1, t.2)
    joined (inr s) (inl t) = inr (s.0, s.1, t ∙ s.2)
    joined (inr s) (inr t) = inr (s.0, s.1, t.2)

make_dir-Grows :
    (dir p : LocalPath) (e : Option Entry) (d : Disk)
    → is_within p dir ≡ true
    → e ≡ entry_at p d
    → Grows dir d (make_dir p e d).1
make_dir-Grows dir p (some directory) d w h q = inl refl
make_dir-Grows dir p (some (regular b)) d w h q = inl refl
make_dir-Grows dir p none d w h q = elim (Bool-cases (same_path p q)) [
  | inr s ↦ inl (entry_at-put_other p q directory d s)
  | inl s ↦
      let same = same_path-≡ p q s in
      inr (
        subst (λ r. is_within r dir ≡ true) same w,
        sym (ap (λ r. entry_at r d) same) ∙ sym h,
        entry_at-put_same p q directory d s,
      )
]

make_dirs-Grows :
    (dir done rest : LocalPath) (d : Disk)
    → done ++ rest ≡ dir
    → Grows dir d (make_dirs done rest d).1
unfolding make_dirs
make_dirs-Grows dir done [] d h =
    make_dir-Grows dir done (entry_at done d) d
      (subst (λ r. is_within done r ≡ true) h (is_within-append done [])) refl
make_dirs-Grows dir done (n ∷ rest) d h =
    let first =
      make_dir-Grows dir done (entry_at done d) d
        (subst (λ r. is_within done r ≡ true) h (is_within-append done (n ∷ rest))) refl in
    bind-holds (Grows dir d) (make_dir done (entry_at done d))
      (λ u. make_dirs (done ++ (n ∷ [])) rest) d first
      (λ a q. Grows-trans dir d (make_dir done (entry_at done d) d).1 _ first (
        make_dirs-Grows dir (done ++ (n ∷ [])) rest (make_dir done (entry_at done d) d).1
          (append-step done n rest ∙ h)))

pub create_dir_all-Grows : (dir : LocalPath) (d : Disk) → Grows dir d (create_dir_all dir d).1
unfolding create_dir_all
create_dir_all-Grows dir d = make_dirs-Grows dir [] dir d refl

-- What `metadata` finds is what is there.
resolve-entry :
    (from : Option Entry) (done rest : LocalPath) (d : Disk) (e : Entry)
    → from ≡ entry_at done d
    → resolve from done rest d ≡ ok e
    → entry_at (done ++ rest) d ≡ some e
unfolding resolve
resolve-entry none done rest d e f h = ground (arith, h)
resolve-entry (some x) done [] d e f h =
    subst (λ r. entry_at r d ≡ some e) (sym (append_nil done)) (sym f ∙ same h)
  where
    append_nil : (p : LocalPath) → p ++ [] ≡ p
    append_nil [] = refl
    append_nil (a ∷ p) = ap (λ t. a ∷ t) (append_nil p)

    same : ◌≡◌ {A = Result Error Entry} (ok x) (ok e) → some x ≡ some e
    same q = ground (arith, q)
resolve-entry (some (regular b)) done (n ∷ rest) d e f h = ground (arith, h)
resolve-entry (some directory) done (n ∷ rest) d e f h =
    let below = done ++ (n ∷ []) in
    subst (λ r. entry_at r d ≡ some e) (append-step done n rest)
      (resolve-entry (entry_at below d) below rest d e refl h)

pub metadata-entry :
    (p : LocalPath) (d : Disk) (e : Entry) → metadata p d ≡ ok e → entry_at p d ≡ some e
unfolding metadata
metadata-entry p d e h = resolve-entry (entry_at [] d) [] p d e refl h

store_file-other :
    (fault : Option Bytes) (p q : LocalPath) (bytes : Bytes) (d : Disk)
    → same_path p q ≡ false
    → entry_at q (store_file fault p bytes d).1 ≡ entry_at q d
store_file-other none p q bytes d h = entry_at-put_other p q (regular bytes) d h
store_file-other (some part) p q bytes d h = entry_at-put_other p q (regular part) d h

store_if-other :
    (r : Result Error Unit) (fault : Option Bytes) (p q : LocalPath) (bytes : Bytes) (d : Disk)
    → same_path p q ≡ false
    → entry_at q (store_if r fault p bytes d).1 ≡ entry_at q d
store_if-other (err e) fault p q bytes d h = refl
store_if-other (ok u) fault p q bytes d h = store_file-other fault p q bytes d h

-- A write touches its own path only.
pub write_file-other :
    (fault : Option Bytes) (p q : LocalPath) (bytes : Bytes) (d : Disk)
    → same_path p q ≡ false
    → entry_at q (write_file fault p bytes d).1 ≡ entry_at q d
unfolding write_file
write_file-other fault p q bytes d h = store_if-other _ fault p q bytes d h

store_if-stored :
    (r : Result Error Unit) (fault : Option Bytes) (p : LocalPath) (bytes : Bytes) (d : Disk)
    → (store_if r fault p bytes d).0 ≡ ok tt
    → entry_at p (store_if r fault p bytes d).1 ≡ some (regular bytes)
store_if-stored (err e) fault p bytes d h = ground (arith, h)
store_if-stored (ok u) (some part) p bytes d h = ground (arith, h)
store_if-stored (ok u) none p bytes d h = entry_at-put_same p p (regular bytes) d (same_path_refl p)

pub write_file-stored :
    (fault : Option Bytes) (p : LocalPath) (bytes : Bytes) (d : Disk)
    → (write_file fault p bytes d).0 ≡ ok tt
    → entry_at p (write_file fault p bytes d).1 ≡ some (regular bytes)
unfolding write_file
write_file-stored fault p bytes d h = store_if-stored _ fault p bytes d h

-- The rename of a file.
abbrev pub Renamed : (from to : LocalPath) → Entry → Disk → Result Error Unit × Disk → Type 0
Renamed from to e d (err f, d') = d' ≡ d
Renamed from to e d (ok u, d') =
    (entry_at to d' ≡ some e)
    × ((q : LocalPath)
        → same_path from q ≡ false
        → same_path to q ≡ false
        → entry_at q d' ≡ entry_at q d)
    × (entry_at from d' ≡ none)

move_entry-Renamed :
    (from to : LocalPath) (bytes : Bytes) (d : Disk)
    → same_path from to ≡ false
    → Renamed from to (regular bytes) d (move_entry (regular bytes) from to d)
move_entry-Renamed from to bytes d n =
    let blocked = is_within from to || not (replaces (regular bytes) to (entry_at to d) d) in
    elim (Bool-cases blocked) [
      | inl b ↦ rw n (rw b refl)
      | inr b ↦ rw n (
          rw b (
            entry_at-put_same to to (regular bytes) (clear (same_path from) d) (same_path_refl to),
            λ q f t.
                entry_at-put_other to q (regular bytes) (clear (same_path from) d) t
                ∙ entry_at-clear_other (same_path from) q d f,
            entry_at-put_other to from (regular bytes) (clear (same_path from) d)
                  (same_path-sym to from ∙ n)
                ∙ entry_at-clear_same (same_path from) from d (same_path_refl from),
          ))
    ]

move_if-Renamed :
    (found : Result Error Entry) (parent : Result Error Unit) (from to : LocalPath) (bytes : Bytes)
    (d : Disk)
    → same_path from to ≡ false
    → ((e : Entry) → found ≡ ok e → e ≡ regular bytes)
    → Renamed from to (regular bytes) d (move_if found parent from to d)
move_if-Renamed (err e) parent from to bytes d n h = refl
move_if-Renamed (ok e) (err f) from to bytes d n h = refl
move_if-Renamed (ok e) (ok u) from to bytes d n h =
    subst (λ x. Renamed from to (regular bytes) d (move_entry x from to d)) (sym (h e refl))
      (move_entry-Renamed from to bytes d n)

pub rename-Renamed :
    (from to : LocalPath) (bytes : Bytes) (d : Disk)
    → same_path from to ≡ false
    → entry_at from d ≡ some (regular bytes)
    → Renamed from to (regular bytes) d (rename from to d)
unfolding rename
rename-Renamed from to bytes d n h =
    move_if-Renamed (metadata from d) (parent_of (split_path to) d) from to bytes d n
      (λ e q. some-injective e (regular bytes) (sym (metadata-entry from d e q) ∙ h))

unlink-other :
    (p q : LocalPath) (found : Result Error Entry) (d : Disk)
    → same_path p q ≡ false
    → entry_at q (unlink p found d).1 ≡ entry_at q d
unlink-other p q (err e) d h = refl
unlink-other p q (ok directory) d h = refl
unlink-other p q (ok (regular b)) d h = entry_at-clear_other (same_path p) q d h

pub remove_file-other :
    (p q : LocalPath) (d : Disk)
    → same_path p q ≡ false
    → entry_at q (remove_file p d).1 ≡ entry_at q d
unfolding remove_file
remove_file-other p q d h = unlink-other p q (metadata p d) d h

pub split_path-append :
    (p dir : LocalPath) (name : String) → split_path p ≡ some (dir, name) → p ≡ dir ++ (name ∷ [])
unfolding split_path
split_path-append [] dir name h = ground (arith, h)
split_path-append (a ∷ []) dir name h = ground (arith, h)
split_path-append (a ∷ b ∷ t) dir name h = elim (Option-cases (split_path (b ∷ t))) [
  | inl q ↦ ground (arith, rw q at h)
  | inr (found, q) ↦
      let pair = some-injective (a ∷ found.0, found.1) (dir, name) (rw q at h) in
      ap (λ l. a ∷ l) (split_path-append (b ∷ t) found.0 found.1 q)
      ∙ ap (λ x. x.0 ++ (x.1 ∷ [])) pair
]

pub is_within-parent :
    (dir : LocalPath) (name : String) → is_within (dir ++ (name ∷ [])) dir ≡ false
is_within-parent [] name = refl
is_within-parent (a ∷ dir) name = ground (arith, is_within-parent dir name)
