-- ===== src/Update/Swap/Restores.antt =====
-- An installation that fails puts the old binaries back.
use valv.Base.{◌≡◌, ◌⊎◌, refl, ◌==◌, string_eq, String, ℕ, Bool, true, false, some, arith}
use valv.Base.Exec.{Exec}
use valv.Base.Result.{Result, ok, err}
use valv.Errors.{Error}
use valv.Update.Swap.{FilePath, Binary, Install, same_file, replace_binary}
use valv.Update.Swap.Cases.{FailsOnce, QuietFrom, replace_binary-Outcome}

pub same_self : (p : FilePath) → same_file p p ≡ true
same_self p = ground arith

pub other_name :
    (folder a b : String) → (a == b) ≡ false → same_file (folder, a) (folder, b) ≡ false
other_name folder a b h = ground (arith, h)

pub other_folder : (p q : FilePath) → (p.0 == q.0) ≡ false → same_file p q ≡ false
other_folder p q h = rw h refl

-- What a replacement leaves alone.
abbrev pub Elsewhere : (folder name old_name : String) (staged : FilePath) (s t : Install) → Type 0
Elsewhere folder name old_name staged s t =
    (q : FilePath)
    → same_file (folder, name) q ≡ false
    → same_file (folder, old_name) q ≡ false
    → same_file staged q ≡ false
    → t.files q ≡ s.files q

-- After a replacement, and before what is undone after a failed one.
abbrev pub InPlace :
    (folder name old_name : String) (staged : FilePath) (old new : Binary) (s t : Install) → Type 0
InPlace folder name old_name staged old new s t =
    (t.files (folder, name) ≡ some (record new { executable = true }))
    × (t.files (folder, old_name) ≡ some old)
    × Elsewhere folder name old_name staged s t

abbrev pub PutBack :
    (fails : ℕ → Bool) (folder name old_name : String) (staged : FilePath) (old : Binary)
    (s t : Install)
    → Type 0
PutBack fails folder name old_name staged old s t =
    (t.files (folder, name) ≡ some old)
    × Elsewhere folder name old_name staged s t
    × QuietFrom fails t.calls

abbrev pub ReplacedOr :
    (fails : ℕ → Bool) (folder name old_name : String) (staged : FilePath)
    (undo : Exec Install Error Unit) (old new : Binary) (s : Install)
    → Result Error Unit × Install
    → Type 0
ReplacedOr fails folder name old_name staged undo old new s r =
    ((r.0 ≡ ok tt) × InPlace folder name old_name staged old new s r.1)
    ⊎ ((e : Error) × (r.0 ≡ err e)
        × ((t : Install) × (r.1 ≡ (undo t).1) × PutBack fails folder name old_name staged old s t))

-- A binary of a folder is replaced from another folder.
pub replace_binary-ReplacedOr :
    (fails : ℕ → Bool) (folder name old_name : String) (staged : FilePath)
    (undo : Exec Install Error Unit) (old new : Binary) (s : Install)
    → FailsOnce fails
    → (name == old_name) ≡ false
    → (old_name == name) ≡ false
    → (staged.0 == folder) ≡ false
    → (folder == staged.0) ≡ false
    → s.files (folder, name) ≡ some old
    → s.files staged ≡ some new
    → ReplacedOr fails folder name old_name staged undo old new s
        (replace_binary fails (folder, name) (folder, old_name) staged undo s)
replace_binary-ReplacedOr fails folder name old_name staged undo old new s once n n' f f' i u =
    replace_binary-Outcome fails once (folder, name) (folder, old_name) staged undo s old new
      (other_name folder name old_name n) (other_name folder old_name name n')
      (other_folder staged (folder, name) f) (other_folder (folder, name) staged f')
      (other_folder (folder, old_name) staged f') (other_folder staged (folder, old_name) f)
      (same_self (folder, name)) (same_self (folder, old_name)) i u
