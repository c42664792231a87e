-- ===== src/Update/Restart/Names.antt =====
-- The paths of an installation, and the removal of a staging folder.
use valv.Base.{◌≡◌, refl, ◌==◌, string_eq, String, ℕ, Bool, false, arith, inl, inr, Bool-cases}
use valv.Base.Result.{ok}
use valv.Update.Swap.{FilePath, Install, same_file}
use valv.Update.Restart.{remove_extracted_dir}

pub remove_extracted_dir-ok :
    (fails : ℕ → Bool) (folder : String) (s : Install)
    → (remove_extracted_dir fails folder s).0 ≡ ok tt
unfolding remove_extracted_dir
remove_extracted_dir-ok fails folder s = ground arith

pub remove_extracted_dir-files :
    (fails : ℕ → Bool) (folder : String) (s : Install) (q : FilePath)
    → (q.0 == folder) ≡ false
    → (remove_extracted_dir fails folder s).1.files q ≡ s.files q
unfolding remove_extracted_dir
remove_extracted_dir-files fails folder s q h = elim (Bool-cases (fails s.calls)) [
  | inl f ↦ rw f refl
  | inr f ↦ rw f (rw h refl)
]

-- The names that the two programs and their backups have.
abbrev pub NamesDiffer : String → String → Type 0
NamesDiffer a b = (a == b) ≡ false

pub other_file : (p q : FilePath) → (p.1 == q.1) ≡ false → same_file p q ≡ false
other_file p q h = ground (arith, h)

pub all_differ :
    NamesDiffer "valv" "valv.old"
    × NamesDiffer "valv.old" "valv"
    × NamesDiffer "valvd" "valvd.old"
    × NamesDiffer "valvd.old" "valvd"
    × NamesDiffer "valv" "valvd"
    × NamesDiffer "valvd" "valv"
    × NamesDiffer "valv.old" "valvd"
    × NamesDiffer "valvd.old" "valv"
    × NamesDiffer "valv" "valvd.old"
    × NamesDiffer "valvd" "valv.old"
    × NamesDiffer "valv.old" "valvd.old"
    × NamesDiffer "valvd.old" "valv.old"
unfolding string_eq
all_differ = (refl, refl, refl, refl, refl, refl, refl, refl, refl, refl, refl, refl)
