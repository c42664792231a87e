-- ===== src/Update/Restart/Leaves.antt =====
-- An installation without a new daemon leaves the daemon's binary as it is.
use valv.Base.{
  ◌≡◌, refl, ◌∙◌, inl, inr, String, ◌==◌, string_eq, list_eq, nat_eq, ℕ, Bool, false, Option, none,
  some, arith, Bool-cases, Option-cases,
}
use valv.Base.Exec.{Exec, pure, ◌>>=◌, ◌>>◌, bind-holds}
use valv.Base.Result.{Result, ok, err}
use valv.Errors.{Error}
use valv.Update.Assets.{StagedComponent}
use valv.Update.Swap.{
  FilePath, Install, same_file, undo_after, or_undo, rename_atomic, set_executable, restore_binary,
  replace_binary, swap_valv, swap_valvd, swap,
}
use valv.Update.Swap.Restores.{other_name}
use valv.Update.Restart.Names.{remove_extracted_dir-files, all_differ}
use valv.Update.Restart.{staged_path, remove_extracted, confirm_or_roll_back, install_staged}

-- The action leaves the file at the path as it was, whether it succeeds or not.
unfoldable pub Leaves : FilePath → {A : Type 0} → Exec Install Error A → Type 0
Leaves q m = (s : Install) → (m s).1.files q ≡ s.files q

bind-Leaves :
    (q : FilePath) {A B : Type 0} (m : Exec Install Error A) (k : A → Exec Install Error B)
    → Leaves q m
    → ((a : A) → Leaves q (k a))
    → Leaves q (m >>= k)
unfolding Leaves
bind-Leaves q m k first second s =
    bind-holds (λ t. t.files q ≡ s.files q) m k s (first s) (λ a h. second a (m s).1 ∙ first s)

or_undo-Leaves :
    (q : FilePath) (m undo : Exec Install Error Unit)
    → Leaves q m
    → Leaves q undo
    → Leaves q (or_undo m undo)
unfolding Leaves
or_undo-Leaves q m undo first second s = undone (m s).0 (m s).1 ∙ first s
  where
    undone : (r : Result Error Unit) (t : Install) → (undo_after undo r t).1.files q ≡ t.files q
    undone (ok u) t = refl
    undone (err e) t = second t

module _ (fails : ℕ → Bool) (q : FilePath) where
  rename-Leaves :
      (from to : FilePath)
      → same_file from q ≡ false
      → same_file to q ≡ false
      → Leaves q (rename_atomic fails from to)
  unfolding Leaves rename_atomic
  rename-Leaves from to f t s = elim (Bool-cases (fails s.calls)) [
    | inl e ↦ rw e refl
    | inr e ↦ elim (Option-cases (s.files from)) [
      | inl n ↦ rw e (rw n refl)
      | inr (b, n) ↦ rw e (rw n (rw (t, f) refl))
    ]
  ]

  executable-Leaves : (p : FilePath) → same_file p q ≡ false → Leaves q (set_executable fails p)
  unfolding Leaves set_executable
  executable-Leaves p f s = elim (Bool-cases (fails s.calls)) [
    | inl e ↦ rw e refl
    | inr e ↦ elim (Option-cases (s.files p)) [
      | inl n ↦ rw e (rw n refl)
      | inr (b, n) ↦ rw e (rw n (rw f refl))
    ]
  ]

  replace-Leaves :
      (current backup staged : FilePath)
      → same_file current q ≡ false
      → same_file backup q ≡ false
      → same_file staged q ≡ false
      → Leaves q (replace_binary fails current backup staged (pure tt))
  unfolding replace_binary restore_binary Leaves
  replace-Leaves current backup staged c b s =
      let undo : Exec Install Error Unit = restore_binary fails backup current >> pure tt in
      let take = rename_atomic fails current backup in
      let place = rename_atomic fails staged current in
      let allow = set_executable fails current in
      let undone : Leaves q undo =
        bind-Leaves q (restore_binary fails backup current) (λ _. pure tt)
          (rename-Leaves backup current b c) (λ _ t. refl) in
      bind-Leaves q (or_undo take (pure tt)) (λ _. or_undo place undo >> or_undo allow undo)
        (or_undo-Leaves q take (pure tt) (rename-Leaves current backup c b) (λ t. refl))
        (λ _.
          bind-Leaves q (or_undo place undo) (λ _. or_undo allow undo)
            (or_undo-Leaves q place undo (rename-Leaves staged current s c) undone)
            (λ _. or_undo-Leaves q allow undo (executable-Leaves current c) undone))

module _ (fails : ℕ → Bool) (dir : String) where
  abbrev pub daemon : FilePath
  daemon = (dir, "valvd")

  -- A staged file outside the folder of the installation.
  abbrev pub Outside : Option StagedComponent → Type 0
  Outside none = Unit
  Outside (some c) = (c.extract_dir == dir) ≡ false

  swap_valv-Leaves :
      (staged : Option StagedComponent)
      → Outside staged
      → Leaves daemon (swap_valv fails dir (staged_path staged))
  unfolding Leaves
  swap_valv-Leaves none h s = refl
  swap_valv-Leaves (some c) h s =
      let staged : FilePath = (c.extract_dir, c.binary_name) in
      let current : FilePath = (dir, "valv") in
      let backup : FilePath = (dir, "valv.old") in
      bind-Leaves daemon (replace_binary fails current backup staged (pure tt))
        (λ _. pure (some current, some backup))
        (replace-Leaves fails daemon current backup staged
          (other_name dir "valv" "valvd" all_differ.4)
          (other_name dir "valv.old" "valvd" all_differ.6) (rw h refl))
        (λ _ t. refl) s

  remove-Leaves_staged :
      (staged : Option StagedComponent)
      → Outside staged
      → Leaves daemon (remove_extracted fails (staged_path staged))
  unfolding Leaves
  remove-Leaves_staged none h s = refl
  remove-Leaves_staged (some c) h s =
      remove_extracted_dir-files fails c.extract_dir s daemon (ground (arith, h))

  pub install_staged-Leaves :
      (staged : Option StagedComponent) (confirmed : Result Error Unit)
      → Outside staged
      → Leaves daemon (install_staged fails dir (staged_path staged) none confirmed)
  unfolding install_staged swap Leaves
  install_staged-Leaves staged confirmed h =
      bind-Leaves daemon (swap fails dir (staged_path staged) none)
        (λ backup.
          remove_extracted fails (staged_path staged)
          >> (pure tt >> confirm_or_roll_back fails backup none confirmed))
        (bind-Leaves daemon (swap_valv fails dir (staged_path staged)) (swap_valvd fails dir none)
          (swap_valv-Leaves staged h) (λ x t. refl))
        (λ backup.
          bind-Leaves daemon (remove_extracted fails (staged_path staged))
            (λ _. pure tt >> confirm_or_roll_back fails backup none confirmed)
            (remove-Leaves_staged staged h) (λ _ t. refl))
