-- ===== src/Daemon/Mounts/Balance.antt =====
-- How many syncs of each mount are under way.
use valv.Base.{
  ◌≡◌, refl, ap, ◌∙◌, String, ◌==◌, string_eq, ℕ, ◌-◌, ◌<◌, Bool, List, [], ◌∷◌, Option, arith, All,
  Bool-cases, inl, inr, if◌then◌else◌,
}
use valv.Daemon.Mounts.{
  MountState, Problem, max_u32, saturating_suc, update_mount, begun, ended, set_rejected, is_token,
}

-- The mounts by their folders, with the count of each.
abbrev pub active_syncs_of : List MountState → List (String × ℕ)
active_syncs_of [] = []
active_syncs_of (m ∷ t) = (m.folder_id, m.active_syncs) ∷ active_syncs_of t

unfoldable bump : (ℕ → ℕ) → (folder_id : String) → List (String × ℕ) → List (String × ℕ)
bump g folder_id [] = []
bump g folder_id ((f, n) ∷ t) =
    let rest = bump g folder_id t in if f == folder_id then (f, g n) ∷ t else (f, n) ∷ rest

update_mount-bump :
    (f : MountState → MountState) (g : ℕ → ℕ) (folder_id : String) (ms : List MountState)
    → ((m : MountState) → ((f m).folder_id ≡ m.folder_id) × ((f m).active_syncs ≡ g m.active_syncs))
    → active_syncs_of (update_mount folder_id f ms) ≡ bump g folder_id (active_syncs_of ms)
unfolding update_mount bump
update_mount-bump f g folder_id [] h = refl
update_mount-bump f g folder_id (m ∷ t) h = elim (Bool-cases (m.folder_id == folder_id)) [
  | inl q ↦ rw q (rw (h m).0 (rw (h m).1 refl))
  | inr q ↦ rw q (ap (λ r. (m.folder_id, m.active_syncs) ∷ r) (update_mount-bump f g folder_id t h))
]

bump-same : (folder_id : String) (l : List (String × ℕ)) → bump (λ n. n) folder_id l ≡ l
unfolding bump
bump-same folder_id [] = refl
bump-same folder_id ((f, n) ∷ t) = elim (Bool-cases (f == folder_id)) [
  | inl q ↦ rw q refl
  | inr q ↦ rw q (ap (λ r. (f, n) ∷ r) (bump-same folder_id t))
]

-- A change that leaves the folder and the count of a mount.
pub update_mount-counts :
    (f : MountState → MountState) (folder_id : String) (ms : List MountState)
    → ((m : MountState) → ((f m).folder_id ≡ m.folder_id) × ((f m).active_syncs ≡ m.active_syncs))
    → active_syncs_of (update_mount folder_id f ms) ≡ active_syncs_of ms
update_mount-counts f folder_id ms h =
    update_mount-bump f (λ n. n) folder_id ms h ∙ bump-same folder_id (active_syncs_of ms)

bump-back :
    (folder_id : String) (l : List (String × ℕ))
    → All (λ x. x.1 < max_u32) l
    → bump (λ n. n - 1) folder_id (bump saturating_suc folder_id l) ≡ l
unfolding bump
bump-back folder_id [] h = refl
bump-back folder_id ((f, n) ∷ t) h = elim (Bool-cases (f == folder_id)) [
  | inl q ↦ rw q (rw q (ap (λ k. (f, k) ∷ t) (back n h.0)))
  | inr q ↦ rw q (rw q (ap (λ r. (f, n) ∷ r) (bump-back folder_id t h.1)))
]
  where
    back : (k : ℕ) → k < max_u32 → saturating_suc k - 1 ≡ k
    back k less = ground (arith, less)

-- A begin and an end give the counts that there were, with anything between them that leaves the
-- counts.
pub begun-ended :
    (folder_id now : String) (error : Option Problem) (ms between : List MountState)
    → All (λ x. x.1 < max_u32) (active_syncs_of ms)
    → active_syncs_of between ≡ active_syncs_of (update_mount folder_id begun ms)
    → active_syncs_of (update_mount folder_id (ended now error) between) ≡ active_syncs_of ms
begun-ended folder_id now error ms between h same =
    update_mount-bump (ended now error) (λ n. n - 1) folder_id between (λ m. (refl, refl))
    ∙ ap (bump (λ n. n - 1) folder_id)
        (same ∙ update_mount-bump begun saturating_suc folder_id ms (λ m. (refl, refl)))
    ∙ bump-back folder_id (active_syncs_of ms) h

pub set_rejected-counts :
    (rejected : Bool) (token : String) (ms : List MountState)
    → active_syncs_of (set_rejected rejected token ms) ≡ active_syncs_of ms
unfolding set_rejected
set_rejected-counts rejected token [] = refl
set_rejected-counts rejected token (m ∷ t) = elim (Bool-cases (is_token m.mount_token token)) [
  | inl q ↦
      rw q (ap (λ r. (m.folder_id, m.active_syncs) ∷ r) (set_rejected-counts rejected token t))
  | inr q ↦
      rw q (ap (λ r. (m.folder_id, m.active_syncs) ∷ r) (set_rejected-counts rejected token t))
]
