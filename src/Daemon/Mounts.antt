-- ===== src/Daemon/Mounts.antt =====
-- The state of the mounts in the daemon, and what crates/valvd/src/tasks.rs does with it around a sync.
-- The text of an error is kept as the error.
pub mod Balance
use valv.Base.{
  String, ◌==◌, string_eq, ℕ, suc, ◌+◌, ◌-◌, leb, ltb, nat_eq, Bool, true, false, not, ◌&&◌, ◌||◌,
  List, [], ◌∷◌, ◌++◌, Option, none, some, is_some, or, if◌then◌else◌, map,
}
use valv.Base.Text.{is_blank}
use valv.Errors.{Error, http_status}
use valv.Daemon.Versions.{Site}
use valv.Daemon.Health.{BackendHealth}

-- What `error` of a mount says.
pub data Problem : Type 0 where
  mount_has_no_credential write_refused : Problem
  failure : Error → Problem

-- The flags behind an `Arc` are fields, which every clone of the mount shares. The fields that a sync
-- neither reads nor writes are left out.
pub record MountState : Type 0 where
  pub path : String
  pub folder_id : String
  pub scope_node_id : Option String
  pub mount_token : Option String
  pub active_syncs : ℕ
  pub pending_ops : ℕ
  pub last_synced_at : Option String
  pub update_required : Bool
  pub update_required_flag : Bool
  pub rejected : Bool
  pub error : Option Problem

-- `cursor_wakes` counts the calls of `notify_waiters`.
pub record Daemon : Type 0 where
  pub site : Site
  pub mounts : List MountState
  pub device_token : Option String
  pub device_token_rejected : Bool
  pub backend_health : BackendHealth
  pub fs_events_paused : Bool
  pub cursor_wakes : ℕ

abbrev pub max_u32 : ℕ
max_u32 = 4294967295

-- `iter_mut().find(|mount| mount.folder_id == folder_id)`, and what is done with the mount.
unfoldable pub update_mount :
    (folder_id : String) → (MountState → MountState) → List MountState → List MountState
update_mount folder_id f [] = []
update_mount folder_id f (m ∷ t) =
    let rest = update_mount folder_id f t in if m.folder_id == folder_id then f m ∷ t else m ∷ rest

abbrev saturating_suc : ℕ → ℕ
saturating_suc n = if ltb n max_u32 then suc n else max_u32

abbrev pub begun : MountState → MountState
begun m = record m {
  active_syncs = saturating_suc m.active_syncs;
  error = if not m.update_required && not m.update_required_flag then none else m.error;
}

unfoldable pub begin_mount_sync : (folder_id : String) → Daemon → Daemon
unfolding update_mount
begin_mount_sync folder_id d = record d { mounts = update_mount folder_id begun d.mounts }

abbrev pub ended : (now : String) → Option Problem → MountState → MountState
ended now error m = record m {
  active_syncs = m.active_syncs - 1;
  error = error;
  last_synced_at =
      if m.active_syncs - 1 == 0 && not (is_some error) then some now else m.last_synced_at;
}

unfoldable pub end_mount_sync : (now folder_id : String) → Option Problem → Daemon → Daemon
unfolding update_mount
end_mount_sync now folder_id error d = record d {
  mounts = update_mount folder_id (ended now error) d.mounts;
}

abbrev pub halted : MountState → MountState
halted m = record m { update_required = true; update_required_flag = true }

unfoldable pub mark_mount_update_required : (folder_id : String) → Daemon → Daemon
unfolding update_mount
mark_mount_update_required folder_id d = record d {
  mounts = update_mount folder_id halted d.mounts;
}

unfoldable pub set_mount_pending_ops : (folder_id : String) → ℕ → Daemon → Daemon
unfolding update_mount
set_mount_pending_ops folder_id pending_ops d = record d {
  mounts = update_mount folder_id (λ m. record m { pending_ops = pending_ops }) d.mounts;
}

abbrev non_blank : Option String → Option String
non_blank none = none
non_blank (some token) = if is_blank token then none else some token

unfoldable pub non_empty_device_token : Daemon → Option String
unfolding is_blank
non_empty_device_token d = non_blank d.device_token

abbrev pub is_token : Option String → String → Bool
is_token none token = false
is_token (some t) token = t == token

abbrev pub contains_token : List String → String → Bool
contains_token [] token = false
contains_token (t ∷ ts) token = t == token || contains_token ts token

abbrev pub add_token : List String → Option String → List String
add_token tokens none = tokens
add_token tokens (some token) =
    if contains_token tokens token then tokens else tokens ++ (token ∷ [])

unfoldable pub mount_tokens : List String → List MountState → List String
mount_tokens tokens [] = tokens
mount_tokens tokens (m ∷ t) = mount_tokens (add_token tokens m.mount_token) t

unfoldable pub distinct_credential_tokens : Daemon → List String
unfolding mount_tokens non_empty_device_token
distinct_credential_tokens d = mount_tokens (add_token [] (non_empty_device_token d)) d.mounts

-- The loop over the mounts of the two functions below.
unfoldable pub set_rejected : Bool → (token : String) → List MountState → List MountState
set_rejected rejected token [] = []
set_rejected rejected token (m ∷ t) =
    (if is_token m.mount_token token then record m { rejected = rejected } else m)
    ∷ set_rejected rejected token t

unfoldable pub mark_credential_rejected : (token : String) → Daemon → Daemon
unfolding set_rejected non_empty_device_token
mark_credential_rejected token d = record d {
  mounts = set_rejected true token d.mounts;
  device_token_rejected =
      if is_token (non_empty_device_token d) token then true else d.device_token_rejected;
}

unfoldable pub clear_credential_rejected : (token : String) → Daemon → Daemon
unfolding set_rejected non_empty_device_token
clear_credential_rejected token d = record d {
  mounts = set_rejected false token d.mounts;
  device_token_rejected =
      if is_token (non_empty_device_token d) token then false else d.device_token_rejected;
}

abbrev pub is_unauthenticated : Error → Bool
is_unauthenticated (http_status s) = s == 401
is_unauthenticated _ = false
