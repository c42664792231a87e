-- ===== src/Daemon/Polls.antt =====
-- The polls of the account and of the principals in crates/valvd/src/tasks.rs, and `compute_credential`
-- of crates/valvd/src/control.rs, which decides whether there is an account to poll.
pub mod Answers
pub mod Marks
pub mod Account
use valv.Base.{
  String, ◌==◌, string_eq, nat_eq, ℕ, Bool, true, false, not, ◌&&◌, ◌||◌, List, [], ◌∷◌, ◌++◌,
  Option, none, some, is_some, or, if◌then◌else◌,
}
use valv.Http.{Reply, failed, upgrade_required, gone, status, unreadable, body}
use valv.Daemon.Mounts.{
  MountState, Daemon, non_empty_device_token, distinct_credential_tokens, mark_credential_rejected,
  clear_credential_rejected,
}

pub record AccountStatus : Type 0 where
  pub plan : Option String
  pub account_state : String
  pub usage_bytes : ℕ
  pub quota_bytes : Option ℕ
  pub current_period_end : Option String

pub data PrincipalType : Type 0 where
  account access_key : PrincipalType

pub record PrincipalScope : Type 0 where
  pub folder_id : String
  pub folder_name : String
  pub scope_label : String
  pub can_write : Bool

pub record PrincipalStatus : Type 0 where
  pub principal_type : PrincipalType
  pub email : Option String
  pub scopes : List PrincipalScope

pub data Credential : Type 0 where
  account_credential access_key_credential no_credential pending rejected_credential : Credential

-- What the polls read and write: the daemon, and beside it what the last answers said.
pub record Polled : Type 0 where
  pub daemon : Daemon
  pub account_status : Option AccountStatus
  pub principal : Option PrincipalStatus

abbrev pub any_rejected : List MountState → Bool
any_rejected [] = false
any_rejected (m ∷ t) = m.rejected || any_rejected t

abbrev any_token : List MountState → Bool
any_token [] = false
any_token (m ∷ t) = is_some m.mount_token || any_token t

abbrev credential_of : (has_device_token : Bool) → Option PrincipalStatus → Credential
credential_of has_device_token none =
    if not has_device_token then access_key_credential else pending
credential_of has_device_token (some p) = elim p.principal_type [
  | account ↦ account_credential
  | access_key ↦ access_key_credential
]

unfoldable pub compute_credential : Polled → Credential
unfolding non_empty_device_token
compute_credential p =
    let has_device_token = is_some (non_empty_device_token p.daemon) in
    if p.daemon.device_token_rejected || any_rejected p.daemon.mounts
    then rejected_credential
    else if not has_device_token && not (any_token p.daemon.mounts)
    then no_credential
    else credential_of has_device_token p.principal

pub data AccountPollOutcome : Type 0 where
  updated not_found unchanged : AccountPollOutcome

abbrev take_usage : Reply AccountStatus → Polled → AccountPollOutcome × Polled
take_usage (body usage) p = (updated, record p { account_status = some usage })
take_usage (status s) p =
    if s == 404 then (not_found, record p { account_status = none }) else (unchanged, p)
take_usage _ p = (unchanged, p)

-- The local variables of the loop over the tokens.
pub record Found : Type 0 where
  pub principal_type : Option PrincipalType
  pub email : Option String
  pub scopes : List PrincipalScope
  pub resolved_any : Bool

abbrev pub nothing_found : Found
nothing_found = record { principal_type = none; email = none; scopes = []; resolved_any = false }

abbrev merge_principal : PrincipalType → PrincipalStatus → Found → Found
merge_principal account p f = record f {
  principal_type = some account;
  email = or p.email f.email;
  resolved_any = true;
}
merge_principal access_key p f = record f {
  principal_type = or f.principal_type (some access_key);
  scopes = f.scopes ++ p.scopes;
  resolved_any = true;
}

-- The body of the loop, on the answer to GET /me.
unfoldable pub take_me : (token : String) → Reply PrincipalStatus → Found × Daemon → Found × Daemon
unfolding mark_credential_rejected clear_credential_rejected
take_me token (body p) (f, d) =
    (merge_principal p.principal_type p f, clear_credential_rejected token d)
take_me token (status s) (f, d) = if s == 401 then (f, mark_credential_rejected token d) else (f, d)
take_me token _ x = x

abbrev poll_usage :
    (usage : String → Reply AccountStatus) → Option String → Polled → AccountPollOutcome × Polled
poll_usage usage none p = (unchanged, p)
poll_usage usage (some token) p = take_usage (usage token) p

abbrev set_principal : Found → Option PrincipalType → Polled → Polled
set_principal f none p = p
set_principal f (some t) p = record p {
  principal = some (record { principal_type = t; email = f.email; scopes = f.scopes });
}

-- What the backend answers to a token.
module _ (backend_url : String) (me : String → Reply PrincipalStatus)
    (usage : String → Reply AccountStatus) where
  unfoldable pub poll_account_status_once : Polled → AccountPollOutcome × Polled
  unfolding non_empty_device_token
  poll_account_status_once p =
      if backend_url == ""
      then (unchanged, p)
      else poll_usage usage (non_empty_device_token p.daemon) p

  unfoldable pub poll_tokens : List String → Found × Daemon → Found × Daemon
  unfolding take_me
  poll_tokens [] x = x
  poll_tokens (token ∷ tokens) x = poll_tokens tokens (take_me token (me token) x)

  abbrev pub poll_principals : List String → Polled → Polled
  poll_principals [] p = record p { principal = none }
  poll_principals (token ∷ tokens) p =
      let (f, d) = poll_tokens (token ∷ tokens) (nothing_found, p.daemon) in
      let p' = record p { daemon = d } in
      if f.resolved_any then set_principal f f.principal_type p' else p'

  unfoldable pub poll_principal_status_once : Polled → Polled
  unfolding poll_tokens distinct_credential_tokens
  poll_principal_status_once p =
      if backend_url == "" then p else poll_principals (distinct_credential_tokens p.daemon) p

  abbrev next_period : AccountPollOutcome × Polled → ℕ × Polled
  next_period (not_found, p) = (3600, p)
  next_period (_, p) = (300, p)

  abbrev poll_for : Credential → Polled → ℕ × Polled
  poll_for account_credential p = next_period (poll_account_status_once p)
  poll_for _ p = (300, record p { account_status = none })

  -- One round of the loop after its tick, with the seconds to the next one.
  unfoldable pub account_status_loop : Polled → ℕ × Polled
  unfolding poll_account_status_once poll_principal_status_once compute_credential
  account_status_loop p =
      let p' = poll_principal_status_once p in poll_for (compute_credential p') p'
