-- ===== src/Tests/Polls.antt =====
-- The polls of a daemon that has an own token and a mount with another one, which the backend refuses.
use valv.Base.{
  ◌≡◌, refl, inr, String, ◌==◌, string_eq, nat_eq, none, some, [], ◌∷◌, map, if◌then◌else◌,
}
use valv.Base.Members.{here}
use valv.Base.Text.{is_blank}
use valv.Http.{Reply, body, status}
use valv.Daemon.Mounts.{MountState, Daemon, non_empty_device_token, distinct_credential_tokens}
use valv.Daemon.Polls.{
  AccountStatus, PrincipalStatus, account, Polled, compute_credential, account_credential,
  rejected_credential, poll_principal_status_once, account_status_loop,
}
use valv.Daemon.Polls.Answers.{judged, answered}
use valv.Daemon.Polls.Marks.{poll-Marks}
use valv.Daemon.Polls.Account.{refused-NoAccount}
use valv.Tests.Daemon.{daemon, mount}

program : Unit {0}
unfolding string_eq nat_eq is_blank distinct_credential_tokens account_status_loop
program = tt

abbrev shared : MountState
shared = record mount { mount_token = some "grant" }

abbrev own : Daemon
own = record daemon { mounts = shared ∷ []; device_token = some "own" }

abbrev usage : AccountStatus
usage = record {
  plan = none;
  account_state = "active";
  usage_bytes = 5;
  quota_bytes = none;
  current_period_end = none;
}

abbrev polled : Polled
polled = record { daemon = own; account_status = some usage; principal = none }

abbrev me : String → Reply PrincipalStatus
me token =
    if token == "grant"
    then status 401
    else body (record { principal_type = account; email = some "a@b"; scopes = [] })

abbrev usage_of : String → Reply AccountStatus
usage_of token = body usage

asked : distinct_credential_tokens own ≡ "own" ∷ "grant" ∷ []
unfolding program
asked = refl

-- With answers to both, the account is polled.
shown :
    compute_credential (account_status_loop "https://b" (λ token. me "own") usage_of polled).1
    ≡ account_credential
unfolding program
shown = refl

poll-Marks_example :
    ((poll_principal_status_once "https://b" me usage_of polled).daemon.mounts
      ≡ map (judged me) (shared ∷ []))
    × ((poll_principal_status_once "https://b" me usage_of polled).daemon.device_token_rejected
        ≡ answered me (non_empty_device_token own) own.device_token_rejected)
unfolding program
poll-Marks_example = poll-Marks me "https://b" usage_of polled refl

refused-NoAccount_example :
    ((account_status_loop "https://b" me usage_of polled).1.account_status ≡ none)
    × ((account_status_loop "https://b" me usage_of polled).0 ≡ 300)
    × (compute_credential (account_status_loop "https://b" me usage_of polled).1
        ≡ rejected_credential)
unfolding program
refused-NoAccount_example =
    refused-NoAccount me "https://b" "grant" usage_of polled refl (inr (shared, here [], refl)) refl
