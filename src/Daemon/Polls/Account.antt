-- ===== src/Daemon/Polls/Account.antt =====
-- When the account is shown.
use valv.Base.{
  ◌≡◌, refl, ◌⊎◌, inl, inr, String, ◌==◌, string_eq, nat_eq, Bool, true, false, ◌||◌, List, [], ◌∷◌,
  Option, none, some, map, arith,
}
use valv.Base.Members.{In, here, there}
use valv.Http.{Reply, status}
use valv.Daemon.Mounts.{MountState, Daemon, non_empty_device_token}
use valv.Daemon.Polls.{
  AccountStatus, PrincipalStatus, Polled, any_rejected, compute_credential, rejected_credential,
  poll_principal_status_once, account_status_loop,
}
use valv.Daemon.Polls.Answers.{judged, answered}
use valv.Daemon.Polls.Marks.{poll-Marks}

-- The daemon has the token, for itself or for a mount.
abbrev pub HasToken : Daemon → (token : String) → Type 0
HasToken d token =
    (non_empty_device_token d ≡ some token)
    ⊎ ((m : MountState) × In m d.mounts × (m.mount_token ≡ some token))

abbrev flagged : Daemon → Bool
flagged d = d.device_token_rejected || any_rejected d.mounts

flagged-credential :
    (p : Polled) → flagged p.daemon ≡ true → compute_credential p ≡ rejected_credential
unfolding compute_credential
flagged-credential p h = rw h refl

or_true : (b c : Bool) → c ≡ true → (b || c) ≡ true
or_true b c h = ground arith

module _ (me : String → Reply PrincipalStatus) where
  answered-refused :
      (credential : Option String) (token : String) (b : Bool)
      → credential ≡ some token
      → me token ≡ status 401
      → answered me credential b ≡ true
  unfolding nat_eq
  answered-refused credential token b has refused = rw (has, refused) refl

  judged-rejected :
      (m : MountState) (token : String) (ms : List MountState)
      → In m ms
      → m.mount_token ≡ some token
      → me token ≡ status 401
      → any_rejected (map (judged me) ms) ≡ true
  judged-rejected m token [] i has refused = elim i [ ]
  judged-rejected m token (_ ∷ _) (here t) has refused =
      rw (answered-refused m.mount_token token m.rejected has refused) refl
  judged-rejected m token (_ ∷ _) (there n t i) has refused =
      or_true (answered me n.mount_token n.rejected) (any_rejected (map (judged me) t))
        (judged-rejected m token t i has refused)

  poll-flagged :
      (backend_url token : String) (usage : String → Reply AccountStatus) (p : Polled)
      → (backend_url == "") ≡ false
      → HasToken p.daemon token
      → me token ≡ status 401
      → flagged (poll_principal_status_once backend_url me usage p).daemon ≡ true
  poll-flagged backend_url token usage p url (inl has) refused =
      rw
        (
          (poll-Marks me backend_url usage p url).1,
          answered-refused (non_empty_device_token p.daemon) token p.daemon.device_token_rejected
              has refused,
        )
        refl
  poll-flagged backend_url token usage p url (inr (m, i, has)) refused =
      let after = (poll_principal_status_once backend_url me usage p).daemon in
      or_true after.device_token_rejected (any_rejected after.mounts) (
        rw (poll-Marks me backend_url usage p url).0
          (judged-rejected m token p.daemon.mounts i has refused))

  -- When the backend refuses a token of the daemon, the round that learns it shows no account, and the
  -- next round is in five minutes.
  pub refused-NoAccount :
      (backend_url token : String) (usage : String → Reply AccountStatus) (p : Polled)
      → (backend_url == "") ≡ false
      → HasToken p.daemon token
      → me token ≡ status 401
      → let (period, after) = account_status_loop backend_url me usage p in
        (after.account_status ≡ none)
        × (period ≡ 300)
        × (compute_credential after ≡ rejected_credential)
  unfolding account_status_loop
  refused-NoAccount backend_url token usage p url has refused =
      let polled = poll_principal_status_once backend_url me usage p in
      let marked = poll-flagged backend_url token usage p url has refused in
      rw (flagged-credential polled marked)
        (refl, refl, flagged-credential (record polled { account_status = none }) marked)
