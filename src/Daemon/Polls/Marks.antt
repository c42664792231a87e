-- ===== src/Daemon/Polls/Marks.antt =====
-- What a poll of the principals marks.
use valv.Base.{
  ◌≡◌, refl, ap, ◌∙◌, String, ◌==◌, string_eq, nat_eq, Bool, true, false, List, [], ◌∷◌, ◌++◌,
  Option, none, some, map, Bool-cases, inl, inr, arith,
}
use valv.Http.{Reply}
use valv.Daemon.Mounts.{
  MountState, contains_token, add_token, mount_tokens, non_empty_device_token,
  distinct_credential_tokens,
}
use valv.Daemon.Polls.{
  AccountStatus, PrincipalType, PrincipalStatus, Polled, Found, nothing_found, set_principal,
  poll_tokens, poll_principals, poll_principal_status_once,
}
use valv.Daemon.Polls.Answers.{
  answered, judged, each, with_each, each-none, each-asked, poll_tokens-marks,
}

-- The token of a credential is among those.
Covered : List String → Option String → Type 0
Covered tokens none = Unit
Covered tokens (some token) = contains_token tokens token ≡ true

contains-append :
    (tokens more : List String) (token : String)
    → contains_token tokens token ≡ true
    → contains_token (tokens ++ more) token ≡ true
contains-append [] more token h = cc
contains-append (t ∷ tokens) more token h = elim (Bool-cases (t == token)) [
  | inl q ↦ rw q refl
  | inr q ↦ rw q (contains-append tokens more token (rw q at h))
]

contains_last :
    (tokens : List String) (token : String) → contains_token (tokens ++ (token ∷ [])) token ≡ true
contains_last [] token = ground arith
contains_last (t ∷ tokens) token = elim (Bool-cases (t == token)) [
  | inl q ↦ rw q refl
  | inr q ↦ rw q (contains_last tokens token)
]

add_token-keeps :
    (tokens : List String) (credential : Option String) (token : String)
    → contains_token tokens token ≡ true
    → contains_token (add_token tokens credential) token ≡ true
add_token-keeps tokens none token h = h
add_token-keeps tokens (some u) token h = elim (Bool-cases (contains_token tokens u)) [
  | inl q ↦ rw q h
  | inr q ↦ rw q (contains-append tokens (u ∷ []) token h)
]

add_token-Covered :
    (tokens : List String) (credential : Option String)
    → Covered (add_token tokens credential) credential
unfolding Covered
add_token-Covered tokens none = tt
add_token-Covered tokens (some token) = elim (Bool-cases (contains_token tokens token)) [
  | inl q ↦ rw q q
  | inr q ↦ rw q (contains_last tokens token)
]

mount_tokens-keeps :
    (tokens : List String) (ms : List MountState) (token : String)
    → contains_token tokens token ≡ true
    → contains_token (mount_tokens tokens ms) token ≡ true
unfolding mount_tokens
mount_tokens-keeps tokens [] token h = h
mount_tokens-keeps tokens (m ∷ t) token h =
    mount_tokens-keeps (add_token tokens m.mount_token) t token
      (add_token-keeps tokens m.mount_token token h)

Covered-later :
    (tokens : List String) (ms : List MountState) (credential : Option String)
    → Covered tokens credential
    → Covered (mount_tokens tokens ms) credential
unfolding Covered
Covered-later tokens ms none h = tt
Covered-later tokens ms (some token) h = mount_tokens-keeps tokens ms token h

module _ (me : String → Reply PrincipalStatus) where
  each-Covered :
      (tokens : List String) (credential : Option String) (b : Bool)
      → Covered tokens credential
      → each me tokens credential b ≡ answered me credential b
  unfolding Covered
  each-Covered tokens none b h = each-none me tokens b
  each-Covered tokens (some token) b h = each-asked me tokens token b h

  mounts-judged :
      (tokens : List String) (ms : List MountState)
      → map (with_each me (mount_tokens tokens ms)) ms ≡ map (judged me) ms
  unfolding mount_tokens
  mounts-judged tokens [] = refl
  mounts-judged tokens (m ∷ t) =
      let tokens' = add_token tokens m.mount_token in
      rw
        (each-Covered (mount_tokens tokens' t) m.mount_token m.rejected
          (Covered-later tokens' t m.mount_token (add_token-Covered tokens m.mount_token)))
        (ap (λ l. judged me m ∷ l) (mounts-judged tokens' t))

  set_principal-daemon :
      (f : Found) (o : Option PrincipalType) (p : Polled) → (set_principal f o p).daemon ≡ p.daemon
  set_principal-daemon f none p = refl
  set_principal-daemon f (some t) p = refl

  poll_principals-daemon :
      (backend_url : String) (usage : String → Reply AccountStatus) (tokens : List String)
      (p : Polled)
      → (poll_principals backend_url me usage tokens p).daemon
        ≡ (poll_tokens backend_url me usage tokens (nothing_found, p.daemon)).1
  unfolding poll_tokens
  poll_principals-daemon backend_url usage [] p = refl
  poll_principals-daemon backend_url usage (token ∷ tokens) p =
      let (f, d) = poll_tokens backend_url me usage (token ∷ tokens) (nothing_found, p.daemon) in
      elim (Bool-cases f.resolved_any) [
        | inl q ↦ rw q (set_principal-daemon f f.principal_type (record p { daemon = d }))
        | inr q ↦ rw q refl
      ]

  -- A poll asks for the principal of each credential once, and then every credential that was refused
  -- is marked as rejected, every one that was accepted is not, and the other marks are as they were.
  pub poll-Marks :
      (backend_url : String) (usage : String → Reply AccountStatus) (p : Polled)
      → (backend_url == "") ≡ false
      → let after = (poll_principal_status_once backend_url me usage p).daemon in
        (after.mounts ≡ map (judged me) p.daemon.mounts)
        × (after.device_token_rejected
            ≡ answered me (non_empty_device_token p.daemon) p.daemon.device_token_rejected)
  unfolding poll_principal_status_once distinct_credential_tokens
  poll-Marks backend_url usage p h =
      let d = p.daemon in
      let credential = non_empty_device_token d in
      let tokens = distinct_credential_tokens d in
      let polled = poll_tokens-marks me backend_url usage tokens nothing_found d in
      let same = poll_principals-daemon backend_url usage tokens p in
      rw (h, same)
        (
          polled.0 ∙ mounts-judged (add_token [] credential) d.mounts,
          polled.1
              ∙ each-Covered tokens credential d.device_token_rejected (
                  Covered-later (add_token [] credential) d.mounts credential
                    (add_token-Covered [] credential)),
        )
