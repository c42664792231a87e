-- ===== src/Daemon/Polls/Answers.antt =====
-- The marks that the answers to a list of tokens leave, one after the other.
use mathlib.Core.Path.{subst}
use valv.Base.{
  ◌≡◌, refl, ap, ◌∙◌, String, ◌==◌, string_eq, nat_eq, Bool, true, false, List, [], ◌∷◌, Option,
  none, some, map, Bool-cases, inl, inr, arith, if◌then◌else◌,
}
use valv.Http.{Reply, failed, upgrade_required, gone, status, unreadable, body}
use valv.Daemon.Mounts.{
  MountState, Daemon, is_token, contains_token, set_rejected, non_empty_device_token,
  mark_credential_rejected, clear_credential_rejected,
}
use valv.Daemon.Polls.{AccountStatus, PrincipalStatus, Found, take_me, poll_tokens}

-- The mark that an answer leaves, of the one that there was.
abbrev pub verdict : Reply PrincipalStatus → Bool → Bool
verdict (body p) b = false
verdict (status s) b = if s == 401 then true else b
verdict _ b = b

-- The mark after the answer to a token.
abbrev once : Reply PrincipalStatus → (token : String) → Option String → Bool → Bool
once r token credential b = if is_token credential token then verdict r b else b

abbrev marked_once : Reply PrincipalStatus → (token : String) → MountState → MountState
marked_once r token m = record m { rejected = once r token m.mount_token m.rejected }

set_rejected-once :
    (r : Reply PrincipalStatus) (token : String) (b : Bool) (ms : List MountState)
    → ((c : Bool) → verdict r c ≡ b)
    → set_rejected b token ms ≡ map (marked_once r token) ms
unfolding set_rejected
set_rejected-once r token b [] h = refl
set_rejected-once r token b (m ∷ t) h = elim (Bool-cases (is_token m.mount_token token)) [
  | inl q ↦ rw q (
      rw (h m.rejected) (ap (λ l. record m { rejected = b } ∷ l) (set_rejected-once r token b t h)))
  | inr q ↦ rw q (ap (λ l. m ∷ l) (set_rejected-once r token b t h))
]

unmarked :
    (r : Reply PrincipalStatus) (token : String) (ms : List MountState)
    → ((c : Bool) → verdict r c ≡ c)
    → ms ≡ map (marked_once r token) ms
unmarked r token [] h = refl
unmarked r token (m ∷ t) h = elim (Bool-cases (is_token m.mount_token token)) [
  | inl q ↦ rw q (rw (h m.rejected) (ap (λ l. m ∷ l) (unmarked r token t h)))
  | inr q ↦ rw q (ap (λ l. m ∷ l) (unmarked r token t h))
]

same : (c b : Bool) → b ≡ (if c then b else b)
same true b = refl
same false b = refl

-- One answer marks every credential with its token, and no other.
Judges : Reply PrincipalStatus → (token : String) → (before after : Daemon) → Type 0
Judges r token before after =
    (after.mounts ≡ map (marked_once r token) before.mounts)
    × (after.device_token_rejected
        ≡ once r token (non_empty_device_token before) before.device_token_rejected)
    × (after.device_token ≡ before.device_token)

unjudged :
    (r : Reply PrincipalStatus) (token : String) (d : Daemon)
    → ((c : Bool) → verdict r c ≡ c)
    → Judges r token d d
unfolding Judges
unjudged r token d h = (
  unmarked r token d.mounts h,
  rw (h d.device_token_rejected)
      (same (is_token (non_empty_device_token d) token) d.device_token_rejected),
  refl,
)

take_me-Judges :
    (token : String) (r : Reply PrincipalStatus) (f : Found) (d : Daemon)
    → Judges r token d (take_me token r (f, d)).1
unfolding Judges take_me mark_credential_rejected clear_credential_rejected
take_me-Judges token (body p) f d =
    (set_rejected-once (body p) token false d.mounts (λ c. refl), refl, refl)
take_me-Judges token (status s) f d = elim (Bool-cases (s == 401)) [
  | inl q ↦ rw q (set_rejected-once (status s) token true d.mounts (λ c. rw q refl), refl, refl)
  | inr q ↦ rw q (rw q at (unjudged (status s) token d (λ c. rw q refl)))
]
take_me-Judges token failed f d = unjudged failed token d (λ c. refl)
take_me-Judges token (upgrade_required o) f d = unjudged (upgrade_required o) token d (λ c. refl)
take_me-Judges token gone f d = unjudged gone token d (λ c. refl)
take_me-Judges token unreadable f d = unjudged unreadable token d (λ c. refl)

module _ (me : String → Reply PrincipalStatus) where
  -- The mark of a credential, by the answer to it alone.
  abbrev pub answered : Option String → Bool → Bool
  answered none b = b
  answered (some token) b = verdict (me token) b

  abbrev pub judged : MountState → MountState
  judged m = record m { rejected = answered m.mount_token m.rejected }

  abbrev pub each : List String → Option String → Bool → Bool
  each [] credential b = b
  each (token ∷ tokens) credential b = each tokens credential (once (me token) token credential b)

  abbrev pub with_each : List String → MountState → MountState
  with_each tokens m = record m { rejected = each tokens m.mount_token m.rejected }

  with_each-map :
      (token : String) (tokens : List String) (ms : List MountState)
      → map (with_each tokens) (map (marked_once (me token) token) ms)
        ≡ map (with_each (token ∷ tokens)) ms
  with_each-map token tokens [] = refl
  with_each-map token tokens (m ∷ t) =
      ap (λ l. with_each (token ∷ tokens) m ∷ l) (with_each-map token tokens t)

  with_none : (ms : List MountState) → ms ≡ map (with_each []) ms
  with_none [] = refl
  with_none (m ∷ t) = ap (λ l. m ∷ l) (with_none t)

  pub each-none : (tokens : List String) (b : Bool) → each tokens none b ≡ b
  each-none [] b = refl
  each-none (token ∷ tokens) b = each-none tokens b

  -- A second answer to the same token changes nothing.
  verdict-verdict : (r : Reply PrincipalStatus) (b : Bool) → verdict r (verdict r b) ≡ verdict r b
  verdict-verdict (body p) b = refl
  verdict-verdict (status s) b = ground arith
  verdict-verdict failed b = refl
  verdict-verdict (upgrade_required o) b = refl
  verdict-verdict gone b = refl
  verdict-verdict unreadable b = refl

  once-same :
      (r : Reply PrincipalStatus) (token : String) (b : Bool)
      → once r token (some token) b ≡ verdict r b
  once-same r token b = ground arith

  once-other :
      (r : Reply PrincipalStatus) (token other : String) (b : Bool)
      → ¬ (other ≡ token)
      → once r token (some other) b ≡ b
  once-other r token other b n = ground arith

  each-settled :
      (tokens : List String) (token : String) (b : Bool)
      → each tokens (some token) (verdict (me token) b) ≡ verdict (me token) b
  each-settled [] token b = refl
  each-settled (t ∷ tokens) token b = elim (string_eq.dec token t) [
    | yes q ↦
        subst
          (λ u.
            each tokens (some token) (once (me u) u (some token) (verdict (me token) b))
            ≡ verdict (me token) b)
          q
          (rw (once-same (me token) token (verdict (me token) b), verdict-verdict (me token) b)
            (each-settled tokens token b))
    | no n ↦ rw (once-other (me t) t token (verdict (me token) b) n) (each-settled tokens token b)
  ]

  pub each-asked :
      (tokens : List String) (token : String) (b : Bool)
      → contains_token tokens token ≡ true
      → each tokens (some token) b ≡ verdict (me token) b
  each-asked [] token b h = cc
  each-asked (t ∷ tokens) token b h = elim (string_eq.dec token t) [
    | yes q ↦
        subst (λ u. each tokens (some token) (once (me u) u (some token) b) ≡ verdict (me token) b)
          q (rw (once-same (me token) token b) (each-settled tokens token b))
    | no n ↦ rw (once-other (me t) t token b n) (each-asked tokens token b (ground (arith, h, n)))
  ]

  device_token-same :
      (d e : Daemon)
      → d.device_token ≡ e.device_token
      → non_empty_device_token d ≡ non_empty_device_token e
  unfolding non_empty_device_token
  device_token-same d e h = ap (λ t. non_empty_device_token (record d { device_token = t })) h

  pub poll_tokens-marks :
      (backend_url : String) (usage : String → Reply AccountStatus) (tokens : List String)
      (f : Found) (d : Daemon)
      → let after = (poll_tokens backend_url me usage tokens (f, d)).1 in
        (after.mounts ≡ map (with_each tokens) d.mounts)
        × (after.device_token_rejected
            ≡ each tokens (non_empty_device_token d) d.device_token_rejected)
  unfolding poll_tokens Judges
  poll_tokens-marks backend_url usage [] f d = (with_none d.mounts, refl)
  poll_tokens-marks backend_url usage (token ∷ tokens) f d =
      let j = take_me-Judges token (me token) f d in
      let (f', d') = take_me token (me token) (f, d) in
      let rest = poll_tokens-marks backend_url usage tokens f' d' in
      (
        rest.0 ∙ ap (map (with_each tokens)) j.0 ∙ with_each-map token tokens d.mounts,
        rest.1
            ∙ ap (λ c. each tokens c d'.device_token_rejected) (device_token-same d' d j.2)
            ∙ ap (each tokens (non_empty_device_token d)) j.1,
      )
