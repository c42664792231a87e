-- ===== src/Engine/WsClient/Forwards.antt =====
-- What a connection hands on.
use mathlib.Core.List.{append_assoc, append-nil}
use valv.Base.{
  ◌≡◌, refl, sym, ap, ◌∙◌, String, ℕ, leb, List, [], ◌∷◌, ◌++◌, map, Option, none, some, arith, inl,
  inr, Bool-cases, Option-cases,
}
use valv.Base.Result.{Result, ok, err}
use valv.Errors.{Error}
use valv.Protocol.{WsPushNotification}
use valv.Engine.WsClient.{
  Frame, text, not_text, broken, closed, Poll, Connection, catch_up, select, forward,
  connect_and_forward, opened,
}

module _ (parse : String → Option WsPushNotification) where
  abbrev parsed : Option WsPushNotification → List WsPushNotification
  parsed none = []
  parsed (some n) = n ∷ []

  -- The notification of a frame, if it has one.
  abbrev in_frame : Option Frame → List WsPushNotification
  in_frame (some (text t)) = parsed (parse t)
  in_frame (some not_text) = []
  in_frame (some (broken e)) = []
  in_frame (some closed) = []
  in_frame none = []

  abbrev pub heard : List Poll → List WsPushNotification
  heard [] = []
  heard (p ∷ ps) = in_frame p.frame ++ heard ps

  select-sent :
      (p : Poll) (f : Option Frame) (ping : Option (Result Error Unit)) (c : Connection)
      → (select parse p f ping c).result ≡ none
      → (select parse p f ping c).sent ≡ c.sent ++ in_frame f
  select-sent p none none c h = elim (Bool-cases (leb c.deadline p.now)) [
    | inl q ↦ ground (arith, q, h)
    | inr q ↦ rw q (sym (append-nil c.sent))
  ]
  select-sent p none (some (ok u)) c h = sym (append-nil c.sent)
  select-sent p none (some (err e)) c h = ground (arith, h)
  select-sent p (some not_text) ping c h = sym (append-nil c.sent)
  select-sent p (some (broken e)) ping c h = ground (arith, h)
  select-sent p (some closed) ping c h = ground (arith, h)
  select-sent p (some (text t)) ping c h = elim (Option-cases (parse t)) [
    | inl q ↦ rw q (sym (append-nil c.sent))
    | inr (n, q) ↦ elim (Bool-cases p.receiver) [
      | inl r ↦ rw (q, r) refl
      | inr r ↦ ground (arith, q, r, h)
    ]
  ]

  forward-ended :
      (ps : List Poll) (c : Connection) (r : Result Error Unit)
      → c.result ≡ some r
      → forward parse ps c ≡ c
  unfolding forward
  forward-ended [] c r h = refl
  forward-ended (p ∷ ps) c r h = ground (arith, h)

  forward-goes_on :
      (p : Poll) (ps : List Poll) (c : Connection)
      → c.result ≡ none
      → forward parse (p ∷ ps) c ≡ forward parse ps (select parse p p.frame p.ping c)
  unfolding forward
  forward-goes_on p ps c h = ground (arith, h)

  forward-sent :
      (ps : List Poll) (c : Connection)
      → (forward parse ps c).result ≡ none
      → (forward parse ps c).sent ≡ c.sent ++ heard ps
  unfolding forward
  forward-sent [] c h = sym (append-nil c.sent)
  forward-sent (p ∷ ps) c h =
      let next = select parse p p.frame p.ping c in
      elim (Option-cases c.result) [
        | inr (r, q) ↦ ground (arith, q, h)
        | inl q ↦ elim (Option-cases next.result) [
          | inr (r, s) ↦ ground (arith, q, s, forward-ended ps next r s, h)
          | inl s ↦
              let later = forward-sent ps next (ground (arith, q, h)) in
              ap (λ (k : Connection). k.sent) (forward-goes_on p ps c q)
              ∙ later
              ∙ ap (λ (l : List WsPushNotification). l ++ heard ps)
                  (select-sent p p.frame p.ping c s)
              ∙ append_assoc c.sent (in_frame p.frame) (heard ps)
        ]
      ]

  -- A connection that was made, and that has not ended after the polls, has handed on a catch-up for
  -- every folder, in their order, then the notifications of all the frames, in theirs, and nothing else.
  pub connection-CatchesUp :
      (now : ℕ) (folder_ids : List String) (polls : List Poll)
      → (connect_and_forward parse (ok tt) now folder_ids polls).result ≡ none
      → (connect_and_forward parse (ok tt) now folder_ids polls).sent
        ≡ map catch_up folder_ids ++ heard polls
  unfolding connect_and_forward
  connection-CatchesUp now folder_ids polls h = forward-sent polls (opened parse now folder_ids) h
