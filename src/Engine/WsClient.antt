-- ===== src/Engine/WsClient.antt =====
-- crates/valv-sync/src/sync_engine/ws_client.rs: the WebSocket client. Times are in milliseconds.
pub mod Forwards
use Prim.Native.Char.{Char}
use Prim.Native.String.{[] as end_of, ◌∷◌ as ◌∷ₛ◌}
use valv.Base.{
  String, ◌<>◌, ◌==◌, string_eq, ℕ, ◌+◌, pos, leb, Bool, true, false, ◌||◌, List, [], ◌∷◌, ◌++◌,
  map, Option, none, some, if◌then◌else◌,
}
use valv.Base.Result.{Result, ok, err}
use valv.Base.Text.{strip_prefix, starts_with, has_code}
use valv.Errors.{Error, bad_backend_url, read_idle}
use valv.Protocol.{WsPushNotification}

abbrev pub read_idle_timeout : ℕ
read_idle_timeout = 55000

-- `trim_end_matches('/')`.
unfoldable pub trim_slashes : String → String
trim_slashes end_of = end_of
trim_slashes (c ∷ₛ s) =
    let rest = trim_slashes s in
    if rest == "" then (if has_code 47 c then "" else c ∷ₛ "") else c ∷ₛ rest

abbrev other_base : String → Result Error String
other_base trimmed =
    if starts_with trimmed "ws://" || starts_with trimmed "wss://"
    then ok trimmed
    else err bad_backend_url

abbrev ws_base : String → Option String → Option String → Result Error String
ws_base trimmed (some rest) http = ok ("wss://" <> rest)
ws_base trimmed none (some rest) = ok ("ws://" <> rest)
ws_base trimmed none none = other_base trimmed

abbrev with_token : String → Result Error String → Result Error String
with_token token (ok base) = ok (base <> ("/ws?token=" <> token))
with_token token (err e) = err e

unfoldable pub derive_ws_url : (backend_url token : String) → Result Error String
unfolding trim_slashes strip_prefix
derive_ws_url backend_url token =
    let trimmed = trim_slashes backend_url in
    with_token token
      (ws_base trimmed (strip_prefix "https://" trimmed) (strip_prefix "http://" trimmed))

-- What the socket gives: a text, another message, an error, or the end.
pub data Frame : Type 0 where
  text : String → Frame
  not_text : Frame
  broken : Error → Frame
  closed : Frame

-- A poll of the `select!`: the clock, what is ready of the first two arms, the ping with the result of
-- its sending, and whether the receiver of the notifications is alive.
pub record Poll : Type 0 where
  pub now : ℕ
  pub frame : Option Frame
  pub ping : Option (Result Error Unit)
  pub receiver : Bool

-- `sent` are the notifications that were handed on, in order; `result` is that of the whole call.
pub record Connection : Type 0 where
  pub deadline : ℕ
  pub sent : List WsPushNotification
  pub result : Option (Result Error Unit)

abbrev pub catch_up : String → WsPushNotification
catch_up folder_id = record { folder_id = folder_id; server_seq = pos 0 }

-- `parse` is the reader of serde_json.
module _ (parse : String → Option WsPushNotification) where
  abbrev hand_on : (receiver : Bool) → Option WsPushNotification → Connection → Connection
  hand_on receiver none c = c
  hand_on true (some n) c = record c { sent = c.sent ++ (n ∷ []) }
  hand_on false (some n) c = record c { result = some (ok tt) }

  abbrev extend : ℕ → Connection → Connection
  extend now c = record c { deadline = now + read_idle_timeout }

  abbrev on_frame : Poll → Frame → Connection → Connection
  on_frame p (text t) c = hand_on p.receiver (parse t) (extend p.now c)
  on_frame p not_text c = extend p.now c
  on_frame p (broken e) c = record c { result = some (err e) }
  on_frame p closed c = record c { result = some (ok tt) }

  abbrev on_ping : Result Error Unit → Connection → Connection
  on_ping (ok u) c = c
  on_ping (err e) c = record c { result = some (err e) }

  abbrev pub on_idle : ℕ → Connection → Connection
  on_idle now c = if leb c.deadline now then record c { result = some (err read_idle) } else c

  -- The arms in their order.
  abbrev pub select : Poll → Option Frame → Option (Result Error Unit) → Connection → Connection
  select p (some f) ping c = on_frame p f c
  select p none (some r) c = on_ping r c
  select p none none c = on_idle p.now c

  unfoldable pub forward : List Poll → Connection → Connection
  forward [] c = c
  forward (p ∷ ps) c = elim c.result [ some r ↦ c | none ↦ forward ps (select p p.frame p.ping c) ]

  abbrev pub opened : (now : ℕ) → List String → Connection
  opened now folder_ids = record {
    deadline = now + read_idle_timeout;
    sent = map catch_up folder_ids;
    result = none;
  }

  -- `connected` is what the connect and the subscriptions give. The receiver is alive at the start.
  unfoldable pub connect_and_forward :
      (connected : Result Error Unit) (now : ℕ) → List String → List Poll → Connection
  unfolding forward
  connect_and_forward (err e) now folder_ids polls = record {
    deadline = now;
    sent = [];
    result = some (err e);
  }
  connect_and_forward (ok u) now folder_ids polls = forward polls (opened now folder_ids)

-- One turn of the loop of `ws_push_loop`: what the connect gives, its time, and the polls.
pub record Attempt : Type 0 where
  pub connected : Result Error Unit
  pub now : ℕ
  pub polls : List Poll

module _ (parse : String → Option WsPushNotification) (folder_ids : List String) where
  unfoldable pub connections : List Attempt → List WsPushNotification
  unfolding connect_and_forward
  connections [] = []
  connections (a ∷ attempts) =
      (connect_and_forward parse a.connected a.now folder_ids a.polls).sent ++ connections attempts

  abbrev after_url : Result Error String → List Attempt → Result Error (List WsPushNotification)
  after_url (err e) attempts = err e
  after_url (ok url) attempts = ok (connections attempts)

  -- What it has handed on after some turns. A connection that ends is followed by another one.
  unfoldable pub ws_push_loop :
      (backend_url token : String) → List Attempt → Result Error (List WsPushNotification)
  unfolding derive_ws_url connections
  ws_push_loop backend_url token attempts = after_url (derive_ws_url backend_url token) attempts
