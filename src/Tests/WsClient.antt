-- ===== src/Tests/WsClient.antt =====
-- The WebSocket client on a URL, and on one connection.
use valv.Base.{
  ◌≡◌, refl, String, ◌==◌, string_eq, nat_eq, pos, true, List, [], ◌∷◌, ◌++◌, map, Option, none,
  some, if◌then◌else◌,
}
use valv.Base.Result.{ok, err}
use valv.Errors.{read_idle}
use valv.Protocol.{WsPushNotification}
use valv.Engine.WsClient.{derive_ws_url, Poll, text, catch_up, connect_and_forward}
use valv.Engine.WsClient.Forwards.{heard, connection-CatchesUp}

url : derive_ws_url "https://valv.example//" "t" ≡ ok "wss://valv.example/ws?token=t"
unfolding derive_ws_url string_eq
url = refl

abbrev parse : String → Option WsPushNotification
parse s = if s == "push" then some (record { folder_id = "f"; server_seq = pos 7 }) else none

abbrev poll : Poll
poll = record { now = 10; frame = some (text "push"); ping = none; receiver = true }

abbrev polls : List Poll
polls =
    poll
    ∷ record poll { frame = some (text "?"); now = 60000 }
    ∷ record poll { frame = none; now = 70000 }
    ∷ []

-- No frame for 55 seconds.
given_up :
    (connect_and_forward parse
      (ok tt)
      0
      ("f" ∷ [])
      (poll ∷ record poll { frame = none; now = 55010 } ∷ [])).result
    ≡ some (err read_idle)
unfolding connect_and_forward string_eq
given_up = refl

connection-CatchesUp_example :
    (connect_and_forward parse (ok tt) 0 ("f" ∷ "g" ∷ []) polls).sent
    ≡ map catch_up ("f" ∷ "g" ∷ []) ++ heard parse polls
unfolding connect_and_forward string_eq
connection-CatchesUp_example = connection-CatchesUp parse 0 ("f" ∷ "g" ∷ []) polls refl
