-- ===== src/JsonRpcHandler/Ws.antt =====
-- pkg/handler/jsonRpcHandler.go: a round of the loop of `handleWs` over the client's messages, and what
-- its goroutine makes of a message for the client.
pub mod Refused
pub mod Session
pub mod Writer
mod Tests
use chain_api.Common.{
  ℕ, length, ltb, not, ◌&&◌, String, Bool, true, false, Option, none, some, List, [], ◌∷◌, ◌++◌,
  Exec, Result, ok, err, Stop, error, panic, if◌then◌else◌,
}
use chain_api.Common.Int.{pos}
use chain_api.Common.Strings.{contains}
use chain_api.Redis.{Redis}
use chain_api.RateLimit.Limiter.{CacheKeys}
use chain_api.JsonRpc.{Request, Codec, cost, JsonRpcErr, new_internal_server_error}
use chain_api.Proxy.{Services, ProxyError}
use chain_api.Proxy.WebSocket.{RespData, Conns, UpstreamWebSocket, send}
use chain_api.JsonRpcHandler.{JsonRpcHandler, bind, rate_limit}
use chain_api.JsonRpcHandler.ClearInfo.{MapCodec, clear_info}

abbrev content_or_empty : Option String → String
content_or_empty none = ""
content_or_empty (some s) = s

-- What the goroutine writes to the client of a message from the channel: an error of `clearInfo` is
-- logged, and the content is then empty.
pub delivered : MapCodec → String → RespData → String
delivered M request_uri resp = content_or_empty (
    clear_info M request_uri resp.payload
      (if contains resp.payload "node_info" then "status" else ""))

-- Why the loop ends without a panic: after a failed `Send`, or since a message that it puts on the
-- channel, which holds none, waits for good for the goroutine that writes.
pub data Halt : Type 0 where
  gave_up held_up : Halt

-- The goroutine that writes has taken a message from the channel.
abbrev pub told : {V : Services} → String → UpstreamWebSocket V → UpstreamWebSocket V
told msg u = record u {
  client = record u.client {
    received = u.client.received ++ record { payload = msg; subscription = false } ∷ [];
  };
}

-- `respJSON`, and how the round ends after it: an error goes on the channel, whether or not the client
-- is closed, and waits there for good where the goroutine that writes takes nothing any more.
abbrev pub reply :
    {V : Services}
    → (receives : Bool) → Result (Stop Halt) (Unit {0})
    → String
    → UpstreamWebSocket V
    → Result (Stop Halt) (Unit {0}) × UpstreamWebSocket V
reply true round msg u = (round, told msg u)
reply false round msg u = (err (error held_up), u)

-- Whether the goroutine that writes still takes what is put on the channel is a parameter of a round.
module _ (R : Redis) (K : CacheKeys) (C : Codec) (V : Services) (marshal_err : JsonRpcErr → String)
    (h : JsonRpcHandler) (conns : Conns V) (api_key : String) (receives : Bool) where
  abbrev pub Session : Type 0
  Session = R.Db × UpstreamWebSocket V

  -- Whether the loop goes on: `error` is the end of it.
  abbrev pub Round : Type 0
  Round = Result (Stop Halt) (Unit {0}) × Session

  abbrev replied : Result (Stop Halt) (Unit {0}) → JsonRpcErr → Session → Round
  replied round e (d, u) = let r = reply receives round (marshal_err e) u in (r.0, (d, r.1))

  -- `Send` has put an answer from the cache on the channel.
  abbrev is_put : UpstreamWebSocket V → UpstreamWebSocket V → Bool
  is_put u u' = ltb (length u.client.received) (length u'.client.received)

  abbrev pub after_send :
      UpstreamWebSocket V
      → R.Db
      → Result (Stop (ProxyError V.Error)) (Unit {0}) × UpstreamWebSocket V
      → Round
  after_send u d (ok s, u') =
      if not receives && is_put u u'
      then (err (error held_up), (d, record u' { client = u.client }))
      else (ok tt, (d, u'))
  after_send u d (err (error e), u') =
      replied (err (error gave_up)) (new_internal_server_error none) (d, u')
  after_send u d (err panic, u') = (err panic, (d, u'))

  abbrev pub after_limit :
      Request → UpstreamWebSocket V → Result (Stop JsonRpcErr) (Unit {0}) × R.Db → Round
  after_limit req u (ok s, d) = after_send u d (send V h.proxy conns req u)
  after_limit req u (err (error e), d) = replied (ok tt) e (d, u)
  after_limit req u (err panic, d) = (err panic, (d, u))

  abbrev pub after_bind :
      K.Time → K.Time → UpstreamWebSocket V → Result (Stop JsonRpcErr) Request × R.Db → Round
  after_bind now t u (ok req, d) =
      after_limit req u (rate_limit R K h now t api_key (pos (cost req)) d)
  after_bind now t u (err (error e), d) = replied (ok tt) e (d, u)
  after_bind now t u (err panic, d) = (err panic, (d, u))

  -- One round of the loop, with the message that was read.
  pub ws_message : K.Time → K.Time → String → Session → Round
  ws_message now t raw (d, u) =
      after_bind now t u (bind R K C h api_key raw h.ws_black_methods h.erigon_methods d)
