-- ===== src/JsonRpcHandler/Ws/Session.antt =====
-- pkg/handler/jsonRpcHandler.go: `handleWs` from the upgrade to its return, and `NewUpstreamWS` of
-- pkg/proxy/jsonRpcProxy.go. What the surroundings decide is a parameter: what the client sends, whether
-- an upgrade, a dial and a close succeed, and what other goroutines do between two messages. A session is
-- followed with fuel for the rounds of its loop; `none` means that the fuel ran out.
pub mod Ending
pub mod Released
use chain_api.Common.{
  ℕ, zero, suc, length, ltb, ◌&&◌, String, Bool, true, false, not, Option, none, some, Result, ok,
  err, Stop, error, panic, ◌==◌, if◌then◌else◌,
}
use chain_api.Redis.{Redis}
use chain_api.RateLimit.Limiter.{CacheKeys}
use chain_api.JsonRpc.{Codec, JsonRpcErr}
use chain_api.Proxy.{Services, JsonRpcProxyConfig}
use chain_api.Proxy.WebSocket.{Conns, UpstreamWebSocket, close}
use chain_api.JsonRpcHandler.{JsonRpcHandler}
use chain_api.JsonRpcHandler.Ws.{Halt, gave_up, held_up, ws_message}

-- How the loop ends: the client's message cannot be read, or `Send` fails, or a call panics; or it
-- waits for good for a receiver of what it puts on the channel.
pub data LoopEnd : Type 0 where
  read_failed send_failed panicked blocked : LoopEnd

-- How `handleWs` ends; `stuck` where its loop waits for good.
pub data SessionEnd : Type 0 where
  bad_key not_upgraded not_dialed stuck : SessionEnd
  ended : LoopEnd → SessionEnd

-- What is open: the connections to the client, to the node and to erigon, and the channel to the
-- goroutine that writes.
pub record Open : Type 0 where
  pub client : Bool
  pub channel : Bool
  pub node : Bool
  pub erigon : Bool

-- Whether the calls succeed: the upgrade, the dial of an address, the close of the node's connection.
pub record Network : Type 0 where
  pub upgrades : Bool
  pub dials : String → Bool
  pub closes_node : Bool

abbrev pub nothing_open : Open
nothing_open = record { client = false; channel = false; node = false; erigon = false }

abbrev pub upgraded : Open
upgraded = record { client = true; channel = true; node = false; erigon = false }

-- The second dial, where erigon has an address.
abbrev pub dial_erigon : Network → String → Open → Bool × Open
dial_erigon N address o =
    if address == ""
    then (true, o)
    else if N.dials address
    then (true, record o { erigon = true })
    else (false, o)

-- `NewUpstreamWS`: whether it succeeds, and what is open.
pub new_upstream_ws : Network → JsonRpcProxyConfig → Open → Bool × Open
new_upstream_ws N cfg o =
    if N.dials cfg.ws_upstream
    then dial_erigon N cfg.ws_erigon_upstream (record o { node = true })
    else (false, o)

-- `UpstreamWebSocket.Close`: an error of the first close returns before the second.
pub close_upstreams : Network → Open → Open
close_upstreams N o = record o { node = false; erigon = if N.closes_node then false else o.erigon }

-- The deferred closes of `run`, the goroutine that reads from the node.
pub run_returns : Open → Open
run_returns o = record o { client = false; node = false; erigon = false }

-- The deferred calls that `handleWs` makes in any case once the client is upgraded.
abbrev pub hung_up : Open → Open
hung_up o = record o { client = false; channel = false }

-- What happens around the i-th read of the loop: the message, `none` for an error; whether the
-- goroutine that writes still takes what is put on the channel; what the other goroutines have done to
-- the shared state by then; and the clocks of the limiter.
pub record Around (R : Redis) (K : CacheKeys) (V : Services) : Type 0 where
  pub reads : ℕ → Option String
  pub receives : ℕ → Bool
  pub others : ℕ → R.Db × UpstreamWebSocket V → R.Db × UpstreamWebSocket V
  pub now : ℕ → K.Time
  pub time : ℕ → K.Time

-- After the last round: how the loop ended, at which read, and the state it left.
abbrev pub Left : (R : Redis) (V : Services) → Type 0
Left R V = LoopEnd × ℕ × (R.Db × UpstreamWebSocket V)

module _ (R : Redis) (K : CacheKeys) (C : Codec) (V : Services) (marshal_err : JsonRpcErr → String)
    (h : JsonRpcHandler) (conns : Conns V) (A : Around R K V) where
  abbrev pub State : Type 0
  State = R.Db × UpstreamWebSocket V

  abbrev pub after_round :
      (State → Option (Left R V)) → ℕ → Result (Stop Halt) (Unit {0}) × State → Option (Left R V)
  after_round next i (ok u, s) = next s
  after_round next i (err (error held_up), s) = some (blocked, i, s)
  after_round next i (err (error gave_up), s) = some (send_failed, i, s)
  after_round next i (err panic, s) = some (panicked, i, s)

  -- The loop of `handleWs`, from its i-th read.
  pub ws_loop : String → ℕ → ℕ → State → Option (Left R V)
  ws_loop api_key zero i s = none
  ws_loop api_key (suc fuel) i s =
      let rest = λ (s' : State). ws_loop api_key fuel (suc i) s' in
      elim (A.reads i) [
        | none ↦ some (read_failed, i, A.others i s)
        | some raw ↦ after_round rest i (
            ws_message R K C V marshal_err h conns api_key (A.receives i) (A.now i) (A.time i) raw
              (A.others i s))
      ]

  -- The state after the deferred calls: the client counts as closed, and so does its channel.
  abbrev pub closed_state : State → State
  closed_state s =
      let u = close V h.proxy conns s.1 in
      (s.0, record u { client = record u.client { channel_closed = true } })

  abbrev pub after_loop : Network → Open → Option (Left R V) → Option (SessionEnd × Open × State)
  after_loop N o none = none
  after_loop N o (some (blocked, i, s)) = some (stuck, o, s)
  after_loop N o (some (read_failed, i, s)) =
      some (ended read_failed, hung_up (close_upstreams N o), closed_state s)
  after_loop N o (some (send_failed, i, s)) =
      some (ended send_failed, hung_up (close_upstreams N o), closed_state s)
  after_loop N o (some (panicked, i, s)) =
      some (ended panicked, hung_up (close_upstreams N o), closed_state s)

  abbrev pub after_dial :
      Network → String → ℕ → State → Bool × Open → Option (SessionEnd × Open × State)
  after_dial N api_key fuel s (false, o) = some (not_dialed, hung_up o, s)
  after_dial N api_key fuel s (true, o) = after_loop N o (ws_loop api_key fuel 0 s)

  -- `handleWs`; the API key is `none` where the path parameter cannot be bound.
  pub handle_ws : Network → Option String → ℕ → State → Option (SessionEnd × Open × State)
  unfolding ws_loop close_upstreams new_upstream_ws
  handle_ws N none fuel s = some (bad_key, nothing_open, s)
  handle_ws N (some api_key) fuel s =
      if N.upgrades
      then after_dial N api_key fuel s (new_upstream_ws N h.proxy upgraded)
      else some (not_upgraded, nothing_open, s)
