-- ===== src/Proxy/WebSocket.antt =====
-- pkg/proxy/websocket.go and `NewUpstreamWS` of pkg/proxy/jsonRpcProxy.go: one client's connection
-- to the upstream nodes. A call to a connection is a parameter; a message that arrives is a step.
-- The two reading loops, one for each upstream, have the same body and share the table of requests;
-- a step is one round of either, or one call of `Send`; what `Client.Send` does between is in Sends.
pub mod Steps
pub mod Table
pub mod Sends
pub mod Relay
mod Tests
use chain_api.Common.{
  ℕ, String, Bool, true, false, not, ◌&&◌, Option, none, some, List, [], ◌∷◌, ◌++◌, Exec, Result,
  ok, err, pure, fail, ◌>>=◌, ◌>>◌, ◌==◌, if◌then◌else◌, Stop, error, panic, nat_eq,
}
use chain_api.Common.Int.{ℤ, pos, ◌+ℤ◌, eq_ℤ, wrap_int64}
use chain_api.Common.Strings.{trim_space, first_code}
use chain_api.JsonRpc.{
  RequestId, nil, int64, float64, text, composite, bool, SingleRequest, Request,
  request_type_erigon, has_brackets,
}
use chain_api.Utils.{is_in}
use chain_api.Proxy.{
  JsonRpcProxyConfig, Services, ProxyError, failed, bad_answer, Call, called, give, cache_key,
  from_cache, cache_fn,
}

-- `RespData`; no call gives it a method.
pub record RespData : Type 0 where
  pub payload : String
  pub subscription : Bool

-- `Client`, with the channel to the goroutine that writes to the client: whether `handleWs` has closed
-- it, and what was sent on it. A send waits for the receiver; the step is then the send's end.
pub record Client : Type 0 where
  pub closed : Bool
  pub channel_closed : Bool
  pub received : List RespData

-- `SetClosed`
unfoldable pub set_closed : Client → Client
set_closed c = record c { closed = true }

-- `Client.Send` up to the mutex's release: whether it goes on to the send.
abbrev pub passes_check : Client → Bool
passes_check c = not c.closed

-- `c.send <- data`, which looks at `closed` no more: `none` is the panic of a closed channel.
abbrev pub deliver : RespData → Client → Option Client
deliver resp c =
    if c.channel_closed then none else some (record c { received = c.received ++ resp ∷ [] })

-- The deferred function of `Client.Send`.
abbrev pub recovered : Client → Option Client → Client
recovered c none = set_closed c
recovered c (some c') = c'

-- A call of `Client.Send` where nothing comes between its check, its send and its recovery; Sends has the
-- calls with anything between these.
pub client_send : RespData → Client → Client
client_send resp c = if passes_check c then recovered c (deliver resp c) else c

-- Equality of two values of type `interface{}` that can be keys.
pub same_id : RequestId → RequestId → Bool
same_id nil nil = true
same_id (int64 a) (int64 b) = eq_ℤ a b
same_id (float64 a) (float64 b) = a == b
same_id (text a) (text b) = a == b
same_id (bool true) (bool true) = true
same_id (bool false) (bool false) = true
same_id _ _ = false

-- `upstreamResp.ID == 0`: the constant has Go's type int, which no value of an id has.
pub is_int_zero : RequestId → Bool
is_int_zero id = false

-- An array or an object as a key: the access panics.
pub is_hashable : RequestId → Bool
is_hashable (composite s) = false
is_hashable _ = true

-- What the table holds of a `request` that waits for its answer: the key of the cache, if cacheable.
abbrev pub Table : Type 0
Table = List (RequestId × Option String)

pub lookup : RequestId → Table → Option (Option String)
unfolding same_id
lookup id [] = none
lookup id ((key, pending) ∷ rest) =
    let later = lookup id rest in if same_id key id then some pending else later

pub delete : RequestId → Table → Table
unfolding same_id
delete id [] = []
delete id ((key, pending) ∷ rest) =
    let later = delete id rest in if same_id key id then later else (key, pending) ∷ later

abbrev pub insert : RequestId → Option String → Table → Table
insert id pending table = (id, pending) ∷ delete id table

module _ (V : Services) where
  open V use {World, Error, unmarshal_response, result, id_of}

  -- The connections: a write to the node, and to erigon where the address is not empty.
  pub record Conns : Type 0 where
    pub write : String → Exec World Error (Unit {0})
    pub write_erigon : Option (String → Exec World Error (Unit {0}))

  -- `UpstreamWebSocket`; `request_id` is the counter of the proxy.
  pub record UpstreamWebSocket : Type 0 where
    pub client : Client
    pub requests : Table
    pub request_id : ℤ
    pub world : World

  abbrev pub WsCall : Type 0
  WsCall = Exec UpstreamWebSocket (Stop (ProxyError Error)) (Unit {0})

  abbrev pub to_client : RespData → WsCall
  to_client resp u = (ok tt, record u { client = client_send resp u.client })

  abbrev pub in_world : {A : Type 0} → Call V A → Exec UpstreamWebSocket (Stop (ProxyError Error)) A
  in_world m u = let r = m u.world in (r.0, record u { world = r.1 })

  -- `atomic.AddInt64(&p.requestID, 1)`
  abbrev pub next_id : ℤ → ℤ
  next_id id = wrap_int64 (id +ℤ pos 1)

  abbrev pub from_request : Exec UpstreamWebSocket (Stop (ProxyError Error)) ℤ
  from_request u = (ok (next_id u.request_id), record u { request_id = next_id u.request_id })

  abbrev pub put : RequestId → Option String → WsCall
  put id pending u = (ok tt, record u { requests = insert id pending u.requests })

  abbrev pub remove : RequestId → WsCall
  remove id u = (ok tt, record u { requests = delete id u.requests })

  -- A write through a nil connection panics.
  abbrev pub write_to : Option (String → Exec World Error (Unit {0})) → String → Call V (Unit {0})
  write_to none msg = fail panic
  write_to (some write) msg = called V (write msg)

  abbrev pub key_if : Bool → String → Option String
  key_if true key = some key
  key_if false key = none

  module _ (cfg : JsonRpcProxyConfig) (conns : Conns) where
    -- `WriteJSON(req)`: `request` embeds `JsonRpcRequest`, so its `MarshalJSON` writes the request as
    -- it came, and the field `ID` of `request` is not sent.
    abbrev pub write_single : Request → WsCall
    write_single req = in_world (
        if nat_eq req.request_type request_type_erigon
        then write_to conns.write_erigon (V.marshal_request req)
        else called V (conns.write (V.marshal_request req)))

    -- an answer from the cache, or the request in the table and to the upstream
    abbrev pub answer_or_ask : ℤ → Option String → Request → Option String → WsCall
    answer_or_ask id pending req (some resp) =
        to_client (record { payload = resp; subscription = false })
    answer_or_ask id pending req none = do put (int64 id) pending; write_single req

    abbrev pub send_single : Bool → SingleRequest → Request → WsCall
    send_single cacheable call req = do
      id ← from_request
      cached ← in_world (from_cache V cfg cacheable call)
      answer_or_ask id (key_if cacheable (cache_key V cfg call)) req cached

    pub send : Request → WsCall
    unfolding from_cache
    send req = elim req.batch_call [
      | some calls ↦ in_world (called V (conns.write (V.marshal_request req)))
      | none ↦ elim req.single_call [
        | none ↦ fail panic
        | some call ↦ send_single (is_in call.method cfg.cacheable_methods) call req
      ]
    ]

    -- the result of an answer into the cache, if the table has the request and it is cacheable
    abbrev pub store_result : Option (Option String) → Option String → WsCall
    store_result (some (some key)) (some value) = in_world (cache_fn V key value cfg.cache_time)
    store_result (some (some key)) none = pure tt
    store_result (some none) value = pure tt
    store_result none value = pure tt

    abbrev pub forget : RequestId → Option (Option String) → WsCall
    forget id none = pure tt
    forget id (some pending) = remove id

    abbrev pub settle : RequestId → Option String → WsCall
    settle id value u =
        let found = lookup id u.requests in (forget id found >> store_result found value) u

    abbrev pub relay : String → V.Response → WsCall
    relay raw resp =
        if is_int_zero (id_of resp)
        then to_client (record { payload = raw; subscription = true })
        else if is_hashable (id_of resp)
        then (settle (id_of resp) (result resp)
            >> to_client (record { payload = raw; subscription = false }))
        else fail panic

    abbrev pub relay_decoded : String → Option V.Response → WsCall
    relay_decoded raw none = fail (error bad_answer)
    relay_decoded raw (some resp) = relay raw resp

    abbrev pub receive_trimmed : String → Option ℕ → WsCall
    receive_trimmed raw none = fail panic
    receive_trimmed raw (some c) =
        if has_brackets raw
        then to_client (record { payload = raw; subscription = false })
        else relay_decoded raw (unmarshal_response raw)

    -- One round of a reading loop, with the message that was read. An error ends the loop.
    pub receive : String → WsCall
    receive message = receive_trimmed (trim_space message) (first_code (trim_space message))

    -- What a reading loop does with messages, until one ends it.
    pub run : List String → WsCall
    unfolding receive
    run [] = pure tt
    run (message ∷ rest) = do receive message; run rest

    -- `Close`; the connections close too.
    unfoldable pub close : UpstreamWebSocket → UpstreamWebSocket
    close u = record u { client = set_closed u.client }
