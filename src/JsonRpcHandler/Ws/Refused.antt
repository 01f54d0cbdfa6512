-- ===== src/JsonRpcHandler/Ws/Refused.antt =====
-- What `handleWs` of pkg/handler/jsonRpcHandler.go does with a message that it refuses.
use chain_api.Common.{
  String, Bool, true, false, ◌≡◌, ◌≢◌, refl, Result, ok, err, Stop, error, panic, ◌⊎◌, inl, inr,
}
use chain_api.Common.Int.{pos}
use chain_api.Redis.{Redis}
use chain_api.RateLimit.Limiter.{CacheKeys}
use chain_api.JsonRpc.{Request, Codec, cost, JsonRpcErr}
use chain_api.Proxy.{Services, ProxyError}
use chain_api.Proxy.WebSocket.{Conns, UpstreamWebSocket, send}
use chain_api.JsonRpcHandler.{JsonRpcHandler, bind, rate_limit}
use chain_api.JsonRpcHandler.Ws.{
  Halt, held_up, told, after_send, after_limit, after_bind, ws_message,
}

module _ (R : Redis) (K : CacheKeys) (C : Codec) (V : Services) (marshal_err : JsonRpcErr → String)
    (h : JsonRpcHandler) (conns : Conns V) (api_key : String) (receives : Bool)
    (now t : K.Time) where
  abbrev pub Turn : Type 0
  Turn = Result (Stop Halt) (Unit {0}) × (R.Db × UpstreamWebSocket V)

  -- What `bind` makes of a message, with the methods refused over WebSocket.
  abbrev pub bound_ws : String → R.Db → Result (Stop JsonRpcErr) Request × R.Db
  bound_ws raw d = bind R K C h api_key raw h.ws_black_methods h.erigon_methods d

  abbrev pub limited_ws : Request → R.Db → Result (Stop JsonRpcErr) (Unit {0}) × R.Db
  limited_ws req d = rate_limit R K h now t api_key (pos (cost req)) d

  -- The error of one of the checks is the whole answer: the goroutine that writes takes it and the loop
  -- goes on, or takes nothing any more and the loop waits for good.
  abbrev pub Answered : UpstreamWebSocket V → Turn → JsonRpcErr → Type 0
  Answered u round e =
      ((receives ≡ true) × (round.0 ≡ ok tt) × (round.1.1 ≡ told (marshal_err e) u))
      ⊎ ((receives ≡ false) × (round.0 ≡ err (error held_up)) × (round.1.1 ≡ u))

  -- The ends of a message, from what `bind` and then the limiter made of it: refused by the one or the
  -- other, a panic that leaves the connection alone, or passed by both to `Send`.
  abbrev pub Limited :
      Request → UpstreamWebSocket V → Turn → Result (Stop JsonRpcErr) (Unit {0}) × R.Db → Type 0
  Limited req u round limit =
      ((e : JsonRpcErr) × (limit.0 ≡ err (error e)) × Answered u round e)
      ⊎ ((round.0 ≡ err panic) × (round.1.1 ≡ u))
      ⊎ ((limit.0 ≡ ok tt)
          × (round
              ≡ after_send R K C V marshal_err h conns api_key receives u limit.1
                  (send V h.proxy conns req u)))

  abbrev pub Ends : UpstreamWebSocket V → Turn → Result (Stop JsonRpcErr) Request × R.Db → Type 0
  Ends u round bound =
      ((e : JsonRpcErr) × (bound.0 ≡ err (error e)) × Answered u round e)
      ⊎ ((round.0 ≡ err panic) × (round.1.1 ≡ u))
      ⊎ ((req : Request) × (bound.0 ≡ ok req) × Limited req u round (limited_ws req bound.1))

  limited_lem :
      (b : Bool)
      → receives ≡ b
      → (req : Request) (u : UpstreamWebSocket V) (p : Result (Stop JsonRpcErr) (Unit {0}) × R.Db)
      → Limited req u (after_limit R K C V marshal_err h conns api_key receives req u p) p
  limited_lem b e req u (ok s, d) = inr (inr (refl, refl))
  limited_lem true e req u (err (error x), d) = rw e (inl (x, refl, inl (refl, refl, refl)))
  limited_lem false e req u (err (error x), d) = rw e (inl (x, refl, inr (refl, refl, refl)))
  limited_lem b e req u (err panic, d) = inr (inl (refl, refl))

  bound_lem :
      (b : Bool)
      → receives ≡ b
      → (u : UpstreamWebSocket V) (p : Result (Stop JsonRpcErr) Request × R.Db)
      → Ends u (after_bind R K C V marshal_err h conns api_key receives now t u p) p
  bound_lem b e u (ok req, d) = inr (inr (req, refl, limited_lem b e req u (limited_ws req d)))
  bound_lem true e u (err (error x), d) = rw e (inl (x, refl, inl (refl, refl, refl)))
  bound_lem false e u (err (error x), d) = rw e (inl (x, refl, inr (refl, refl, refl)))
  bound_lem b e u (err panic, d) = inr (inl (refl, refl))

  -- A message of a client ends in one of these ways: `bind` refuses it, with the methods refused over
  -- WebSocket, or accepts it and the limiter refuses its cost, and nothing else of the connection
  -- changes, the upstreams included, than that the client is sent that error once, if the goroutine that
  -- writes still takes messages, else the loop waits for good and the client is sent nothing; the
  -- handler panics and the connection is as it was; or both accept it, and `Send` is called with the
  -- connection as it was.
  pub ws_message-Ends :
      (raw : String) (d : R.Db) (u : UpstreamWebSocket V)
      → Ends u
          (ws_message R K C V marshal_err h conns api_key receives now t raw (d, u))
          (bound_ws raw d)
  unfolding ws_message
  ws_message-Ends raw d u = bound_lem receives refl u (bound_ws raw d)

module _ (R : Redis) (K : CacheKeys) (C : Codec) (V : Services) (marshal_err : JsonRpcErr → String)
    (h : JsonRpcHandler) (conns : Conns V) (api_key : String) where
  send-held :
      (u : UpstreamWebSocket V) (d : R.Db)
      (p : Result (Stop (ProxyError V.Error)) (Unit {0}) × UpstreamWebSocket V)
      → (after_send R K C V marshal_err h conns api_key true u d p).0 ≢ err (error held_up)
  send-held u d (ok s, u') e = cc
  send-held u d (err (error x), u') e = cc
  send-held u d (err panic, u') e = cc

  limit-held :
      (req : Request) (u : UpstreamWebSocket V) (p : Result (Stop JsonRpcErr) (Unit {0}) × R.Db)
      → (after_limit R K C V marshal_err h conns api_key true req u p).0 ≢ err (error held_up)
  limit-held req u (ok s, d) e = send-held u d (send V h.proxy conns req u) e
  limit-held req u (err (error x), d) e = cc
  limit-held req u (err panic, d) e = cc

  bind-held :
      (now t : K.Time) (u : UpstreamWebSocket V) (p : Result (Stop JsonRpcErr) Request × R.Db)
      → (after_bind R K C V marshal_err h conns api_key true now t u p).0 ≢ err (error held_up)
  bind-held now t u (ok req, d) e =
      limit-held req u (rate_limit R K h now t api_key (pos (cost req)) d) e
  bind-held now t u (err (error x), d) e = cc
  bind-held now t u (err panic, d) e = cc

  -- A round waits for good only where the goroutine that writes takes nothing any more.
  pub ws_message-held :
      (receives : Bool) (now t : K.Time) (raw : String) (d : R.Db) (u : UpstreamWebSocket V)
      → (ws_message R K C V marshal_err h conns api_key receives now t raw (d, u)).0
        ≡ err (error held_up)
      → receives ≡ false
  unfolding ws_message
  ws_message-held false now t raw d u e = refl
  ws_message-held true now t raw d u e =
      elim (bind-held now t u (bind R K C h api_key raw h.ws_black_methods h.erigon_methods d)
        e) [ ]
