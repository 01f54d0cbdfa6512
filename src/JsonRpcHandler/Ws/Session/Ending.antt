-- ===== src/JsonRpcHandler/Ws/Session/Ending.antt =====
-- When the loop of `handleWs` of pkg/handler/jsonRpcHandler.go ends.
use chain_api.Common.{
  ℕ, zero, suc, ◌+◌, ◌≤◌, ◌<◌, String, ◌≡◌, refl, subst, Option, none, some, Result, ok, err, Stop,
  error, panic, arith, Option-cases, inl, inr, false,
}
use chain_api.Redis.{Redis}
use chain_api.RateLimit.Limiter.{CacheKeys}
use chain_api.JsonRpc.{Codec, JsonRpcErr}
use chain_api.Proxy.{Services}
use chain_api.Proxy.WebSocket.{Conns, UpstreamWebSocket}
use chain_api.JsonRpcHandler.{JsonRpcHandler}
use chain_api.JsonRpcHandler.Ws.{Halt, gave_up, held_up, ws_message}
use chain_api.JsonRpcHandler.Ws.Refused.{ws_message-held}
use chain_api.JsonRpcHandler.Ws.Session.{
  read_failed, send_failed, panicked, blocked, Around, Left, after_round, ws_loop,
}

module _ (R : Redis) (K : CacheKeys) (C : Codec) (V : Services) (marshal_err : JsonRpcErr → String)
    (h : JsonRpcHandler) (conns : Conns V) (A : Around R K V) (api_key : String) where
  abbrev pub State : Type 0
  State = R.Db × UpstreamWebSocket V

  abbrev pub looped : ℕ → ℕ → State → Option (Left R V)
  looped = ws_loop R K C V marshal_err h conns A api_key

  -- The loop from the i-th read ends at a read up to the i + n-th, with one result for any fuel above n.
  abbrev pub EndsBy : ℕ → ℕ → State → Type 0
  EndsBy n i s =
      (r : Left R V) × ((fuel : ℕ) → n < fuel → looped fuel i s ≡ some r)
      × (i ≤ r.1)
      × (r.1 ≤ i + n)
      × (r.0 ≡ read_failed → A.reads r.1 ≡ none)
      × (r.0 ≡ blocked → A.receives r.1 ≡ false)

  failing : (n i : ℕ) (s : State) → A.reads i ≡ none → EndsBy n i s
  unfolding ws_loop
  failing n i s e =
      ((read_failed, i, A.others i s), stops, omega arith, omega arith, λ _. e, λ b. cc)
    where
      stops : (fuel : ℕ) → n < fuel → looped fuel i s ≡ some (read_failed, i, A.others i s)
      stops zero lt = elim lt [ ]
      stops (suc fuel) lt = rw (e, ws_loop) refl

  abbrev Next : ℕ → ℕ → Type 0
  Next n i = (s : State) → EndsBy n (suc i) s

  round :
      (n i : ℕ) (p : Result (Stop Halt) (Unit {0}) × State)
      → (p.0 ≡ err (error held_up) → A.receives i ≡ false)
      → Next n i
      → (r : Left R V) × ((fuel : ℕ)
          → n < fuel
          → after_round R K C V marshal_err h conns A (λ s'. looped fuel (suc i) s') i p ≡ some r)
        × (i ≤ r.1)
        × (r.1 ≤ i + suc n)
        × (r.0 ≡ read_failed → A.reads r.1 ≡ none)
        × (r.0 ≡ blocked → A.receives r.1 ≡ false)
  round n i (err (error held_up), s') w next =
      ((blocked, i, s'), λ fuel lt. refl, omega arith, omega arith, λ e. cc, λ _. w refl)
  round n i (ok u, s') w next =
      let (r, runs, low, high, why, held) = next s' in
      (r, runs, omega arith, omega arith, why, held)
  round n i (err (error gave_up), s') w next =
      ((send_failed, i, s'), λ fuel lt. refl, omega arith, omega arith, λ e. cc, λ e. cc)
  round n i (err panic, s') w next =
      ((panicked, i, s'), λ fuel lt. refl, omega arith, omega arith, λ e. cc, λ e. cc)

  stepped :
      (n i : ℕ) (raw : String) (s : State) (r : Left R V)
      → A.reads i ≡ some raw
      → ((fuel : ℕ)
          → n < fuel
          → after_round R K C V marshal_err h conns A
              (λ s'. looped fuel (suc i) s')
              i
              (ws_message R K C V marshal_err h conns api_key
                (A.receives i)
                (A.now i)
                (A.time i)
                raw
                (A.others i s))
            ≡ some r)
      → (fuel : ℕ) → suc n < fuel
      → looped fuel i s ≡ some r
  unfolding ws_loop
  stepped n i raw s r found runs zero lt = elim lt [ ]
  stepped n i raw s r found runs (suc fuel) lt = rw (found, ws_loop) (runs fuel (omega arith))

  ends : (n i : ℕ) (s : State) → A.reads (i + n) ≡ none → EndsBy n i s
  unfolding ws_loop
  ends zero i s e = failing zero i s (subst (λ k. A.reads k ≡ none) (omega arith) e)
  ends (suc n) i s e = elim (Option-cases (A.reads i)) [
    | inl none_read ↦ failing (suc n) i s none_read
    | inr (raw, found) ↦
        let (r, runs, low, high, why, held) =
          round n i
            (ws_message R K C V marshal_err h conns api_key (A.receives i) (A.now i) (A.time i) raw
              (A.others i s))
            (ws_message-held R K C V marshal_err h conns api_key (A.receives i) (A.now i) (A.time i)
              raw (A.others i s).0 (A.others i s).1)
            (λ s'. ends n (suc i) s' (subst (λ k. A.reads k ≡ none) (omega arith) e)) in
        (r, stepped n i raw s r found runs, low, high, why, held)
  ]

  -- Where a read of the client's connection fails at last, at the n-th, the loop of `handleWs` ends,
  -- whatever the messages are, the calls answer and other goroutines do: n + 1 rounds are enough, more
  -- give the same result, and it ends at the n-th read or before, by a failed read only at a read that
  -- fails; it waits for good only in a round in which the goroutine that writes takes nothing any more.
  pub ws_loop-EndsBy : (n : ℕ) (s : State) → A.reads n ≡ none → EndsBy n 0 s
  ws_loop-EndsBy n s e = ends n 0 s (subst (λ k. A.reads k ≡ none) (omega arith) e)
