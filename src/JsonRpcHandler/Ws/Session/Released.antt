-- ===== src/JsonRpcHandler/Ws/Session/Released.antt =====
-- What `handleWs` of pkg/handler/jsonRpcHandler.go leaves open when it returns.
use chain_api.Common.{
  ℕ, ◌<◌, String, Bool, true, false, ◌≡◌, ◌≢◌, ◌↔◌, refl, Option, none, some, Bool-cases, inl, inr,
  ◌==◌, eq_iff, if◌then◌else◌,
}
use chain_api.Redis.{Redis}
use chain_api.RateLimit.Limiter.{CacheKeys}
use chain_api.JsonRpc.{Codec, JsonRpcErr}
use chain_api.Proxy.{Services, JsonRpcProxyConfig}
use chain_api.Proxy.WebSocket.{Conns, UpstreamWebSocket, close, set_closed}
use chain_api.JsonRpcHandler.{JsonRpcHandler}
use chain_api.JsonRpcHandler.Ws.Session.{
  read_failed, send_failed, panicked, blocked, stuck, SessionEnd, bad_key, not_upgraded, not_dialed,
  ended, Open, Network, Around, Left, new_upstream_ws, close_upstreams, run_returns, upgraded,
  hung_up, after_loop, after_dial, handle_ws,
}
use chain_api.JsonRpcHandler.Ws.Session.Ending.{ws_loop-EndsBy}

-- The node can be dialled, and erigon, which has an address, cannot.
abbrev pub ErigonFails : Network → JsonRpcProxyConfig → Type 0
ErigonFails N cfg =
    (N.dials cfg.ws_upstream ≡ true)
    × (cfg.ws_erigon_upstream ≢ "")
    × (N.dials cfg.ws_erigon_upstream ≡ false)

-- What is open after `handleWs`, and after the goroutine that reads from the node where there is one.
abbrev pub Released : (ℕ → Bool) → Network → JsonRpcProxyConfig → SessionEnd → Open → Type 0
Released receives N cfg bad_key o =
    (o.client ≡ false) × (o.channel ≡ false) × (o.node ≡ false) × (o.erigon ≡ false)
Released receives N cfg not_upgraded o =
    (o.client ≡ false) × (o.channel ≡ false) × (o.node ≡ false) × (o.erigon ≡ false)
Released receives N cfg not_dialed o =
    (o.client ≡ false)
    × (o.channel ≡ false)
    × ((o.node ≡ true) ↔ ErigonFails N cfg)
    × (o.erigon ≡ false)
Released receives N cfg stuck o =
    (o.client ≡ true) × (o.channel ≡ true) × (o.node ≡ true) × ((i : ℕ) × (receives i ≡ false))
Released receives N cfg (ended e) o =
    (o.client ≡ false)
    × (o.channel ≡ false)
    × (o.node ≡ false)
    × (o.erigon ≡ true → N.closes_node ≡ false)
    × ((run_returns o).erigon ≡ false)

-- `Client` after a session that began: it counts as closed, and so does its channel. Before that nothing
-- changes.
abbrev pub Settled :
    (R : Redis) (V : Services) → SessionEnd → (s s' : R.Db × UpstreamWebSocket V) → Type 0
Settled R V (ended e) s s' = (s'.1.client.closed ≡ true) × (s'.1.client.channel_closed ≡ true)
Settled R V stuck s s' = Unit
Settled R V bad_key s s' = s' ≡ s
Settled R V not_upgraded s s' = s' ≡ s
Settled R V not_dialed s s' = s' ≡ s

-- `NewUpstreamWS` on a session that has just begun.
abbrev Dialed : Network → JsonRpcProxyConfig → Bool × Open → Type 0
Dialed N cfg (true, o) = (o.client ≡ true) × (o.channel ≡ true) × (o.node ≡ true)
Dialed N cfg (false, o) = ((o.node ≡ true) ↔ ErigonFails N cfg) × (o.erigon ≡ false)

new_upstream_ws-Dialed :
    (N : Network) (cfg : JsonRpcProxyConfig) → Dialed N cfg (new_upstream_ws N cfg upgraded)
unfolding new_upstream_ws
new_upstream_ws-Dialed N cfg = elim (Bool-cases (N.dials cfg.ws_upstream)) [
  | inr no_node ↦ rw no_node ((λ e. cc, λ f. cc), refl)
  | inl node ↦ elim (Bool-cases (cfg.ws_erigon_upstream == "")) [
    | inl empty ↦ rw (node, empty) (refl, refl, refl)
    | inr address ↦ elim (Bool-cases (N.dials cfg.ws_erigon_upstream)) [
      | inl erigon ↦ rw (node, address, erigon) (refl, refl, refl)
      | inr no_erigon ↦
          rw (node, address, no_erigon)
            (
              (
                λ _. (node, λ d. (let t = (eq_iff cfg.ws_erigon_upstream "").1 d in cc), no_erigon),
                λ _. refl,
              ),
              refl,
            )
    ]
  ]
]

module _ (R : Redis) (K : CacheKeys) (C : Codec) (V : Services) (marshal_err : JsonRpcErr → String)
    (h : JsonRpcHandler) (conns : Conns V) (A : Around R K V) (N : Network) where
  abbrev State : Type 0
  State = R.Db × UpstreamWebSocket V

  abbrev pub Returned : State → Option (SessionEnd × Open × State) → Type 0
  Returned s r =
      (e : SessionEnd) × (o : Open) × (s' : State) × (r ≡ some (e, o, s'))
      × Released A.receives N h.proxy e o
      × Settled R V e s s'

  kept : (closes erigon : Bool) → (if closes then false else erigon) ≡ true → closes ≡ false
  kept true erigon k = cc
  kept false erigon k = refl

  after_loop-Returned :
      (o : Open) (s : State) (r : Left R V)
      → Dialed N h.proxy (true, o)
      → (r.0 ≡ blocked → A.receives r.1 ≡ false)
      → Returned s (after_loop R K C V marshal_err h conns A N o (some r))
  unfolding close_upstreams run_returns close set_closed
  after_loop-Returned o s (blocked, i, s') (c, ch, n) held =
      (stuck, o, s', refl, (c, ch, n, (i, held refl)), tt)
  after_loop-Returned o s (read_failed, i, s') d held = (
    ended read_failed,
    _,
    _,
    refl,
    (refl, refl, refl, kept N.closes_node o.erigon, refl),
    (refl, refl),
  )
  after_loop-Returned o s (send_failed, i, s') d held = (
    ended send_failed,
    _,
    _,
    refl,
    (refl, refl, refl, kept N.closes_node o.erigon, refl),
    (refl, refl),
  )
  after_loop-Returned o s (panicked, i, s') d held = (
    ended panicked,
    _,
    _,
    refl,
    (refl, refl, refl, kept N.closes_node o.erigon, refl),
    (refl, refl),
  )

  after_dial-Returned :
      (api_key : String) (n fuel : ℕ) (s : State) (p : Bool × Open)
      → A.reads n ≡ none
      → n < fuel
      → Dialed N h.proxy p
      → Returned s (after_dial R K C V marshal_err h conns A N api_key fuel s p)
  after_dial-Returned api_key n fuel s (false, o) e lt (d, c) =
      (not_dialed, hung_up o, s, refl, (refl, refl, d, c), refl)
  after_dial-Returned api_key n fuel s (true, o) e lt d =
      let (r, runs, _, _, _, held) = ws_loop-EndsBy R K C V marshal_err h conns A api_key n s e in
      rw (runs fuel lt) (after_loop-Returned o s r d held)

  -- Where a read of the client's connection fails at last, `handleWs` returns, unless it waits for good
  -- in some round in which the goroutine that writes takes nothing any more, and then it has closed nothing. When
  -- it returns, the connection to the client is closed and the channel too. Where the session began, the
  -- connection to the node is closed, the client counts as closed, and erigon's is open only where the
  -- close of the node's failed, until the goroutine that reads from the node returns. Where it did not
  -- begin nothing else changed, and a connection is left open exactly where the node could be dialled
  -- and erigon, which has an address, could not: the one to the node, which nobody closes.
  pub handle_ws-Returned :
      (key : Option String) (n fuel : ℕ) (s : State)
      → A.reads n ≡ none
      → n < fuel
      → Returned s (handle_ws R K C V marshal_err h conns A N key fuel s)
  unfolding handle_ws
  handle_ws-Returned none n fuel s e lt = (bad_key, _, s, refl, (refl, refl, refl, refl), refl)
  handle_ws-Returned (some api_key) n fuel s e lt = elim (Bool-cases N.upgrades) [
    | inr not_up ↦ rw not_up ((not_upgraded, _, s, refl, (refl, refl, refl, refl), refl))
    | inl up ↦ rw up (
        after_dial-Returned api_key n fuel s (new_upstream_ws N h.proxy upgraded) e lt
          (new_upstream_ws-Dialed N h.proxy))
  ]
