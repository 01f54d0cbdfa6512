-- ===== src/JsonRpcHandler/Http/Upstream.antt =====
-- Which requests `Http` of pkg/handler/jsonRpcHandler.go sends on.
use chain_api.Common.{
  String, ◌≡◌, refl, Option, none, some, Result, ok, err, Stop, error, panic, ◌⊎◌, inl, inr,
}
use chain_api.Common.Int.{pos}
use chain_api.Redis.{Redis}
use chain_api.RateLimit.Limiter.{CacheKeys}
use chain_api.JsonRpc.{Request, Codec, cost, JsonRpcErr}
use chain_api.Proxy.{Services}
use chain_api.JsonRpcHandler.{JsonRpcHandler, bind, rate_limit}
use chain_api.JsonRpcHandler.ClearInfo.{MapCodec}
use chain_api.JsonRpcHandler.Http.{
  bind_api_key, json, Surroundings, after, forward, limited_forward, http,
}

module _ (R : Redis) (K : CacheKeys) (C : Codec) (V : Services) (M : MapCodec) (h : JsonRpcHandler)
    (now t : K.Time) (param uri : String) where
  -- `bind` accepted the request, and the limiter, in the state that this left, its cost.
  abbrev pub Passed : String → R.Db → Type 0
  Passed raw db =
      let bound = bind R K C h (bind_api_key param) raw h.http_black_methods h.erigon_methods db in
      (req : Request) × (bound.0 ≡ ok req)
      × ((rate_limit R K h now t (bind_api_key param) (pos (cost req)) bound.1).0 ≡ ok tt)

  -- The surroundings of the proxy are as they were.
  abbrev pub Untouched : V.World → Surroundings R K C V M → Type 0
  Untouched w s = s.1 ≡ w

  limited_lem :
      (req : Request) (p : Result (Stop JsonRpcErr) (Unit {0}) × R.Db) (w : V.World)
      → Untouched w
          (after {E = JsonRpcErr} json (λ _. forward R K C V M h uri req) (p.0, (p.1, w))).1
        ⊎ (p.0 ≡ ok tt)
  limited_lem req (ok u, d) w = inr refl
  limited_lem req (err (error e), d) w = inl refl
  limited_lem req (err panic, d) w = inl refl

  bound_lem :
      (p : Result (Stop JsonRpcErr) Request × R.Db) (w : V.World)
      → Untouched w
          (after {E = JsonRpcErr} json
            (λ req. limited_forward R K C V M h now t (bind_api_key param) uri req)
            (p.0, (p.1, w))).1
        ⊎ ((req : Request) × (p.0 ≡ ok req)
            × ((rate_limit R K h now t (bind_api_key param) (pos (cost req)) p.1).0 ≡ ok tt))
  bound_lem (ok req, d) w =
      elim (limited_lem req (rate_limit R K h now t (bind_api_key param) (pos (cost req)) d) w) [
        | inl kept ↦ inl kept
        | inr allowed ↦ inr (req, refl, allowed)
      ]
  bound_lem (err (error e), d) w = inl refl
  bound_lem (err panic, d) w = inl refl

  -- `Http` leaves the surroundings of the proxy, which are its cache and the upstreams, as they were,
  -- unless `bind` accepted the body, with the API key
  -- of the path and the methods refused over HTTP, and then the limiter accepted the request's cost.
  pub http-Untouched :
      (body : Option String) (db : R.Db) (w : V.World)
      → Untouched w (http R K C V M h now t param uri body (db, w)).1
        ⊎ ((raw : String) × (body ≡ some raw) × Passed raw db)
  unfolding http
  http-Untouched none db w = inl refl
  http-Untouched (some raw) db w =
      elim (bound_lem
        (bind R K C h (bind_api_key param) raw h.http_black_methods h.erigon_methods db) w) [
          | inl kept ↦ inl kept
          | inr passed ↦ inr (raw, refl, passed)
        ]
