-- ===== src/Proxy/Cache.antt =====
-- The cache of pkg/proxy/jsonRpcProxy.go: what a hit answers, and what a miss leaves for later.
use chain_api.Common.{
  ℕ, String, true, ◌≡◌, ◌≢◌, refl, sym, ap, ◌∙◌, Option, none, some, Result, ok, err, ok-injective,
  eq_false, error, wrapped, continue, ◌>>=◌, ◌>>◌, pure,
}
use chain_api.Utils.{is_in}
use chain_api.JsonRpc.{SingleRequest, Request}
use chain_api.Proxy.{
  JsonRpcProxyConfig, Services, failed, bad_answer, Call, give, cache_key, from_cache,
  do_http_upstream_call, store, http_upstream, single_proxy, http_proxy,
}

-- What the documentation of Redis promises of GET and SET: `lookup` is what an observer reads.
pub record IsCache (V : Services) : Type 0 where
  pub lookup : V.World → String → Option String
  pub get_reply :
      (k : String) (w : V.World) (r : Option String) → (V.get k w).0 ≡ ok r → r ≡ lookup w k
  pub get_keeps : (k : String) (w : V.World) → (V.get k w).1 ≡ w
  pub set_stores :
      (k v : String) (ttl : ℕ) (w : V.World)
      → (V.set k v ttl w).0 ≡ ok tt
      → lookup (V.set k v ttl w).1 k ≡ some v

-- Redis is reachable.
pub record Answers (V : Services) : Type 0 where
  pub gets : (k : String) (w : V.World) → (r : Option String) × ((V.get k w).0 ≡ ok r)
  pub sets : (k v : String) (ttl : ℕ) (w : V.World) → (V.set k v ttl w).0 ≡ ok tt

-- A request with one call.
abbrev pub single : SingleRequest → ℕ → Request
single call t = record { batch_call = none; single_call = some call; request_type = t }

pair_eq : {A B : Type 0} (p : A × B) {a : A} {b : B} → p.0 ≡ a → p.1 ≡ b → p ≡ (a, b)
pair_eq p e f = cc

module _ (V : Services) (L : IsCache V) (A : Answers V) (cfg : JsonRpcProxyConfig) where
  get-eq : (k : String) (w : V.World) → V.get k w ≡ (ok (L.lookup w k), w)
  get-eq k w =
      let found = A.gets k w in
      pair_eq (V.get k w) (found.1 ∙ ap ok (L.get_reply k w found.0 found.1)) (L.get_keeps k w)

  module _ (call : SingleRequest) (t : ℕ) (w : V.World)
      (cacheable : is_in call.method cfg.cacheable_methods ≡ true) where
    -- Where Redis answers and holds a result that is not empty for the method and the parameters of a
    -- cacheable call, the proxy answers that result with the call's own id and version, and leaves the
    -- surroundings as they were.
    pub http_proxy-hit :
        (value resp : String)
        → L.lookup w (cache_key V cfg call) ≡ some value
        → value ≢ ""
        → V.marshal_response call.id call.jsonrpc_version value ≡ some resp
        → http_proxy V cfg (single call t) w ≡ (ok resp, w)
    unfolding http_proxy single_proxy from_cache
    http_proxy-hit value resp found given written =
        rw (cacheable, get-eq (cache_key V cfg call) w, found, eq_false value "" given, written)
          refl

    http_proxy-miss :
        L.lookup w (cache_key V cfg call) ≡ none
        → http_proxy V cfg (single call t) w ≡ http_upstream V cfg true call (single call t) w
    unfolding http_proxy single_proxy from_cache
    http_proxy-miss missing = rw (cacheable, get-eq (cache_key V cfg call) w, missing) refl

  -- the part of `HttpUpstream` after the POST
  abbrev finish : SingleRequest → String → Call V String
  finish call resp = do
    upstream_resp ← give V bad_answer (V.unmarshal_response resp)
    store V cfg true (cache_key V cfg call) (V.result upstream_resp)
    pure resp

  module _ (call : SingleRequest) (resp : String) (r : V.Response) (value : String)
      (read : V.unmarshal_response resp ≡ some r) (has : V.result r ≡ some value) where
    stored-resp :
        (x : String) (o : Option String) (w : V.World)
        → ((store V cfg true (cache_key V cfg call) o >> pure x) w).0 ≡ ok resp
        → x ≡ resp
    stored-resp x none w e = ok-injective e
    stored-resp x (some v) w e = ok-injective e

    finish-resp :
        (x : String) (o : Option V.Response) (w : V.World)
        → (continue
            (λ u. store V cfg true (cache_key V cfg call) (V.result u) >> pure x)
            (give V bad_answer o w)).0
          ≡ ok resp
        → x ≡ resp
    finish-resp x none w e = cc
    finish-resp x (some u) w e = stored-resp x (V.result u) w e

    finish-stores :
        (w : V.World) → L.lookup (finish call resp w).1 (cache_key V cfg call) ≡ some value
    finish-stores w =
        rw (read, has)
          (L.set_stores (cache_key V cfg call) value cfg.cache_time w
            (A.sets _ value cfg.cache_time w))

    posted-stores :
        (p : Result V.Error String × V.World)
        → (continue (finish call) (wrapped (λ e. error (failed e)) p)).0 ≡ ok resp
        → L.lookup
            (continue (finish call) (wrapped (λ e. error (failed e)) p)).1
            (cache_key V cfg call)
          ≡ some value
    posted-stores (ok x, w) e =
        let same : x ≡ resp = finish-resp x (V.unmarshal_response x) w e in
        rw same (finish-stores w)
    posted-stores (err x, w) e = cc

    upstream-stores :
        (t : ℕ) (w : V.World)
        → (http_upstream V cfg true call (single call t) w).0 ≡ ok resp
        → L.lookup (http_upstream V cfg true call (single call t) w).1 (cache_key V cfg call)
          ≡ some value
    unfolding http_upstream do_http_upstream_call
    upstream-stores t w e = posted-stores (V.post _ _ w) e

  same_key :
      (a b : SingleRequest)
      → a.method ≡ b.method
      → a.params ≡ b.params
      → cache_key V cfg a ≡ cache_key V cfg b
  same_key a b m p = rw (m, p) refl

  -- Where Redis answers and holds nothing for a cacheable call: if the proxy answers the call, and the
  -- answer has a result that is not empty, then a call of the same method with the same parameters that
  -- comes next is answered from the cache, with that result and its own id and version, and leaves
  -- the surroundings as they were, whichever upstream was asked before.
  pub http_proxy-http_proxy :
      (a b : SingleRequest) (t u : ℕ) (w : V.World) (resp later value : String) (r : V.Response)
      → a.method ≡ b.method
      → a.params ≡ b.params
      → is_in a.method cfg.cacheable_methods ≡ true
      → L.lookup w (cache_key V cfg a) ≡ none
      → (http_proxy V cfg (single a t) w).0 ≡ ok resp
      → V.unmarshal_response resp ≡ some r
      → V.result r ≡ some value
      → value ≢ ""
      → V.marshal_response b.id b.jsonrpc_version value ≡ some later
      → let w' = (http_proxy V cfg (single a t) w).1 in
        http_proxy V cfg (single b u) w' ≡ (ok later, w')
  http_proxy-http_proxy a b t u w resp later value r m p cacheable missing answered read has given
        written =
      let miss = http_proxy-miss a t w cacheable missing in
      let upstream =
        upstream-stores a resp r value read has t w (ap (λ q. q.0) (sym miss) ∙ answered) in
      let w' = (http_proxy V cfg (single a t) w).1 in
      let found : L.lookup w' (cache_key V cfg b) ≡ some value =
        rw (← same_key a b m p, miss) upstream in
      http_proxy-hit b u w' (ap (λ n. is_in n cfg.cacheable_methods) (sym m) ∙ cacheable) value
        later found given written
