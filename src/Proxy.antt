-- ===== src/Proxy.antt =====
-- pkg/proxy/jsonRpcProxy.go and pkg/proxy/tendermintRpcProxy.go: the HTTP proxy with its cache.
-- The process's surroundings are one state, `World`: Redis and the upstream nodes change it. Their
-- calls, md5 and encoding/json are parameters. The deadline of a request's context is part of what a
-- call returns; the counter of request ids is read by the WebSocket proxy only.
pub mod Cache
pub mod WebSocket
pub mod Concrete
mod Tests
use chain_api.Common.{
  ℕ, String, Bool, true, false, Option, none, some, List, Exec, Result, ok, err, pure, fail, ◌>>=◌,
  ◌>>◌, ◌==◌, if◌then◌else◌, nat_eq, Stop, error, panic, wrap_err,
}
use chain_api.Common.Text.{◌+++◌, decimal}
use chain_api.Utils.{is_in}
use chain_api.JsonRpc.{RequestId, SingleRequest, Request, request_type_erigon, is_batch_call}

-- `JsonRpcProxyConfig` without its HTTP client, which is the default client everywhere; the time is
-- in seconds.
pub record JsonRpcProxyConfig : Type 0 where
  pub http_upstream : String
  pub ws_upstream : String
  pub http_erigon_stream : String
  pub ws_erigon_upstream : String
  pub cache_time : ℕ
  pub chain_id : ℕ
  pub cacheable_methods : List String

-- `TenderMintRequest` of pkg/jsonrpc/tendermintRpc.go.
pub record TendermintRequest : Type 0 where
  pub path : String
  pub url_query : String

pub record Services : Type 1 where
  pub World : Type 0
  pub Error : Type 0
  -- GET, `none` for `redis.Nil`, and SET with a time to live
  pub get : String → Exec World Error (Option String)
  pub set : String → String → ℕ → Exec World Error (Unit {0})
  -- a POST with a JSON body and a GET, with the whole body of the answer; the GET fails on a status
  -- other than 200
  pub post : String → String → Exec World Error String
  pub http_get : String → Exec World Error String
  -- `hex.EncodeToString` of `md5.Sum`
  pub md5_hex : String → String
  pub marshal_request : Request → String
  -- `UpstreamJsonRpcResponse` read from an answer, its field `Result`, and the response written again
  pub Response : Type 0
  pub unmarshal_response : String → Option Response
  pub result : Response → Option String
  -- the field `ID`; JSON gives no number of Go's type int64
  pub id_of : Response → RequestId
  pub marshal_upstream : Response → Option String
  -- `JsonRpcResponse` with an id, a version and a result
  pub marshal_response : Option RequestId → String → String → Option String

pub data ProxyError (E : Type 0) : Type 0 where
  failed : E → ProxyError E
  bad_answer bad_response : ProxyError E

module _ (V : Services) where
  open V use {World, Error, get, set, post, http_get, md5_hex, Response, unmarshal_response, result}

  abbrev pub Call : Type 0 → Type 0
  Call A = Exec World (Stop (ProxyError Error)) A

  abbrev pub called : {A : Type 0} → Exec World Error A → Call A
  called m = wrap_err (λ e. error (failed e)) m

  abbrev pub give : {A : Type 0} → ProxyError Error → Option A → Call A
  give e none = fail (error e)
  give e (some a) = pure a

  -- `CacheFn`, its error logged and dropped
  abbrev pub cache_fn : String → String → ℕ → Call (Unit {0})
  cache_fn key value ttl w = (ok tt, (set key value ttl w).1)

  abbrev pub cache_key : JsonRpcProxyConfig → SingleRequest → String
  cache_key cfg req =
      "rpc:" +++ decimal cfg.chain_id +++ ":" +++ req.method +++ ":" +++ md5_hex req.params

  -- What `fromCache` makes of the content of the cache: nothing where it is missing or empty.
  abbrev pub cached_answer : SingleRequest → Option String → Call (Option String)
  cached_answer req none = pure none
  cached_answer req (some res) = if res == "" then pure none else do
    resp ← give bad_response (V.marshal_response req.id req.jsonrpc_version res)
    pure (some resp)

  pub from_cache : JsonRpcProxyConfig → Bool → SingleRequest → Call (Option String)
  from_cache cfg true req = do res ← called (get (cache_key cfg req)); cached_answer req res
  from_cache cfg false req = pure none

  unfoldable pub do_http_upstream_call : JsonRpcProxyConfig → Request → Call String
  do_http_upstream_call cfg req = called (
      post
        (if nat_eq req.request_type request_type_erigon
          then cfg.http_erigon_stream
          else cfg.http_upstream)
        (V.marshal_request req))

  abbrev pub store : JsonRpcProxyConfig → Bool → String → Option String → Call (Unit {0})
  store cfg true key (some value) = cache_fn key value cfg.cache_time
  store cfg true key none = pure tt
  store cfg false key value = pure tt

  http_upstream : JsonRpcProxyConfig → Bool → SingleRequest → Request → Call String
  unfolding do_http_upstream_call
  http_upstream cfg cacheable single req = do
    resp ← do_http_upstream_call cfg req
    upstream_resp ← give bad_answer (unmarshal_response resp)
    store cfg cacheable (cache_key cfg single) (result upstream_resp)
    pure resp

  abbrev pub or_upstream : Option String → Call String → Call String
  or_upstream (some resp) upstream = pure resp
  or_upstream none upstream = upstream

  single_proxy : JsonRpcProxyConfig → Bool → SingleRequest → Request → Call String
  unfolding from_cache http_upstream
  single_proxy cfg cacheable single req = do
    cached ← from_cache cfg cacheable single
    or_upstream cached (http_upstream cfg cacheable single req)

  -- `fromCache` reads through the pointer to the single call.
  pub http_proxy : JsonRpcProxyConfig → Request → Call String
  unfolding single_proxy do_http_upstream_call
  http_proxy cfg req = elim req.batch_call [
    | some calls ↦ do_http_upstream_call cfg req
    | none ↦ elim req.single_call [
      | none ↦ fail panic
      | some single ↦ single_proxy cfg (is_in single.method cfg.cacheable_methods) single req
    ]
  ]

  abbrev pub tendermint_cache_key : JsonRpcProxyConfig → TendermintRequest → String
  tendermint_cache_key cfg req =
      "tendermint:"
      +++ decimal cfg.chain_id
      +++ ":"
      +++ req.path
      +++ ":"
      +++ md5_hex (req.path +++ req.url_query)

  abbrev pub present : Option String → Option String
  present none = none
  present (some res) = if res == "" then none else some res

  from_tendermint_cache : JsonRpcProxyConfig → Bool → TendermintRequest → Call (Option String)
  from_tendermint_cache cfg true req = do
    res ← called (get (tendermint_cache_key cfg req))
    pure (present res)
  from_tendermint_cache cfg false req = pure none

  unfoldable pub do_tendermint_upstream_call : JsonRpcProxyConfig → TendermintRequest → Call String
  do_tendermint_upstream_call cfg req =
      called (http_get (cfg.http_upstream +++ "/" +++ req.path +++ req.url_query))

  -- The response is written again to be stored; where it cannot be written, it is not stored.
  abbrev pub store_response :
      JsonRpcProxyConfig
      → Bool
      → TendermintRequest
      → Option String
      → Option String
      → Call (Unit {0})
  store_response cfg true req (some value) (some saved) =
      cache_fn (tendermint_cache_key cfg req) saved cfg.cache_time
  store_response cfg true req (some value) none = pure tt
  store_response cfg true req none saved = pure tt
  store_response cfg false req value saved = pure tt

  tendermint_upstream : JsonRpcProxyConfig → Bool → TendermintRequest → Call String
  unfolding do_tendermint_upstream_call
  tendermint_upstream cfg cacheable req = do
    resp ← do_tendermint_upstream_call cfg req
    upstream_resp ← give bad_answer (unmarshal_response resp)
    store_response cfg cacheable req (result upstream_resp) (V.marshal_upstream upstream_resp)
    pure resp

  cached_tendermint_proxy : JsonRpcProxyConfig → Bool → TendermintRequest → Call String
  unfolding from_tendermint_cache tendermint_upstream
  cached_tendermint_proxy cfg cacheable req = do
    cached ← from_tendermint_cache cfg cacheable req
    or_upstream cached (tendermint_upstream cfg cacheable req)

  pub tendermint_proxy : JsonRpcProxyConfig → TendermintRequest → Call String
  unfolding cached_tendermint_proxy
  tendermint_proxy cfg req = cached_tendermint_proxy cfg (is_in req.path cfg.cacheable_methods) req
