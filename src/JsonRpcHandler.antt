-- ===== src/JsonRpcHandler.antt =====
-- pkg/handler/jsonRpcHandler.go: how a handler checks a request, marks it for the erigon upstream,
-- counts it, and how it answers the rate limiter's errors.
pub mod Bind
pub mod ClearInfo
pub mod Http
pub mod Ws
mod Tests
use chain_api.Common.{
  ℕ, String, Bool, true, false, Option, none, some, List, [], ◌∷◌, ◌++◌, length, Exec, Result, ok,
  err, pure, fail, ◌>>=◌, ◌>>◌, ◌==◌, if◌then◌else◌, Stop, error, panic, wrap_err,
}
use chain_api.Common.Int.{ℤ, pos}
use chain_api.Redis.{Redis}
use chain_api.RateLimit.Limiter.{
  CacheKeys, RateLimiter, LimitError, exceeded_rate_limit, api_key_not_exist, bad_count, redis,
  check_in_white_list, erigon_count, allow,
}
use chain_api.Utils.{is_in}
use chain_api.JsonRpc.{
  SingleRequest, Request, Codec, unmarshal, request_type_erigon, JsonRpcErr, parse_error,
  new_unsupported_method_error, unauthorized_err, too_many_request_err, new_internal_server_error,
}
use chain_api.Proxy.{JsonRpcProxyConfig}

-- What the program reads of a `constant.Chain`, a type from outside the repository.
pub record Chain : Type 0 where
  pub id : ℕ
  pub name : String

-- `JsonRpcHandler` without its logger; a proxy is known by its configuration.
pub record JsonRpcHandler : Type 0 where
  pub chain : Chain
  pub http_black_methods : List String
  pub ws_black_methods : List String
  pub just_white_methods : List String
  pub erigon_methods : List String
  pub proxy : JsonRpcProxyConfig
  pub rate_limiter : RateLimiter
  pub is_dev : Bool

abbrev pub new_json_rpc_handler :
    Chain
    → List String
    → List String
    → List String
    → List String
    → JsonRpcProxyConfig
    → RateLimiter
    → Bool
    → JsonRpcHandler
new_json_rpc_handler chain http_black erigon ws_black just_white proxy limiter is_dev = record {
  chain = chain;
  http_black_methods = http_black;
  erigon_methods = erigon;
  ws_black_methods = ws_black;
  just_white_methods = just_white;
  proxy = proxy;
  rate_limiter = limiter;
  is_dev = is_dev;
}

unfoldable pub validate_req : SingleRequest → List String → Option JsonRpcErr
validate_req req black_methods =
    if req.method == ""
    then some parse_error
    else if is_in req.method black_methods
    then some (new_unsupported_method_error req.id)
    else none

-- The methods that `bind` refuses: for an API key outside the whitelist, those of `justWhiteMethods` too.
unfoldable pub black_methods_for : JsonRpcHandler → String → List String → List String
black_methods_for h api_key black_methods =
    if check_in_white_list h.rate_limiter api_key
    then black_methods
    else black_methods ++ h.just_white_methods

-- the assignment of `RequestTypeErigon`
abbrev pub mark : Bool → ℕ → ℕ
mark true request_type = request_type_erigon
mark false request_type = request_type

abbrev pub with_calls : Request → ℕ → Request
with_calls req t = record {
  batch_call = req.batch_call;
  single_call = req.single_call;
  request_type = t;
}

module _ (R : Redis) (K : CacheKeys) (C : Codec) where
  open R use {Db, Error}

  abbrev pub refuse :
      {A : Type 0} → Option JsonRpcErr → Exec Db (Stop JsonRpcErr) A → Exec Db (Stop JsonRpcErr) A
  refuse (some e) m = fail (error e)
  refuse none m = m

  abbrev pub count_erigon : Bool → ℤ → Exec Db (Stop JsonRpcErr) (Unit {0})
  count_erigon true n = erigon_count R K n
  count_erigon false n = pure tt

  -- The body of the loop, and what `bind` does with a single call: the new request type.
  unfoldable pub bind_call :
      SingleRequest → List String → List String → ℤ → ℕ → Exec Db (Stop JsonRpcErr) ℕ
  bind_call r black erigon n request_type =
      refuse (validate_req r black) (do
        count_erigon (is_in r.method erigon) n
        pure (mark (is_in r.method erigon) request_type))

  pub bind_calls :
      List SingleRequest → List String → List String → ℤ → ℕ → Exec Db (Stop JsonRpcErr) ℕ
  bind_calls [] black erigon n request_type = pure request_type
  bind_calls (r ∷ rest) black erigon n request_type = do
    t ← bind_call r black erigon n request_type
    bind_calls rest black erigon n t

  -- `GetSingleCall` gives a nil pointer for the request `null`, and `validateReq` reads through it.
  pub bind_req :
      Option (List SingleRequest)
      → Option SingleRequest
      → List String
      → List String
      → Exec Db (Stop JsonRpcErr) ℕ
  bind_req (some calls) single black erigon = bind_calls calls black erigon (pos (length calls)) 0
  bind_req none (some call) black erigon = bind_call call black erigon (pos 1) 0
  bind_req none none black erigon = fail panic

  abbrev pub decode : Result (Stop (Unit {0})) Request → Exec Db (Stop JsonRpcErr) Request
  decode (ok req) = pure req
  decode (err (error e)) = fail (error parse_error)
  decode (err panic) = fail panic

  pub bind :
      JsonRpcHandler
      → String
      → String
      → List String
      → List String
      → Exec Db (Stop JsonRpcErr) Request
  bind h api_key raw black erigon = do
    req ← decode (unmarshal C raw)
    t ← bind_req req.batch_call req.single_call (black_methods_for h api_key black) erigon
    pure (with_calls req t)

module _ (R : Redis) (K : CacheKeys) where
  open R use {Db, Error}

  abbrev pub limit_error : LimitError Error → JsonRpcErr
  limit_error exceeded_rate_limit = too_many_request_err
  limit_error api_key_not_exist = unauthorized_err
  limit_error bad_count = new_internal_server_error none
  limit_error (redis e) = new_internal_server_error none

  pub rate_limit :
      JsonRpcHandler → K.Time → K.Time → String → ℤ → Exec Db (Stop JsonRpcErr) (Unit {0})
  rate_limit h now t api_key n =
      wrap_err (λ e. error (limit_error e)) (allow R K h.rate_limiter now t h.chain.id api_key n)
