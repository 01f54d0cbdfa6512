-- ===== src/JsonRpcHandler/Http.antt =====
-- pkg/handler/jsonRpcHandler.go: `Http`, `TendermintHttp`, `bindApiKey` and `tendermintPathBind`.
-- The limiter's counters and the surroundings of the proxy are two parts of the state; the keys of
-- the cache begin with `rpc:` and `tendermint:`, and the limiter reads none of them.
pub mod Upstream
use Prim.Native.Char.{Char}
use chain_api.Common.{
  ℕ, String, Bool, true, false, Option, none, some, List, [], ◌∷◌, Exec, Result, ok, err, pure,
  fail, ◌==◌, ◌||◌, if◌then◌else◌, Stop, error, panic,
}
use chain_api.Common.Int.{ℤ, pos}
use chain_api.Common.Text.{◌+++◌}
use chain_api.Common.Strings.{split}
use chain_api.Redis.{Redis}
use chain_api.RateLimit.Limiter.{CacheKeys}
use chain_api.Utils.{is_in}
use chain_api.JsonRpc.{
  SingleRequest, Request, Codec, cost, JsonRpcErr, parse_error, new_internal_server_error,
  new_unsupported_method_error,
}
use chain_api.Proxy.{Services, TendermintRequest, http_proxy, tendermint_proxy}
use chain_api.JsonRpcHandler.{JsonRpcHandler, bind, rate_limit}
use chain_api.JsonRpcHandler.ClearInfo.{MapCodec, clear_info}

abbrev pub first_or : String → List String → String
first_or s [] = s
first_or s (x ∷ rest) = x

-- The path parameter up to its first slash.
pub bind_api_key : String → String
bind_api_key param = first_or param (split param "/")

abbrev pub last_of : String → List String → String
last_of s [] = s
last_of s (x ∷ rest) = last_of x rest

abbrev pub joined : List String → String
joined [] = ""
joined (x ∷ rest) = x +++ joined rest

abbrev pub tail_of : List String → List String
tail_of [] = []
tail_of (x ∷ rest) = rest

unfoldable pub tendermint_path_bind :
    String → String → List String → Result JsonRpcErr TendermintRequest
tendermint_path_bind api_key request_uri black_methods =
    let url_query_list = split (last_of "" (split request_uri "/")) "?" in
    let path = first_or "" url_query_list in
    if path == "/" || path == api_key
    then err parse_error
    else if is_in path black_methods
    then err (new_unsupported_method_error none)
    else ok (record { path = path; url_query = "?" +++ joined (tail_of url_query_list) })

-- What a handler does with its request: it answers an error or an upstream's answer with status 200,
-- or returns an error of its own.
pub data Reply : Type 0 where
  json : JsonRpcErr → Reply
  blob : String → Reply
  handler_error : Reply

-- What comes next after a call on one part of a state: an answer to an error, or more work.
abbrev pub after :
    {S E A B : Type 0}
    → (E → B)
    → (A → Exec S (Stop (Unit {0})) B)
    → Result (Stop E) A × S
    → Result (Stop (Unit {0})) B × S
after answer next (ok a, s) = next a s
after answer next (err (error e), s) = (ok (answer e), s)
after answer next (err panic, s) = (err panic, s)

module _ (R : Redis) (K : CacheKeys) (C : Codec) (V : Services) (M : MapCodec) where
  abbrev pub Surroundings : Type 0
  Surroundings = R.Db × V.World

  abbrev pub Handled : Type 0 → Type 0
  Handled A = Exec Surroundings (Stop (Unit {0})) A

  abbrev pub on_db : {E A : Type 0} → Exec R.Db E A → Exec Surroundings E A
  on_db m (d, w) = ((m d).0, ((m d).1, w))

  abbrev pub on_world : {E A : Type 0} → Exec V.World E A → Exec Surroundings E A
  on_world m (d, w) = ((m w).0, (d, (m w).1))

  abbrev cleared : Option String → Reply
  cleared none = json (new_internal_server_error none)
  cleared (some resp) = blob resp

  -- The address of a node is hidden in the answer to a single call.
  abbrev clear_single : String → String → Option SingleRequest → Reply
  clear_single uri resp none = blob resp
  clear_single uri resp (some call) = cleared (clear_info M uri resp call.method)

  abbrev pub forward : JsonRpcHandler → String → Request → Handled Reply
  forward h uri req s =
      after (λ _. json (new_internal_server_error none))
        (λ resp. pure (clear_single uri resp req.single_call))
        (on_world (http_proxy V h.proxy req) s)

  abbrev pub limited_forward :
      JsonRpcHandler → K.Time → K.Time → String → String → Request → Handled Reply
  limited_forward h now t api_key uri req s =
      after json (λ _. forward h uri req)
        (on_db (rate_limit R K h now t api_key (pos (cost req))) s)

  -- `Http`; the body is `none` where it cannot be read, and the times are those of the limiter's calls.
  pub http : JsonRpcHandler → K.Time → K.Time → String → String → Option String → Handled Reply
  http h now t param uri none s = (ok handler_error, s)
  http h now t param uri (some raw) s =
      let api_key = bind_api_key param in
      after json (λ req. limited_forward h now t api_key uri req)
        (on_db (bind R K C h api_key raw h.http_black_methods h.erigon_methods) s)

  abbrev forward_path : JsonRpcHandler → String → TendermintRequest → Handled Reply
  forward_path h uri req s =
      after (λ _. json (new_internal_server_error none))
        (λ resp. pure (cleared (clear_info M uri resp uri)))
        (on_world (tendermint_proxy V h.proxy req) s)

  abbrev limited_path :
      JsonRpcHandler
      → K.Time
      → K.Time
      → String
      → String
      → Result JsonRpcErr TendermintRequest
      → Handled Reply
  limited_path h now t api_key uri (err e) s = (ok (json e), s)
  limited_path h now t api_key uri (ok req) s =
      after json (λ _. forward_path h uri req) (on_db (rate_limit R K h now t api_key (pos 1)) s)

  pub tendermint_http : JsonRpcHandler → K.Time → K.Time → String → String → Handled Reply
  tendermint_http h now t param uri =
      let api_key = bind_api_key param in
      limited_path h now t api_key uri (tendermint_path_bind api_key uri h.http_black_methods)
