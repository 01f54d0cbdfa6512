-- ===== src/Ipfs/Handler.antt =====
-- pkg/handler/ipfsHandler.go, and pkg/request and pkg/response as it uses them.
-- An early return of a handler that has answered is an error of the model, `answered`. The request's
-- text is in UTF-8, and Go's `len` counts its bytes.
pub mod Quiet
pub mod Unpin
mod Tests
use Prim.Native.Char.{code}
use Prim.Native.String
use chain_api.Common.{
  ℕ, zero, suc, ◌+◌, String, Bool, true, false, not, Option, none, some, List, [], ◌∷◌, ◌++◌, Exec,
  Result, ok, err, pure, fail, ◌>>=◌, ◌>>◌, Stop, error, panic, wrap_err, ◌==◌, if◌then◌else◌, ltb,
  nat_eq,
}
use chain_api.Common.Int.{ℤ, pos, negsuc}
use chain_api.Common.Text.{◌+++◌, decimal}
use chain_api.Common.Strings.{trim_prefix, split, contains}
use chain_api.Redis.{Redis}
use chain_api.JsonRpc.{JsonRpcErr}
use chain_api.RateLimit.Limiter.{CacheKeys, RateLimiter}
use chain_api.Proxy.{JsonRpcProxyConfig}
use chain_api.JsonRpcHandler.{Chain, JsonRpcHandler, new_json_rpc_handler}
use chain_api.RpcHandler.Forward.{Header, Outgoing, Response, values, remove}
use chain_api.Ipfs.{IpfsFile, NodeStat, AddResp, AddParam, UpdatePinParam, Surroundings, Names}
use chain_api.Ipfs.Service.{
  no_file, add, pin_object, un_pin_object, get_user_ipfs_file, get_ipfs_pin_file,
}
use chain_api.Ipfs.Limit.{
  UsageError, no_user, no_plan_limit, redis_error, band_width_upload, check_ipfs_limit,
}

pub record IpfsHandler : Type 0 where
  pub json_handler : JsonRpcHandler
  pub endpoint : String

-- The handler's JSON-RPC handler has a nil proxy; nothing reads it.
abbrev no_proxy : JsonRpcProxyConfig
no_proxy = record {
  http_upstream = "";
  ws_upstream = "";
  http_erigon_stream = "";
  ws_erigon_upstream = "";
  cache_time = 0;
  chain_id = 0;
  cacheable_methods = [];
}

-- config.Config.IPFSCluster
pub record IpfsCluster : Type 0 where
  pub schemes : String
  pub host : String
  pub port : ℕ

-- `none` is the panic at an address of which no client can be made.
unfoldable pub new_ipfs_handler :
    (String → Bool) → Chain → IpfsCluster → RateLimiter → Bool → Option IpfsHandler
new_ipfs_handler is_endpoint chain cluster limiter is_dev =
    let endpoint = cluster.schemes +++ "://" +++ cluster.host +++ ":" +++ decimal cluster.port in
    if is_endpoint endpoint
    then some (record {
      json_handler = new_json_rpc_handler chain [] [] [] [] no_proxy limiter is_dev;
      endpoint = endpoint;
    })
    else none

pub record Request : Type 0 where
  pub method : String
  pub path : String
  pub raw_query : String
  pub header : Header
  pub body : String

-- Echo's binder, net/url's queries, and encoding/json.
pub record Binder : Type 0 where
  -- `URL.Query().Encode()` and `URL.Query().Get`
  pub encode : String → String
  pub get : String → String → String
  -- `WrapWithDirectory` after the binding of an `AddParam`, whatever its error
  pub wrap_with_directory : String → Bool
  -- the `arg` of a `PinLsParam`, a `PinParam` and a `PinRmParam`; none is an error
  pub pin_ls_arg : String → Option String
  pub pin_arg : String → Option String
  pub pin_rm_arg : String → Option String
  pub update_pin_param : String → Option UpdatePinParam
  -- `json.Unmarshal` into a value: what it leaves there, and whether it succeeded
  pub unmarshal_add : String → AddResp → AddResp × Bool

-- What the client is answered: a JSON object of texts, a text, an empty list of pins, or the node's body.
pub data Body : Type 0 where
  json : List (String × String) → Body
  plain bytes : String → Body
  no_pins : Body

-- The headers are those that were copied from the node's answer before.
pub record Answer : Type 0 where
  pub status : ℕ
  pub copied : Header
  pub body : Body

pub data Done : Type 0 where
  answered : Answer → Done
  panics : Done

abbrev pub answer : ℕ → Body → Done
answer status body = answered (record { status = status; copied = []; body = body })

-- `errResp[msg] = text` and `echoReturn`
abbrev pub refuse : ℕ → String → Done
refuse status text = answer status (json (("message", text) ∷ []))

-- `echoReturnWithMsg`: its parameter hides the constant `msg`, so the text is the key too.
abbrev pub refuse_with_msg : Header → ℕ → String → Done
refuse_with_msg copied status text = answered (record {
  status = status;
  copied = copied;
  body =
      json (if text == "message" then (text, text) ∷ [] else ("message", "") ∷ (text, text) ∷ []);
})

abbrev utf8_len_of : ℕ → ℕ
utf8_len_of c = if ltb c 128 then 1 else if ltb c 2048 then 2 else if ltb c 65536 then 3 else 4

-- Go's `len` of a string
unfoldable pub byte_len : String → ℕ
byte_len String.[] = 0
byte_len (String.◌∷◌ c s) = utf8_len_of (code c) + byte_len s

abbrev key_of_parts : List String → Result String String
key_of_parts [] = err "path error"
key_of_parts (a ∷ []) = err "path error"
key_of_parts (a ∷ b ∷ []) = err "path error"
key_of_parts (a ∷ b ∷ key ∷ rest) = if nat_eq (byte_len key) 32 then ok key else err "key error"

pub bind_api_key : String → Result String String
bind_api_key path = key_of_parts (split path "/")

pub proxy_url : IpfsHandler → String → String → String
proxy_url h path query =
    h.endpoint +++ "/api/v0" +++ path +++ (if query == "" then "" else "?" +++ query)

pub ipfs_method : String → String → String
ipfs_method api_key path =
    trim_prefix (trim_prefix (trim_prefix path "/ipfs") ("/" +++ api_key)) "/api/v0"

-- The loop of `getAddFileList` over what stands before each brace; the variable keeps its value from
-- one turn to the next.
pub add_file_list : Binder → AddResp → List String → List AddResp
add_file_list B last [] = []
add_file_list B last (v ∷ rest) =
    let parsed = B.unmarshal_add (v +++ "}") last in
    let skipped = add_file_list B last rest in
    let later = add_file_list B parsed.0 rest in
    if ltb (byte_len v) 5 then skipped else if parsed.1 then parsed.0 ∷ later else later

pub get_add_file_list : Names → Binder → Request → String → List AddResp × AddParam
unfolding add_file_list
get_add_file_list N B req body =
    let whole = B.unmarshal_add body (record { name = ""; hash = ""; size = "" }) in
    (
      (if whole.1 then whole.0 ∷ [] else add_file_list B whole.0 (split body "}")),
      record {
        wrap_with_directory = B.wrap_with_directory req.raw_query;
        pin_status =
            if B.get req.raw_query "pin" == "false" then N.pin_status_unpin else N.pin_status_pin;
      },
    )

abbrev pub int_text : ℤ → String
int_text (pos n) = decimal n
int_text (negsuc n) = "-" +++ decimal (suc n)

-- `JsonRpcErr.Error`
abbrev pub json_rpc_error_text : JsonRpcErr → String
json_rpc_error_text e = "jsonrpc err with code: " +++ int_text e.code +++ " message: " +++ e.message

-- What `pinAddFile` returns: the type of the traffic, its size, and the files to store.
pub record PinAdded : Type 0 where
  pub bw_type : ℕ
  pub bw_size : ℤ
  pub files : List AddResp

module _ (S : Surroundings) (N : Names) where
  open S use {World, Error}

  abbrev pub Flow : Type 0 → Type 0
  Flow A = Exec World Done A

  abbrev usage_error_text : UsageError Error → String
  usage_error_text no_user = "get ipfs User form db failed"
  usage_error_text no_plan_limit = "can not read the plan limit"
  usage_error_text (redis_error e) = S.error_text e

  abbrev limit_answer : Result (UsageError Error) Bool × World → Result Done (Unit {0}) × World
  limit_answer (err e, w) = (err (refuse 500 (usage_error_text e)), w)
  limit_answer (ok false, w) = (err (refuse 400 "out of usage limit"), w)
  limit_answer (ok true, w) = (ok tt, w)

  pub check_ipfs_user_limit : String → ℤ → ℕ → Flow (Unit {0})
  check_ipfs_user_limit api_key bw_size bw_type w =
      limit_answer (check_ipfs_limit S N api_key N.ipfs_chain_id bw_size bw_type w)

  -- A header that is set to nil is not sent, and Go sets none of its own.
  abbrev set_nil : String → Header → Header
  set_nil key h = (key, []) ∷ remove key h

  abbrev pub target_request : IpfsHandler → Binder → Request → String → Outgoing
  target_request h B req path = record {
    method = req.method;
    url = proxy_url h path (B.encode req.raw_query);
    header = set_nil "Origin" (set_nil "Referer" (set_nil "User-Agent" req.header));
    body = req.body;
  }

  pub proxy_to_ipfs : IpfsHandler → Binder → Request → String → Flow Response
  unfolding proxy_url
  proxy_to_ipfs h B req path =
      let out = target_request h B req path in
      elim (S.request_error out.method out.url) [
        | some e ↦ fail (refuse 500 (S.error_text e))
        | none ↦ wrap_err (λ e. refuse 400 (S.error_text e)) (S.do_request out)
      ]

  -- An error that is logged, or assigned to `_`.
  abbrev pub dropped : {A : Type 0} → Exec World Error A → Flow (Unit {0})
  dropped m w = (ok tt, (m w).1)

  abbrev dropped_stop : Result (Stop Error) (Unit {0}) × World → Result Done (Unit {0}) × World
  dropped_stop (ok u, w) = (ok tt, w)
  dropped_stop (err (error e), w) = (ok tt, w)
  dropped_stop (err panic, w) = (err panics, w)

  -- the value beside an error that is dropped
  abbrev pub or_no_file : Result Error IpfsFile × World → Result Done IpfsFile × World
  or_no_file (ok file, w) = (ok file, w)
  or_no_file (err e, w) = (ok no_file, w)

  -- `bwSize := …` declares a variable of the block: the one that is returned stays 0.
  abbrev pin_new_file : String → String → Flow PinAdded
  pin_new_file api_key cid = do
    stats ← wrap_err (λ e. refuse 500 "pin files failed") (S.object_stat cid)
    check_ipfs_user_limit api_key stats.cumulative_size band_width_upload
    pure (record {
      bw_type = band_width_upload;
      bw_size = pos 0;
      files =
          record { name = ""; hash = stats.hash; size = N.cast_to_string stats.cumulative_size }
          ∷ [];
    })

  abbrev pin_file_by : String → String → IpfsFile → Flow PinAdded
  pin_file_by api_key cid file =
      if nat_eq file.id 0
      then pin_new_file api_key cid
      else pure (record { bw_type = 0; bw_size = pos 0; files = [] })

  pub pin_add_file : String → String → Flow PinAdded
  unfolding check_ipfs_user_limit
  pin_add_file api_key cid = do
    file ← λ w. or_no_file (get_user_ipfs_file S N api_key cid w)
    pin_file_by api_key cid file

  abbrev pin_param : AddParam
  pin_param = record { wrap_with_directory = false; pin_status = N.pin_status_pin }

  pub pin_hook : String → String → List AddResp → Flow (Unit {0})
  pin_hook api_key cid [] w = dropped (pin_object S N api_key cid) w
  pin_hook api_key cid (v ∷ rest) w = dropped_stop (add S N api_key pin_param (v ∷ rest) w)

  abbrev pin_again : String → IpfsFile → Flow (Unit {0})
  pin_again cid file = if ltb 0 file.id then dropped (S.pin_add cid) else pure tt

  pub un_pin_db_with_pined : String → String → Flow (Unit {0})
  un_pin_db_with_pined api_key cid = do
    dropped (un_pin_object S N api_key cid)
    file ← λ w. or_no_file (get_ipfs_pin_file S N cid w)
    pin_again cid file
