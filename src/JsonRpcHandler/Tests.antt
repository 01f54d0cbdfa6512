-- ===== src/JsonRpcHandler/Tests.antt =====
-- The theorems on `bind` of pkg/handler/jsonRpcHandler.go for a batch of two calls.
use chain_api.Common.{
  ℕ, String, true, false, ok, ◌≡◌, refl, Option, none, some, [], ◌∷◌, ◌*◌, ◌⊎◌, length, count_if,
}
use chain_api.Common.Int.{ℤ, pos}
use chain_api.Common.Strings.{trim_space, first_code, last_code}
use chain_api.Redis.Concrete.{mem_redis, mem_redis-IsRedis}
use chain_api.RateLimit.Limiter.{CacheKeys, check_in_white_list, erigon_count}
use chain_api.Utils.{is_in, find}
use chain_api.JsonRpc.{
  SingleRequest, Request, Codec, unmarshal, unmarshal_json, has_brackets, calls,
}
use chain_api.JsonRpcHandler.{
  JsonRpcHandler, bind, bind_req, bind_calls, bind_call, validate_req, black_methods_for,
}
use chain_api.JsonRpcHandler.Bind.{bind_lem, Accepts}
use chain_api.JsonRpcHandler.Bind.Erigon.{Adds, bind-erigon_count}
use chain_api.JsonRpcHandler.ClearInfo.{
  MapCodec, object, other, Fields, empty, field, lookup, change_rpc_address,
}
use chain_api.JsonRpcHandler.ClearInfo.Hidden.{Reaches, change_rpc_address-Reaches}
use chain_api.JsonRpcHandler.Http.{http}
use chain_api.JsonRpcHandler.Http.Upstream.{Passed, Untouched, http-Untouched}
use chain_api.Proxy.WebSocket.{Conns, UpstreamWebSocket}
use chain_api.JsonRpcHandler.Ws.{ws_message}
use chain_api.JsonRpcHandler.Ws.Refused.{Ends, ws_message-Ends}
use chain_api.Proxy.Concrete.{memory, fresh}

abbrev pub call : String → SingleRequest
call method = record { id = none; jsonrpc_version = "2.0"; method = method; params = "" }

-- Every batch is these two calls.
abbrev pub codec : Codec
codec = record {
  is_valid = λ s. true;
  unmarshal_batch = λ s. some (call "eth_getLogs" ∷ call "eth_chainId" ∷ []);
  unmarshal_single = λ s. some none;
  marshal_batch = λ calls. "[..]";
  marshal_single = λ c. "{}";
}

abbrev pub keys : CacheKeys
keys = record {
  Time = ℕ;
  day = λ t. t;
  erigon_eth_total_key = "erigon";
  chain_hour_key = λ c t. "chain_hour";
  chain_day_key = λ c t. "chain_day";
  total_quota_hour_key = λ t. "hour";
  total_quota_day_key = λ t. "day";
}

abbrev pub handler : JsonRpcHandler
handler = record {
  chain = record { id = 1; name = "eth" };
  http_black_methods = "eth_newFilter" ∷ [];
  ws_black_methods = [];
  just_white_methods = "trace_call" ∷ [];
  erigon_methods = "eth_getLogs" ∷ [];
  proxy = record {
    http_upstream = "http://node";
    ws_upstream = "ws://node";
    http_erigon_stream = "http://erigon";
    ws_erigon_upstream = "";
    cache_time = 12;
    chain_id = 1;
    cacheable_methods = "eth_chainId" ∷ [];
  };
  rate_limiter = record { whitelist = "vip" ∷ [] };
  is_dev = false;
}

abbrev pub db : String → Option ℤ
db key = none

abbrev answer : Request
answer = record {
  batch_call = some (call "eth_getLogs" ∷ call "eth_chainId" ∷ []);
  single_call = none;
  request_type = 2;
}

bind_lem_example :
    Accepts mem_redis keys codec handler "k" "[..]" handler.http_black_methods
      handler.erigon_methods answer
unfolding bind bind_req bind_calls bind_call validate_req black_methods_for unmarshal unmarshal_json
    has_brackets first_code trim_space last_code is_in find check_in_white_list erigon_count
bind_lem_example =
    (bind_lem mem_redis keys codec handler "k" "[..]" handler.http_black_methods
        handler.erigon_methods db).at_ok
      answer refl

-- One call of two is erigon's, and the counter grows by two.
bind-erigon_count_example :
    Adds mem_redis "erigon"
      (count_if (λ r. is_in r.method handler.erigon_methods) (calls answer) * length (calls answer))
      db
      (bind mem_redis keys codec handler "k" "[..]" handler.http_black_methods
        handler.erigon_methods db).1
unfolding bind bind_req bind_calls bind_call validate_req black_methods_for unmarshal unmarshal_json
    has_brackets first_code trim_space last_code is_in find check_in_white_list erigon_count
bind-erigon_count_example =
    (bind-erigon_count mem_redis mem_redis-IsRedis keys codec (λ n d. (_, refl)) handler "k" "[..]"
        handler.http_black_methods handler.erigon_methods db).at_ok
      answer refl

abbrev pub maps : MapCodec
maps = record { unmarshal_map = λ s. none; marshal_map = λ m. none }

-- A batch for an API key without quotas.
http-Untouched_example :
    Untouched mem_redis keys codec memory maps handler 7 7 "k" "/eth/v1/k" fresh
      (http mem_redis keys codec memory maps handler 7 7 "k" "/eth/v1/k"
        (some "[..]")
        (db, fresh)).1
    ⊎ ((raw : String) × (some "[..]" ≡ some raw)
        × Passed mem_redis keys codec memory maps handler 7 7 "k" "/eth/v1/k" raw db)
http-Untouched_example =
    http-Untouched mem_redis keys codec memory maps handler 7 7 "k" "/eth/v1/k" (some "[..]") db
      fresh

abbrev node_data : Fields
node_data = field "tx_index" (other "on") (field "rpc_address" (other "tcp://10.0.0.7:26657") empty)

abbrev status : Fields
status =
    field "result"
      (object (field "node_info" (object (field "other" (object node_data) empty)) empty)) empty

change_rpc_address-Reaches_example :
    (cleared : Fields) × Reaches (change_rpc_address status) cleared
    × (lookup "rpc_address" cleared ≡ some (other ""))
unfolding lookup
change_rpc_address-Reaches_example =
    change_rpc_address-Reaches status node_data (other "tcp://10.0.0.7:26657")
      (_, _, refl, refl, refl) refl

abbrev pub socket : UpstreamWebSocket memory
socket = record {
  client = record { closed = false; channel_closed = false; received = [] };
  requests = [];
  request_id = pos 0;
  world = fresh;
}

abbrev pub conns : Conns memory
conns = record { write = λ msg w. (ok tt, w); write_erigon = none }

-- A message of a client whose API key has no quotas, when nobody writes to it any more.
ws_message-Ends_example :
    Ends mem_redis keys codec memory
      (λ e. e.message)
      handler
      conns
      "k"
      false
      7
      7
      socket
      (ws_message mem_redis keys codec memory
        (λ e. e.message)
        handler
        conns
        "k"
        false
        7
        7
        "[..]"
        (db, socket))
      (bind mem_redis keys codec handler "k" "[..]" handler.ws_black_methods handler.erigon_methods
        db)
ws_message-Ends_example =
    ws_message-Ends mem_redis keys codec memory (λ e. e.message) handler conns "k" false 7 7 "[..]"
      db socket
