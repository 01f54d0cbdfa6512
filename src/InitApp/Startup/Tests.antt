-- ===== src/InitApp/Startup/Tests.antt =====
-- The handlers that the init functions leave in an `App` without addresses.
use chain_api.Common.{ℕ, true, false, none, some, []}
use chain_api.InitApp.App.{code, solana, App}
use chain_api.JsonRpc.{SingleRequest, Codec}
use chain_api.JsonRpcHandler.{JsonRpcHandler}
use chain_api.RateLimit.Limiter.{CacheKeys}
use chain_api.InitApp.Startup.{start}
use chain_api.InitApp.Startup.Handlers.{HasHandler, start_lem}

abbrev app : App
app = record {
  upstream = λ c. record { http = "http://node"; ws = "ws://node" };
  eth_erigon = record { http = "http://erigon"; ws = "ws://erigon" };
  constant = λ c. record { id = code c; name = "chain" };
  rate_limiter = record { whitelist = [] };
  is_development = false;
  http_handler = λ c. none;
  ws_handler = λ c. none;
}

start_lem_example : HasHandler app (start app) solana
start_lem_example = start_lem app solana

abbrev codec : Codec
codec = record {
  is_valid = λ s. true;
  unmarshal_batch = λ s. none;
  unmarshal_single = λ s. some none;
  marshal_batch = λ calls. "[]";
  marshal_single = λ c. "{}";
}

abbrev keys : CacheKeys
keys = record {
  Time = ℕ;
  day = λ t. t;
  erigon_eth_total_key = "erigon";
  chain_hour_key = λ c t. "chain_hour";
  chain_day_key = λ c t. "chain_day";
  total_quota_hour_key = λ t. "hour";
  total_quota_day_key = λ t. "day";
}

-- A POST of the method, and a GET of it.
abbrev dial : SingleRequest
dial = record { id = none; jsonrpc_version = "2.0"; method = "dial_seeds"; params = "[]" }
