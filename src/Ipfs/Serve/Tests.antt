-- ===== src/Ipfs/Serve/Tests.antt =====
-- The checks of pkg/handler/ipfs_proxy.go for an upload.
use chain_api.Common.{ℕ, String, false, Option, none, [], ◌∷◌}
use chain_api.Common.Int.{ℤ}
use chain_api.Redis.Concrete.{mem_redis}
use chain_api.RateLimit.Limiter.{CacheKeys}
use chain_api.Ipfs.Concrete.{calm, names, forwarded, calm-IsQuiet}
use chain_api.Ipfs.Handler.{IpfsHandler, Request, Binder}
use chain_api.Ipfs.Serve.{Times, proxy}
use chain_api.Ipfs.Serve.Asked.{Asked, proxy-Asked}

abbrev keys : CacheKeys
keys = record {
  Time = ℕ;
  day = λ t. t;
  erigon_eth_total_key = "erigon";
  chain_hour_key = λ c t. "chain_hour";
  chain_day_key = λ c t. "chain_day";
  total_quota_hour_key = λ t. "hour";
  total_quota_day_key = λ t. "day";
}

abbrev binder : Binder
binder = record {
  encode = λ q. q;
  get = λ q key. "";
  wrap_with_directory = λ q. false;
  pin_ls_arg = λ q. none;
  pin_arg = λ q. none;
  pin_rm_arg = λ q. none;
  update_pin_param = λ q. none;
  unmarshal_add = λ s r. (r, false);
}

abbrev handler : IpfsHandler
handler = record {
  json_handler = record {
    chain = record { id = 9; name = "ipfs" };
    http_black_methods = [];
    ws_black_methods = [];
    just_white_methods = [];
    erigon_methods = [];
    proxy = record {
      http_upstream = "";
      ws_upstream = "";
      http_erigon_stream = "";
      ws_erigon_upstream = "";
      cache_time = 0;
      chain_id = 0;
      cacheable_methods = [];
    };
    rate_limiter = record { whitelist = [] };
    is_dev = false;
  };
  endpoint = "http://ipfs:5001";
}

abbrev times : Times ℕ
times = record { limit_now = 7; limit_day = 7; hook_now = 7; hook_day = 7 }

abbrev upload : Request
upload = record {
  method = "POST";
  path = "/ipfs/0123456789abcdef0123456789abcdef/api/v0/add";
  raw_query = "";
  header = ("Content-Length", "30" ∷ []) ∷ [];
  body = "";
}

abbrev db : String → Option ℤ
db key = none

abbrev up_key : String → ℕ → ℕ → String
up_key k c t = "up"

abbrev down_key : String → ℕ → ℕ → String
down_key k c t = "down"

proxy-Asked_example :
    Asked mem_redis keys calm names binder up_key down_key handler times upload forwarded db []
      (proxy mem_redis keys calm names binder up_key down_key handler times upload (db, [])).1.1
proxy-Asked_example =
    proxy-Asked mem_redis keys calm names binder up_key down_key handler times upload forwarded
      calm-IsQuiet db []
