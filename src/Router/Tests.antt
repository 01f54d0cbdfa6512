-- ===== src/Router/Tests.antt =====
-- The router of router/router.go for an app with one tron chain.
use chain_api.Common.{String, false, refl, none, some, [], ◌∷◌}
use chain_api.Common.Int.{pos}
use chain_api.Utils.{Jq, str}
use chain_api.RpcHandler.{ChainConfig, new_rpc_handler}
use chain_api.Config.{RpcConfig}
use chain_api.InitApp.App.{App, code}
use chain_api.InitApp.Startup.{start}
use chain_api.Router.{new_router}
use chain_api.Router.Served.{AllServed, new_router-Served}

abbrev jq : Jq
jq = record {
  Json = String;
  Query = Unit;
  parse = λ s. some tt;
  unmarshal = λ s. some s;
  run = λ q json. str json ∷ [];
}

abbrev app : App
app = record {
  upstream = λ c. record { http = "http://node"; ws = "ws://node" };
  eth_erigon = record { http = "http://erigon"; ws = "ws://erigon" };
  constant = λ c. record { id = code c; name = "chain" };
  rate_limiter = record { whitelist = [] };
  is_development = false;
  http_handler = λ c. none;
  ws_handler = λ c. none;
}

abbrev trx : ChainConfig
trx = record {
  chain_name = "trx";
  chain_type = "tron";
  max_behind_blocks = pos 40;
  block_number_method = "eth_blockNumber";
  block_number_result_extractor = "jq";
  block_number_result_expression = ".result";
  nodes = [];
}

abbrev config : RpcConfig
config = record { api_key = "key"; health_pushgateway = ""; chains = trx ∷ [] }

new_router-Served_example :
    AllServed String app "key" (new_router jq (start app) (some "ipfs") (some config))
unfolding new_rpc_handler
new_router-Served_example = new_router-Served jq app "ipfs" (some config) ((_, refl), tt)
