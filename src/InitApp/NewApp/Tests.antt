-- ===== src/InitApp/NewApp/Tests.antt =====
-- `NewApp` of pkg/initapp/initApp.go on a machine whose files and services answer, with one tron chain.
use chain_api.Common.{String, true, false, ◌≡◌, refl, some, List, [], ◌∷◌, ok}
use chain_api.Common.Int.{pos}
use chain_api.Common.Text.{decimal}
use chain_api.Utils.{str}
use chain_api.RpcHandler.{ChainConfig, new_rpc_handler}
use chain_api.Config.{
  RpcConfig, apply_chain_type, load_chain, load_chains, load_rpc_config, value_at,
}
use chain_api.Config.Settings.{Config, load_config}
use chain_api.Database.{pool, new_db, mysql_config}
use chain_api.Ipfs.Handler.{new_ipfs_handler}
use chain_api.InitApp.App.{code}
use chain_api.InitApp.NewApp.{Machine, Server, read_rpc_config, init_ipfs_client, new_app}
use chain_api.InitApp.NewApp.Ends.{Ended, IsServer, new_app-Ended, new_app-IsServer}

abbrev cfg : Config String
cfg = record {
  listen = ":8080";
  upstream = λ c. record { http = "http://node"; ws = "ws://node" };
  eth_erigon = record { http = "http://erigon"; ws = "ws://erigon" };
  log = record { level = "info"; is_development = false; log_file = "" };
  mysql = record { database = "chain"; host = "db"; port = pos 3306; user = "u"; password = "p" };
  ipfs_cluster = record { schemes = "http"; host = "ipfs"; port = 9094 };
  redis = "redis" ∷ [];
}

-- The file of the chains: the API key, and a chain with its type.
abbrev entries : List (String × String)
entries = ("apikey", "key") ∷ ("trx", "tron") ∷ []

abbrev machine : Machine
machine = record {
  viper = record {
    RedisConf = String;
    File = String;
    read_in_config = λ name. some name;
    unmarshal = λ file. some cfg;
  };
  toml = record {
    Value = String;
    unmarshal = λ text. some entries;
    as_string = λ v. some v;
    encode = λ v. some v;
    decode = λ text config. some (record config { chain_type = text });
  };
  gorm = record {
    Db = String;
    Error = String;
    opened = λ config verbose skip. ok config.addr;
    sql_db = λ db. ok tt;
  };
  jq = record {
    Json = String;
    Query = Unit;
    parse = λ s. some tt;
    unmarshal = λ s. some s;
    run = λ q json. str json ∷ [];
  };
  api_keys_whitelist = λ redis. some ("vip" ∷ []);
  read_file = λ name. some "";
  is_log_pattern = true;
  constant = λ c. record { id = code c; name = "chain" };
  ipfs_constant = record { id = 13; name = "ipfs" };
  is_endpoint = λ address. true;
}

abbrev trx : ChainConfig
trx = record {
  chain_name = "trx";
  chain_type = "tron";
  max_behind_blocks = pos 40;
  block_number_method = "eth_blockNumber";
  block_number_result_extractor = "jq";
  block_number_result_expression = ".result";
  nodes = [];
}

abbrev chains : RpcConfig
chains = record { api_key = "key"; health_pushgateway = ""; chains = trx ∷ [] }

new_app-Ended_example : Ended machine "app.toml" "rpc.toml" (new_app machine "app.toml" "rpc.toml")
new_app-Ended_example = new_app-Ended machine "app.toml" "rpc.toml"

new_app-IsServer_example :
    (s : Server String String (Unit {0})) × (new_app machine "app.toml" "rpc.toml" ≡ ok s)
    × IsServer machine "app.toml" "rpc.toml" cfg ("vip" ∷ []) (some chains) s
unfolding load_config new_db mysql_config read_rpc_config load_rpc_config load_chains load_chain
    apply_chain_type value_at init_ipfs_client new_ipfs_handler new_rpc_handler decimal
new_app-IsServer_example =
    new_app-IsServer machine "app.toml" "rpc.toml" cfg ("vip" ∷ []) ("db:3306", pool) (some chains)
      _ (refl, refl, refl) refl refl ((_, refl), tt)
