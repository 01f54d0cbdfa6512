-- ===== src/InitApp/NewApp.antt =====
-- pkg/initapp/initApp.go: `NewApp`, from the names of two files to a server that is ready to listen.
-- What it calls outside the repository is a parameter: viper, TOML, gorm, jq, the list of API keys in
-- Redis, the reading of a file, the constants of the chains, and whether an IPFS endpoint is an address.
pub mod Ends
mod Tests
use chain_api.Common.{
  String, Bool, true, false, Option, none, some, List, Result, ok, err, Stop, error, panic, ◌==◌,
  if◌then◌else◌,
}
use chain_api.RateLimit.Limiter.{RateLimiter}
use chain_api.Utils.{Jq}
use chain_api.JsonRpcHandler.{Chain}
use chain_api.Config.{RpcConfig, Toml, LoadError, load_rpc_config}
use chain_api.Config.Settings.{Config, Viper, ConfigError, load_config}
use chain_api.Config.Logger.{Logger, new_logger}
use chain_api.Database.{Gorm, Pool, new_db}
use chain_api.Ipfs.Handler.{IpfsHandler, new_ipfs_handler}
use chain_api.Router.{Route, new_router}
use chain_api.InitApp.App.{ChainName, App}
use chain_api.InitApp.Startup.{start}

pub record Machine : Type 1 where
  pub viper : Viper
  pub toml : Toml
  pub gorm : Gorm
  pub jq : Jq
  -- `GetApiKeysWhitelist` of the Redis that the configuration names; `none` is an error
  pub api_keys_whitelist : List viper.RedisConf → Option (List String)
  pub read_file : String → Option String
  pub is_log_pattern : Bool
  pub constant : ChainName → Chain
  pub ipfs_constant : Chain
  pub is_endpoint : String → Bool

-- Why the process ends in `NewApp`: a fatal message of the log, or a panic.
pub data StartError (DbError : Type 0) : Type 0 where
  no_config : ConfigError → StartError DbError
  no_whitelist no_rpc_file panicked : StartError DbError
  no_database : DbError → StartError DbError
  bad_rpc_config : LoadError → StartError DbError

-- `App` with its routes and the address of the push gateway, which is a variable of pkg/prometheus.
pub record Server (RedisConf Db Query : Type 0) : Type 0 where
  pub config : Config RedisConf
  pub rpc_config : Option RpcConfig
  pub logger : Logger
  pub db : Db × Pool
  pub app : App
  pub pushgateway_base : String
  pub routes : List (Route IpfsHandler Query)

infixl 10 ◌>>=◌
abbrev pub ◌>>=◌ : {E A B : Type 0} → Result E A → (A → Result E B) → Result E B
ok a >>= f = f a
err e >>= f = err e

-- A fatal message for an error, and for a missing value.
abbrev pub or_fatal : {E E' A : Type 0} → (E → E') → Result E A → Result E' A
or_fatal f (ok a) = ok a
or_fatal f (err e) = err (f e)

abbrev pub or_exit : {E A : Type 0} → E → Option A → Result E A
or_exit e (some a) = ok a
or_exit e none = err e

abbrev pub rpc_error : {E : Type 0} → Stop LoadError → StartError E
rpc_error (error e) = bad_rpc_config e
rpc_error panic = panicked

abbrev pub loaded :
    {E : Type 0} → Result (Stop LoadError) RpcConfig → Result (StartError E) (Option RpcConfig)
loaded (ok config) = ok (some config)
loaded (err e) = err (rpc_error e)

pub new_rate_limiter : List String → RateLimiter
new_rate_limiter whitelist = record { whitelist = whitelist }

-- `PushgatewayBase`, with its value from pkg/prometheus/push.go where no file is given.
abbrev pub pushgateway_base_of : Option RpcConfig → String
pushgateway_base_of none = "http://localhost:9091"
pushgateway_base_of (some config) = config.health_pushgateway

module _ (M : Machine) where
  open M use {viper, toml, gorm, jq, api_keys_whitelist, read_file, constant, is_endpoint}

  abbrev pub rpc_config_of : Option String → Result (StartError gorm.Error) (Option RpcConfig)
  rpc_config_of none = err no_rpc_file
  rpc_config_of (some text) = loaded (load_rpc_config toml text)

  -- The block on `rpcConfigFile`.
  pub read_rpc_config : String → Result (StartError gorm.Error) (Option RpcConfig)
  read_rpc_config rpc_config_file =
      if rpc_config_file == "" then ok none else rpc_config_of (read_file rpc_config_file)

  -- The `App` that the init functions are given.
  pub initial_app : Config viper.RedisConf → List String → App
  unfolding new_rate_limiter
  initial_app cfg whitelist = record {
    upstream = cfg.upstream;
    eth_erigon = cfg.eth_erigon;
    constant = constant;
    rate_limiter = new_rate_limiter whitelist;
    is_development = cfg.log.is_development;
    http_handler = λ c. none;
    ws_handler = λ c. none;
  }

  -- `initIPFSClient`
  pub init_ipfs_client : Config viper.RedisConf → List String → Option IpfsHandler
  unfolding new_rate_limiter
  init_ipfs_client cfg whitelist =
      new_ipfs_handler is_endpoint M.ipfs_constant cfg.ipfs_cluster (new_rate_limiter whitelist)
        cfg.log.is_development

  pub new_app :
      String → String → Result (StartError gorm.Error) (Server viper.RedisConf gorm.Db jq.Query)
  unfolding read_rpc_config initial_app init_ipfs_client
  new_app config_file rpc_config_file = do
    cfg ← or_fatal no_config (load_config viper config_file)
    whitelist ← or_exit no_whitelist (api_keys_whitelist cfg.redis)
    db ← or_fatal no_database (new_db gorm cfg)
    rpc_config ← read_rpc_config rpc_config_file
    ipfs ← or_exit panicked (init_ipfs_client cfg whitelist)
    routes ←
        or_exit panicked (new_router jq (start (initial_app cfg whitelist)) (some ipfs) rpc_config)
    ok (record {
      config = cfg;
      rpc_config = rpc_config;
      logger = new_logger M.is_log_pattern cfg.log;
      db = db;
      app = start (initial_app cfg whitelist);
      pushgateway_base = pushgateway_base_of rpc_config;
      routes = routes;
    })
