-- ===== src/Config/Settings.antt =====
-- config/config.go: `Config` and `LoadConfig`. The package viper is a parameter, and so is the
-- configuration of Redis, a type from outside the repository.
use chain_api.Common.{String, Bool, Option, none, some, List, Result, ok, err}
use chain_api.Common.Int.{ℤ}
use chain_api.InitApp.App.{ChainName, Upstream}
use chain_api.Ipfs.Handler.{IpfsCluster}

pub record Log : Type 0 where
  pub level : String
  pub is_development : Bool
  pub log_file : String

pub record Mysql : Type 0 where
  pub database : String
  pub host : String
  pub port : ℤ
  pub user : String
  pub password : String

-- `Config`; Ethereum has a second pair of upstreams, for erigon.
pub record Config (RedisConf : Type 0) : Type 0 where
  pub listen : String
  pub upstream : ChainName → Upstream
  pub eth_erigon : Upstream
  pub log : Log
  pub mysql : Mysql
  pub ipfs_cluster : IpfsCluster
  pub redis : List RedisConf

pub record Viper : Type 1 where
  pub RedisConf : Type 0
  pub File : Type 0
  -- `ReadInConfig` of a file of type toml, and `Unmarshal` into an empty `Config`
  pub read_in_config : String → Option File
  pub unmarshal : File → Option (Config RedisConf)

pub data ConfigError : Type 0 where
  not_read not_unmarshalled : ConfigError

abbrev unmarshalled : {A : Type 0} → Option A → Result ConfigError A
unmarshalled none = err not_unmarshalled
unmarshalled (some cfg) = ok cfg

unfoldable pub load_config : (V : Viper) → String → Result ConfigError (Config V.RedisConf)
load_config V config_file = elim (V.read_in_config config_file) [
  | none ↦ err not_read
  | some file ↦ unmarshalled (V.unmarshal file)
]
