-- ===== src/Config.antt =====
-- config/config.go: `LoadRPCConfig`, the configuration of the gateway's chains.
-- The TOML package is a parameter. A Go map has no order: the entries come in the order in which the
-- loop ranges over them.
pub mod Order
pub mod Chains
pub mod Settings
pub mod Logger
mod Tests
use chain_api.Common.{
  ℕ, String, Bool, true, false, Option, none, some, List, [], ◌∷◌, Result, ok, err, Stop, error,
  panic, ◌==◌, ◌||◌, if◌then◌else◌,
}
use chain_api.Common.Int.{ℤ, pos, eq_ℤ}
use chain_api.RpcHandler.{ChainConfig}

pub record RpcConfig : Type 0 where
  pub api_key : String
  pub health_pushgateway : String
  pub chains : List ChainConfig

pub record Toml : Type 1 where
  pub Value : Type 0
  -- `toml.Unmarshal` into a map: its entries, each key once
  pub unmarshal : String → Option (List (String × Value))
  -- the type assertion `.(string)`
  pub as_string : Value → Option String
  -- `Encode`
  pub encode : Value → Option String
  -- `toml.Unmarshal` into a struct that has its default values
  pub decode : String → ChainConfig → Option ChainConfig

pub data LoadError : Type 0 where
  bad_toml bad_value bad_chain : LoadError
  unsupported_chain_type : String → LoadError

abbrev pub default_max_behind_blocks : ℤ
default_max_behind_blocks = pos 10

abbrev default_config : String → ChainConfig
default_config name = record {
  chain_name = name;
  chain_type = "evm";
  max_behind_blocks = default_max_behind_blocks;
  block_number_method = "";
  block_number_result_extractor = "jq";
  block_number_result_expression = ".result";
  nodes = [];
}

abbrev with_method : String → ChainConfig → ChainConfig
with_method method cfg = record cfg { block_number_method = method }

-- The `switch` on the chain's type.
unfoldable pub apply_chain_type : ChainConfig → Result LoadError ChainConfig
apply_chain_type cfg =
    if cfg.chain_type == "evm"
    then ok (with_method "eth_blockNumber" cfg)
    else if cfg.chain_type == "svm"
    then ok (with_method "getBlockHeight" cfg)
    else if cfg.chain_type == "aptos"
    then ok (record cfg { block_number_result_expression = ".ledger_version" })
    else if cfg.chain_type == "tron"
    then ok (record cfg {
      block_number_method = "eth_blockNumber";
      max_behind_blocks =
          if eq_ℤ cfg.max_behind_blocks default_max_behind_blocks
          then pos 40
          else cfg.max_behind_blocks;
    })
    else err (unsupported_chain_type cfg.chain_type)

-- The value at a key, as a map has it.
unfoldable pub value_at : {V : Type 0} → String → List (String × V) → Option V
value_at key [] = none
value_at key ((k, v) ∷ rest) = let later = value_at key rest in if k == key then some v else later

abbrev pub is_setting : String → Bool
is_setting key = key == "apikey" || key == "health_pushgateway"

-- What one turn of the loop gives: `none` where it goes on.
abbrev combine :
    Result LoadError (Option ChainConfig)
    → Result LoadError (List ChainConfig)
    → Result LoadError (List ChainConfig)
combine (err e) later = err e
combine (ok none) later = later
combine (ok (some cfg)) (err e) = err e
combine (ok (some cfg)) (ok later) = ok (cfg ∷ later)

module _ (T : Toml) where
  open T use {Value, unmarshal, as_string, encode, decode}

  abbrev decoded : Option ChainConfig → Result LoadError (Option ChainConfig)
  decoded none = err bad_chain
  decoded (some cfg) = elim (apply_chain_type cfg) [ err e ↦ err e | ok cfg' ↦ ok (some cfg') ]

  -- the body of the loop
  unfoldable pub load_chain : String → Value → Result LoadError (Option ChainConfig)
  unfolding apply_chain_type
  load_chain name value = if is_setting name then ok none else elim (encode value) [
    | none ↦ err bad_value
    | some text ↦ decoded (decode text (default_config name))
  ]

  unfoldable pub load_chains : List (String × Value) → Result LoadError (List ChainConfig)
  unfolding load_chain
  load_chains [] = ok []
  load_chains ((name, value) ∷ rest) = combine (load_chain name value) (load_chains rest)

  abbrev pub text_of : Option Value → Option String
  text_of none = none
  text_of (some v) = as_string v

  -- `rpcConfig.HealthPushgateway`: empty without the key, and a panic for a value that is no text
  abbrev pub pushgateway_of : Option Value → Option String
  pushgateway_of none = some ""
  pushgateway_of (some v) = as_string v

  abbrev with_chains :
      String → String → Result LoadError (List ChainConfig) → Result (Stop LoadError) RpcConfig
  with_chains api_key gateway (err e) = err (error e)
  with_chains api_key gateway (ok chains) =
      ok (record { api_key = api_key; health_pushgateway = gateway; chains = chains })

  abbrev pub load_table : List (String × Value) → Result (Stop LoadError) RpcConfig
  load_table config = elim (text_of (value_at "apikey" config)) [
    | none ↦ err panic
    | some api_key ↦ elim (pushgateway_of (value_at "health_pushgateway" config)) [
      | none ↦ err panic
      | some gateway ↦ with_chains api_key gateway (load_chains config)
    ]
  ]

  unfoldable pub load_rpc_config : String → Result (Stop LoadError) RpcConfig
  unfolding value_at load_chains
  load_rpc_config text = elim (unmarshal text) [
    | none ↦ err (error bad_toml)
    | some config ↦ load_table config
  ]
