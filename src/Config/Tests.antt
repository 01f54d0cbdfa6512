-- ===== src/Config/Tests.antt =====
-- `LoadRPCConfig` of config/config.go on small files: the file of config/config_test.go, which has no
-- API key, and one with two chains.
use mathlib.Core.List.{Permᴰ}
use chain_api.Common.{String, ◌≡◌, refl, ◌↔◌, ◌⊎◌, none, some, List, [], ◌∷◌, All, err, panic}
use chain_api.Common.Int.{pos}
use chain_api.RpcHandler.{ChainConfig}
use chain_api.Config.{
  Toml, load_chains, load_rpc_config, apply_chain_type, load_chain, text_of, pushgateway_of,
  value_at,
}
use chain_api.Config.Order.{Agree, load_chains-Agree}
use chain_api.Config.Chains.{
  IsSupported, chain_keys, load_rpc_config-IsSupported, load_rpc_config-panic,
}

-- Every value is a text, and a chain's value is its type.
abbrev toml : List (String × String) → Toml
toml entries = record {
  Value = String;
  unmarshal = λ text. some entries;
  as_string = λ v. some v;
  encode = λ v. some v;
  decode = λ text cfg. some (record cfg { chain_type = text });
}

abbrev of_test : List (String × String)
of_test = ("lisk", "evm") ∷ []

abbrev two_chains : List (String × String)
two_chains = ("trx", "tron") ∷ ("apikey", "k") ∷ ("sui", "aptos") ∷ []

abbrev trx : ChainConfig
trx = record {
  chain_name = "trx";
  chain_type = "tron";
  max_behind_blocks = pos 40;
  block_number_method = "eth_blockNumber";
  block_number_result_extractor = "jq";
  block_number_result_expression = ".result";
  nodes = [];
}

abbrev sui : ChainConfig
sui = record {
  chain_name = "sui";
  chain_type = "aptos";
  max_behind_blocks = pos 10;
  block_number_method = "";
  block_number_result_extractor = "jq";
  block_number_result_expression = ".ledger_version";
  nodes = [];
}

load_chains-Agree_example :
    Agree
      (load_chains (toml two_chains) (("trx", "tron") ∷ ("sui", "aptos") ∷ []))
      (load_chains (toml two_chains) (("sui", "aptos") ∷ ("trx", "tron") ∷ []))
load_chains-Agree_example = load_chains-Agree (toml two_chains) (Permᴰ.swap refl refl)

load_rpc_config-IsSupported_example : (2 ≡ chain_keys two_chains) × All IsSupported (trx ∷ sui ∷ [])
unfolding load_rpc_config load_chains load_chain apply_chain_type value_at
load_rpc_config-IsSupported_example =
    load_rpc_config-IsSupported (toml two_chains) "" two_chains
      (record { api_key = "k"; health_pushgateway = ""; chains = trx ∷ sui ∷ [] }) refl refl

load_rpc_config-panic_example : (load_rpc_config (toml of_test) "" ≡ err panic) ↔ (
    (text_of (toml of_test) (value_at "apikey" of_test) ≡ none)
    ⊎ (pushgateway_of (toml of_test) (value_at "health_pushgateway" of_test) ≡ none))
load_rpc_config-panic_example = load_rpc_config-panic (toml of_test) "" of_test refl
