-- ===== src/RpcHandler/Report/Tests.antt =====
-- The theorem on the rounds of pkg/handler/rpcHandler.go for two nodes and two rounds.
use chain_api.Common.{ℕ, zero, suc, String, true, false, refl, Option, none, some, [], ◌∷◌}
use chain_api.Common.Int.{pos}
use chain_api.Utils.{Jq, str, Floats}
use chain_api.RpcHandler.{RpcNode, ChainConfig, RpcHandler, new_rpc_handler, new_with_query}
use chain_api.RpcHandler.Probe.{Net}
use chain_api.RpcHandler.Forward.{Http}
use chain_api.RpcHandler.Report.{rounds}
use chain_api.RpcHandler.Report.Rounds.{Outcome, new_rpc_handler-Outcome}

-- A reply is its own result.
abbrev jq : Jq
jq = record {
  Json = String;
  Query = Unit;
  parse = λ s. some tt;
  unmarshal = λ s. some s;
  run = λ q json. str json ∷ [];
}

abbrev floats : Floats
floats = record {
  Float = Unit;
  parse_float = λ s. none;
  exceeds_max_uint64 = λ v. false;
  is_negative = λ v. false;
  truncate = λ v. 0;
}

abbrev reply : ℕ → Option (Option String)
reply zero = some (some "0x64")
reply (suc i) = some (some "0x10")

abbrev net : ℕ → Net
net i = record {
  is_url = λ url. true;
  do_request = λ req. reply i;
  dial_ws = λ url. none;
  subscription_id = λ s. none;
}

-- The gateway answers every report.
abbrev gateway : Http
gateway = record {
  canonical = λ s. s;
  split_host = λ s. some s;
  is_request = λ m url. true;
  do_request = λ req. some (record { status = 200; header = []; body = "" });
}

abbrev node : String → RpcNode
node address = record { name = ""; http = address; ws = ""; extra_write = "" }

abbrev config : ChainConfig
config = record {
  chain_name = "eth";
  chain_type = "evm";
  max_behind_blocks = pos 10;
  block_number_method = "eth_blockNumber";
  block_number_result_extractor = "jq";
  block_number_result_expression = ".result";
  nodes = node "http://a" ∷ node "http://b" ∷ [];
}

abbrev handler : RpcHandler Unit
handler = new_with_query jq config tt none

new_rpc_handler-Outcome_example :
    Outcome config 2 (rounds jq floats gateway "http://push" (net ∷ net ∷ []) (handler, []))
unfolding new_rpc_handler
new_rpc_handler-Outcome_example =
    new_rpc_handler-Outcome jq floats gateway "http://push" config handler (net ∷ net ∷ []) refl
