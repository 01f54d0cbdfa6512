-- ===== src/RpcHandler/Check/Tests.antt =====
-- The theorems on the rounds of checks of pkg/handler/rpcHandler.go for three nodes.
use chain_api.Common.{
  ℕ, zero, suc, String, true, false, ◌≡◌, ◌≢◌, refl, Option, none, some, List, [], ◌∷◌, get_elem?,
  All, arith, ◌⊎◌, ◌==◌, if◌then◌else◌, not, ◌&&◌, ◌||◌,
}
use chain_api.Common.Int.{to_int64, wrap_int64, pos, ◌≤ℤ◌, ◌-ℤ◌}
use chain_api.Common.Strings.{has_prefix, trim_prefix}
use chain_api.Utils.{Jq, str, Floats, jq_query_first, to_uint64, parse_uint}
use chain_api.RpcHandler.{
  RpcNode, ChainConfig, Node, RpcHandler, first_with, get_healthy_node, get_healthy_ws_node,
}
use chain_api.RpcHandler.Probe.{Net, get_block_number_from_http_json_rpc}
use chain_api.RpcHandler.Check.{
  Numbers, ws, check_nodes_healthy, finish_check, http_and_ws_numbers, probe_http, max_of, max_from,
  threshold, update_nodes, set_health, second_address, probe_all,
}
use chain_api.RpcHandler.Check.Health.{finish_check-error_count}
use chain_api.RpcHandler.Check.Threshold.{AreBlockNumbers}
use chain_api.RpcHandler.Check.Serving.{serving_node-within, some_node_serves}

-- A reply is its own result.
abbrev jq : Jq
jq = record {
  Json = String;
  Query = Unit;
  parse = λ s. some tt;
  unmarshal = λ s. some s;
  run = λ q json. str json ∷ [];
}

abbrev floats : Floats
floats = record {
  Float = Unit;
  parse_float = λ s. none;
  exceeds_max_uint64 = λ v. false;
  is_negative = λ v. false;
  truncate = λ v. 0;
}

-- The first node is five blocks behind the second, and the third answers nothing.
abbrev reply : ℕ → Option (Option String)
reply zero = some (some "0x5f")
reply (suc zero) = some (some "0x64")
reply (suc (suc i)) = none

abbrev net : ℕ → Net
net i = record {
  is_url = λ url. true;
  do_request = λ req. reply i;
  dial_ws = λ url. none;
  subscription_id = λ s. none;
}

abbrev node : String → RpcNode
node address = record { name = address; http = address; ws = ""; extra_write = "" }

abbrev config : ChainConfig
config = record {
  chain_name = "eth";
  chain_type = "evm";
  max_behind_blocks = pos 10;
  block_number_method = "eth_blockNumber";
  block_number_result_extractor = "jq";
  block_number_result_expression = ".result";
  nodes = node "a" ∷ node "b" ∷ node "c" ∷ [];
}

abbrev fresh : RpcNode → Node
fresh n = record { rpc_node = n; http_health = true; ws_health = false; extra_write_health = false }

abbrev handler : RpcHandler (Unit {0})
handler = record {
  config = config;
  nodes = fresh (node "a") ∷ fresh (node "b") ∷ fresh (node "c") ∷ [];
  node_error_counts = 0 ∷ 0 ∷ 0 ∷ [];
  jq_query = tt;
  tron_extra_write_jq_query = none;
}

abbrev numbers : List Numbers
numbers = (pos 95, pos 0) ∷ (pos 100, pos 0) ∷ (pos 0, pos 0) ∷ []

round :
    probe_all (λ i. http_and_ws_numbers jq floats (net i) handler) 0 handler.nodes ≡ some numbers
unfolding probe_all http_and_ws_numbers probe_http get_block_number_from_http_json_rpc
    jq_query_first to_uint64 parse_uint to_int64 has_prefix trim_prefix
round = refl

are : AreBlockNumbers numbers
are = (
  ((omega arith, omega arith), (omega arith, omega arith)),
  (
    ((omega arith, omega arith), (omega arith, omega arith)),
    (((omega arith, omega arith), (omega arith, omega arith)), tt),
  ),
)

-- The first node serves: it is five blocks behind, and ten are allowed.
serving_node-within_example :
    (check_nodes_healthy jq floats net handler ≡ some (finish_check ws handler numbers))
    × ((i : ℕ) × (p : Numbers) × (get_elem? (finish_check ws handler numbers).nodes i
          ≡ some (fresh (node "a")))
        × (get_elem? numbers i ≡ some p)
        × All (λ q. (q.0 -ℤ pos 10 ≤ℤ p.0) × (q.1 -ℤ pos 10 ≤ℤ p.0)) numbers)
unfolding finish_check get_healthy_node threshold update_nodes set_health wrap_int64 to_int64 max_of
    max_from ◌-ℤ◌ first_with
serving_node-within_example =
    serving_node-within jq floats net handler numbers round are (omega arith) (omega arith)
      (fresh (node "a")) refl

some_node_serves_example :
    (h' : RpcHandler (Unit {0})) × (check_nodes_healthy jq floats net handler ≡ some h')
    × ((get_healthy_node h' ≢ none) ⊎ (get_healthy_ws_node h' ≢ none))
unfolding get_healthy_ws_node
some_node_serves_example =
    some_node_serves jq floats net handler numbers round are (omega arith) (omega arith) (λ e. cc)

-- The third node has an HTTP address only.
finish_check-error_count_example :
    (n : Node) × (get_elem? (finish_check ws handler numbers).nodes 2 ≡ some n)
    × (n.rpc_node ≡ node "c")
    × (get_elem? (finish_check ws handler numbers).node_error_counts 2
        ≡ some (
            if not ("c" == "") && not n.http_health || not ("" == "") && not n.ws_health
            then 1
            else 0))
unfolding second_address
finish_check-error_count_example =
    finish_check-error_count ws handler numbers 2 (fresh (node "c")) (pos 0, pos 0) 0 refl refl refl
