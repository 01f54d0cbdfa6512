-- ===== src/RpcHandler.antt =====
-- pkg/handler/rpcHandler.go: the RPC gateway of one configured chain, its nodes and their health.
-- The health flags are written by one goroutine and read by the handlers; a handler reads one flag
-- at a time, so it sees the flags of some state between two rounds, or of a round that is under way.
pub mod Probe
pub mod Check
pub mod Forward
pub mod Report
use chain_api.Common.{
  ℕ, zero, String, Bool, true, false, Option, none, some, List, [], ◌∷◌, map, Result, ok, err, ◌==◌,
  not, if◌then◌else◌,
}
use chain_api.Common.Int.{ℤ}
use chain_api.Utils.{Jq}

-- config/config.go
pub record RpcNode : Type 0 where
  pub name : String
  pub http : String
  pub ws : String
  pub extra_write : String

pub record ChainConfig : Type 0 where
  pub chain_name : String
  pub chain_type : String
  pub max_behind_blocks : ℤ
  pub block_number_method : String
  pub block_number_result_extractor : String
  pub block_number_result_expression : String
  pub nodes : List RpcNode

-- `rpcNode`, with the node that it embeds
pub record Node : Type 0 where
  pub rpc_node : RpcNode
  pub http_health : Bool
  pub ws_health : Bool
  pub extra_write_health : Bool

pub record RpcHandler (Query : Type 0) : Type 0 where
  pub config : ChainConfig
  pub nodes : List Node
  pub node_error_counts : List ℕ
  pub jq_query : Query
  pub tron_extra_write_jq_query : Option Query

pub data NewError : Type 0 where
  unsupported_extractor bad_expression bad_tron_expression : NewError

-- A node is taken to be healthy at first for each address that it has.
pub new_node : RpcNode → Node
new_node n = record {
  rpc_node = n;
  http_health = not (n.http == "");
  ws_health = not (n.ws == "");
  extra_write_health = not (n.extra_write == "");
}

module _ (J : Jq) where
  open J use {Query, parse}

  new_with_query : ChainConfig → Query → Option Query → RpcHandler Query
  new_with_query config query tron_query = record {
    config = config;
    nodes = map new_node config.nodes;
    node_error_counts = map (λ _. 0) config.nodes;
    jq_query = query;
    tron_extra_write_jq_query = tron_query;
  }

  -- The state that `NewRpcHandler` returns, before the first round of checks.
  unfoldable pub new_rpc_handler : ChainConfig → Result NewError (RpcHandler Query)
  unfolding new_with_query
  new_rpc_handler config =
      if not (config.block_number_result_extractor == "jq")
      then err unsupported_extractor
      else elim (parse config.block_number_result_expression) [
        | none ↦ err bad_expression
        | some query ↦
            if config.chain_type == "tron"
            then elim (parse ".block_header.raw_data.number") [
              | none ↦ err bad_tron_expression
              | some tron_query ↦ ok (new_with_query config query (some tron_query))
            ]
            else ok (new_with_query config query none)
      ]

-- The loops of `getHealthyNode`, `getHealthyExtraWriteNode` and `getHealthyWsNode`; `none` is their
-- error.
pub first_with : (Node → Bool) → List Node → Option Node
first_with healthy [] = none
first_with healthy (node ∷ rest) =
    let later = first_with healthy rest in if healthy node then some node else later

module _ {Query : Type 0} where
  unfoldable pub get_healthy_node : RpcHandler Query → Option Node
  get_healthy_node h = first_with (λ n. n.http_health) h.nodes

  unfoldable pub get_healthy_extra_write_node : RpcHandler Query → Option Node
  get_healthy_extra_write_node h = first_with (λ n. n.extra_write_health) h.nodes

  unfoldable pub get_healthy_ws_node : RpcHandler Query → Option Node
  get_healthy_ws_node h = first_with (λ n. n.ws_health) h.nodes
