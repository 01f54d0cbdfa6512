-- ===== src/RpcHandler/Check.antt =====
-- pkg/handler/rpcHandler.go: a round of health checks, `checkNodesHealthy`.
-- `net i` is the network as the round meets it at the node with index `i`. The result is `none` where
-- a probe panics: the round runs in a goroutine that recovers from nothing, so the program ends.
pub mod Threshold
mod Tests
pub mod Health
pub mod Serving
pub mod Tracked
use chain_api.Common.{
  ℕ, zero, suc, ◌+◌, ◌-◌, ◌%◌, ◌^◌, String, Bool, true, false, ◌&&◌, ◌||◌, not, Option, none, some,
  List, [], ◌∷◌, ◌++◌, map, Result, ok, err, ◌==◌, if◌then◌else◌, ltb,
}
use chain_api.Common.Int.{to_int64, wrap_int64, ℤ, pos, negsuc, leb_ℤ, ltb_ℤ, ◌-ℤ◌}
use chain_api.Common.Text.{◌+++◌}
use chain_api.Utils.{Jq, Floats}
use chain_api.RpcHandler.{RpcNode, ChainConfig, Node, RpcHandler}
use chain_api.RpcHandler.Probe.{
  Net, ProbeError, bad_query, panic, get_block_number_from_http_json_rpc,
  get_block_number_from_aptos_http, get_block_number_from_now_block, get_block_number_from_evm_ws,
  get_block_number_from_svm_ws,
}

-- `lo.Max`: the zero value for an empty list, and else the first of the greatest elements.
max_from : ℤ → List ℤ → ℤ
max_from best [] = best
max_from best (x ∷ rest) = max_from (if ltb_ℤ best x then x else best) rest

pub max_of : List ℤ → ℤ
unfolding max_from
max_of [] = pos 0
max_of (x ∷ rest) = max_from x rest

-- What one round of the probing loop leaves in the two arrays of block numbers: the HTTP number, and
-- that of WebSocket or of extra write; both are 0 at first.
abbrev pub Numbers : Type 0
Numbers = ℤ × ℤ

-- A probe that failed, where the loop goes on with the next node.
abbrev skip : ProbeError → Numbers → Option Numbers
skip panic numbers = none
skip e numbers = some numbers

abbrev block_number_content : String → String
block_number_content method =
    "{\"jsonrpc\":\"2.0\",\"method\":\"" +++ method +++ "\",\"params\":[],\"id\":1}"

module _ (J : Jq) (F : Floats) where
  open J use {Query, parse}

  -- the part of the loop's body that asks WebSocket, given the HTTP number
  probe_ws : Net → RpcHandler Query → RpcNode → ℕ → Result ProbeError ℕ
  probe_ws net h node http_number =
      if h.config.chain_type == "evm"
      then get_block_number_from_evm_ws J F net node.ws
          (block_number_content h.config.block_number_method) h.jq_query
      else if h.config.chain_type == "svm"
      then elim (parse ".params.result.slot") [
        | none ↦ err bad_query
        | some query ↦ get_block_number_from_svm_ws J F net node.ws query
      ]
      else ok 0

  ws_numbers : ℕ → Result ProbeError ℕ → Option Numbers
  ws_numbers http_number (err e) = skip e (to_int64 http_number, pos 0)
  ws_numbers http_number (ok n) =
      if ltb n http_number
      then some (to_int64 http_number, pos 0)
      else some (to_int64 http_number, to_int64 n)

  probe_http : Net → RpcHandler Query → RpcNode → Result ProbeError ℕ
  probe_http net h node =
      if h.config.chain_type == "evm" || h.config.chain_type == "svm"
      then get_block_number_from_http_json_rpc J F net node.http
          (block_number_content h.config.block_number_method) h.jq_query
      else if h.config.chain_type == "aptos"
      then get_block_number_from_aptos_http J F net (node.http +++ "/v1") h.jq_query
      else ok 0

  -- the body of the probing loop of `checkHttpAndWsNodesHealthy`
  pub http_and_ws_numbers : Net → RpcHandler Query → RpcNode → Option Numbers
  unfolding probe_http probe_ws ws_numbers
  http_and_ws_numbers net h node = elim (probe_http net h node) [
    | err e ↦ skip e (pos 0, pos 0)
    | ok http_number ↦
        if node.ws == ""
        then some (to_int64 http_number, pos 0)
        else ws_numbers http_number (probe_ws net h node http_number)
  ]

  tron_extra_write : Net → RpcHandler Query → RpcNode → Result ProbeError ℕ
  tron_extra_write net h node = elim h.tron_extra_write_jq_query [
    | none ↦ err panic
    | some query ↦
        get_block_number_from_now_block J F net (node.extra_write +++ "/getnowblock") query
  ]

  -- the part of the loop's body after the HTTP number
  extra_write_numbers : Net → RpcHandler Query → RpcNode → ℤ → Option Numbers
  unfolding tron_extra_write
  extra_write_numbers net h node http_number =
      if node.extra_write == ""
      then some (http_number, pos 0)
      else elim (tron_extra_write net h node) [
        | err e ↦ skip e (http_number, pos 0)
        | ok n ↦ some (http_number, to_int64 n)
      ]

  -- the body of the probing loop of `checkTronNodesHealthy`
  pub tron_numbers : Net → RpcHandler Query → RpcNode → Option Numbers
  unfolding extra_write_numbers
  tron_numbers net h node =
      if node.http == ""
      then extra_write_numbers net h node (pos 0)
      else elim (get_block_number_from_http_json_rpc J F net node.http
          (block_number_content "eth_blockNumber") h.jq_query) [
            | err e ↦ skip e (pos 0, pos 0)
            | ok n ↦ extra_write_numbers net h node (to_int64 n)
          ]

-- The numbers of one node before those of the later ones, or a panic of either.
abbrev collect : Option Numbers → Option (List Numbers) → Option (List Numbers)
collect none later = none
collect (some numbers) none = none
collect (some numbers) (some all) = some (numbers ∷ all)

-- The probing loop, from the node with index `i`.
pub probe_all : (ℕ → RpcNode → Option Numbers) → ℕ → List Node → Option (List Numbers)
probe_all body i [] = some []
probe_all body i (node ∷ rest) = collect (body i node.rpc_node) (probe_all body (suc i) rest)

-- `maxBlockNumber - h.config.MaxBehindBlocks`
pub threshold : List Numbers → ℤ → ℤ
unfolding max_of wrap_int64
threshold numbers max_behind =
    wrap_int64 (max_of (map (λ n. n.0) numbers ++ map (λ n. n.1) numbers) -ℤ max_behind)

-- The second address of a node, and where its health is stored: WebSocket, or extra write.
pub data Second : Type 0 where
  ws extra_write : Second

pub second_address : Second → RpcNode → String
second_address ws node = node.ws
second_address extra_write node = node.extra_write

pub set_health : Second → Bool → Bool → Node → Node
set_health ws http second node = record node { http_health = http; ws_health = second }
set_health extra_write http second node = record node {
  http_health = http;
  extra_write_health = second;
}

pub is_unhealthy : Second → ℤ → RpcNode → Numbers → Bool
unfolding second_address
is_unhealthy second least node (a, b) =
    not (node.http == "") && not (leb_ℤ least a)
    || not (second_address second node == "") && not (leb_ℤ least b)

-- The second loop of a check: the flags.
pub update_nodes : Second → ℤ → List Node → List Numbers → List Node
unfolding set_health
update_nodes second least [] numbers = []
update_nodes second least (node ∷ rest) [] = node ∷ rest
update_nodes second least (node ∷ rest) ((a, b) ∷ numbers) =
    set_health second (leb_ℤ least a) (leb_ℤ least b) node ∷ update_nodes second least rest numbers

-- The second loop of a check: the error counts.
pub update_counts : Second → ℤ → List Node → List Numbers → List ℕ → List ℕ
unfolding is_unhealthy
update_counts second least (node ∷ nodes) (n ∷ numbers) (count ∷ counts) =
    (if is_unhealthy second least node.rpc_node n then count + 1 else count)
    ∷ update_counts second least nodes numbers counts
update_counts second least nodes numbers counts = counts

module _ {Query : Type 0} where
  pub finish_check : Second → RpcHandler Query → List Numbers → RpcHandler Query
  unfolding threshold update_nodes update_counts
  finish_check second h numbers =
      let least = threshold numbers h.config.max_behind_blocks in
      record h {
        nodes = update_nodes second least h.nodes numbers;
        node_error_counts = update_counts second least h.nodes numbers h.node_error_counts;
      }

module _ (J : Jq) (F : Floats) where
  open J use {Query}

  pub check_http_and_ws_nodes_healthy : (ℕ → Net) → RpcHandler Query → Option (RpcHandler Query)
  unfolding probe_all finish_check
  check_http_and_ws_nodes_healthy net h =
      elim (probe_all (λ i. http_and_ws_numbers J F (net i) h) 0 h.nodes) [
        | none ↦ none
        | some numbers ↦ some (finish_check ws h numbers)
      ]

  pub check_tron_nodes_healthy : (ℕ → Net) → RpcHandler Query → Option (RpcHandler Query)
  unfolding probe_all finish_check
  check_tron_nodes_healthy net h = elim (probe_all (λ i. tron_numbers J F (net i) h) 0 h.nodes) [
    | none ↦ none
    | some numbers ↦ some (finish_check extra_write h numbers)
  ]

  pub check_nodes_healthy : (ℕ → Net) → RpcHandler Query → Option (RpcHandler Query)
  unfolding check_http_and_ws_nodes_healthy check_tron_nodes_healthy
  check_nodes_healthy net h =
      if h.config.chain_type == "tron"
      then check_tron_nodes_healthy net h
      else check_http_and_ws_nodes_healthy net h
