-- ===== src/InitApp/Tendermint.antt =====
-- pkg/initapp: tendermint.go, and the chains that share its lists. `initCosmosHandler` gives its lists in
-- another order than the other seven.
use chain_api.Common.{String, List, [], ◌∷◌}
use chain_api.Proxy.{JsonRpcProxyConfig}
use chain_api.JsonRpcHandler.{new_json_rpc_handler}
use chain_api.InitApp.App.{
  App, cosmos, evmos, kava, juno, umee, gravity, okc, irisnet, set_handlers,
}

abbrev pub tendermint_http_black_methods : List String
tendermint_http_black_methods = "dial_seeds" ∷ "dial_peers" ∷ []

abbrev pub tendermint_cacheable_methods : List String
tendermint_cacheable_methods =
    "abci_info" ∷ "block" ∷ "block_by_hash" ∷ "block_results" ∷ "block_search" ∷ "blockchain"
    ∷ "health" ∷ "status" ∷ "commit" ∷ "validators" ∷ "genesis" ∷ "unconfirmed_txs"
    ∷ "num_unconfirmed_txs" ∷ "tx" ∷ "commit" ∷ "net_info" ∷ "blockchain" ∷ "validators"
    ∷ "dump_consensus_state" ∷ "consensus_state" ∷ "consensus_params" ∷ "genesis"
    ∷ "genesis_chunked" ∷ "tx_search" ∷ "abci_query" ∷ []

abbrev pub tendermint_ws_black_methods : List String
tendermint_ws_black_methods = []

unfoldable pub init_cosmos_handler : App → App
init_cosmos_handler app =
    let cfg : JsonRpcProxyConfig = record {
      http_upstream = (app.upstream cosmos).http;
      ws_upstream = (app.upstream cosmos).ws;
      http_erigon_stream = "";
      ws_erigon_upstream = "";
      cache_time = 6;
      chain_id = (app.constant cosmos).id;
      cacheable_methods = tendermint_cacheable_methods;
    } in
    set_handlers cosmos
      (new_json_rpc_handler (app.constant cosmos) [] tendermint_http_black_methods
        tendermint_ws_black_methods [] cfg app.rate_limiter app.is_development)
      app

unfoldable pub init_evmos_handler : App → App
init_evmos_handler app =
    let cfg : JsonRpcProxyConfig = record {
      http_upstream = (app.upstream evmos).http;
      ws_upstream = (app.upstream evmos).ws;
      http_erigon_stream = "";
      ws_erigon_upstream = "";
      cache_time = 4;
      chain_id = (app.constant evmos).id;
      cacheable_methods = tendermint_cacheable_methods;
    } in
    set_handlers evmos
      (new_json_rpc_handler (app.constant evmos) tendermint_http_black_methods []
        tendermint_ws_black_methods [] cfg app.rate_limiter app.is_development)
      app

unfoldable pub init_kava_handler : App → App
init_kava_handler app =
    let cfg : JsonRpcProxyConfig = record {
      http_upstream = (app.upstream kava).http;
      ws_upstream = (app.upstream kava).ws;
      http_erigon_stream = "";
      ws_erigon_upstream = "";
      cache_time = 6;
      chain_id = (app.constant kava).id;
      cacheable_methods = tendermint_cacheable_methods;
    } in
    set_handlers kava
      (new_json_rpc_handler (app.constant kava) tendermint_http_black_methods []
        tendermint_ws_black_methods [] cfg app.rate_limiter app.is_development)
      app

unfoldable pub init_juno_handler : App → App
init_juno_handler app =
    let cfg : JsonRpcProxyConfig = record {
      http_upstream = (app.upstream juno).http;
      ws_upstream = (app.upstream juno).ws;
      http_erigon_stream = "";
      ws_erigon_upstream = "";
      cache_time = 6;
      chain_id = (app.constant juno).id;
      cacheable_methods = tendermint_cacheable_methods;
    } in
    set_handlers juno
      (new_json_rpc_handler (app.constant juno) tendermint_http_black_methods []
        tendermint_ws_black_methods [] cfg app.rate_limiter app.is_development)
      app

unfoldable pub init_umee_handler : App → App
init_umee_handler app =
    let cfg : JsonRpcProxyConfig = record {
      http_upstream = (app.upstream umee).http;
      ws_upstream = (app.upstream umee).ws;
      http_erigon_stream = "";
      ws_erigon_upstream = "";
      cache_time = 6;
      chain_id = (app.constant umee).id;
      cacheable_methods = tendermint_cacheable_methods;
    } in
    set_handlers umee
      (new_json_rpc_handler (app.constant umee) tendermint_http_black_methods []
        tendermint_ws_black_methods [] cfg app.rate_limiter app.is_development)
      app

unfoldable pub init_gravity_handler : App → App
init_gravity_handler app =
    let cfg : JsonRpcProxyConfig = record {
      http_upstream = (app.upstream gravity).http;
      ws_upstream = (app.upstream gravity).ws;
      http_erigon_stream = "";
      ws_erigon_upstream = "";
      cache_time = 6;
      chain_id = (app.constant gravity).id;
      cacheable_methods = tendermint_cacheable_methods;
    } in
    set_handlers gravity
      (new_json_rpc_handler (app.constant gravity) tendermint_http_black_methods []
        tendermint_ws_black_methods [] cfg app.rate_limiter app.is_development)
      app

unfoldable pub init_okc_handler : App → App
init_okc_handler app =
    let cfg : JsonRpcProxyConfig = record {
      http_upstream = (app.upstream okc).http;
      ws_upstream = (app.upstream okc).ws;
      http_erigon_stream = "";
      ws_erigon_upstream = "";
      cache_time = 3;
      chain_id = (app.constant okc).id;
      cacheable_methods = tendermint_cacheable_methods;
    } in
    set_handlers okc
      (new_json_rpc_handler (app.constant okc) tendermint_http_black_methods []
        tendermint_ws_black_methods [] cfg app.rate_limiter app.is_development)
      app

unfoldable pub init_irisnet_handler : App → App
init_irisnet_handler app =
    let cfg : JsonRpcProxyConfig = record {
      http_upstream = (app.upstream irisnet).http;
      ws_upstream = (app.upstream irisnet).ws;
      http_erigon_stream = "";
      ws_erigon_upstream = "";
      cache_time = 6;
      chain_id = (app.constant irisnet).id;
      cacheable_methods = tendermint_cacheable_methods;
    } in
    set_handlers irisnet
      (new_json_rpc_handler (app.constant irisnet) tendermint_http_black_methods []
        tendermint_ws_black_methods [] cfg app.rate_limiter app.is_development)
      app
