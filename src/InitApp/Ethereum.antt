-- ===== src/InitApp/Ethereum.antt =====
-- pkg/initapp: eth.go, polygon.go, arbitrum.go and hsc.go.
use chain_api.Common.{String, List, [], ◌∷◌}
use chain_api.Proxy.{JsonRpcProxyConfig}
use chain_api.JsonRpcHandler.{new_json_rpc_handler}
use chain_api.InitApp.App.{App, eth, polygon, arbitrum, hsc, set_handlers}

abbrev pub eth_http_black_methods : List String
eth_http_black_methods =
    "eth_newFilter" ∷ "eth_newBlockFilter" ∷ "eth_newPendingTransactionFilter"
    ∷ "eth_uninstallFilter" ∷ "eth_getFilterChanges" ∷ "eth_getFilterLogs" ∷ "eth_subscribe"
    ∷ "eth_unsubscribe" ∷ []

abbrev pub eth_erigon_methods : List String
eth_erigon_methods = "eth_getLogs" ∷ "eth_getBlockReceipts" ∷ []

abbrev pub eth_just_white_methods : List String
eth_just_white_methods =
    "trace_call" ∷ "trace_block" ∷ "trace_get" ∷ "trace_filter" ∷ "trace_transaction"
    ∷ "trace_rawTransaction" ∷ "trace_replayBlockTransactions" ∷ "trace_replayTransaction"
    ∷ "debug_traceCall" ∷ "debug_traceTransaction" ∷ "debug_traceBlockByNumber"
    ∷ "debug_traceBlockByHash" ∷ []

abbrev pub eth_cacheable_methods : List String
eth_cacheable_methods =
    "eth_getBlockByHash" ∷ "eth_getBlockByNumber" ∷ "eth_getBlockTransactionCountByHash"
    ∷ "eth_getBlockTransactionCountByNumber" ∷ "eth_getUncleCountByBlockHash"
    ∷ "eth_getUncleCountByBlockNumber" ∷ "eth_protocolVersion" ∷ "eth_chainId" ∷ "eth_blockNumber"
    ∷ "eth_gasPrice" ∷ "eth_feeHistory" ∷ "eth_getBalance" ∷ "eth_getStorageAt"
    ∷ "eth_getTransactionCount" ∷ "eth_getCode" ∷ "eth_getTransactionByHash"
    ∷ "eth_getTransactionByBlockHashAndIndex" ∷ "eth_getTransactionByBlockNumberAndIndex"
    ∷ "eth_getTransactionReceipt" ∷ "net_version" ∷ "net_listening" ∷ "web3_clientVersion" ∷ []

unfoldable pub init_eth_handler : App → App
init_eth_handler app =
    let cfg : JsonRpcProxyConfig = record {
      http_upstream = (app.upstream eth).http;
      ws_upstream = (app.upstream eth).ws;
      http_erigon_stream = app.eth_erigon.http;
      ws_erigon_upstream = app.eth_erigon.ws;
      cache_time = 12;
      chain_id = (app.constant eth).id;
      cacheable_methods = eth_cacheable_methods;
    } in
    set_handlers eth
      (new_json_rpc_handler (app.constant eth) eth_http_black_methods eth_erigon_methods []
        eth_just_white_methods cfg app.rate_limiter app.is_development)
      app

abbrev pub polygon_http_black_methods : List String
polygon_http_black_methods =
    "eth_getFilterChanges" ∷ "eth_getFilterLogs" ∷ "eth_newBlockFilter" ∷ "eth_newFilter"
    ∷ "eth_newPendingTransactionFilter" ∷ "eth_uninstallFilter" ∷ "eth_subscribe"
    ∷ "eth_unsubscribe" ∷ []

abbrev pub polygon_just_white_methods : List String
polygon_just_white_methods =
    "trace_call" ∷ "trace_block" ∷ "trace_get" ∷ "trace_filter" ∷ "trace_transaction"
    ∷ "trace_rawTransaction" ∷ "trace_replayBlockTransactions" ∷ "trace_replayTransaction"
    ∷ "debug_traceCall" ∷ "debug_traceTransaction" ∷ "debug_traceBlockByNumber"
    ∷ "debug_traceBlockByHash" ∷ []

abbrev pub polygon_cacheable_methods : List String
polygon_cacheable_methods =
    "eth_blockNumber" ∷ "eth_getBlockByHash" ∷ "eth_getBlockByNumber" ∷ "eth_getTransactionByHash"
    ∷ "eth_getTransactionCount" ∷ "eth_getTransactionReceipt" ∷ "eth_getBlockTransactionCountByHash"
    ∷ "eth_getBlockTransactionCountByNumber" ∷ "eth_getTransactionByBlockNumberAndIndex"
    ∷ "bor_getAuthor" ∷ "bor_getCurrentValidators" ∷ "bor_getCurrentProposer" ∷ "bor_getRootHash"
    ∷ "eth_getRootHash" ∷ "eth_getSignersAtHash" ∷ "eth_getTransactionReceiptsByBlock"
    ∷ "eth_getTransactionByBlockHashAndIndex" ∷ "eth_getBalance" ∷ "eth_getCode"
    ∷ "eth_getStorageAt" ∷ "eth_accounts" ∷ "eth_getProof" ∷ "eth_getLogs" ∷ "eth_gasPrice"
    ∷ "eth_chainId" ∷ "net_version" ∷ "eth_getUncleByBlockNumberAndIndex"
    ∷ "eth_getUncleByBlockHashAndIndex" ∷ "eth_getUncleCountByBlockHash"
    ∷ "eth_getUncleCountByBlockNumber" ∷ "net_listening" ∷ "web3_clientVersion" ∷ []

unfoldable pub init_polygon_handler : App → App
init_polygon_handler app =
    let cfg : JsonRpcProxyConfig = record {
      http_upstream = (app.upstream polygon).http;
      ws_upstream = (app.upstream polygon).ws;
      http_erigon_stream = "";
      ws_erigon_upstream = "";
      cache_time = 2;
      chain_id = (app.constant polygon).id;
      cacheable_methods = polygon_cacheable_methods;
    } in
    set_handlers polygon
      (new_json_rpc_handler (app.constant polygon) polygon_http_black_methods [] []
        polygon_just_white_methods cfg app.rate_limiter app.is_development)
      app

abbrev pub arbitrum_http_black_methods : List String
arbitrum_http_black_methods =
    "eth_getFilterChanges" ∷ "eth_getFilterLogs" ∷ "eth_newBlockFilter" ∷ "eth_newFilter"
    ∷ "eth_uninstallFilter" ∷ "eth_subscribe" ∷ "eth_unsubscribe" ∷ []

abbrev pub arbitrum_just_white_methods : List String
arbitrum_just_white_methods =
    "trace_call" ∷ "trace_block" ∷ "trace_get" ∷ "trace_filter" ∷ "trace_transaction"
    ∷ "trace_rawTransaction" ∷ "trace_replayBlockTransactions" ∷ "trace_replayTransaction"
    ∷ "debug_traceCall" ∷ "debug_traceTransaction" ∷ "debug_traceBlockByNumber"
    ∷ "debug_traceBlockByHash" ∷ []

abbrev pub arbitrum_cacheable_methods : List String
arbitrum_cacheable_methods =
    "eth_blockNumber" ∷ "eth_getBlockByHash" ∷ "eth_getBlockByNumber" ∷ "eth_getTransactionByHash"
    ∷ "eth_getTransactionCount" ∷ "eth_getTransactionReceipt" ∷ "eth_getBlockTransactionCountByHash"
    ∷ "eth_getBlockTransactionCountByNumber" ∷ "eth_getTransactionByBlockHashAndIndex"
    ∷ "eth_getTransactionByBlockNumberAndIndex" ∷ "eth_getBalance" ∷ "eth_getCode"
    ∷ "eth_getStorageAt" ∷ "eth_accounts" ∷ "eth_getLogs" ∷ "eth_gasPrice" ∷ "net_version"
    ∷ "eth_chainId" ∷ "web3_clientVersion" ∷ []

unfoldable pub init_arbitrum_handler : App → App
init_arbitrum_handler app =
    let cfg : JsonRpcProxyConfig = record {
      http_upstream = (app.upstream arbitrum).http;
      ws_upstream = (app.upstream arbitrum).ws;
      http_erigon_stream = "";
      ws_erigon_upstream = "";
      cache_time = 1;
      chain_id = (app.constant arbitrum).id;
      cacheable_methods = arbitrum_cacheable_methods;
    } in
    set_handlers arbitrum
      (new_json_rpc_handler (app.constant arbitrum) arbitrum_http_black_methods [] []
        arbitrum_just_white_methods cfg app.rate_limiter app.is_development)
      app

abbrev pub hsc_http_black_methods : List String
hsc_http_black_methods =
    "eth_newFilter" ∷ "eth_newBlockFilter" ∷ "eth_newPendingTransactionFilter"
    ∷ "eth_uninstallFilter" ∷ "eth_getFilterChanges" ∷ "eth_getFilterLogs" ∷ "eth_subscribe"
    ∷ "eth_unsubscribe" ∷ []

abbrev pub hsc_just_white_methods : List String
hsc_just_white_methods =
    "trace_call" ∷ "trace_block" ∷ "trace_get" ∷ "trace_filter" ∷ "trace_transaction"
    ∷ "trace_rawTransaction" ∷ "trace_replayBlockTransactions" ∷ "trace_replayTransaction"
    ∷ "debug_traceCall" ∷ "debug_traceTransaction" ∷ "debug_traceBlockByNumber"
    ∷ "debug_traceBlockByHash" ∷ []

abbrev pub hsc_cacheable_methods : List String
hsc_cacheable_methods =
    "eth_getBlockByHash" ∷ "eth_getBlockByNumber" ∷ "eth_getBlockTransactionCountByHash"
    ∷ "eth_getBlockTransactionCountByNumber" ∷ "eth_getUncleCountByBlockHash"
    ∷ "eth_getUncleCountByBlockNumber" ∷ "eth_protocolVersion" ∷ "eth_chainId" ∷ "eth_blockNumber"
    ∷ "eth_gasPrice" ∷ "eth_feeHistory" ∷ "eth_getBalance" ∷ "eth_getStorageAt"
    ∷ "eth_getTransactionCount" ∷ "eth_getCode" ∷ "eth_getTransactionByHash"
    ∷ "eth_getTransactionByBlockHashAndIndex" ∷ "eth_getTransactionByBlockNumberAndIndex"
    ∷ "eth_getTransactionReceipt" ∷ "net_version" ∷ "net_listening" ∷ "web3_clientVersion" ∷ []

unfoldable pub init_hsc_handler : App → App
init_hsc_handler app =
    let cfg : JsonRpcProxyConfig = record {
      http_upstream = (app.upstream hsc).http;
      ws_upstream = (app.upstream hsc).ws;
      http_erigon_stream = "";
      ws_erigon_upstream = "";
      cache_time = 6;
      chain_id = (app.constant hsc).id;
      cacheable_methods = hsc_cacheable_methods;
    } in
    set_handlers hsc
      (new_json_rpc_handler (app.constant hsc) hsc_http_black_methods [] [] hsc_just_white_methods
        cfg app.rate_limiter app.is_development)
      app
