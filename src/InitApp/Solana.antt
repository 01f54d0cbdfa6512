-- ===== src/InitApp/Solana.antt =====
-- pkg/initapp/solana.go.
use chain_api.Common.{String, List, [], ◌∷◌}
use chain_api.Proxy.{JsonRpcProxyConfig}
use chain_api.JsonRpcHandler.{new_json_rpc_handler}
use chain_api.InitApp.App.{App, solana, set_handlers}

abbrev pub solana_cacheable_methods : List String
solana_cacheable_methods =
    "getAccountInfo" ∷ "getBalance" ∷ "getBlock" ∷ "getBlockHeight" ∷ "getBlockProduction"
    ∷ "getBlockCommitment" ∷ "getBlocks" ∷ "getBlocksWithLimit" ∷ "getBlockTime" ∷ "getClusterNodes"
    ∷ "getEpochInfo" ∷ "getEpochSchedule" ∷ "getFeeForMessage" ∷ "getFirstAvailableBlock"
    ∷ "getGenesisHash" ∷ "getHealth" ∷ "getHighestSnapshotSlot" ∷ "getIdentity"
    ∷ "getInflationGovernor" ∷ "getInflationRate" ∷ "getInflationReward" ∷ "getLargestAccounts"
    ∷ "getLatestBlockhash" ∷ "getLeaderSchedule" ∷ "getMaxRetransmitSlot" ∷ "getMaxShredInsertSlot"
    ∷ "getMinimumBalanceForRentExemption" ∷ "getMultipleAccounts" ∷ "getProgramAccounts"
    ∷ "getRecentPerformanceSamples" ∷ "getSignaturesForAddress" ∷ "getSignatureStatuses" ∷ "getSlot"
    ∷ "getSlotLeader" ∷ "getSlotLeaders" ∷ "getStakeActivation" ∷ "getSupply"
    ∷ "getTokenAccountBalance" ∷ "getTokenAccountsByDelegate" ∷ "getTokenAccountsByOwner"
    ∷ "getTokenLargestAccounts" ∷ "getTokenSupply" ∷ "getTransaction" ∷ "getTransactionCount"
    ∷ "getVersion" ∷ "getVoteAccounts" ∷ "isBlockhashValid" ∷ "minimumLedgerSlot"
    ∷ "getConfirmedBlock" ∷ "getConfirmedBlocks" ∷ "getConfirmedBlocksWithLimit"
    ∷ "getConfirmedSignaturesForAddress2" ∷ "getConfirmedTransaction"
    ∷ "getFeeCalculatorForBlockhash" ∷ "getFeeRateGovernor" ∷ "getFees" ∷ "getRecentBlockhash"
    ∷ "getSnapshotSlot" ∷ []

unfoldable pub init_solana_handler : App → App
init_solana_handler app =
    let cfg : JsonRpcProxyConfig = record {
      http_upstream = (app.upstream solana).http;
      ws_upstream = (app.upstream solana).ws;
      http_erigon_stream = "";
      ws_erigon_upstream = "";
      cache_time = 1;
      chain_id = (app.constant solana).id;
      cacheable_methods = solana_cacheable_methods;
    } in
    set_handlers solana
      (new_json_rpc_handler (app.constant solana) [] [] [] [] cfg app.rate_limiter
        app.is_development)
      app
