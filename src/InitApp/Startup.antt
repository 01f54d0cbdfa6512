-- ===== src/InitApp/Startup.antt =====
-- The init functions in the order in which `NewApp` of pkg/initapp/initApp.go runs them. The last one,
-- `initIPFSClient`, sets no handler of a chain; the others never fail.
mod Tests
pub mod Handlers
pub mod Dialing
use chain_api.Common.{List, [], ◌∷◌}
use chain_api.InitApp.App.{App}
use chain_api.InitApp.Ethereum.{
  init_eth_handler, init_polygon_handler, init_arbitrum_handler, init_hsc_handler,
}
use chain_api.InitApp.Solana.{init_solana_handler}
use chain_api.InitApp.Tendermint.{
  init_cosmos_handler, init_evmos_handler, init_kava_handler, init_juno_handler, init_umee_handler,
  init_gravity_handler, init_okc_handler, init_irisnet_handler,
}

abbrev pub init_fns : List (App → App)
init_fns =
    init_eth_handler ∷ init_polygon_handler ∷ init_arbitrum_handler ∷ init_solana_handler
    ∷ init_hsc_handler ∷ init_cosmos_handler ∷ init_evmos_handler ∷ init_kava_handler
    ∷ init_juno_handler ∷ init_umee_handler ∷ init_gravity_handler ∷ init_okc_handler
    ∷ init_irisnet_handler ∷ []

pub run_init : List (App → App) → App → App
run_init [] app = app
run_init (fn ∷ rest) app = run_init rest (fn app)

-- The handlers of `NewApp`.
pub start : App → App
start app = run_init init_fns app
