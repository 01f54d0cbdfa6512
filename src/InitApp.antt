-- ===== src/InitApp.antt =====
-- pkg/initapp: how the handlers of the chains are set up, and what the router then finds.
pub mod App
pub mod Ethereum
pub mod Solana
pub mod Tendermint
pub mod Startup
pub mod NewApp
