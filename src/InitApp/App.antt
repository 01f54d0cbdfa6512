-- ===== src/InitApp/App.antt =====
-- pkg/app/app.go and the upstreams of config/config.go, as pkg/initapp reads and writes them.
use chain_api.Common.{ℕ, String, Bool, Option, some, nat_eq, if◌then◌else◌}
use chain_api.RateLimit.Limiter.{RateLimiter}
use chain_api.JsonRpcHandler.{Chain, JsonRpcHandler}

-- The chains that have a handler of their own.
pub data ChainName : Type 0 where
  eth polygon arbitrum solana hsc cosmos evmos kava juno umee gravity okc irisnet : ChainName

abbrev pub code : ChainName → ℕ
code eth = 0
code polygon = 1
code arbitrum = 2
code solana = 3
code hsc = 4
code cosmos = 5
code evmos = 6
code kava = 7
code juno = 8
code umee = 9
code gravity = 10
code okc = 11
code irisnet = 12

-- A struct of the configuration; only Ethereum has erigon upstreams.
pub record Upstream : Type 0 where
  pub http : String
  pub ws : String

-- What the handlers' initialisation reads and writes of `App`. The chains' constants come from outside the repository.
pub record App : Type 0 where
  pub upstream : ChainName → Upstream
  pub eth_erigon : Upstream
  pub constant : ChainName → Chain
  pub rate_limiter : RateLimiter
  pub is_development : Bool
  pub http_handler : ChainName → Option JsonRpcHandler
  pub ws_handler : ChainName → Option JsonRpcHandler

abbrev pub put_handler :
    ChainName
    → JsonRpcHandler
    → (ChainName → Option JsonRpcHandler)
    → ChainName
    → Option JsonRpcHandler
put_handler c h handlers d = if nat_eq (code c) (code d) then some h else handlers d

-- The two assignments that end every init function.
abbrev pub set_handlers : ChainName → JsonRpcHandler → App → App
set_handlers c h app = record {
  upstream = app.upstream;
  eth_erigon = app.eth_erigon;
  constant = app.constant;
  rate_limiter = app.rate_limiter;
  is_development = app.is_development;
  http_handler = put_handler c h app.http_handler;
  ws_handler = put_handler c h app.ws_handler;
}
