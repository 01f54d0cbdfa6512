-- ===== src/Router.antt =====
-- router/router.go: `NewRouter`, the table of the addresses that the server answers.
-- Echo is not part of the repository: a router is the list of the routes registered, in their order.
-- The middleware is left out. To take a method of a nil handler panics, and so does a failing
-- `NewRpcHandler`; the table is then `none`.
pub mod Served
pub mod Made
pub mod Complete
mod Tests
use chain_api.Common.{
  String, Bool, Option, none, some, List, [], ◌∷◌, ◌++◌, Result, ok, err, ◌==◌, if◌then◌else◌,
}
use chain_api.Common.Text.{◌+++◌}
use chain_api.Utils.{Jq}
use chain_api.JsonRpcHandler.{JsonRpcHandler}
use chain_api.RpcHandler.{ChainConfig, RpcHandler, NewError, new_rpc_handler}
use chain_api.Config.{RpcConfig}
use chain_api.InitApp.App.{
  ChainName, eth, polygon, arbitrum, hsc, cosmos, evmos, kava, juno, umee, gravity, okc, irisnet,
  App,
}

-- The methods of a chain's handlers: `Http`, `TendermintHttp` and `Ws`.
pub data JsonMethod : Type 0 where
  json_http json_tendermint json_ws : JsonMethod

-- What a route calls.
pub data Endpoint (Ipfs Query : Type 0) : Type 0 where
  json : JsonMethod → JsonRpcHandler → Endpoint Ipfs Query
  ipfs_proxy : Ipfs → Endpoint Ipfs Query
  rpc_http rpc_extra_write rpc_ws : RpcHandler Query → Endpoint Ipfs Query

pub record Route (Ipfs Query : Type 0) : Type 0 where
  pub method : String
  pub path : String
  pub endpoint : Endpoint Ipfs Query

-- The lines that register a chain's handler.
abbrev pub chain_routes : List (String × String × JsonMethod × ChainName)
chain_routes =
    ("POST", "/eth/v1/:apiKey", json_http, eth)
    ∷ ("GET", "/ws/eth/v1/:apiKey", json_ws, eth)
    ∷ ("POST", "/polygon/v1/:apiKey", json_http, polygon)
    ∷ ("GET", "/ws/polygon/v1/:apiKey", json_ws, polygon)
    ∷ ("POST", "/arbitrum/v1/:apiKey", json_http, arbitrum)
    ∷ ("GET", "/ws/arbitrum/v1/:apiKey", json_ws, arbitrum)
    ∷ ("POST", "/hsc/v1/:apiKey", json_http, hsc)
    ∷ ("GET", "/ws/hsc/v1/:apiKey", json_ws, hsc)
    ∷ ("POST", "/cosmos/tendermint/v1/:apiKey", json_http, cosmos)
    ∷ ("GET", "/cosmos/tendermint/v1/:apiKey", json_tendermint, cosmos)
    ∷ ("GET", "/ws/cosmos/tendermint/v1/:apiKey", json_ws, cosmos)
    ∷ ("POST", "/evmos/tendermint/v1/:apiKey", json_http, evmos)
    ∷ ("GET", "/evmos/tendermint/v1/:apiKey", json_tendermint, evmos)
    ∷ ("GET", "/ws/evmos/tendermint/v1/:apiKey", json_ws, evmos)
    ∷ ("POST", "/kava/tendermint/v1/:apiKey", json_http, kava)
    ∷ ("GET", "/kava/tendermint/v1/:apiKey", json_tendermint, kava)
    ∷ ("GET", "/ws/kava/tendermint/v1/:apiKey", json_ws, kava)
    ∷ ("POST", "/juno/tendermint/v1/:apiKey", json_http, juno)
    ∷ ("GET", "/juno/tendermint/v1/:apiKey", json_tendermint, juno)
    ∷ ("GET", "/ws/juno/tendermint/v1/:apiKey", json_ws, juno)
    ∷ ("POST", "/umee/tendermint/v1/:apiKey", json_http, umee)
    ∷ ("GET", "/umee/tendermint/v1/:apiKey", json_tendermint, umee)
    ∷ ("GET", "/ws/umee/tendermint/v1/:apiKey", json_ws, umee)
    ∷ ("POST", "/gravity/tendermint/v1/:apiKey", json_http, gravity)
    ∷ ("GET", "/gravity/tendermint/v1/:apiKey", json_tendermint, gravity)
    ∷ ("GET", "/ws/gravity/tendermint/v1/:apiKey", json_ws, gravity)
    ∷ ("POST", "/okc/tendermint/v1/:apiKey", json_http, okc)
    ∷ ("GET", "/okc/tendermint/v1/:apiKey", json_tendermint, okc)
    ∷ ("GET", "/ws/okc/tendermint/v1/:apiKey", json_ws, okc)
    ∷ ("POST", "/irisnet/tendermint/v1/:apiKey", json_http, irisnet)
    ∷ ("GET", "/irisnet/tendermint/v1/:apiKey", json_tendermint, irisnet)
    ∷ ("GET", "/ws/irisnet/tendermint/v1/:apiKey", json_ws, irisnet)
    ∷ []

abbrev pub handler_of : JsonMethod → App → ChainName → Option JsonRpcHandler
handler_of json_http app c = app.http_handler c
handler_of json_tendermint app c = app.http_handler c
handler_of json_ws app c = app.ws_handler c

module _ {Ipfs Query : Type 0} where
  abbrev pub add_route :
      String
      → String
      → Option (Endpoint Ipfs Query)
      → Option (List (Route Ipfs Query))
      → Option (List (Route Ipfs Query))
  add_route method path none later = none
  add_route method path (some e) none = none
  add_route method path (some e) (some later) =
      some (record { method = method; path = path; endpoint = e } ∷ later)

  abbrev pub json_endpoint : JsonMethod → Option JsonRpcHandler → Option (Endpoint Ipfs Query)
  json_endpoint m none = none
  json_endpoint m (some h) = some (json m h)

  abbrev pub ipfs_endpoint : Option Ipfs → Option (Endpoint Ipfs Query)
  ipfs_endpoint none = none
  ipfs_endpoint (some h) = some (ipfs_proxy h)

  -- The registrations of a list, before those that follow.
  pub register :
      App
      → List (String × String × JsonMethod × ChainName)
      → Option (List (Route Ipfs Query))
      → Option (List (Route Ipfs Query))
  register app [] later = later
  register app ((method, path, m, c) ∷ rest) later =
      add_route method path (json_endpoint m (handler_of m app c)) (register app rest later)

  abbrev any_route : String → Endpoint Ipfs Query → Route Ipfs Query
  any_route path e = record { method = "ANY"; path = path; endpoint = e }

  -- The `switch` on the chain's type.
  pub rpc_routes : String → ChainConfig → RpcHandler Query → List (Route Ipfs Query)
  rpc_routes api_key cfg h =
      let at = λ (prefix : String). prefix +++ cfg.chain_name +++ "/" +++ api_key in
      if cfg.chain_type == "tron"
      then any_route (at "/rpc/") (rpc_http h)
        ∷ any_route (at "/rpc/" +++ "/*") (rpc_http h)
        ∷ any_route (at "/ew_rpc/") (rpc_extra_write h)
        ∷ any_route (at "/ew_rpc/" +++ "/*") (rpc_extra_write h)
        ∷ []
      else any_route (at "/ws/rpc/") (rpc_ws h)
        ∷ any_route (at "/ws/rpc/" +++ "/*") (rpc_ws h)
        ∷ any_route (at "/rpc/") (rpc_http h)
        ∷ any_route (at "/rpc/" +++ "/*") (rpc_http h)
        ∷ []

module _ {Ipfs : Type 0} (J : Jq) where
  open J use {Query}

  abbrev pub add_chain :
      String
      → ChainConfig
      → Result NewError (RpcHandler Query)
      → Option (List (Route Ipfs Query))
      → Option (List (Route Ipfs Query))
  add_chain api_key cfg (err e) later = none
  add_chain api_key cfg (ok h) none = none
  add_chain api_key cfg (ok h) (some later) = some (rpc_routes api_key cfg h ++ later)

  -- the loop over the configured chains
  pub register_chains : String → List ChainConfig → Option (List (Route Ipfs Query))
  unfolding rpc_routes
  register_chains api_key [] = some []
  register_chains api_key (cfg ∷ rest) =
      add_chain api_key cfg (new_rpc_handler J cfg) (register_chains api_key rest)

  abbrev pub register_config : Option RpcConfig → Option (List (Route Ipfs Query))
  register_config none = some []
  register_config (some config) = register_chains config.api_key config.chains

  pub new_router : App → Option Ipfs → Option RpcConfig → Option (List (Route Ipfs Query))
  unfolding register register_chains
  new_router app ipfs config =
      register app chain_routes
        (add_route "ANY" "/ipfs/*" (ipfs_endpoint ipfs) (register_config config))
