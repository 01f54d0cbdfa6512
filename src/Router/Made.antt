-- ===== src/Router/Made.antt =====
-- What follows of the configured chains where the router of router/router.go is made.
use chain_api.Common.{String, ◌≡◌, refl, Option, none, some, List, [], ◌∷◌, All, Result, ok, err}
use chain_api.Utils.{Jq}
use chain_api.RpcHandler.{ChainConfig, RpcHandler, NewError, new_rpc_handler}
use chain_api.Config.{RpcConfig}
use chain_api.InitApp.App.{ChainName, App}
use chain_api.Router.{
  Route, Endpoint, JsonMethod, chain_routes, add_route, register, register_chains, register_config,
  add_chain, new_router, ipfs_endpoint, json_endpoint, handler_of,
}
use chain_api.Router.Served.{AllSupported}

abbrev Taken : Jq → ChainConfig → Type 0
Taken J cfg = (h : RpcHandler J.Query) × (new_rpc_handler J cfg ≡ ok h)

module _ {Ipfs : Type 0} (J : Jq) where
  Taken-of_add_chain :
      (api_key : String) (cfg : ChainConfig) (r : Result NewError (RpcHandler J.Query))
      (o : Option (List (Route Ipfs J.Query))) {rs : List (Route Ipfs J.Query)}
      → add_chain J api_key cfg r o ≡ some rs
      → ((h : RpcHandler J.Query) × (r ≡ ok h))
        × ((later : List (Route Ipfs J.Query)) × (o ≡ some later))
  Taken-of_add_chain api_key cfg (err e) o h = cc
  Taken-of_add_chain api_key cfg (ok g) none h = cc
  Taken-of_add_chain api_key cfg (ok g) (some later) h = ((g, refl), (later, refl))

  Taken-of_register_chains :
      (api_key : String) (chains : List ChainConfig) {rs : List (Route Ipfs J.Query)}
      → register_chains J api_key chains ≡ some rs
      → All (Taken J) chains
  unfolding register_chains
  Taken-of_register_chains api_key [] h = tt
  Taken-of_register_chains api_key (cfg ∷ chains) h =
      let (made, (later, e)) =
        Taken-of_add_chain api_key cfg (new_rpc_handler J cfg) (register_chains J api_key chains)
          h in
      (made, Taken-of_register_chains api_key chains e)

  AllSupported-of_register_config :
      (config : Option RpcConfig) {rs : List (Route Ipfs J.Query)}
      → register_config J config ≡ some rs
      → AllSupported J config
  AllSupported-of_register_config none h = tt
  AllSupported-of_register_config (some config) h =
      Taken-of_register_chains config.api_key config.chains h

module _ {Ipfs Query : Type 0} where
  some-of_add_route :
      (method path : String) (e : Option (Endpoint Ipfs Query))
      (o : Option (List (Route Ipfs Query))) {rs : List (Route Ipfs Query)}
      → add_route method path e o ≡ some rs
      → (later : List (Route Ipfs Query)) × (o ≡ some later)
  some-of_add_route method path none o h = cc
  some-of_add_route method path (some e) none h = cc
  some-of_add_route method path (some e) (some later) h = (later, refl)

  some-of_register :
      (app : App) (entries : List (String × String × JsonMethod × ChainName))
      (o : Option (List (Route Ipfs Query))) {rs : List (Route Ipfs Query)}
      → register app entries o ≡ some rs
      → (later : List (Route Ipfs Query)) × (o ≡ some later)
  unfolding register
  some-of_register app [] o {rs} h = (rs, h)
  some-of_register app ((method, path, m, c) ∷ rest) o h =
      let (later, e) =
        some-of_add_route method path (json_endpoint m (handler_of m app c)) (register app rest o)
          h in
      some-of_register app rest o e

-- A router that is made took the configuration of every chain.
pub AllSupported-of_new_router :
    {Ipfs : Type 0} (J : Jq) (app : App) (ipfs : Ipfs) (config : Option RpcConfig)
    {rs : List (Route Ipfs J.Query)}
    → new_router J app (some ipfs) config ≡ some rs
    → AllSupported J config
unfolding new_router
AllSupported-of_new_router J app ipfs config h =
    let (later, e) = some-of_register app chain_routes _ h in
    let (rest, d) =
      some-of_add_route "ANY" "/ipfs/*" (ipfs_endpoint (some ipfs)) (register_config J config) e in
    AllSupported-of_register_config J config d
