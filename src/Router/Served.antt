-- ===== src/Router/Served.antt =====
-- Which handler answers under which address of router/router.go, after the init functions have run.
use chain_api.Common.{
  String, Bool-cases, ◌≡◌, ◌≢◌, ◌⊎◌, inl, inr, refl, sym, subst, Option, none, some, List, [], ◌∷◌,
  ◌++◌, All, Result, ok, err, ◌==◌, eq_iff,
}
use mathlib.Core.Option.{some-injective}
use chain_api.Common.Text.{◌+++◌}
use chain_api.Utils.{Jq}
use chain_api.JsonRpcHandler.{JsonRpcHandler}
use chain_api.RpcHandler.{ChainConfig, RpcHandler, NewError, new_rpc_handler}
use chain_api.RpcHandler.Report.Rounds.{new_rpc_handler-IsTracked}
use chain_api.Config.{RpcConfig}
use chain_api.InitApp.App.{
  ChainName, eth, polygon, arbitrum, solana, hsc, cosmos, evmos, kava, juno, umee, gravity, okc,
  irisnet, App,
}
use chain_api.InitApp.Startup.{start}
use chain_api.InitApp.Startup.Handlers.{IsSetUp, start_lem}
use chain_api.Router.{
  JsonMethod, json_http, json_tendermint, json_ws, json, ipfs_proxy, rpc_http, rpc_extra_write,
  rpc_ws, Route, chain_routes, handler_of, add_route, register, json_endpoint, rpc_routes,
  register_chains, register_config, new_router, add_chain, ipfs_endpoint,
}

-- A chain's own part of its address.
abbrev pub segment : ChainName → String
segment eth = "/eth/v1/:apiKey"
segment polygon = "/polygon/v1/:apiKey"
segment arbitrum = "/arbitrum/v1/:apiKey"
segment solana = "/solana/v1/:apiKey"
segment hsc = "/hsc/v1/:apiKey"
segment cosmos = "/cosmos/tendermint/v1/:apiKey"
segment evmos = "/evmos/tendermint/v1/:apiKey"
segment kava = "/kava/tendermint/v1/:apiKey"
segment juno = "/juno/tendermint/v1/:apiKey"
segment umee = "/umee/tendermint/v1/:apiKey"
segment gravity = "/gravity/tendermint/v1/:apiKey"
segment okc = "/okc/tendermint/v1/:apiKey"
segment irisnet = "/irisnet/tendermint/v1/:apiKey"

-- The request method and the address of a method of a chain's handler.
abbrev pub address : JsonMethod → ChainName → String × String
address json_http c = ("POST", segment c)
address json_tendermint c = ("GET", segment c)
address json_ws c = ("GET", "/ws" +++ segment c)

-- An address of a configured chain: the prefix, the chain's name and the API key, or what lies below.
abbrev pub IsUnder : String → String → ChainConfig → String → Type 0
IsUnder prefix api_key cfg path =
    (path ≡ prefix +++ cfg.chain_name +++ "/" +++ api_key)
    ⊎ (path ≡ (prefix +++ cfg.chain_name +++ "/" +++ api_key) +++ "/*")

-- A line of the table that registers a method of a chain's handler at that chain's address.
abbrev IsNamed : String × String × JsonMethod × ChainName → Type 0
IsNamed (method, path, m, c) = (method, path) ≡ address m c

chain_routes-IsNamed : All IsNamed chain_routes
chain_routes-IsNamed = (
  refl,
  (
    refl,
    (
      refl,
      (
        refl,
        (
          refl,
          (
            refl,
            (
              refl,
              (
                refl,
                (
                  refl,
                  (
                    refl,
                    (
                      refl,
                      (
                        refl,
                        (
                          refl,
                          (
                            refl,
                            (
                              refl,
                              (
                                refl,
                                (
                                  refl,
                                  (
                                    refl,
                                    (
                                      refl,
                                      (
                                        refl,
                                        (
                                          refl,
                                          (
                                            refl,
                                            (
                                              refl,
                                              (
                                                refl,
                                                (
                                                  refl,
                                                  (
                                                    refl,
                                                    (
                                                      refl,
                                                      (refl, (refl, (refl, (refl, (refl, tt))))),
                                                    ),
                                                  ),
                                                ),
                                              ),
                                            ),
                                          ),
                                        ),
                                      ),
                                    ),
                                  ),
                                ),
                              ),
                            ),
                          ),
                        ),
                      ),
                    ),
                  ),
                ),
              ),
            ),
          ),
        ),
      ),
    ),
  ),
)

module _ (app : App) where
  found :
      (m : JsonMethod) (c : ChainName)
      → (h : JsonRpcHandler) × (handler_of m (start app) c ≡ some h) × IsSetUp app c h
  found json_http c = let (h, e, w, s) = start_lem app c in (h, e, s)
  found json_tendermint c = let (h, e, w, s) = start_lem app c in (h, e, s)
  found json_ws c = let (h, e, w, s) = start_lem app c in (h, w, s)

module _ (Ipfs : Type 0) {Query : Type 0} (app : App) (api_key : String) where
  -- A route leads to the handler that its address names.
  abbrev pub Served : Route Ipfs Query → Type 0
  Served r = elim r.endpoint [
    | json m h ↦ (c : ChainName) × ((r.method, r.path) ≡ address m c) × IsSetUp app c h
    | ipfs_proxy h ↦ r.path ≡ "/ipfs/*"
    | rpc_http h ↦ IsUnder "/rpc/" api_key h.config r.path
    | rpc_extra_write h ↦
        IsUnder "/ew_rpc/" api_key h.config r.path × (h.config.chain_type ≡ "tron")
    | rpc_ws h ↦ IsUnder "/ws/rpc/" api_key h.config r.path × (h.config.chain_type ≢ "tron")
  ]

  abbrev pub AllServed : Option (List (Route Ipfs Query)) → Type 0
  AllServed o = (rs : List (Route Ipfs Query)) × (o ≡ some rs) × All Served rs

  placed :
      (method path : String) (m : JsonMethod) (c : ChainName) (h : JsonRpcHandler)
      (oh : Option JsonRpcHandler) (o : Option (List (Route Ipfs Query)))
      → IsNamed (method, path, m, c)
      → oh ≡ some h
      → IsSetUp app c h
      → AllServed o
      → AllServed (add_route method path (json_endpoint m oh) o)
  placed method path m c h none o n e s rest = cc
  placed method path m c h (some h') none n e s (rs, r, all) = cc
  placed method path m c h (some h') (some later) n e s (rs, r, all) = (
    record { method = method; path = path; endpoint = json m h' } ∷ later,
    refl,
    (
      (c, n, subst (IsSetUp app c) (sym (some-injective _ _ e)) s),
      subst (All Served) (sym (some-injective _ _ r)) all,
    ),
  )

  register-Served :
      (entries : List (String × String × JsonMethod × ChainName))
      (later : Option (List (Route Ipfs Query)))
      → All IsNamed entries
      → AllServed later
      → AllServed (register (start app) entries later)
  unfolding register
  register-Served [] later n s = s
  register-Served ((method, path, m, c) ∷ rest) later (n, ns) s =
      let (h, e, set_up) = found app m c in
      placed method path m c h (handler_of m (start app) c) (register (start app) rest later) n e
        set_up (register-Served rest later ns s)

  rpc_routes-Served :
      (h : RpcHandler Query) → All Served (rpc_routes {Ipfs = Ipfs} api_key h.config h)
  unfolding rpc_routes
  rpc_routes-Served h = elim (Bool-cases (h.config.chain_type == "tron")) [
    | inl t ↦
        let tron = (eq_iff h.config.chain_type "tron").0 t in
        rw t (inl refl, (inr refl, ((inl refl, tron), ((inr refl, tron), tt))))
    | inr f ↦
        let other : h.config.chain_type ≢ "tron" =
          λ e. let t = (eq_iff h.config.chain_type "tron").1 e in cc in
        rw f ((inl refl, other), ((inr refl, other), (inl refl, (inr refl, tt))))
  ]

  All-append :
      (xs ys : List (Route Ipfs Query)) → All Served xs → All Served ys → All Served (xs ++ ys)
  All-append [] ys h k = k
  All-append (x ∷ xs) ys (h, hs) k = (h, All-append xs ys hs k)

-- `NewRpcHandler` takes the configuration of every chain.
abbrev pub AllSupported : Jq → Option RpcConfig → Type 0
AllSupported J none = Unit
AllSupported J (some config) =
    All (λ cfg. (h : RpcHandler J.Query) × (new_rpc_handler J cfg ≡ ok h)) config.chains

abbrev pub key_of : Option RpcConfig → String
key_of none = ""
key_of (some config) = config.api_key

module _ {Ipfs : Type 0} (J : Jq) (app : App) where
  register_chains-Served :
      (api_key : String) (chains : List ChainConfig)
      → All (λ cfg. (h : RpcHandler J.Query) × (new_rpc_handler J cfg ≡ ok h)) chains
      → AllServed Ipfs app api_key (register_chains J api_key chains)
  unfolding register_chains
  register_chains-Served api_key [] hs = ([], refl, tt)
  register_chains-Served api_key (cfg ∷ chains) ((h, e), hs) =
      added (new_rpc_handler J cfg)
        (λ h' made. (new_rpc_handler-IsTracked J cfg h' made).same_config) e
        (register_chains J api_key chains) (register_chains-Served api_key chains hs)
    where
      added :
          (r : Result NewError (RpcHandler J.Query))
          → ((h' : RpcHandler J.Query) → r ≡ ok h' → h'.config ≡ cfg)
          → r ≡ ok h
          → (o : Option (List (Route Ipfs J.Query))) → AllServed Ipfs app api_key o
          → AllServed Ipfs app api_key (add_chain J api_key cfg r o)
      added (err x) same e o s = cc
      added (ok h') same e none (rs, r, all) = cc
      added (ok h') same e (some later) (rs, r, all) = (
        rpc_routes api_key cfg h' ++ later,
        refl,
        All-append Ipfs app api_key (rpc_routes api_key cfg h') later
            (subst (λ c. All (Served Ipfs app api_key) (rpc_routes api_key c h')) (same h' refl)
              (rpc_routes-Served Ipfs app api_key h'))
            (subst (All (Served Ipfs app api_key)) (sym (some-injective _ _ r)) all),
      )

  -- After the init functions, with the IPFS handler and with configured chains that `NewRpcHandler`
  -- takes, the router is made, and every route leads to the handler that its address names: a chain's
  -- address to a handler that is set up for that very chain, and an address of the gateway, which holds
  -- the API key, to the gateway of the chain that it names; extra write is there for tron only, and
  -- WebSocket for the others only.
  pub new_router-Served :
      (ipfs : Ipfs) (config : Option RpcConfig)
      → AllSupported J config
      → AllServed Ipfs app (key_of config) (new_router J (start app) (some ipfs) config)
  unfolding new_router
  new_router-Served ipfs config hs =
      register-Served Ipfs app (key_of config) chain_routes
        (add_route "ANY" "/ipfs/*" (ipfs_endpoint (some ipfs)) (register_config J config))
        chain_routes-IsNamed (with_ipfs (register_config J config) (configured config hs))
    where
      configured :
          (config : Option RpcConfig)
          → AllSupported J config
          → AllServed Ipfs app (key_of config) (register_config J config)
      configured none hs = ([], refl, tt)
      configured (some config) hs = register_chains-Served config.api_key config.chains hs

      with_ipfs :
          (o : Option (List (Route Ipfs J.Query)))
          → AllServed Ipfs app (key_of config) o
          → AllServed Ipfs app
              (key_of config)
              (add_route "ANY" "/ipfs/*" (ipfs_endpoint (some ipfs)) o)
      with_ipfs none (rs, r, all) = cc
      with_ipfs (some later) (rs, r, all) = (
        record { method = "ANY"; path = "/ipfs/*"; endpoint = ipfs_proxy ipfs } ∷ later,
        refl,
        (refl, subst (All (Served Ipfs app (key_of config))) (sym (some-injective _ _ r)) all),
      )
