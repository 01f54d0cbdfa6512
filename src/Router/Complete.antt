-- ===== src/Router/Complete.antt =====
-- Which routes a router of router/router.go has once it is made.
use chain_api.Common.{
  ℕ, suc, String, ◌≡◌, refl, sym, ap, ◌∙◌, subst, Option, none, some, List, [], ◌∷◌, ◌++◌, All,
  Result, ok, err, get_elem?, get_elem?-append_left, get_elem?-append_right, length, ◌+◌, ◌==◌,
  Bool-cases, inl, inr,
}
use mathlib.Core.Option.{some-injective}
use chain_api.Common.Text.{◌+++◌}
use chain_api.Utils.{Jq}
use chain_api.JsonRpcHandler.{JsonRpcHandler}
use chain_api.RpcHandler.{ChainConfig, RpcHandler, NewError, new_rpc_handler}
use chain_api.Config.{RpcConfig}
use chain_api.InitApp.App.{ChainName, App}
use chain_api.Router.{
  Route, Endpoint, JsonMethod, json, ipfs_proxy, rpc_http, chain_routes, add_route, register,
  register_chains, register_config, rpc_routes, add_chain, new_router, ipfs_endpoint, json_endpoint,
  handler_of,
}
use chain_api.Router.Served.{key_of}

module _ {Ipfs Query : Type 0} where
  abbrev pub Has : List (Route Ipfs Query) → Route Ipfs Query → Type 0
  Has rs r = (i : ℕ) × (get_elem? rs i ≡ some r)

  abbrev pub HasAt : List (Route Ipfs Query) → String → String → Endpoint Ipfs Query → Type 0
  HasAt rs method path e = Has rs (record { method = method; path = path; endpoint = e })

  Has-left : (rs ts : List (Route Ipfs Query)) (r : Route Ipfs Query) → Has rs r → Has (rs ++ ts) r
  Has-left rs ts r (i, e) = (i, get_elem?-append_left rs ts i r e)

  Has-right : (rs ts : List (Route Ipfs Query)) (r : Route Ipfs Query) → Has ts r → Has (rs ++ ts) r
  Has-right rs ts r (i, e) = (length rs + i, get_elem?-append_right rs ts i ∙ e)

  -- The route of a line of the table, to the handler that its chain then had.
  abbrev pub Registered :
      App → List (Route Ipfs Query) → String × String × JsonMethod × ChainName → Type 0
  Registered app rs (method, path, m, c) =
      (h : JsonRpcHandler) × (handler_of m app c ≡ some h) × HasAt rs method path (json m h)

  -- A made router has the route that was added, and those that followed.
  added :
      (method path : String) (e : Option (Endpoint Ipfs Query))
      (o : Option (List (Route Ipfs Query))) {rs : List (Route Ipfs Query)}
      → add_route method path e o ≡ some rs
      → (x : Endpoint Ipfs Query) × (e ≡ some x)
        × (later : List (Route Ipfs Query)) × (o ≡ some later)
        × (record { method = method; path = path; endpoint = x } ∷ later ≡ rs)
  added method path none o h = cc
  added method path (some x) none h = cc
  added method path (some x) (some later) h = (x, refl, later, refl, some-injective _ _ h)

  json_endpoint-inv :
      (m : JsonMethod) (o : Option JsonRpcHandler) {x : Endpoint Ipfs Query}
      → json_endpoint m o ≡ some x
      → (h : JsonRpcHandler) × (o ≡ some h) × (x ≡ json m h)
  json_endpoint-inv m none e = cc
  json_endpoint-inv m (some h) e = (h, refl, sym (some-injective _ _ e))

  -- The lines of the table before the routes that follow: these routes stay.
  abbrev Kept : List (Route Ipfs Query) → List (Route Ipfs Query) → Type 0
  Kept later rs = (r : Route Ipfs Query) → Has later r → Has rs r

  Kept-of_eq : (ts rs : List (Route Ipfs Query)) → ts ≡ rs → Kept ts rs
  Kept-of_eq ts rs e r (i, k) = (i, subst (λ us. get_elem? us i ≡ some r) e k)

  abbrev endpoint_at :
      String → String → List (Route Ipfs Query) → Endpoint Ipfs Query → List (Route Ipfs Query)
  endpoint_at method path later x = record { method = method; path = path; endpoint = x } ∷ later

  All-Registered :
      (app : App) (ts rs : List (Route Ipfs Query))
      → Kept ts rs
      → (entries : List (String × String × JsonMethod × ChainName))
      → All (Registered app ts) entries
      → All (Registered app rs) entries
  All-Registered app ts rs keep [] a = tt
  All-Registered app ts rs keep ((method, path, m, c) ∷ rest) ((h, found, has), others) =
      ((h, found, keep _ has), All-Registered app ts rs keep rest others)

  register-Registered :
      (app : App) (entries : List (String × String × JsonMethod × ChainName))
      (o : Option (List (Route Ipfs Query))) {rs : List (Route Ipfs Query)}
      → register app entries o ≡ some rs
      → All (Registered app rs) entries
        × ((later : List (Route Ipfs Query)) × (o ≡ some later) × Kept later rs)
  unfolding register
  register-Registered app [] o {rs} h = (tt, (rs, h, λ r k. k))
  register-Registered app ((method, path, m, c) ∷ rest) o {rs} h =
      let (x, e, later, r, shape) =
        added method path (json_endpoint m (handler_of m app c)) (register app rest o) h in
      let (g, found, is) = json_endpoint-inv m (handler_of m app c) e in
      let (all, (last, l, kept)) = register-Registered app rest o r in
      let first = ap (endpoint_at method path later) (sym is) ∙ shape in
      let grow : Kept later rs = λ t (i, k). Kept-of_eq _ rs shape t (suc i, k) in
      (
        ((g, found, Kept-of_eq _ rs first _ (0, refl)), All-Registered app later rs grow rest all),
        (last, l, λ t k. grow t (kept t k)),
      )

abbrev pub chains_of : Option RpcConfig → List ChainConfig
chains_of none = []
chains_of (some config) = config.chains

module _ {Ipfs : Type 0} (J : Jq) where
  -- A configured chain is answered over HTTP: by a handler of that configuration, at the address with
  -- the chain's name and the API key.
  abbrev pub Answered : List (Route Ipfs J.Query) → String → ChainConfig → Type 0
  Answered rs api_key cfg =
      (h : RpcHandler J.Query) × (new_rpc_handler J cfg ≡ ok h)
      × HasAt rs "ANY" ("/rpc/" +++ cfg.chain_name +++ "/" +++ api_key) (rpc_http h)

  rpc_routes-HasAt :
      (api_key : String) (cfg : ChainConfig) (h : RpcHandler J.Query)
      → HasAt
          (rpc_routes {Ipfs = Ipfs} api_key cfg h)
          "ANY"
          ("/rpc/" +++ cfg.chain_name +++ "/" +++ api_key)
          (rpc_http h)
  unfolding rpc_routes
  rpc_routes-HasAt api_key cfg h = elim (Bool-cases (cfg.chain_type == "tron")) [
    | inl tron ↦ rw tron (0, refl)
    | inr other ↦ rw other (2, refl)
  ]

  add_chain-inv :
      (api_key : String) (cfg : ChainConfig) (r : Result NewError (RpcHandler J.Query))
      (o : Option (List (Route Ipfs J.Query))) {rs : List (Route Ipfs J.Query)}
      → add_chain J api_key cfg r o ≡ some rs
      → (h : RpcHandler J.Query) × (r ≡ ok h)
        × (later : List (Route Ipfs J.Query)) × (o ≡ some later)
        × (rpc_routes api_key cfg h ++ later ≡ rs)
  add_chain-inv api_key cfg (err e) o h = cc
  add_chain-inv api_key cfg (ok g) none h = cc
  add_chain-inv api_key cfg (ok g) (some later) h = (g, refl, later, refl, some-injective _ _ h)

  All-Answered :
      (ts rs : List (Route Ipfs J.Query)) (api_key : String)
      → Kept ts rs
      → (chains : List ChainConfig) → All (Answered ts api_key) chains
      → All (Answered rs api_key) chains
  All-Answered ts rs api_key keep [] a = tt
  All-Answered ts rs api_key keep (cfg ∷ chains) ((h, made, has), rest) =
      ((h, made, keep _ has), All-Answered ts rs api_key keep chains rest)

  register_chains-Answered :
      (api_key : String) (chains : List ChainConfig) {rs : List (Route Ipfs J.Query)}
      → register_chains J api_key chains ≡ some rs
      → All (Answered rs api_key) chains
  unfolding register_chains
  register_chains-Answered api_key [] e = tt
  register_chains-Answered api_key (cfg ∷ chains) {rs} e =
      let (h, made, later, o, shape) =
        add_chain-inv api_key cfg (new_rpc_handler J cfg) (register_chains J api_key chains) e in
      let routes = rpc_routes {Ipfs = Ipfs} api_key cfg h in
      let here = Has-left routes later _ (rpc_routes-HasAt api_key cfg h) in
      let below : Kept later rs =
        λ t k. Kept-of_eq (routes ++ later) rs shape t (Has-right routes later t k) in
      (
        (h, made, Kept-of_eq (routes ++ later) rs shape _ here),
        All-Answered later rs api_key below chains (register_chains-Answered api_key chains o),
      )

  register_config-Answered :
      (config : Option RpcConfig) {rs : List (Route Ipfs J.Query)}
      → register_config J config ≡ some rs
      → All (Answered rs (key_of config)) (chains_of config)
  register_config-Answered none e = tt
  register_config-Answered (some config) e = register_chains-Answered config.api_key config.chains e

  -- A router that is made has a route for every line of the table, to the handler that the chain had,
  -- one to the IPFS handler, and for every configured chain one that answers it over HTTP.
  abbrev pub IsComplete : App → Ipfs → Option RpcConfig → List (Route Ipfs J.Query) → Type 0
  IsComplete app ipfs config rs =
      All (Registered app rs) chain_routes
      × HasAt rs "ANY" "/ipfs/*" (ipfs_proxy ipfs)
      × All (Answered rs (key_of config)) (chains_of config)

  pub new_router-IsComplete :
      (app : App) (ipfs : Ipfs) (config : Option RpcConfig) {rs : List (Route Ipfs J.Query)}
      → new_router J app (some ipfs) config ≡ some rs
      → IsComplete app ipfs config rs
  unfolding new_router
  new_router-IsComplete app ipfs config {rs} e =
      let (all, (last, l, kept)) =
        register-Registered app chain_routes
          (add_route "ANY" "/ipfs/*" (ipfs_endpoint (some ipfs)) (register_config J config)) e in
      let (x, is, later, o, shape) =
        added "ANY" "/ipfs/*" (ipfs_endpoint (some ipfs)) (register_config J config) l in
      let below : Kept later rs = λ t (i, k). kept t (Kept-of_eq _ last shape t (suc i, k)) in
      let first = ap (endpoint_at "ANY" "/ipfs/*" later) (some-injective _ _ is) ∙ shape in
      (
        all,
        kept _ (Kept-of_eq _ last first _ (0, refl)),
        All-Answered later rs (key_of config) below (chains_of config)
            (register_config-Answered config o),
      )
