-- ===== src/InitApp/NewApp/Ends.antt =====
-- The ways in which `NewApp` of pkg/initapp/initApp.go ends, and when it gives a server.
use chain_api.Common.{
  String, false, Bool-cases, ◌≡◌, ◌≢◌, ◌⊎◌, inl, inr, refl, sym, subst, ◌∙◌, Option, none, some,
  List, All, Result, ok, err, Stop, error, panic, err-injective, eq_iff, ◌==◌,
}
use mathlib.Core.Option.{some-injective}
use chain_api.Config.{RpcConfig, load_rpc_config, LoadError}
use chain_api.Config.Settings.{Config, load_config}
use chain_api.Config.Logger.{new_logger}
use chain_api.Database.{Pool, new_db}
use chain_api.Ipfs.Handler.{IpfsHandler}
use chain_api.Router.{Route, new_router}
use chain_api.Router.Served.{AllSupported, Served, key_of, new_router-Served}
use chain_api.Router.Complete.{IsComplete, new_router-IsComplete}
use chain_api.Router.Made.{AllSupported-of_new_router}
use chain_api.InitApp.App.{ChainName}
use chain_api.InitApp.Startup.{start}
use chain_api.InitApp.Startup.Handlers.{HasHandler, start_lem}
use chain_api.InitApp.NewApp.{
  Machine, StartError, no_config, no_whitelist, no_rpc_file, panicked, no_database, bad_rpc_config,
  Server, ◌>>=◌, or_fatal, or_exit, pushgateway_base_of, read_rpc_config, initial_app,
  init_ipfs_client, new_app, loaded, rpc_config_of,
}

-- A step that may end the process, and the rest.
module _ {E A B : Type 0} (P : Result E B → Type 0) (k : A → Result E B) where
  or_fatal_cases :
      {E' : Type 0} (f : E' → E) (m : Result E' A)
      → ((a : A) → m ≡ ok a → P (k a))
      → ((e : E') → m ≡ err e → P (err (f e)))
      → P (or_fatal f m >>= k)
  or_fatal_cases f (ok a) good bad = good a refl
  or_fatal_cases f (err e) good bad = bad e refl

  or_exit_cases :
      (e : E) (o : Option A)
      → ((a : A) → o ≡ some a → P (k a))
      → (o ≡ none → P (err e))
      → P (or_exit e o >>= k)
  or_exit_cases e (some a) good bad = good a refl
  or_exit_cases e none good bad = bad refl

  bind_cases :
      (m : Result E A)
      → ((a : A) → m ≡ ok a → P (k a))
      → ((e : E) → m ≡ err e → P (err e))
      → P (m >>= k)
  bind_cases (ok a) good bad = good a refl
  bind_cases (err e) good bad = bad e refl

module _ (M : Machine) (config_file rpc_config_file : String) where
  open M use {viper, toml, gorm, jq, api_keys_whitelist, read_file}

  abbrev Made : Type 0
  Made = Server viper.RedisConf gorm.Db jq.Query

  -- The files and services that `NewApp` needs first: the configuration, the list of API keys and the
  -- database.
  abbrev pub Begun : Config viper.RedisConf → List String → gorm.Db × Pool → Type 0
  Begun cfg whitelist db =
      (load_config viper config_file ≡ ok cfg)
      × (api_keys_whitelist cfg.redis ≡ some whitelist)
      × (new_db gorm cfg ≡ ok db)

  -- A server for the configuration: every chain has a handler that is set up with the configuration's
  -- upstreams and the list of API keys; every route leads to the handler that its address names; and there
  -- are the routes of the table, with the handlers of these chains and of IPFS, and one for each
  -- configured chain.
  abbrev pub IsServer : Config viper.RedisConf → List String → Option RpcConfig → Made → Type 0
  IsServer cfg whitelist rpc s =
      (s.config ≡ cfg)
      × (s.rpc_config ≡ rpc)
      × ((c : ChainName) → HasHandler (initial_app M cfg whitelist) s.app c)
      × (s.pushgateway_base ≡ pushgateway_base_of rpc)
      × All (Served IpfsHandler (initial_app M cfg whitelist) (key_of rpc)) s.routes
      × ((ipfs : IpfsHandler) × (init_ipfs_client M cfg whitelist ≡ some ipfs)
          × IsComplete jq s.app ipfs rpc s.routes)

  -- What each end of `NewApp` says of the files and services.
  abbrev pub Ended : Result (StartError gorm.Error) Made → Type 0
  Ended (ok s) =
      (whitelist : List String) × Begun s.config whitelist s.db
      × (read_rpc_config M rpc_config_file ≡ ok s.rpc_config)
      × AllSupported jq s.rpc_config
      × IsServer s.config whitelist s.rpc_config s
  Ended (err (no_config e)) = load_config viper config_file ≡ err e
  Ended (err no_whitelist) =
      (cfg : Config viper.RedisConf) × (load_config viper config_file ≡ ok cfg)
      × (api_keys_whitelist cfg.redis ≡ none)
  Ended (err (no_database e)) =
      (cfg : Config viper.RedisConf) × (load_config viper config_file ≡ ok cfg)
      × (new_db gorm cfg ≡ err e)
  Ended (err no_rpc_file) = (rpc_config_file ≢ "") × (read_file rpc_config_file ≡ none)
  Ended (err (bad_rpc_config e)) =
      (text : String) × (read_file rpc_config_file ≡ some text)
      × (load_rpc_config toml text ≡ err (error e))
  Ended (err panicked) =
      ((text : String) × (read_file rpc_config_file ≡ some text)
        × (load_rpc_config toml text ≡ err panic))
      ⊎ ((cfg : Config viper.RedisConf) × (whitelist : List String) × (load_config viper config_file
            ≡ ok cfg)
          × (api_keys_whitelist cfg.redis ≡ some whitelist)
          × (init_ipfs_client M cfg whitelist ≡ none))
      ⊎ ((rpc : Option RpcConfig) × (read_rpc_config M rpc_config_file ≡ ok rpc)
          × ¬ AllSupported jq rpc)

  -- What the steps of the block on `rpcConfigFile` say of an error.
  loaded-Ended :
      (text : String) (r : Result (Stop LoadError) RpcConfig) (e : StartError gorm.Error)
      → read_file rpc_config_file ≡ some text
      → load_rpc_config toml text ≡ r
      → loaded r ≡ err e
      → Ended (err e)
  loaded-Ended text (ok config) e f l h = cc
  loaded-Ended text (err (error x)) e f l h =
      subst (λ y. Ended (err y)) (err-injective h) (text, f, l)
  loaded-Ended text (err panic) e f l h =
      subst (λ y. Ended (err y)) (err-injective h) (inl (text, f, l))

  given-Ended :
      (file : Option String) (e : StartError gorm.Error)
      → (rpc_config_file == "") ≡ false
      → read_file rpc_config_file ≡ file
      → rpc_config_of M file ≡ err e
      → Ended (err e)
  given-Ended none e given f h =
      let named : rpc_config_file ≢ "" = λ d. let t = (eq_iff rpc_config_file "").1 d in cc in
      subst (λ y. Ended (err y)) (err-injective h) (named, f)
  given-Ended (some text) e given f h = loaded-Ended text (load_rpc_config toml text) e f refl h

  read_rpc_config-Ended :
      (e : StartError gorm.Error) → read_rpc_config M rpc_config_file ≡ err e → Ended (err e)
  unfolding read_rpc_config
  read_rpc_config-Ended e h = elim (Bool-cases (rpc_config_file == "")) [
    | inl empty ↦ let h' = rw empty at h in cc
    | inr given ↦ given-Ended (read_file rpc_config_file) e given refl (rw given at h)
  ]

  -- The last step: the router.
  routed :
      (cfg : Config viper.RedisConf) (whitelist : List String) (db : gorm.Db × Pool)
      (rpc : Option RpcConfig) (ipfs : IpfsHandler)
      → Begun cfg whitelist db
      → (read_rpc_config M rpc_config_file ≡ ok rpc)
      → init_ipfs_client M cfg whitelist ≡ some ipfs
      → (o : Option (List (Route IpfsHandler jq.Query)))
      → new_router jq (start (initial_app M cfg whitelist)) (some ipfs) rpc ≡ o
      → Ended (
          or_exit panicked o >>= λ routes. ok (record {
            config = cfg;
            rpc_config = rpc;
            logger = new_logger M.is_log_pattern cfg.log;
            db = db;
            app = start (initial_app M cfg whitelist);
            pushgateway_base = pushgateway_base_of rpc;
            routes = routes;
          }))
  routed cfg w db rpc ipfs begun r i none made = inr (
      inr (
        rpc,
        r,
        λ supported.
            let (rs, e, _) = new_router-Served jq (initial_app M cfg w) ipfs rpc supported in cc,
      ))
  routed cfg w db rpc ipfs begun r i (some routes) made =
      let supported = AllSupported-of_new_router jq (start (initial_app M cfg w)) ipfs rpc made in
      let (rs, e, all) = new_router-Served jq (initial_app M cfg w) ipfs rpc supported in
      let same = some-injective _ _ (sym e ∙ made) in
      (
        w,
        begun,
        r,
        supported,
        (
          refl,
          refl,
          start_lem (initial_app M cfg w),
          refl,
          subst (All (Served IpfsHandler (initial_app M cfg w) (key_of rpc))) same all,
          (ipfs, i, new_router-IsComplete jq (start (initial_app M cfg w)) ipfs rpc made),
        ),
      )

  -- Every end of `NewApp` has its cause: a fatal message on the configuration, the list of API keys, the
  -- database or the file of the chains comes from that very failure, and those on the list of API keys
  -- and on the database after the configuration was loaded; a panic comes from the settings of the file
  -- of the chains, from an IPFS endpoint that is no address, or from a configured chain that
  -- `NewRpcHandler` does not take; and a server, which is then set up for the configuration, comes from
  -- files and services that all answered, with configured chains that are all taken.
  pub new_app-Ended : Ended (new_app M config_file rpc_config_file)
  unfolding new_app
  new_app-Ended =
      or_fatal_cases Ended _ no_config (load_config viper config_file)
        (λ cfg c.
          or_exit_cases Ended _ no_whitelist (api_keys_whitelist cfg.redis)
            (λ w k.
              or_fatal_cases Ended _ no_database (new_db gorm cfg)
                (λ db d.
                  bind_cases Ended _ (read_rpc_config M rpc_config_file)
                    (λ rpc r.
                      or_exit_cases Ended _ panicked (init_ipfs_client M cfg w)
                        (λ ipfs i. routed cfg w db rpc ipfs (c, k, d) r i _ refl)
                        (λ n. inr (inl (cfg, w, c, k, n))))
                    read_rpc_config-Ended)
                (λ e d. (cfg, c, d)))
            (λ n. (cfg, c, n)))
        (λ e c. c)

  -- Where the configuration, the list of API keys, the database and the file of the chains, if one is
  -- named, can be read, the IPFS endpoint is an address and `NewRpcHandler` takes every configured
  -- chain, `NewApp` gives a server for that configuration: every chain has a handler set up with its
  -- upstreams, every route leads to the handler that its address names, there is a route for every line
  -- of the table, for IPFS and for every configured chain, and the push gateway is that of the file.
  pub new_app-IsServer :
      (cfg : Config viper.RedisConf) (whitelist : List String) (db : gorm.Db × Pool)
      (rpc : Option RpcConfig) (ipfs : IpfsHandler)
      → Begun cfg whitelist db
      → read_rpc_config M rpc_config_file ≡ ok rpc
      → init_ipfs_client M cfg whitelist ≡ some ipfs
      → AllSupported jq rpc
      → (s : Made) × (new_app M config_file rpc_config_file ≡ ok s) × IsServer cfg whitelist rpc s
  unfolding new_app
  new_app-IsServer cfg w db rpc ipfs (c, k, d) r i supported =
      let (routes, made, all) = new_router-Served jq (initial_app M cfg w) ipfs rpc supported in
      (
        record {
          config = cfg;
          rpc_config = rpc;
          logger = new_logger M.is_log_pattern cfg.log;
          db = db;
          app = start (initial_app M cfg w);
          pushgateway_base = pushgateway_base_of rpc;
          routes = routes;
        },
        rw (c, k, d, r, i, made),
        (
          refl,
          refl,
          start_lem (initial_app M cfg w),
          refl,
          all,
          (ipfs, i, new_router-IsComplete jq (start (initial_app M cfg w)) ipfs rpc made),
        ),
      )
