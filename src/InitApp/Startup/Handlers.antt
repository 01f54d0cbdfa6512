-- ===== src/InitApp/Startup/Handlers.antt =====
-- The handlers that the init functions of pkg/initapp leave in the `App`.
use chain_api.Common.{
  String, Bool, true, false, ◌≡◌, refl, sym, ◌∙◌, some, List, [], ◌∷◌, ◌++◌, any, ◌||◌, ◌==◌, inl,
  inr, eq_iff, Bool-cases, subst,
}
use chain_api.Utils.{is_in}
use chain_api.Utils.Membership.{is_in-any}
use chain_api.JsonRpcHandler.{JsonRpcHandler}
use chain_api.InitApp.App.{
  ChainName, eth, polygon, arbitrum, solana, hsc, cosmos, evmos, kava, juno, umee, gravity, okc,
  irisnet, App,
}
use chain_api.InitApp.Ethereum.{
  init_eth_handler, init_polygon_handler, init_arbitrum_handler, init_hsc_handler,
}
use chain_api.InitApp.Solana.{init_solana_handler}
use chain_api.InitApp.Tendermint.{
  init_cosmos_handler, init_evmos_handler, init_kava_handler, init_juno_handler, init_umee_handler,
  init_gravity_handler, init_okc_handler, init_irisnet_handler,
}
use chain_api.InitApp.Startup.{start, run_init}

-- Whether two lists of methods have an element in common.
abbrev meets : List String → List String → Bool
meets [] ys = false
meets (x ∷ xs) ys = any (λ y. y == x) ys || meets xs ys

no_left : (b c : Bool) → (b || c) ≡ false → b ≡ false
no_left true c h = cc
no_left false c h = refl

no_right : (b c : Bool) → (b || c) ≡ false → c ≡ false
no_right true c h = cc
no_right false c h = h

or_right : (b c : Bool) → b ≡ false → (b || c) ≡ true → c ≡ true
or_right true c h e = cc
or_right false c h e = e

meets_lem :
    (xs ys : List String) (m : String)
    → meets xs ys ≡ false
    → any (λ x. x == m) xs ≡ true
    → any (λ y. y == m) ys ≡ false
meets_lem [] ys m h e = cc
meets_lem (x ∷ xs) ys m h e = elim (Bool-cases (x == m)) [
  | inl same ↦
      subst (λ z. any (λ y. y == z) ys ≡ false) ((eq_iff x m).0 same) (no_left _ (meets xs ys) h)
  | inr differs ↦
      meets_lem xs ys m (no_right (any (λ y. y == x) ys) _ h) (or_right (x == m) _ differs e)
]

-- No method that a list refuses is cached.
abbrev pub Uncached : List String → List String → Type 0
Uncached refused cacheable = (m : String) → is_in m refused ≡ true → is_in m cacheable ≡ false

Uncached-of_meets :
    (refused cacheable : List String) → meets refused cacheable ≡ false → Uncached refused cacheable
Uncached-of_meets refused cacheable h m e =
    is_in-any m cacheable ∙ meets_lem refused cacheable m h (sym (is_in-any m refused) ∙ e)

-- A handler works for one chain: its chain, upstreams, cache keys and limits are that chain's, and
-- its proxy caches no method that it may refuse over HTTP.
abbrev pub IsSetUp : App → ChainName → JsonRpcHandler → Type 0
IsSetUp app c h =
    (h.chain ≡ app.constant c)
    × (h.proxy.chain_id ≡ (app.constant c).id)
    × (h.proxy.http_upstream ≡ (app.upstream c).http)
    × (h.proxy.ws_upstream ≡ (app.upstream c).ws)
    × (h.rate_limiter ≡ app.rate_limiter)
    × Uncached (h.http_black_methods ++ h.just_white_methods) h.proxy.cacheable_methods

abbrev pub HasHandler : App → App → ChainName → Type 0
HasHandler app app' c =
    (h : JsonRpcHandler) × (app'.http_handler c ≡ some h)
    × (app'.ws_handler c ≡ some h)
    × IsSetUp app c h

-- After the init functions every chain has one handler for HTTP and for WebSocket, which is set up
-- with the constant, the upstreams and the cache keys of that very chain and the one rate limiter,
-- and whose proxy caches no method that the handler may refuse over HTTP.
pub start_lem : (app : App) (c : ChainName) → HasHandler app (start app) c
unfolding start run_init init_eth_handler init_polygon_handler init_arbitrum_handler
    init_solana_handler init_hsc_handler init_cosmos_handler init_evmos_handler init_kava_handler
    init_juno_handler init_umee_handler init_gravity_handler init_okc_handler init_irisnet_handler
start_lem app eth = (_, refl, refl, (refl, refl, refl, refl, refl, Uncached-of_meets _ _ refl))
start_lem app polygon = (_, refl, refl, (refl, refl, refl, refl, refl, Uncached-of_meets _ _ refl))
start_lem app arbitrum = (_, refl, refl, (refl, refl, refl, refl, refl, Uncached-of_meets _ _ refl))
start_lem app solana = (_, refl, refl, (refl, refl, refl, refl, refl, Uncached-of_meets _ _ refl))
start_lem app hsc = (_, refl, refl, (refl, refl, refl, refl, refl, Uncached-of_meets _ _ refl))
start_lem app cosmos = (_, refl, refl, (refl, refl, refl, refl, refl, Uncached-of_meets _ _ refl))
start_lem app evmos = (_, refl, refl, (refl, refl, refl, refl, refl, Uncached-of_meets _ _ refl))
start_lem app kava = (_, refl, refl, (refl, refl, refl, refl, refl, Uncached-of_meets _ _ refl))
start_lem app juno = (_, refl, refl, (refl, refl, refl, refl, refl, Uncached-of_meets _ _ refl))
start_lem app umee = (_, refl, refl, (refl, refl, refl, refl, refl, Uncached-of_meets _ _ refl))
start_lem app gravity = (_, refl, refl, (refl, refl, refl, refl, refl, Uncached-of_meets _ _ refl))
start_lem app okc = (_, refl, refl, (refl, refl, refl, refl, refl, Uncached-of_meets _ _ refl))
start_lem app irisnet = (_, refl, refl, (refl, refl, refl, refl, refl, Uncached-of_meets _ _ refl))
