-- ===== src/InitApp/Startup/Dialing.antt =====
-- How the chains of Tendermint treat the methods that let a stranger add peers to a node.
use chain_api.Common.{
  ℕ, String, Bool, true, false, ◌≡◌, none, some, [], ◌⊎◌, Result, ok, err, error, Stop, pure, ◌>>◌,
}
use chain_api.Common.Int.{ℤ}
use chain_api.Common.Text.{◌+++◌}
use chain_api.Common.Strings.{split}
use chain_api.Redis.{Redis}
use chain_api.RateLimit.Limiter.{CacheKeys}
use chain_api.JsonRpc.{
  SingleRequest, Request, Codec, JsonRpcErr, request_type_erigon, new_unsupported_method_error,
}
use chain_api.Proxy.{
  Services, TendermintRequest, called, do_http_upstream_call, do_tendermint_upstream_call,
}
use chain_api.Utils.{is_in}
use chain_api.JsonRpcHandler.{
  JsonRpcHandler, bind_call, black_methods_for, count_erigon, with_calls,
}
use chain_api.JsonRpcHandler.Http.{first_or, last_of, joined, tail_of, tendermint_path_bind}
use chain_api.InitApp.App.{ChainName, eth, polygon, arbitrum, solana, hsc, cosmos, App}

-- The chains with the lists of tendermint.go.
abbrev pub is_tendermint : ChainName → Bool
is_tendermint eth = false
is_tendermint polygon = false
is_tendermint arbitrum = false
is_tendermint solana = false
is_tendermint hsc = false
is_tendermint _ = true

-- What the lists of the chains say of the method; `app` gives the upstreams.
abbrev Lists : App → ChainName → JsonRpcHandler → String → Type 0
Lists app cosmos h m =
    (is_in m h.http_black_methods ≡ false)
    × (is_in m h.erigon_methods ≡ true)
    × (h.just_white_methods ≡ [])
    × (h.proxy.http_erigon_stream ≡ "")
    × (h.proxy.http_upstream ≡ (app.upstream cosmos).http)
Lists app _ h m =
    (is_in m h.http_black_methods ≡ true) × (h.erigon_methods ≡ []) × (h.just_white_methods ≡ [])

abbrev pub Dials : String → Type 0
Dials m = (m ≡ "dial_seeds") ⊎ (m ≡ "dial_peers")

abbrev FoundListing : App → App → ChainName → String → Type 0
FoundListing app started c m =
    (h : JsonRpcHandler) × (started.http_handler c ≡ some h) × Lists app c h m

-- The path of a GET: the last part of the URI, up to its question mark.
abbrev pub path_of : String → String
path_of uri = first_or "" (split (last_of "" (split uri "/")) "?")

-- Its query, with the question mark.
abbrev pub query_of : String → String
query_of uri = "?" +++ joined (tail_of (split (last_of "" (split uri "/")) "?"))

module _ (R : Redis) (K : CacheKeys) (C : Codec) (V : Services) (api_key uri : String)
    (call : SingleRequest) where
  -- What becomes of the call in a POST, with the methods that the handler refuses over HTTP.
  abbrev pub posted : JsonRpcHandler → ℤ → ℕ → R.Db → Result (Stop JsonRpcErr) ℕ × R.Db
  posted h n t db =
      bind_call R K C call (black_methods_for h api_key h.http_black_methods) h.erigon_methods n t
        db

  abbrev pub Refuses : JsonRpcHandler → Type 0
  Refuses h =
      ((n : ℤ) (t : ℕ) (db : R.Db)
        → posted h n t db ≡ (err (error (new_unsupported_method_error call.id)), db))
      × (tendermint_path_bind api_key uri h.http_black_methods
          ≡ err (new_unsupported_method_error none))

  abbrev pub asked : String → TendermintRequest
  asked m = record { path = m; url_query = query_of uri }

  -- A POST is counted and marked for erigon, whose address is empty; a GET goes to the upstream `url`.
  abbrev pub SendsOn : String → JsonRpcHandler → String → Type 0
  SendsOn url h m =
      ((n : ℤ) (t : ℕ) (db : R.Db)
        → posted h n t db ≡ (do count_erigon R K C true n; pure request_type_erigon) db)
      × ((req : Request) (w : V.World)
          → do_http_upstream_call V h.proxy (with_calls req request_type_erigon) w
            ≡ called V (V.post "" (V.marshal_request (with_calls req request_type_erigon))) w)
      × (tendermint_path_bind api_key uri h.http_black_methods ≡ ok (asked m))
      × ((w : V.World)
          → do_tendermint_upstream_call V h.proxy (asked m) w
            ≡ called V (V.http_get (url +++ "/" +++ m +++ query_of uri)) w)

  abbrev pub Treats : App → ChainName → JsonRpcHandler → String → Type 0
  Treats app cosmos h m = SendsOn (app.upstream cosmos).http h m
  Treats app _ h m = Refuses h
