-- ===== src/RpcHandler/Forward/Tests.antt =====
-- The header that `forwardHttpRequest` of pkg/handler/rpcHandler.go sends on, for a small one.
use chain_api.Common.{◌≡◌, none, some, [], ◌∷◌, true}
use chain_api.Common.Strings.{join}
use chain_api.RpcHandler.Forward.{Header, Http, forwarded_header, values}
use chain_api.RpcHandler.Forward.Headers.{values-forwarded_header}

-- Every name is canonical.
abbrev plain : Http
plain = record {
  canonical = λ s. s;
  split_host = λ s. some s;
  is_request = λ m url. true;
  do_request = λ req. none;
}

abbrev header : Header
header =
    ("X-Forwarded-For", "10.0.0.1" ∷ [])
    ∷ ("Connection", "close" ∷ [])
    ∷ ("Accept", "*/*" ∷ [])
    ∷ []

values-forwarded_header_example :
    values (forwarded_header plain header "10.0.0.2") "X-Forwarded-For"
    ≡ some ("10.0.0.1, 10.0.0.2" ∷ [])
unfolding values join
values-forwarded_header_example = values-forwarded_header plain header "10.0.0.2" "X-Forwarded-For"
