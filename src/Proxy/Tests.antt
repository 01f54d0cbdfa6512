-- ===== src/Proxy/Tests.antt =====
-- The theorems on the cache of pkg/proxy/jsonRpcProxy.go, for two calls of one method.
use chain_api.Common.{String, ◌≡◌, refl, Option, none, some, List, [], ◌∷◌, ok, ◌==◌, if◌then◌else◌}
use chain_api.Common.Text.{decimal}
use chain_api.Utils.{is_in, find}
use chain_api.JsonRpc.{float64, SingleRequest}
use chain_api.Proxy.{
  JsonRpcProxyConfig, http_proxy, http_upstream, from_cache, single_proxy, do_http_upstream_call,
}
use chain_api.Proxy.Cache.{single, http_proxy-http_proxy}
use chain_api.Proxy.Concrete.{memory, memory-IsCache, memory-Answers, fresh}

abbrev cfg : JsonRpcProxyConfig
cfg = record {
  http_upstream = "http://node";
  ws_upstream = "";
  http_erigon_stream = "";
  ws_erigon_upstream = "";
  cache_time = 12;
  chain_id = 1;
  cacheable_methods = "eth_chainId" ∷ [];
}

abbrev call : String → SingleRequest
call id = record {
  id = some (float64 id);
  jsonrpc_version = "2.0";
  method = "eth_chainId";
  params = "[]";
}

abbrev filled : (String → Option String) × List String
filled = ((λ key. if "rpc:1:eth_chainId:[]" == key then some "0x10" else none), "http://node" ∷ [])

http_proxy-http_proxy_example :
    http_proxy memory cfg
      (single (call "2") 0)
      (http_proxy memory cfg (single (call "1") 0) fresh).1
    ≡ (ok "result:0x10", (http_proxy memory cfg (single (call "1") 0) fresh).1)
unfolding http_proxy single_proxy from_cache http_upstream do_http_upstream_call decimal is_in find
http_proxy-http_proxy_example =
    http_proxy-http_proxy memory memory-IsCache memory-Answers cfg (call "1") (call "2") 0 0 fresh
      "0x10" "result:0x10" "0x10" "0x10" refl refl refl refl refl refl refl (λ e. cc) refl
