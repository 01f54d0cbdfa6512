-- ===== src/Proxy/WebSocket/Tests.antt =====
-- The theorems on pkg/proxy/websocket.go for a connection whose client asks once.
use chain_api.Common.{true, false, refl, none, some, [], ◌∷◌, ok, inr}
use chain_api.Common.Int.{pos}
use chain_api.Common.Strings.{trim_space, first_code, last_code}
use chain_api.JsonRpc.{SingleRequest, Request, has_brackets}
use chain_api.Proxy.{JsonRpcProxyConfig}
use chain_api.Proxy.Concrete.{memory, fresh}
use chain_api.Proxy.WebSocket.{RespData, Conns, UpstreamWebSocket, send, receive, run, is_hashable}
use chain_api.Proxy.WebSocket.Steps.{here, later, sends}
use chain_api.Proxy.WebSocket.Table.{DecodesIds, OnlyClient, Reach-receive}
use chain_api.Proxy.WebSocket.Sends.{Sends, SendStep, SendReach, OnlyChecked, SendReach-OnlyChecked}
use chain_api.Proxy.WebSocket.Relay.{answer_of, Sent, run-Sent}

abbrev cfg : JsonRpcProxyConfig
cfg = record {
  http_upstream = "http://node";
  ws_upstream = "ws://node";
  http_erigon_stream = "";
  ws_erigon_upstream = "";
  cache_time = 12;
  chain_id = 1;
  cacheable_methods = "eth_chainId" ∷ [];
}

-- A connection that takes every write.
abbrev conns : Conns memory
conns = record { write = λ msg w. (ok tt, w); write_erigon = none }

abbrev call : SingleRequest
call = record { id = none; jsonrpc_version = "2.0"; method = "eth_chainId"; params = "[]" }

abbrev req : Request
req = record { batch_call = none; single_call = some call; request_type = 0 }

abbrev socket : UpstreamWebSocket memory
socket = record {
  client = record { closed = false; channel_closed = false; received = [] };
  requests = [];
  request_id = pos 0;
  world = fresh;
}

abbrev closed_socket : UpstreamWebSocket memory
closed_socket = record {
  client = record { closed = true; channel_closed = false; received = [] };
  requests = [];
  request_id = pos 0;
  world = fresh;
}

abbrev numbers : DecodesIds memory
numbers = record { decoded = λ r. tt }

-- An answer after a request for a cacheable method.
Reach-receive_example :
    OnlyClient memory numbers cfg conns
      (send memory cfg conns req socket).1
      (receive memory cfg conns "{}" (send memory cfg conns req socket).1).1
Reach-receive_example = Reach-receive memory numbers cfg conns "{}" refl (later here (sends req))

-- A call passed the check before the client was closed, and sends after it; another call begins after
-- the close.
abbrev note : RespData
note = record { payload = "note"; subscription = true }

abbrev late : RespData
late = record { payload = "late"; subscription = false }

abbrev closing : Sends
closing = record { client = closed_socket.client; checked = note ∷ []; recovering = 0 }

SendReach-OnlyChecked_example : OnlyChecked closing (record {
  client = record { closed = true; channel_closed = false; received = note ∷ [] };
  checked = [];
  recovering = 0;
})
SendReach-OnlyChecked_example = SendReach-OnlyChecked {s = closing} refl (
    SendReach.later (SendReach.later SendReach.here (SendStep.begins late))
      (SendStep.ends [] [] note refl))

run-Sent_example :
    Sent memory cfg conns
      (answer_of " {} " ∷ answer_of "{}" ∷ [])
      socket
      (run memory cfg conns (" {} " ∷ "{}" ∷ []) socket)
unfolding has_brackets trim_space first_code last_code is_hashable
run-Sent_example =
    run-Sent memory cfg conns (" {} " ∷ "{}" ∷ []) socket (refl, refl)
      (((_, refl), inr (_, refl, refl, refl)), (((_, refl), inr (_, refl, refl, refl)), tt))
