-- ===== src/JsonRpcHandler/Ws/Tests.antt =====
-- `handleWs` of pkg/handler/jsonRpcHandler.go for a client that sends one batch and goes, and the writing
-- goroutine for an API key without quotas.
use chain_api.Common.{
  String, true, false, refl, none, some, List, [], ◌∷◌, nat_eq, if◌then◌else◌, arith,
}
use chain_api.Redis.Concrete.{mem_redis}
use chain_api.Proxy.Concrete.{memory}
use chain_api.Proxy.WebSocket.{RespData}
use chain_api.JsonRpc.{JsonRpcErr}
use chain_api.JsonRpcHandler.Tests.{codec, keys, handler, db, maps, socket, conns}
use chain_api.JsonRpcHandler.Ws.Session.{Around, Network, handle_ws}
use chain_api.JsonRpcHandler.Ws.Session.Ending.{EndsBy, ws_loop-EndsBy}
use chain_api.JsonRpcHandler.Ws.Session.Released.{Returned, handle_ws-Returned}
use chain_api.JsonRpcHandler.Ws.Writer.{Peer, write_loop}
use chain_api.JsonRpcHandler.Ws.Writer.Prefix.{IsPrefix, write_loop-IsPrefix}

abbrev text_of : JsonRpcErr → String
text_of e = e.message

abbrev around : Around mem_redis keys memory
around = record {
  reads = λ i. if nat_eq i 0 then some "[..]" else none;
  receives = λ i. true;
  others = λ i s. s;
  now = λ i. 7;
  time = λ i. 7;
}

abbrev network : Network
network = record { upgrades = true; dials = λ address. true; closes_node = true }

ws_loop-EndsBy_example :
    EndsBy mem_redis keys codec memory text_of handler conns around "k" 1 0 (db, socket)
ws_loop-EndsBy_example =
    ws_loop-EndsBy mem_redis keys codec memory text_of handler conns around "k" 1 (db, socket) refl

handle_ws-Returned_example :
    Returned mem_redis keys codec memory text_of handler conns around network
      (db, socket)
      (handle_ws mem_redis keys codec memory text_of handler conns around network
        (some "k")
        5
        (db, socket))
handle_ws-Returned_example =
    handle_ws-Returned mem_redis keys codec memory text_of handler conns around network (some "k") 1
      5 (db, socket) refl (omega arith)

abbrev peer : Peer keys
peer = record { writes = λ i. true; now = λ i. 7; time = λ i. 7 }

-- An answer, a notification, and an answer that nobody reads.
abbrev queue : List RespData
queue =
    record { payload = "one"; subscription = false }
    ∷ record { payload = "note"; subscription = true }
    ∷ record { payload = "two"; subscription = false }
    ∷ []

write_loop-IsPrefix_example :
    IsPrefix mem_redis keys maps handler "k" "/ws/eth/v1/k" peer 0 queue db
      (write_loop mem_redis keys maps handler "k" "/ws/eth/v1/k" peer 0 queue db)
write_loop-IsPrefix_example =
    write_loop-IsPrefix mem_redis keys maps handler "k" "/ws/eth/v1/k" peer 0 queue db
