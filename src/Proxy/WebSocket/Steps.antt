-- ===== src/Proxy/WebSocket/Steps.antt =====
-- The connections of pkg/proxy/websocket.go as a step relation.
use chain_api.Common.{String}
use chain_api.JsonRpc.{Request}
use chain_api.Proxy.{JsonRpcProxyConfig, Services}
use chain_api.Proxy.WebSocket.{Client, Conns, UpstreamWebSocket, next_id, send, receive, close}

module _ (V : Services) (cfg : JsonRpcProxyConfig) (conns : Conns V) where
  -- What may happen to a connection: a request of the client is sent on, a message of an upstream is
  -- read, the connection is closed, the client changes in any way, as by a call of `Client.Send` of
  -- another goroutine that is under way and by the close of the channel, another connection takes a
  -- number from the counter, and anything happens to the surroundings.
  pub data Step (u : UpstreamWebSocket V) : UpstreamWebSocket V → Type 0 where
    sends : (req : Request) → Step u (send V cfg conns req u).1
    receives : (message : String) → Step u (receive V cfg conns message u).1
    closes : Step u (close V cfg conns u)
    client_changes : (c : Client) → Step u (record u { client = c })
    counts : Step u (record u { request_id = next_id V u.request_id })
    changes : (w : V.World) → Step u (record u { world = w })

  pub data Reach (u : UpstreamWebSocket V) : UpstreamWebSocket V → Type 0 where
    here : Reach u u
    later : {t s : UpstreamWebSocket V} → Reach u t → Step t s → Reach u s
