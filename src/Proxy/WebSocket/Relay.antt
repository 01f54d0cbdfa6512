-- ===== src/Proxy/WebSocket/Relay.antt =====
-- What the reading loops of pkg/proxy/websocket.go pass on to a client, and in which order.
use mathlib.Core.List.{append_assoc, append-nil}
use chain_api.Common.{
  ℕ, String, true, false, ◌≡◌, refl, sym, ◌∙◌, Option, none, some, List, [], ◌∷◌, ◌++◌, map, Result,
  ok, err, Stop, continue, ◌>>◌, ◌⊎◌, inl, inr, All,
}
use chain_api.Common.Strings.{trim_space, first_code}
use chain_api.JsonRpc.{RequestId, has_brackets}
use chain_api.Proxy.{JsonRpcProxyConfig, Services, ProxyError}
use chain_api.Proxy.WebSocket.{
  RespData, Client, client_send, is_int_zero, is_hashable, lookup, Conns, UpstreamWebSocket,
  receive, forget, store_result, to_client, run,
}

-- The client can be sent to.
abbrev pub IsOpen : Client → Type 0
IsOpen c = (c.closed ≡ false) × (c.channel_closed ≡ false)

-- What the client is sent of a message that is an answer.
abbrev pub answer_of : String → RespData
answer_of message = record { payload = trim_space message; subscription = false }

module _ (V : Services) (cfg : JsonRpcProxyConfig) (conns : Conns V) where
  -- Not empty, and the text of a batch, or a JSON object with an id that is no array and no object.
  abbrev pub IsAnswer : String → Type 0
  IsAnswer message =
      ((c : ℕ) × (first_code (trim_space message) ≡ some c))
      × ((has_brackets (trim_space message) ≡ true)
          ⊎ ((r : V.Response) × (has_brackets (trim_space message) ≡ false)
              × (V.unmarshal_response (trim_space message) ≡ some r)
              × (is_hashable (V.id_of r) ≡ true)))

  -- The round went on, and sent the client the given messages.
  abbrev pub Sent :
      List RespData
      → UpstreamWebSocket V
      → Result (Stop (ProxyError V.Error)) (Unit {0}) × UpstreamWebSocket V
      → Type 0
  Sent resps u r =
      (r.0 ≡ ok tt) × IsOpen r.1.client × (r.1.client.received ≡ u.client.received ++ resps)

  module _ (u : UpstreamWebSocket V) (open_client : IsOpen u.client) where
    to_client-Sent : (resp : RespData) → Sent (resp ∷ []) u (to_client V resp u)
    unfolding client_send
    to_client-Sent resp = rw (open_client.0, open_client.1) (refl, (refl, refl), refl)

    settled-Sent :
        (resp : RespData) (id : RequestId) (found : Option (Option String)) (value : Option String)
        → Sent (resp ∷ []) u (
            (forget V cfg conns id found
                >> store_result V cfg conns found value
                >> to_client V resp)
              u)
    settled-Sent resp id none value = to_client-Sent resp
    settled-Sent resp id (some none) value = to_client-Sent resp
    settled-Sent resp id (some (some key)) none = to_client-Sent resp
    settled-Sent resp id (some (some key)) (some value) = to_client-Sent resp

    receive-Sent :
        (message : String)
        → IsAnswer message
        → Sent (answer_of message ∷ []) u (receive V cfg conns message u)
    unfolding receive is_int_zero
    receive-Sent message ((c, first), inl batch) =
        rw (first, batch) (to_client-Sent (answer_of message))
    receive-Sent message ((c, first), inr (r, single, read, hashable)) =
        rw (first, single, read, hashable)
          (settled-Sent (answer_of message) (V.id_of r) (lookup (V.id_of r) u.requests)
            (V.result r))

  next-Sent :
      (resp : RespData) (resps : List RespData) (messages : List String) (u : UpstreamWebSocket V)
      (p : Result (Stop (ProxyError V.Error)) (Unit {0}) × UpstreamWebSocket V)
      → Sent (resp ∷ []) u p
      → ((s : UpstreamWebSocket V) → IsOpen s.client → Sent resps s (run V cfg conns messages s))
      → Sent (resp ∷ resps) u (continue (λ _. run V cfg conns messages) p)
  next-Sent resp resps messages u (ok tt, s) (e, is_open, sent) rest =
      let (e', is_open', sent') = rest s is_open in
      (e', is_open', sent' ∙ rw (sent, append_assoc u.client.received (resp ∷ []) resps) refl)
  next-Sent resp resps messages u (err x, s) (e, is_open, sent) rest = cc

  -- A reading loop passes answers on to a client that can be sent to: after any messages that are
  -- answers it still runs, and it has sent each of them once, in the order in which they came, without
  -- the white space around them.
  pub run-Sent :
      (messages : List String) (u : UpstreamWebSocket V)
      → IsOpen u.client
      → All IsAnswer messages
      → Sent (map answer_of messages) u (run V cfg conns messages u)
  unfolding run
  run-Sent [] u is_open h = (refl, is_open, sym (append-nil u.client.received))
  run-Sent (message ∷ rest) u is_open (h, hs) =
      next-Sent (answer_of message) (map answer_of rest) rest u (receive V cfg conns message u)
        (receive-Sent u is_open message h) (λ s still. run-Sent rest s still hs)
