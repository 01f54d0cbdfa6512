-- ===== src/Proxy/WebSocket/Table.antt =====
-- What the table of requests of pkg/proxy/websocket.go is matched against.
use chain_api.Common.{
  ℕ, String, false, ◌≡◌, refl, sym, subst, Option, none, some, List, [], ◌∷◌, Result, ok, err, Stop,
  continue, inl, inr, All, Bool-cases,
}
use chain_api.Common.Int.{ℤ}
use chain_api.Common.Strings.{trim_space, first_code}
use chain_api.JsonRpc.{
  RequestId, nil, int64, float64, text, composite, bool, SingleRequest, Request, has_brackets,
}
use chain_api.Proxy.{JsonRpcProxyConfig, Services, from_cache}
use chain_api.Proxy.WebSocket.{
  same_id, is_int_zero, is_hashable, Table, lookup, delete, Conns, UpstreamWebSocket, next_id, send,
  answer_or_ask, in_world, receive, receive_trimmed, relay_decoded, relay, close,
}
use chain_api.Proxy.WebSocket.Steps.{
  Step, sends, receives, closes, client_changes, counts, changes, Reach, here, later,
}

-- An id that came out of a JSON text.
abbrev pub IsDecoded : RequestId → Type 0
IsDecoded (int64 n) = ⊥
IsDecoded _ = Unit

-- encoding/json decodes a number into an `interface{}` as a float64.
pub record DecodesIds (V : Services) : Type 0 where
  pub decoded : (r : V.Response) → IsDecoded (V.id_of r)

same_id-int64 : (n : ℤ) (id : RequestId) → IsDecoded id → same_id (int64 n) id ≡ false
unfolding same_id
same_id-int64 n nil d = refl
same_id-int64 n (int64 m) d = elim d [ ]
same_id-int64 n (float64 s) d = refl
same_id-int64 n (text s) d = refl
same_id-int64 n (composite s) d = refl
same_id-int64 n (bool b) d = refl

-- The program's own numbers are the keys of the table.
abbrev pub IsNumbered : RequestId × Option String → Type 0
IsNumbered entry = (n : ℤ) × (entry.0 ≡ int64 n)

abbrev AllNumbered : Table → Type 0
AllNumbered = All IsNumbered

module _ (V : Services) (J : DecodesIds V) (cfg : JsonRpcProxyConfig) (conns : Conns V) where
  lookup-decoded :
      (id : RequestId) (table : Table) → IsDecoded id → AllNumbered table → lookup id table ≡ none
  unfolding lookup
  lookup-decoded id [] d h = refl
  lookup-decoded id ((key, pending) ∷ rest) d ((n, e), hs) =
      rw (e, same_id-int64 n id d) (lookup-decoded id rest d hs)

  delete-AllNumbered :
      (id : RequestId) (table : Table) → AllNumbered table → AllNumbered (delete id table)
  unfolding delete
  delete-AllNumbered id [] h = tt
  delete-AllNumbered id ((key, pending) ∷ rest) (h, hs) = elim (Bool-cases (same_id key id)) [
    | inl same ↦ rw same (delete-AllNumbered id rest hs)
    | inr other ↦ rw other (h, delete-AllNumbered id rest hs)
  ]

  -- What a message that arrives may change: the client only.
  abbrev pub OnlyClient : UpstreamWebSocket V → UpstreamWebSocket V → Type 0
  OnlyClient u s = (s.requests ≡ u.requests) × (s.world ≡ u.world) × (s.request_id ≡ u.request_id)

  relay-OnlyClient :
      (raw : String) (resp : V.Response) (u : UpstreamWebSocket V)
      → AllNumbered u.requests
      → OnlyClient u (relay V cfg conns raw resp u).1
  unfolding is_int_zero
  relay-OnlyClient raw resp u h = elim (Bool-cases (is_hashable (V.id_of resp))) [
    | inl hashable ↦
        rw (hashable, lookup-decoded (V.id_of resp) u.requests (J.decoded resp) h)
          (refl, refl, refl)
    | inr other ↦ rw other (refl, refl, refl)
  ]

  decoded-OnlyClient :
      (raw : String) (resp : Option V.Response) (u : UpstreamWebSocket V)
      → AllNumbered u.requests
      → OnlyClient u (relay_decoded V cfg conns raw resp u).1
  decoded-OnlyClient raw none u h = (refl, refl, refl)
  decoded-OnlyClient raw (some resp) u h = relay-OnlyClient raw resp u h

  trimmed-OnlyClient :
      (raw : String) (c : Option ℕ) (u : UpstreamWebSocket V)
      → AllNumbered u.requests
      → OnlyClient u (receive_trimmed V cfg conns raw c u).1
  trimmed-OnlyClient raw none u h = (refl, refl, refl)
  trimmed-OnlyClient raw (some c) u h = elim (Bool-cases (has_brackets raw)) [
    | inl batch ↦ rw batch (refl, refl, refl)
    | inr single ↦ rw single (decoded-OnlyClient raw (V.unmarshal_response raw) u h)
  ]

  receive-OnlyClient :
      (message : String) (u : UpstreamWebSocket V)
      → AllNumbered u.requests
      → OnlyClient u (receive V cfg conns message u).1
  unfolding receive
  receive-OnlyClient message u h =
      trimmed-OnlyClient (trim_space message) (first_code (trim_space message)) u h

  answer-AllNumbered :
      (id : ℤ) (pending : Option String) (req : Request)
      (cached : Result (Stop _) (Option String) × UpstreamWebSocket V)
      → AllNumbered cached.1.requests
      → AllNumbered (continue (answer_or_ask V cfg conns id pending req) cached).1.requests
  answer-AllNumbered id pending req (ok (some resp), u) h = h
  answer-AllNumbered id pending req (ok none, u) h =
      ((id, refl), delete-AllNumbered (int64 id) u.requests h)
  answer-AllNumbered id pending req (err e, u) h = h

  send-AllNumbered :
      (batch : Option (List SingleRequest)) (single : Option SingleRequest) (t : ℕ)
      (u : UpstreamWebSocket V)
      → AllNumbered u.requests
      → AllNumbered
          (send V cfg conns
            (record { batch_call = batch; single_call = single; request_type = t })
            u).1.requests
  unfolding send
  send-AllNumbered (some calls) single t u h = h
  send-AllNumbered none none t u h = h
  send-AllNumbered none (some call) t u h =
      answer-AllNumbered _ _ _
        (in_world V (from_cache V cfg _ call) (record u { request_id = next_id V u.request_id })) h

  Step-AllNumbered :
      {u s : UpstreamWebSocket V}
      → Step V cfg conns u s
      → AllNumbered u.requests
      → AllNumbered s.requests
  unfolding close
  Step-AllNumbered {u} (sends req) h =
      send-AllNumbered req.batch_call req.single_call req.request_type u h
  Step-AllNumbered {u} (receives message) h =
      subst AllNumbered (sym (receive-OnlyClient message u h).0) h
  Step-AllNumbered closes h = h
  Step-AllNumbered (client_changes c) h = h
  Step-AllNumbered counts h = h
  Step-AllNumbered (changes w) h = h

  Reach-AllNumbered :
      {u s : UpstreamWebSocket V}
      → Reach V cfg conns u s
      → AllNumbered u.requests
      → AllNumbered s.requests
  Reach-AllNumbered here h = h
  Reach-AllNumbered (later r st) h = Step-AllNumbered st (Reach-AllNumbered r h)

  -- However a connection came to its state, from one with an empty table: a message that arrives
  -- changes neither the table of requests nor the surroundings, so no answer over WebSocket reaches the
  -- cache and no request leaves the table.
  pub Reach-receive :
      {u s : UpstreamWebSocket V} (message : String)
      → u.requests ≡ []
      → Reach V cfg conns u s
      → OnlyClient s (receive V cfg conns message s).1
  Reach-receive {s} message empty r =
      receive-OnlyClient message s (Reach-AllNumbered r (subst AllNumbered (sym empty) tt))
