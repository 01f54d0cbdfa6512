-- ===== src/RpcHandler/Probe.antt =====
-- pkg/handler/rpcHandler.go: the block number that a node answers.
-- The HTTP client and the WebSocket dialer are not part of the repository: what they return is a
-- parameter, the network that one node meets in one round of checks.
use chain_api.Common.{
  ℕ, String, Bool, Option, none, some, List, [], ◌∷◌, Result, ok, err, if◌then◌else◌, nat_eq,
}
use chain_api.Utils.{Jq, JqError, Floats, NumberError, jq_query_first, to_uint64}

pub record HttpRequest : Type 0 where
  pub method : String
  pub url : String
  pub content_type : Option String
  pub body : Option String

-- A message that `ReadMessage` yields, or its error.
pub data WsMessage : Type 0 where
  text other : String → WsMessage
  read_error : WsMessage

pub record Net : Type 0 where
  -- `http.NewRequest` accepts the address
  pub is_url : String → Bool
  -- `http.DefaultClient.Do`, `none` for an error, then the body read: `none` where it is nil or
  -- cannot be read
  pub do_request : HttpRequest → Option (Option String)
  -- `dialWs`: `none` for an error, or the messages that the peer sends on its own after the dial,
  -- given what is written first
  pub dial_ws : String → Option (String → Option (List WsMessage))
  -- a message read as a JSON object, `none` if it is none, and `subscription["result"].(float64)` of
  -- it, `none` where the type assertion panics
  pub subscription_id : String → Option (Option ℕ)

-- The errors of a probe. `panic` is the panic of a type assertion, which no function recovers.
pub data ProbeError : Type 0 where
  bad_url request_failed no_body dial_failed write_failed read_failed zero_block_number : ProbeError
  bad_subscription bad_query panic : ProbeError
  jq : JqError → ProbeError
  number : NumberError → ProbeError

module _ (J : Jq) (F : Floats) (net : Net) where
  open J use {Query}

  -- the block number in the text of a reply
  read_number : String → Query → Result ProbeError ℕ
  read_number reply query = elim (jq_query_first J reply query) [
    | err e ↦ err (jq e)
    | ok result ↦ elim (to_uint64 F result) [ err e ↦ err (number e) | ok n ↦ ok n ]
  ]

  get_block_number_from_http : HttpRequest → Query → Result ProbeError ℕ
  get_block_number_from_http req query = elim (net.do_request req) [
    | none ↦ err request_failed
    | some none ↦ err no_body
    | some (some body) ↦ read_number body query
  ]

  unfoldable pub get_block_number_from_http_json_rpc : String → String → Query → Result ProbeError ℕ
  unfolding get_block_number_from_http read_number
  get_block_number_from_http_json_rpc url content query =
      if net.is_url url
      then get_block_number_from_http
          (record {
            method = "POST";
            url = url;
            content_type = some "application/json";
            body = some content;
          })
          query
      else err bad_url

  pub get_block_number_from_aptos_http : String → Query → Result ProbeError ℕ
  unfolding get_block_number_from_http read_number
  get_block_number_from_aptos_http url query =
      if net.is_url url
      then get_block_number_from_http
          (record { method = "GET"; url = url; content_type = none; body = none }) query
      else err bad_url

  -- `getBlockNumberFromHttp` on the request of the extra write check
  pub get_block_number_from_now_block : String → Query → Result ProbeError ℕ
  unfolding get_block_number_from_http read_number
  get_block_number_from_now_block url query =
      if net.is_url url
      then get_block_number_from_http
          (record { method = "POST"; url = url; content_type = none; body = none }) query
      else err bad_url

  -- a block number that a WebSocket answers is not 0
  not_zero : Result ProbeError ℕ → Result ProbeError ℕ
  not_zero (err e) = err e
  not_zero (ok n) = if nat_eq n 0 then err zero_block_number else ok n

  -- The loop that skips what is no text message. The connection fails in the end: a peer that sends
  -- nothing more is a read error.
  first_text : List WsMessage → Query → Result ProbeError ℕ
  unfolding not_zero
  first_text [] query = err read_failed
  first_text (read_error ∷ rest) query = err read_failed
  first_text (text message ∷ rest) query = not_zero (read_number message query)
  first_text (other message ∷ rest) query = first_text rest query

  pub get_block_number_from_evm_ws : String → String → Query → Result ProbeError ℕ
  unfolding first_text read_number
  get_block_number_from_evm_ws url content query = elim (net.dial_ws url) [
    | none ↦ err dial_failed
    | some connection ↦ elim (connection content) [
      | none ↦ err write_failed
      | some messages ↦ first_text messages query
    ]
  ]

  -- After the subscription's reply, whatever its message type.
  subscribed : List WsMessage → Query → Result ProbeError ℕ
  subscribed [] query = err read_failed
  subscribed (read_error ∷ rest) query = err read_failed
  subscribed (text message ∷ rest) query = elim (net.subscription_id message) [
    | none ↦ err bad_subscription
    | some none ↦ err panic
    | some (some id) ↦ first_text rest query
  ]
  subscribed (other message ∷ rest) query = elim (net.subscription_id message) [
    | none ↦ err bad_subscription
    | some none ↦ err panic
    | some (some id) ↦ first_text rest query
  ]

  pub get_block_number_from_svm_ws : String → Query → Result ProbeError ℕ
  unfolding subscribed first_text read_number
  get_block_number_from_svm_ws url query = elim (net.dial_ws url) [
    | none ↦ err dial_failed
    | some connection ↦
        elim (connection "{\"jsonrpc\": \"2.0\",\"id\": 1,\"method\": \"slotSubscribe\"}") [
          | none ↦ err write_failed
          | some messages ↦ subscribed messages query
        ]
  ]
