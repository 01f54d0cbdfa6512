-- ===== src/JsonRpc.antt =====
-- pkg/jsonrpc: requests, their decoding, their cost, and the errors that the handlers answer.
-- The package encoding/json is a parameter, at the types that the program decodes and encodes.
mod Tests
pub mod Laws
use chain_api.Common.{
  ℕ, zero, suc, String, Bool, true, false, ◌&&◌, Option, none, some, List, [], ◌∷◌, length, Result,
  ok, err, Stop, error, panic, if◌then◌else◌, nat_eq,
}
use chain_api.Common.Int.{ℤ, pos, negsuc}
use chain_api.Common.Text.{◌+++◌}
use chain_api.Common.Strings.{trim_space, first_code, last_code}

-- A value of type `interface{}` in the place of an id. JSON gives `float64` for a number (here the
-- text of its value), and `composite` for an array or an object; `int64` is the program's own counter.
pub data RequestId : Type 0 where
  nil : RequestId
  int64 : ℤ → RequestId
  float64 text composite : String → RequestId
  bool : Bool → RequestId

-- `JsonRpcSingleRequest`; the empty text stands for no parameters.
pub record SingleRequest : Type 0 where
  pub id : Option RequestId
  pub jsonrpc_version : String
  pub method : String
  pub params : String

abbrev pub request_type_geth : ℕ
request_type_geth = 1

abbrev pub request_type_erigon : ℕ
request_type_erigon = 2

-- `JsonRpcRequest`; a nil slice or a nil pointer is `none`.
pub record Request : Type 0 where
  pub batch_call : Option (List SingleRequest)
  pub single_call : Option SingleRequest
  pub request_type : ℕ

pub is_batch_call : Request → Bool
is_batch_call r = elim r.batch_call [ none ↦ false | some _ ↦ true ]

abbrev batch_cost : Option (List SingleRequest) → ℕ
batch_cost none = 1
batch_cost (some calls) = if nat_eq (length calls) 0 then 1 else length calls

pub cost : Request → ℕ
cost r = elim r.single_call [ some _ ↦ 1 | none ↦ batch_cost r.batch_call ]

-- The calls of a request, as `GetBatchCall` and `GetSingleCall` give them.
abbrev pub calls_of : Option (List SingleRequest) → Option SingleRequest → List SingleRequest
calls_of (some calls) single = calls
calls_of none (some call) = call ∷ []
calls_of none none = []

abbrev pub calls : Request → List SingleRequest
calls r = calls_of r.batch_call r.single_call

-- encoding/json at the program's types.
pub record Codec : Type 0 where
  -- the check of the syntax with which `json.Unmarshal` begins
  pub is_valid : String → Bool
  pub unmarshal_batch : String → Option (List SingleRequest)
  -- `some none` for the JSON value `null`
  pub unmarshal_single : String → Option (Option SingleRequest)
  pub marshal_batch : List SingleRequest → String
  -- `null` for a nil pointer
  pub marshal_single : Option SingleRequest → String

-- What `UnmarshalJSON` makes of a batch or a single call that was decoded, or not.
abbrev batch_request : Option (List SingleRequest) → Result (Stop (Unit {0})) Request
batch_request none = err (error tt)
batch_request (some calls) =
    ok (record { batch_call = some calls; single_call = none; request_type = 0 })

abbrev single_request : Option (Option SingleRequest) → Result (Stop (Unit {0})) Request
single_request none = err (error tt)
single_request (some call) = ok (record { batch_call = none; single_call = call; request_type = 0 })

abbrev is_code : ℕ → Option ℕ → Bool
is_code c none = false
is_code c (some d) = nat_eq d c

-- Whether a text that is not empty begins with `[` and ends with `]`.
unfoldable pub has_brackets : String → Bool
has_brackets s = is_code b'[' (first_code s) && is_code b']' (last_code s)

module _ (C : Codec) where
  -- `UnmarshalJSON` of a new request; `data[0]` panics on an empty text.
  unfoldable pub unmarshal_json : String → Result (Stop (Unit {0})) Request
  unfolding has_brackets
  unmarshal_json raw =
      let trimmed = trim_space raw in
      elim (first_code trimmed) [
        | none ↦ err panic
        | some _ ↦
            if has_brackets trimmed
            then batch_request (C.unmarshal_batch trimmed)
            else single_request (C.unmarshal_single trimmed)
      ]

  -- `json.Unmarshal(raw, &req)`
  unfoldable pub unmarshal : String → Result (Stop (Unit {0})) Request
  unfolding unmarshal_json
  unmarshal raw = if C.is_valid raw then unmarshal_json raw else err (error tt)

  pub marshal_json : Request → String
  marshal_json r = elim r.batch_call [
    | some calls ↦ C.marshal_batch calls
    | none ↦ C.marshal_single r.single_call
  ]

-- error.go; the field `Data` is never set.
pub record JsonRpcErr : Type 0 where
  pub id : Option RequestId
  pub code : ℤ
  pub message : String

abbrev pub unauthorized_err : JsonRpcErr
unauthorized_err = record { id = none; code = pos 401; message = "Unauthorized" }

abbrev pub too_many_request_err : JsonRpcErr
too_many_request_err = record { id = none; code = pos 429; message = "Too many requests" }

abbrev pub parse_error : JsonRpcErr
parse_error = record { id = none; code = negsuc 32699; message = "Parse error" }

abbrev pub new_internal_server_error : Option RequestId → JsonRpcErr
new_internal_server_error id = record {
  id = id;
  code = negsuc 31999;
  message = "Internal server error";
}

abbrev pub new_unsupported_method_error : Option RequestId → JsonRpcErr
new_unsupported_method_error id = record {
  id = id;
  code = negsuc 32600;
  message = "Unsupported method";
}

-- `MarshalJSON`: the keys of a map in their order. The text of a string and of an id in JSON are
-- parameters, and so is that of a number; the field `Data` is never set.
pub error_json :
    (String → String) → (Option RequestId → String) → (ℤ → String) → JsonRpcErr → String
error_json quoted id_json number e =
    "{\"error\":{\"code\":"
    +++ number e.code
    +++ ",\"message\":"
    +++ quoted e.message
    +++ "},\"id\":"
    +++ id_json e.id
    +++ ",\"jsonrpc\":\"2.0\"}"
