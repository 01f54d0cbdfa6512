-- ===== src/JsonRpc/Tests.antt =====
-- pkg/jsonrpc with a codec that knows three texts.
use chain_api.Common.{String, true, ◌≡◌, refl, none, some, [], ◌∷◌, ◌==◌, if◌then◌else◌}
use chain_api.Common.Strings.{trim_space, first_code, last_code}
use chain_api.JsonRpc.{SingleRequest, Request, Codec, unmarshal, unmarshal_json, has_brackets, cost}
use chain_api.JsonRpc.Laws.{unmarshal-cost}

abbrev call : String → SingleRequest
call method = record { id = none; jsonrpc_version = "2.0"; method = method; params = "" }

-- `[]`, `[..]` for two calls, and anything else for one call.
abbrev codec : Codec
codec = record {
  is_valid = λ s. true;
  unmarshal_batch = λ s. if s == "[]" then some [] else some (call "a" ∷ call "b" ∷ []);
  unmarshal_single = λ s. some (some (call "c"));
  marshal_batch = λ calls. "[..]";
  marshal_single = λ c. "{}";
}

abbrev two : Request
two = record { batch_call = some (call "a" ∷ call "b" ∷ []); single_call = none; request_type = 0 }

unmarshal-cost_example : cost two ≡ 2
unfolding unmarshal unmarshal_json has_brackets first_code trim_space last_code
unmarshal-cost_example = unmarshal-cost codec two "[..]" refl
