-- ===== src/JsonRpc/Laws.antt =====
-- What pkg/jsonrpc promises of a request that was decoded.
use chain_api.Common.{
  ℕ, zero, suc, Bool, true, false, ◌≡◌, refl, Option, none, some, List, [], ◌∷◌, length, ok, err,
  if◌then◌else◌, String, arith, ok-injective, error, panic,
}
use chain_api.Common.Strings.{first_code, trim_space}
use chain_api.JsonRpc.{
  SingleRequest, Request, Codec, unmarshal, unmarshal_json, has_brackets, batch_request,
  single_request, cost, calls,
}

-- What the rate limiter may be asked for: one unit per call, and one for a request without calls.
abbrev pub units : ℕ → ℕ
units zero = 1
units (suc n) = suc n

batch_request-cost :
    (c : Option (List SingleRequest)) (r : Request)
    → batch_request c ≡ ok r
    → cost r ≡ units (length (calls r))
unfolding cost
batch_request-cost none r e = cc
batch_request-cost (some []) r e = rw (← ok-injective e) refl
batch_request-cost (some (x ∷ xs)) r e = rw (← ok-injective e) (ground arith)

single_request-cost :
    (c : Option (Option SingleRequest)) (r : Request)
    → single_request c ≡ ok r
    → cost r ≡ units (length (calls r))
unfolding cost
single_request-cost none r e = cc
single_request-cost (some none) r e = rw (← ok-injective e) refl
single_request-cost (some (some x)) r e = rw (← ok-injective e) refl

module _ (C : Codec) (r : Request) where
  decoded-cost :
      (b : Bool) (raw : String)
      → (if b
          then batch_request (C.unmarshal_batch raw)
          else single_request (C.unmarshal_single raw))
        ≡ ok r
      → cost r ≡ units (length (calls r))
  decoded-cost true raw e = batch_request-cost (C.unmarshal_batch raw) r e
  decoded-cost false raw e = single_request-cost (C.unmarshal_single raw) r e

  read-cost :
      (first : Option ℕ) (b : Bool) (raw : String)
      → elim first [
        | none ↦ err panic
        | some _ ↦
            if b
            then batch_request (C.unmarshal_batch raw)
            else single_request (C.unmarshal_single raw)
      ]
        ≡ ok r
      → cost r ≡ units (length (calls r))
  read-cost none b raw e = cc
  read-cost (some c) b raw e = decoded-cost b raw e

  valid-cost :
      (valid : Bool) (raw : String)
      → (if valid then unmarshal_json C raw else err (error tt)) ≡ ok r
      → cost r ≡ units (length (calls r))
  unfolding unmarshal_json
  valid-cost true raw e =
      read-cost (first_code (trim_space raw)) (has_brackets (trim_space raw)) (trim_space raw) e
  valid-cost false raw e = cc

  -- A request that `json.Unmarshal` decodes costs as many units as it has calls, and one unit where
  -- it has none: an empty batch and the value `null` are not free.
  pub unmarshal-cost : (raw : String) → unmarshal C raw ≡ ok r → cost r ≡ units (length (calls r))
  unfolding unmarshal
  unmarshal-cost raw e = valid-cost (C.is_valid raw) raw e
