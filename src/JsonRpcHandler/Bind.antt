-- ===== src/JsonRpcHandler/Bind.antt =====
-- Which requests `bind` of pkg/handler/jsonRpcHandler.go accepts, and how it answers the others.
pub mod Erigon
use chain_api.Common.{
  ℕ, suc, String, Bool, true, false, ◌≡◌, ◌≢◌, refl, sym, ap, ◌∙◌, Option, none, some, List, [],
  ◌∷◌, ◌++◌, length, any, All, ok, err, Stop, error, panic, Post, Post-pure, Post-fail, Post-bind,
  Post-weaken, Post_of_ok, ◌⊎◌, inl, inr, ◌==◌, eq_iff, Bool-cases, Result, Result-cases,
  Option-cases, subst, if◌then◌else◌, ◌||◌,
}
use chain_api.Common.Int.{ℤ, pos}
use chain_api.Redis.{Redis}
use chain_api.RateLimit.Limiter.{CacheKeys, erigon_count}
use chain_api.Utils.{is_in}
use chain_api.JsonRpc.{
  SingleRequest, Request, Codec, unmarshal, request_type_erigon, JsonRpcErr, parse_error,
  new_unsupported_method_error, calls, calls_of,
}
use chain_api.JsonRpcHandler.{
  JsonRpcHandler, validate_req, black_methods_for, mark, with_calls, refuse, count_erigon,
  bind_call, bind_calls, bind_req, decode, bind,
}

named : (s : String) → (s == "") ≡ false → s ≢ ""
named s h e = let yes = (eq_iff s "").1 e in cc

module _ (black : List String) where
  -- A call names a method, and one that is not refused.
  abbrev pub Admitted : SingleRequest → Type 0
  Admitted r = (r.method ≢ "") × (is_in r.method black ≡ false)

  -- The error that the first call at fault gets.
  abbrev pub Refused : SingleRequest → JsonRpcErr → Type 0
  Refused r e =
      ((r.method ≡ "") × (e ≡ parse_error))
      ⊎ ((is_in r.method black ≡ true) × (e ≡ new_unsupported_method_error r.id))

  -- The error is that of one of the calls, and those before it are admitted.
  abbrev pub RefusedIn : List SingleRequest → JsonRpcErr → Type 0
  RefusedIn rs e =
      (before : List SingleRequest) × (r : SingleRequest) × (after : List SingleRequest) × (rs
        ≡ before ++ r ∷ after)
      × All Admitted before
      × Refused r e

  -- An error of the check of one call, or none.
  abbrev Checked : SingleRequest → Option JsonRpcErr → Type 0
  Checked r none = Admitted r
  Checked r (some e) = Refused r e

  validate_req-Checked : (r : SingleRequest) → Checked r (validate_req r black)
  unfolding validate_req
  validate_req-Checked r = elim (Bool-cases (r.method == "")) [
    | inl empty ↦ rw empty (inl ((eq_iff r.method "").0 empty, refl))
    | inr given ↦ elim (Bool-cases (is_in r.method black)) [
      | inl found ↦ rw (given, found) (inr (found, refl))
      | inr fine ↦ rw (given, fine) (named r.method given, fine)
    ]
  ]

-- The request type is erigon's where a method among the calls is one of erigon's.
abbrev pub type_of : List String → List SingleRequest → ℕ → ℕ
type_of erigon rs t = mark (any (λ r. is_in r.method erigon) rs) t

mark-mark : (b c : Bool) (t : ℕ) → mark c (mark b t) ≡ mark (b || c) t
mark-mark true true t = refl
mark-mark true false t = refl
mark-mark false c t = refl

mark-or_false : (b : Bool) (t : ℕ) → mark b t ≡ mark (b || false) t
mark-or_false true t = refl
mark-or_false false t = refl

module _ (R : Redis) (K : CacheKeys) (C : Codec) where
  count_erigon-ok : (b : Bool) (n : ℤ) (db : R.Db) → (count_erigon R K C b n db).0 ≡ ok tt
  unfolding erigon_count
  count_erigon-ok true n db = refl
  count_erigon-ok false n db = refl

  -- The error of a stop that is not a panic.
  abbrev pub IsError : (JsonRpcErr → Type 0) → Stop JsonRpcErr → Type 0
  IsError P (error e) = P e
  IsError P panic = ⊥

  module _ (black erigon : List String) where
    bind_call_lem :
        (r : SingleRequest) (n : ℤ) (t : ℕ) (db : R.Db)
        → Post
            (bind_call R K C r black erigon n t db)
            (λ t' _. Admitted black r × (t' ≡ mark (is_in r.method erigon) t))
            (λ e _. IsError (Refused black r) e)
    unfolding bind_call
    bind_call_lem r n t db = elim (Option-cases (validate_req r black)) [
      | inl fine ↦
          let admitted : Admitted black r =
            subst (Checked black r) fine (validate_req-Checked black r) in
          rw fine (
            Post-bind {P = λ _ _. Unit}
              (Post_of_ok tt (count_erigon-ok (is_in r.method erigon) n db) tt)
              (λ _ db₁ _. Post-pure (mark (is_in r.method erigon) t) db₁ (admitted, refl)))
      | inr (e, fault) ↦
          rw fault
            (Post-fail (error e) db (subst (Checked black r) fault (validate_req-Checked black r)))
    ]

    after-Admitted :
        (r : SingleRequest) (rs : List SingleRequest) (e : Stop JsonRpcErr)
        → Admitted black r
        → IsError (RefusedIn black rs) e
        → IsError (RefusedIn black (r ∷ rs)) e
    after-Admitted r rs (error e) ha (before, x, after, split, hb, refused) =
        (r ∷ before, x, after, ap (λ l. r ∷ l) split, (ha, hb), refused)
    after-Admitted r rs panic ha h = h

    first-Refused :
        (r : SingleRequest) (rs : List SingleRequest) (e : Stop JsonRpcErr)
        → IsError (Refused black r) e
        → IsError (RefusedIn black (r ∷ rs)) e
    first-Refused r rs (error e) h = ([], r, rs, refl, tt, h)
    first-Refused r rs panic h = h

    bind_calls_lem :
        (rs : List SingleRequest) (n : ℤ) (t : ℕ) (db : R.Db)
        → Post
            (bind_calls R K C rs black erigon n t db)
            (λ t' _. All (Admitted black) rs × (t' ≡ type_of erigon rs t))
            (λ e _. IsError (RefusedIn black rs) e)
    unfolding bind_calls
    bind_calls_lem [] n t db = Post-pure t db (tt, refl)
    bind_calls_lem (r ∷ rs) n t db =
        Post-bind {P = λ t' _. Admitted black r × (t' ≡ mark (is_in r.method erigon) t)}
          (Post-weaken (bind_call_lem r n t db) (λ _ h. h) (λ e h. first-Refused r rs e h))
          λ t₁ db₁ (ha, ht).
            Post-weaken (bind_calls_lem rs n t₁ db₁)
              (λ t₂ (hs, ht₂). (
                (ha, hs),
                ht₂
                    ∙ rw ht
                        (mark-mark (is_in r.method erigon) (any (λ r. is_in r.method erigon) rs) t),
              ))
              (λ e h. after-Admitted r rs e ha h)

  -- What an error says of a request's text, by what it decodes to: the error of a text that does not
  -- decode, or that of the first call at fault; a panic where decoding panics, or on `null`.
  abbrev pub Explains : List String → Result (Stop (Unit {0})) Request → Stop JsonRpcErr → Type 0
  Explains black decoded (error e) =
      ((decoded ≡ err (error tt)) × (e ≡ parse_error))
      ⊎ ((req : Request) × (decoded ≡ ok req) × RefusedIn black (calls req) e)
  Explains black decoded panic =
      (decoded ≡ err panic)
      ⊎ ((req : Request) × (decoded ≡ ok req) × (req.batch_call ≡ none) × (req.single_call ≡ none))

  decode_lem :
      (black : List String) (decoded : Result (Stop (Unit {0})) Request) (db : R.Db)
      → Post (decode R K C decoded db) (λ req _. decoded ≡ ok req) (λ e _. Explains black decoded e)
  decode_lem black (ok req) db = Post-pure req db refl
  decode_lem black (err (error u)) db = Post-fail (error parse_error) db (inl (refl, refl))
  decode_lem black (err panic) db = Post-fail panic db (inl refl)

  -- What is wrong with the calls of a decoded request.
  abbrev Outcome :
      List String → Option (List SingleRequest) → Option SingleRequest → Stop JsonRpcErr → Type 0
  Outcome black batch single (error e) = RefusedIn black (calls_of batch single) e
  Outcome black batch single panic = (batch ≡ none) × (single ≡ none)

  module _ (black erigon : List String) where
    IsError-Outcome :
        (batch : Option (List SingleRequest)) (single : Option SingleRequest) (e : Stop JsonRpcErr)
        → IsError (RefusedIn black (calls_of batch single)) e
        → Outcome black batch single e
    IsError-Outcome batch single (error e) p = p
    IsError-Outcome batch single panic p = elim p [ ]

    bind_req_lem :
        (batch : Option (List SingleRequest)) (single : Option SingleRequest) (db : R.Db)
        → Post
            (bind_req R K C batch single black erigon db)
            (λ t _.
              All (Admitted black) (calls_of batch single)
              × (t ≡ type_of erigon (calls_of batch single) 0))
            (λ e _. Outcome black batch single e)
    unfolding bind_req
    bind_req_lem (some rs) single db =
        Post-weaken (bind_calls_lem black erigon rs (pos (length rs)) 0 db) (λ _ p. p)
          (λ e p. IsError-Outcome (some rs) single e p)
    bind_req_lem none (some r) db =
        Post-weaken (bind_call_lem black erigon r (pos 1) 0 db)
          (λ _ (admitted, ht). ((admitted, tt), ht ∙ mark-or_false (is_in r.method erigon) 0))
          (λ e p. IsError-Outcome none (some r) e (first-Refused black erigon r [] e p))
    bind_req_lem none none db = Post-fail panic db (refl, refl)

    Outcome-Explains :
        (req : Request) (decoded : Result (Stop (Unit {0})) Request) (e : Stop JsonRpcErr)
        → decoded ≡ ok req
        → Outcome black req.batch_call req.single_call e
        → Explains black decoded e
    Outcome-Explains req decoded (error e) d p = inr (req, d, p)
    Outcome-Explains req decoded panic d (no_batch, no_call) = inr (req, d, no_batch, no_call)

  module _ (h : JsonRpcHandler) (api_key raw : String) (black erigon : List String) where
    -- What the answer to a request that is accepted says of it.
    abbrev pub Accepts : Request → Type 0
    Accepts answer =
        (req : Request) × (unmarshal C raw ≡ ok req)
        × (answer ≡ with_calls req (type_of erigon (calls req) 0))
        × All (Admitted (black_methods_for h api_key black)) (calls req)

    -- `bind` accepts a request only if it decodes and each of its calls names a method that is not
    -- refused for the API key; the answer has the calls of the request, and erigon's request type
    -- exactly if one of the methods is erigon's. `bind` answers a parse error to a text that does not
    -- decode, and otherwise the error of the first call at fault; it panics only where decoding
    -- panics, and on a request that is neither a batch nor a call, the value `null`.
    pub bind_lem :
        (db : R.Db)
        → Post
            (bind R K C h api_key raw black erigon db)
            (λ answer _. Accepts answer)
            (λ e _. Explains (black_methods_for h api_key black) (unmarshal C raw) e)
    unfolding bind
    bind_lem db =
        let refused : List String = black_methods_for h api_key black in
        Post-bind {P = λ req _. unmarshal C raw ≡ ok req} (decode_lem refused (unmarshal C raw) db)
          λ req db₁ decoded.
            Post-bind
              {P = λ t _. All (Admitted refused) (calls req) × (t ≡ type_of erigon (calls req) 0)}
              (Post-weaken (bind_req_lem refused erigon req.batch_call req.single_call db₁)
                (λ _ p. p)
                (λ e p. Outcome-Explains refused erigon req (unmarshal C raw) e decoded p))
              (λ t db₂ (admitted, ht).
                Post-pure (with_calls req t) db₂ (req, decoded, rw ht refl, admitted))
