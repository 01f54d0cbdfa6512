-- ===== src/JsonRpcHandler/Bind/Erigon.antt =====
-- What `bind` of pkg/handler/jsonRpcHandler.go adds to the counter of the erigon requests.
use chain_api.Common.{
  ℕ, suc, ◌+◌, ◌*◌, String, Bool, true, false, ◌≡◌, ◌≢◌, refl, ap, ◌∙◌, Option, none, some, List,
  [], ◌∷◌, length, count_if, ok, err, Result, Stop, error, panic, Post, Post-pure, Post-fail,
  Post-bind, Post-weaken, Option-cases, eq_refl, eq_false, arith, inl, inr,
}
use chain_api.Common.Int.{ℤ, pos, ◌+ℤ◌, int_laws}
use chain_api.Redis.{Redis, IsRedis, or_zero}
use chain_api.Redis.Numbers.{incr_by_lem}
use chain_api.RateLimit.Limiter.{CacheKeys, erigon_count}
use chain_api.Utils.{is_in}
use chain_api.JsonRpc.{SingleRequest, Request, Codec, unmarshal, parse_error, calls, calls_of}
use chain_api.JsonRpcHandler.{
  JsonRpcHandler, validate_req, black_methods_for, mark, with_calls, count_erigon, bind_call,
  bind_calls, bind_req, decode, bind,
}

-- The number at `key` grows by `m`, and no other number changes.
abbrev pub Adds : (R : Redis) → String → ℕ → R.Db → R.Db → Type 0
Adds R key m db db' =
    (or_zero (R.number db' key) ≡ or_zero (R.number db key) +ℤ pos m)
    × ((j : String) → key ≢ j → R.number db' j ≡ R.number db j)

module _ (R : Redis) (key : String) where
  add_zero : (a : ℤ) → a ≡ a +ℤ pos 0
  add_zero a = omega (arith, int_laws)

  add_assoc : (a : ℤ) (m n : ℕ) → a +ℤ pos m +ℤ pos n ≡ a +ℤ pos (m + n)
  add_assoc a m n = omega (arith, int_laws)

  Adds-none : (db : R.Db) → Adds R key 0 db db
  Adds-none db = (add_zero _, λ j h. refl)

  Adds-trans :
      (m n : ℕ) (db db₁ db₂ : R.Db)
      → Adds R key m db db₁
      → Adds R key n db₁ db₂
      → Adds R key (m + n) db db₂
  Adds-trans m n db db₁ db₂ (h, k) (h', k') =
      (h' ∙ rw h (add_assoc _ m n), λ j other. k' j other ∙ k j other)

Post_all : {S E A : Type 0} (p : Result E A × S) → Post p (λ _ _. Unit) (λ _ _. Unit)
Post_all p = record { at_ok = λ _ _. tt; at_err = λ _ _. tt }

zero_times : (n : ℕ) → 0 * n ≡ 0
zero_times n = omega arith

add_none : (m : ℕ) → m + 0 * 1 ≡ m
add_none m = omega arith

-- What a call with, or without, an erigon method adds in a request of `n` calls.
abbrev charge : Bool → ℕ → ℕ
charge true n = n
charge false n = 0

charge-count_if :
    (p : SingleRequest → Bool) (b : Bool) (rs : List SingleRequest) (n : ℕ)
    → charge b n + count_if p rs * n
      ≡ elim b [ true ↦ suc (count_if p rs) | false ↦ count_if p rs ] * n
charge-count_if p true rs n = omega arith
charge-count_if p false rs n = omega arith

module _ (R : Redis) (L : IsRedis R) (K : CacheKeys) (C : Codec)
    (counts : (n : ℤ) (db : R.Db)
      → (r : ℤ) × ((R.incr_by K.erigon_eth_total_key n db).0 ≡ ok r)) where
  abbrev key : String
  key = K.erigon_eth_total_key

  incr-Adds : (n : ℕ) (db : R.Db) → Adds R key n db (R.incr_by key (pos n) db).1
  incr-Adds n db =
      let answered = counts (pos n) db in
      let (total, sets) = (incr_by_lem R L key (pos n) db).at_ok answered.0 answered.1 in
      let here : R.number (R.incr_by key (pos n) db).1 key ≡ some answered.0 =
        sets key ∙ rw (eq_refl key) refl in
      (ap or_zero here ∙ total, λ j other. sets j ∙ rw (eq_false key j other) refl)

  count_erigon-Adds :
      (b : Bool) (n : ℕ) (db : R.Db)
      → Adds R key (charge b n) db (count_erigon R K C b (pos n) db).1
  unfolding erigon_count
  count_erigon-Adds true n db = incr-Adds n db
  count_erigon-Adds false n db = Adds-none R key db

  module _ (black erigon : List String) where
    bind_call-Adds :
        (r : SingleRequest) (n t : ℕ) (db : R.Db)
        → Post
            (bind_call R K C r black erigon (pos n) t db)
            (λ _ db'. Adds R key (charge (is_in r.method erigon) n) db db')
            (λ _ _. Unit)
    unfolding bind_call
    bind_call-Adds r n t db = elim (Option-cases (validate_req r black)) [
      | inl fine ↦ rw fine (
          Post-bind {P = λ _ db'. Adds R key (charge (is_in r.method erigon) n) db db'}
            (Post-weaken (Post_all (count_erigon R K C (is_in r.method erigon) (pos n) db))
              (λ _ _. count_erigon-Adds (is_in r.method erigon) n db) (λ _ _. tt))
            (λ _ db₁ adds. Post-pure (mark (is_in r.method erigon) t) db₁ adds))
      | inr (e, fault) ↦ rw fault (Post-fail (error e) db tt)
    ]

    bind_calls-Adds :
        (rs : List SingleRequest) (n t : ℕ) (db : R.Db)
        → Post
            (bind_calls R K C rs black erigon (pos n) t db)
            (λ _ db'. Adds R key (count_if (λ r. is_in r.method erigon) rs * n) db db')
            (λ _ _. Unit)
    unfolding bind_calls
    bind_calls-Adds [] n t db = Post-pure t db (rw (zero_times n) (Adds-none R key db))
    bind_calls-Adds (r ∷ rs) n t db =
        Post-bind {P = λ _ db'. Adds R key (charge (is_in r.method erigon) n) db db'}
          (bind_call-Adds r n t db)
          λ t₁ db₁ first.
            Post-weaken (bind_calls-Adds rs n t₁ db₁)
              (λ _ later.
                rw (← charge-count_if (λ r. is_in r.method erigon) (is_in r.method erigon) rs n)
                  (Adds-trans R key _ _ db db₁ _ first later))
              (λ _ _. tt)

    bind_req-Adds :
        (batch : Option (List SingleRequest)) (single : Option SingleRequest) (db : R.Db)
        → let rs = calls_of batch single in
          Post
            (bind_req R K C batch single black erigon db)
            (λ _ db'. Adds R key (count_if (λ r. is_in r.method erigon) rs * length rs) db db')
            (λ _ _. Unit)
    unfolding bind_req
    bind_req-Adds (some rs) single db = bind_calls-Adds rs (length rs) 0 db
    bind_req-Adds none (some r) db =
        Post-weaken (bind_call-Adds r 1 0 db)
          (λ _ adds.
            rw
              (
                ← charge-count_if (λ r. is_in r.method erigon) (is_in r.method erigon) [] 1,
                add_none,
              )
              adds)
          (λ _ _. tt)
    bind_req-Adds none none db = Post-fail panic db tt

    decode-Same :
        (decoded : Result (Stop (Unit {0})) Request) (db : R.Db)
        → Post (decode R K C decoded db) (λ _ db'. db' ≡ db) (λ _ _. Unit)
    decode-Same (ok req) db = Post-pure req db refl
    decode-Same (err (error u)) db = Post-fail (error parse_error) db tt
    decode-Same (err panic) db = Post-fail panic db tt

  -- Where Redis does not fail to raise the erigon counter: a request that `bind` accepts raises it by
  -- the number of its calls of erigon's methods, times the number of all its calls, and changes no
  -- other number.
  pub bind-erigon_count :
      (h : JsonRpcHandler) (api_key raw : String) (black erigon : List String) (db : R.Db)
      → Post
          (bind R K C h api_key raw black erigon db)
          (λ answer db'.
            let rs = calls answer in
            Adds R key (count_if (λ r. is_in r.method erigon) rs * length rs) db db')
          (λ _ _. Unit)
  unfolding bind
  bind-erigon_count h api_key raw black erigon db =
      Post-bind {P = λ _ db'. db' ≡ db} (decode-Same black erigon (unmarshal C raw) db)
        λ req db₁ same.
          Post-bind
            {P = λ _ db'.
              let rs = calls req in
              Adds R key (count_if (λ r. is_in r.method erigon) rs * length rs) db db'}
            (rw (← same) (
              bind_req-Adds (black_methods_for h api_key black) erigon req.batch_call
                req.single_call db₁))
            (λ t db₂ adds. Post-pure (with_calls req t) db₂ adds)
