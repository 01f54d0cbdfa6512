-- ===== src/RateLimit/Limiter/Allow.antt =====
-- What `RateLimiter.Allow` of ratelimit/v1/ratelimit.go answers to an API key outside the whitelist.
use chain_api.Common.{
  ℕ, String, Bool, true, false, ◌≡◌, ◌≢◌, refl, ◌∙◌, Option, none, some, ok, Post, Post-pure,
  Post-fail, Post-bind, Post-weaken, Post-wrapped, Post-if, Post_of_ok, ◌&&◌, ◌⊎◌, inl, inr,
  eq_false, arith, Bool-cases,
}
use chain_api.Common.Int.{ℤ, pos, ltb_ℤ, leb_ℤ, eq_ℤ, ◌+ℤ◌, ◌≤ℤ◌, ◌<ℤ◌, ltb_ℤ→lt, leb_ℤ→le}
use chain_api.Common.Text.{◌+++◌, decimal}
use chain_api.Redis.{Redis, IsRedis, or_zero}
use chain_api.RateLimit.{
  ScriptArgs, sec_quota_key, day_quota_key, sec_rate_limit_key, day_rate_limit_key, allow_code,
  not_exist,
}
use chain_api.Redis.Numbers.{Leaves}
use chain_api.RateLimit.Verdict.{verdict}
use chain_api.RateLimit.Script.{rate_limit_script_lem, Interrupted}
use chain_api.RateLimit.Limiter.{
  CacheKeys, RateLimiter, LimitError, bad_count, redis, exceeded_rate_limit, api_key_not_exist,
  check_in_white_list, count_whitelisted, allow_whitelist, redis_allow, increase_and_set_expire,
  count_chain, answer, limit, allow,
}

-- The script's arguments in `RedisAllow` with `revert`.
abbrev pub limiter_args : (K : CacheKeys) → ℕ → String → K.Time → ℤ → ScriptArgs
limiter_args K chain_id api_key t n = record {
  api_key = "{" +++ api_key +++ "}";
  chain_id = decimal chain_id;
  day = decimal (K.day t);
  n = n;
  revert = "1";
}

-- There is a quota, and the total is within it, or over it.
abbrev pub Within : Option ℤ → ℤ → Type 0
Within quota total = (q : ℤ) × (quota ≡ some q) × (total ≤ℤ q)

abbrev pub Over : Option ℤ → ℤ → Type 0
Over quota total = (q : ℤ) × (quota ≡ some q) × (q <ℤ total)

module _ (sec_quota day_quota : Option ℤ) (second day : ℤ) where
  abbrev pub Fits : Type 0
  Fits = Within sec_quota second × Within day_quota day

  abbrev pub HasNoQuota : Type 0
  HasNoQuota = (sec_quota ≡ none) ⊎ (Within sec_quota second × (day_quota ≡ none))

  abbrev pub Exceeds : Type 0
  Exceeds = Over sec_quota second ⊎ (Within sec_quota second × Over day_quota day)

  -- what a result of the script says
  abbrev Says : ℤ → Type 0
  Says code =
      ((code ≡ allow_code) × Fits)
      ⊎ ((code ≡ not_exist) × HasNoQuota)
      ⊎ ((eq_ℤ code not_exist ≡ false) × (eq_ℤ code allow_code ≡ false) × Exceeds)

le_of_not-ltb : (a b : ℤ) → ltb_ℤ a b ≡ false → b ≤ℤ a
le_of_not-ltb a b h = ground arith

verdict-Says :
    (sec_quota day_quota : Option ℤ) (second day : ℤ)
    → Says sec_quota day_quota second day (verdict sec_quota day_quota second day)
verdict-Says none day_quota second day = inr (inl (refl, inl refl))
verdict-Says (some s) none second day = elim (Bool-cases (ltb_ℤ s second)) [
  | inl over ↦ rw over (inr (inr (refl, refl, inl (s, refl, ltb_ℤ→lt s second over))))
  | inr under ↦ rw under (inr (inl (refl, inr ((s, refl, le_of_not-ltb s second under), refl))))
]
verdict-Says (some s) (some d) second day = elim (Bool-cases (ltb_ℤ s second)) [
  | inl over ↦ rw over (inr (inr (refl, refl, inl (s, refl, ltb_ℤ→lt s second over))))
  | inr under ↦
      let within : Within (some s) second = (s, refl, le_of_not-ltb s second under) in
      elim (Bool-cases (ltb_ℤ d day)) [
        | inl over ↦
            rw (under, over) (inr (inr (refl, refl, inr (within, (d, refl, ltb_ℤ→lt d day over)))))
        | inr fits ↦ rw (under, fits) (inl (refl, (within, (d, refl, le_of_not-ltb d day fits))))
      ]
]

module _ (R : Redis) (db : R.Db) (a : ScriptArgs) where
  -- A statement about the quotas found, and the totals with this request.
  abbrev pub Found : (Option ℤ → Option ℤ → ℤ → ℤ → Type 0) → Type 0
  Found P =
      P (R.number db (sec_quota_key a)) (R.number db (day_quota_key a))
        (or_zero (R.number db (sec_rate_limit_key a)) +ℤ a.n)
        (or_zero (R.number db (day_rate_limit_key a)) +ℤ a.n)

  -- Why a request is refused.
  abbrev pub Reason : LimitError R.Error → Type 0
  Reason bad_count = a.n ≤ℤ pos 0
  Reason (redis e) = Unit
  Reason api_key_not_exist = Found HasNoQuota
  Reason exceeded_rate_limit = Found Exceeds

  -- every number but those of the two counters is unchanged
  abbrev pub OthersKept : R.Db → Type 0
  OthersKept db' =
      (j : String)
      → sec_rate_limit_key a ≢ j
      → day_rate_limit_key a ≢ j
      → R.number db' j ≡ R.number db j

  Leaves-OthersKept :
      (u w : Option ℤ) (db' : R.Db)
      → Leaves R (sec_rate_limit_key a) u (day_rate_limit_key a) w db db'
      → OthersKept db'
  Leaves-OthersKept u w db' leaves j hs hd =
      leaves j ∙ rw (eq_false (sec_rate_limit_key a) j hs, eq_false (day_rate_limit_key a) j hd)

gt_of_not-leb : (a b : ℤ) → leb_ℤ a b ≡ false → b <ℤ a
gt_of_not-leb a b h = ground arith

module _ (R : Redis) (L : IsRedis R) (a : ScriptArgs) (db db' : R.Db) where
  Interrupted-OthersKept : Interrupted R L a db db' → OthersKept R db a db'
  Interrupted-OthersKept (inl h) = Leaves-OthersKept R db a _ _ db' h
  Interrupted-OthersKept (inr (inl h)) = Leaves-OthersKept R db a _ _ db' h
  Interrupted-OthersKept (inr (inr h)) = Leaves-OthersKept R db a _ _ db' h

module _ (R : Redis) (K : CacheKeys) where
  count_chain-ok :
      (b : Bool) (chain_id : ℕ) (t : K.Time) (n : ℤ) (db : R.Db)
      → (count_chain R K b chain_id t n db).0 ≡ ok tt
  unfolding count_chain increase_and_set_expire
  count_chain-ok true chain_id t n db = refl
  count_chain-ok false chain_id t n db = refl

module _ (R : Redis) (L : IsRedis R) (K : CacheKeys) where
  redis_allow_lem :
      (chain_id : ℕ) (api_key : String) (t : K.Time) (n : ℤ) (db : R.Db)
      → let a = limiter_args K chain_id api_key t n in
        Post
          (redis_allow R K chain_id api_key t n true db)
          (λ code db'. Found R db a (λ sq dq s d. Says sq dq s d code) × OthersKept R db a db')
          (λ e db'. Reason R db a e × OthersKept R db a db')
  unfolding redis_allow
  redis_allow_lem chain_id api_key t n db =
      let a : ScriptArgs = limiter_args K chain_id api_key t n in
      Post-if (leb_ℤ n (pos 0)) _ _ db
        (λ low. Post-fail bad_count db (leb_ℤ→le n (pos 0) low, λ j _ _. refl))
        (λ high. Post-wrapped redis (
          Post-weaken (rate_limit_script_lem R L a db (gt_of_not-leb n (pos 0) high))
            (λ code h. (
              rw h.0 (
                  verdict-Says (R.number db (sec_quota_key a)) (R.number db (day_quota_key a))
                    (or_zero (R.number db (sec_rate_limit_key a)) +ℤ n)
                    (or_zero (R.number db (day_rate_limit_key a)) +ℤ n)),
              Leaves-OthersKept R db a _ _ _ h.1,
            ))
            (λ e h. (tt, Interrupted-OthersKept R L a db _ h))))

  limit_lem :
      (chain_id : ℕ) (api_key : String) (t : K.Time) (n : ℤ) (db : R.Db)
      → let a = limiter_args K chain_id api_key t n in
        Post
          (limit R K chain_id api_key t n db)
          (λ _ _. Found R db a Fits)
          (λ e db'. Reason R db a e × OthersKept R db a db')
  unfolding limit answer count_chain
  limit_lem chain_id api_key t n db =
      let a : ScriptArgs = limiter_args K chain_id api_key t n in
      Post-bind
        {P = λ code db'. Found R db a (λ sq dq s d. Says sq dq s d code) × OthersKept R db a db'}
        (redis_allow_lem chain_id api_key t n db)
        λ code db₁ (says, kept). elim says [
          | inl (e, fits) ↦ rw e (
              Post-bind {P = λ _ _. Unit}
                (Post_of_ok tt (count_chain-ok R K (true && ltb_ℤ (pos 0) n) chain_id t n db₁) tt)
                (λ _ db₂ _. Post-pure tt db₂ fits))
          | inr (inl (e, no_quota)) ↦ rw e (Post-fail api_key_not_exist db₁ (no_quota, kept))
          | inr (inr (e, e', exceeds)) ↦
              rw (e, e') (Post-fail exceeded_rate_limit db₁ (exceeds, kept))
        ]

  -- For an API key outside the whitelist: `Allow` answers nil only to a request that fits both
  -- quotas; it answers `ApiKeyNotExistError` only where a quota is missing, `ExceededRateLimitError`
  -- only where a quota that is reached is exceeded, and the error of `RedisAllow` on a bad count
  -- only where the count is not positive; and a refused request, a failed one too, changes no number
  -- but the counters of the second and of the day.
  pub allow_lem :
      (l : RateLimiter) (now t : K.Time) (chain_id : ℕ) (api_key : String) (n : ℤ) (db : R.Db)
      → check_in_white_list l api_key ≡ false
      → let a = limiter_args K chain_id api_key t n in
        Post
          (allow R K l now t chain_id api_key n db)
          (λ _ _. Found R db a Fits)
          (λ e db'. Reason R db a e × OthersKept R db a db')
  unfolding allow allow_whitelist count_whitelisted
  allow_lem l now t chain_id api_key n db outside = rw outside (limit_lem chain_id api_key t n db)
