-- ===== src/RateLimit/Limiter/Whitelist.antt =====
-- What `RateLimiter.Allow` and `CheckInWhiteList` of ratelimit/v1/ratelimit.go do for an API key in
-- the whitelist.
use chain_api.Common.{
  ℕ, String, Bool, true, false, ◌≡◌, refl, sym, ap, ◌∙◌, some, Post, Post-pure, Post-bind,
  Post-weaken, Post-wrapped, ◌⊎◌, inl, inr, arith,
}
use chain_api.Common.Int.{ℤ, eq_ℤ, ◌+ℤ◌}
use chain_api.Common.Text.{◌+++◌, decimal, append_assoc}
use chain_api.Redis.{Redis, IsRedis, or_zero}
use chain_api.RateLimit.{day_rate_limit_key}
use chain_api.Redis.Numbers.{Sets, Same, incr_by_lem}
use chain_api.RateLimit.Limiter.{
  CacheKeys, RateLimiter, redis, check_in_white_list, whitelist_key, hours_36, expire_if,
  count_whitelisted, allow_whitelist, allow,
}
use chain_api.RateLimit.Limiter.Allow.{limiter_args}

-- The key under which a whitelisted request is counted is the script's counter of the day.
whitelist_key-eq :
    (K : CacheKeys) (chain_id : ℕ) (api_key : String) (t : K.Time) (n : ℤ)
    → whitelist_key chain_id api_key (K.day t)
      ≡ day_rate_limit_key (limiter_args K chain_id api_key t n)
whitelist_key-eq K chain_id api_key t n =
    ap (λ s. "d:" +++ decimal chain_id +++ s)
      (append_assoc ":" "{" (api_key +++ "}:" +++ decimal (K.day t))
        ∙ ap (λ s. ":" +++ s)
            (sym (
              append_assoc "{" (api_key +++ "}") (":" +++ decimal (K.day t))
              ∙ ap (λ s. "{" +++ s)
                  (append_assoc api_key "}" (":" +++ decimal (K.day t))
                    ∙ ap (λ s. api_key +++ s) (sym (append_assoc "}" ":" (decimal (K.day t))))))))

module _ (R : Redis) (L : IsRedis R) (K : CacheKeys) where
  expire_if_lem :
      (b : Bool) (key : String) (db : R.Db)
      → Post (expire_if R K b key hours_36 db) (λ _ db'. Same R db db') (λ _ db'. Same R db db')
  unfolding expire_if
  expire_if_lem true key db = record {
    at_ok = λ _ _ j. L.expire_number key hours_36 db j (omega arith);
    at_err = λ _ _ j. L.expire_number key hours_36 db j (omega arith);
  }
  expire_if_lem false key db = Post-pure tt db (λ j. refl)

  count_whitelisted_lem :
      (key : String) (n : ℤ) (db : R.Db)
      → let total = or_zero (R.number db key) +ℤ n in
        Post
          (count_whitelisted R K true key n db)
          (λ _ db'. Sets R key (some total) db db')
          (λ _ db'. Same R db db' ⊎ Sets R key (some total) db db')
  unfolding count_whitelisted
  count_whitelisted_lem key n db =
      let total : ℤ = or_zero (R.number db key) +ℤ n in
      Post-bind {P = λ r db'. Sets R key (some total) db db'}
        (Post-weaken (incr_by_lem R L key n db) (λ r h. rw (← h.0) h.1) (λ _ same. inl same))
        λ current db₁ sets.
          Post-weaken (expire_if_lem (eq_ℤ current n) key db₁) (λ _ same j. same j ∙ sets j)
            (λ _ same. inr λ j. same j ∙ sets j)

  -- For an API key in the whitelist, whatever quota it has: where `Allow` answers without an error, it
  -- has added the count to the very counter of the day that the script would use, and changed no other
  -- number; an error is one of Redis, never one of a limit, and leaves the numbers as they were
  -- or that counter raised by the count.
  pub allow-whitelisted :
      (l : RateLimiter) (now t : K.Time) (chain_id : ℕ) (api_key : String) (n : ℤ) (db : R.Db)
      → check_in_white_list l api_key ≡ true
      → let key = day_rate_limit_key (limiter_args K chain_id api_key now n) in
        let total = or_zero (R.number db key) +ℤ n in
        Post
          (allow R K l now t chain_id api_key n db)
          (λ _ db'. Sets R key (some total) db db')
          (λ e db'.
            ((x : R.Error) × (e ≡ redis x)) × (Same R db db' ⊎ Sets R key (some total) db db'))
  unfolding allow allow_whitelist
  allow-whitelisted l now t chain_id api_key n db inside =
      let key : String = whitelist_key chain_id api_key (K.day now) in
      let total : ℤ = or_zero (R.number db key) +ℤ n in
      rw (inside, ← whitelist_key-eq K chain_id api_key now n)
        (Post-bind {P = λ b db'. (b ≡ true) × Sets R key (some total) db db'}
          (Post-wrapped redis (
            Post-bind {P = λ _ db'. Sets R key (some total) db db'}
              (Post-weaken (count_whitelisted_lem key n db) (λ _ h. h) (λ x h. ((x, refl), h)))
              (λ _ db₁ sets. Post-pure true db₁ (refl, sets))))
          (λ b db₁ (e, sets). rw e (Post-pure tt db₁ sets)))
