-- ===== src/RateLimit/Limiter/Tests.antt =====
-- The theorems on the limiter of ratelimit/v1/ratelimit.go at concrete databases.
use chain_api.Common.{ℕ, String, ◌≡◌, refl, Option, none, some, [], ◌∷◌, ◌==◌, if◌then◌else◌}
use chain_api.Common.Int.{ℤ, pos, ◌+ℤ◌}
use chain_api.Common.Text.{decimal}
use chain_api.Redis.Concrete.{mem_redis, mem_redis-IsRedis}
use chain_api.RateLimit.{
  rate_limit_script, count_second, count_day, count, revert_day, expire_first,
}
use chain_api.RateLimit.Limiter.{
  CacheKeys, RateLimiter, exceeded_rate_limit, whitelisted, check_in_white_list, allow_whitelist,
  redis_allow, limit, answer, count_chain, allow, count_whitelisted, expire_if,
}
use chain_api.RateLimit.Limiter.Allow.{limiter_args, Found, Exceeds, OthersKept, allow_lem}
use chain_api.RateLimit.Limiter.Whitelist.{allow-whitelisted}

-- A clock that reads the day.
abbrev keys : CacheKeys
keys = record {
  Time = ℕ;
  day = λ t. t;
  erigon_eth_total_key = "erigon";
  chain_hour_key = λ c t. "chain_hour";
  chain_day_key = λ c t. "chain_day";
  total_quota_hour_key = λ t. "hour";
  total_quota_day_key = λ t. "day";
}

abbrev limiter : RateLimiter
limiter = record { whitelist = "vip" ∷ [] }

abbrev db : String → Option ℤ
db key =
    if key == "q:s:1:{k}"
    then some (pos 5)
    else if key == "q:d:1:{k}"
    then some (pos 4)
    else if key == "d:1:{k}:7"
    then some (pos 2)
    else none

-- Three more requests exceed the day's quota of four.
allow_lem_example :
    Found mem_redis db (limiter_args keys 1 "k" 7 (pos 3)) Exceeds
    × OthersKept mem_redis db
        (limiter_args keys 1 "k" 7 (pos 3))
        (allow mem_redis keys limiter 7 7 1 "k" (pos 3) db).1
unfolding allow allow_whitelist check_in_white_list whitelisted count_whitelisted limit answer
    redis_allow ◌+ℤ◌ rate_limit_script count_second count_day count revert_day expire_first decimal
    count_chain
allow_lem_example =
    (allow_lem mem_redis mem_redis-IsRedis keys limiter 7 7 1 "k" (pos 3) db refl).at_err
      exceeded_rate_limit refl

allow-whitelisted_example :
    (allow mem_redis keys limiter 7 7 1 "vip" (pos 3) db).1 "d:1:{vip}:7" ≡ some (pos 3)
unfolding allow allow_whitelist check_in_white_list whitelisted count_whitelisted expire_if ◌+ℤ◌
    decimal
allow-whitelisted_example =
    (allow-whitelisted mem_redis mem_redis-IsRedis keys limiter 7 7 1 "vip" (pos 3) db refl).at_ok
      tt refl "d:1:{vip}:7"
