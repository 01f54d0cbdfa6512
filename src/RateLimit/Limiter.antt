-- ===== src/RateLimit/Limiter.antt =====
-- ratelimit/v1/ratelimit.go, `RedisAllow` of ratelimit/v1/lua.go and pkg/utils/cache.go.
-- The package cachekey is not part of the repository: its keys are parameters, and so is a clock's
-- type with its day of the month. Each call of `time.Now` is an argument.
pub mod Allow
mod Tests
pub mod Whitelist
use chain_api.Common.{
  ℕ, String, Bool, true, false, Option, none, some, List, [], ◌∷◌, Exec, Result, ok, err, pure,
  fail, ◌>>=◌, ◌>>◌, ◌==◌, ◌&&◌, if◌then◌else◌, wrap_err,
}
use chain_api.Common.Int.{ℤ, pos, eq_ℤ, leb_ℤ, ltb_ℤ}
use chain_api.Common.Text.{◌+++◌, decimal}
use chain_api.Redis.{Redis}
use chain_api.RateLimit.{ScriptArgs, allow_code, not_exist, rate_limit_script}

pub record CacheKeys : Type 1 where
  pub Time : Type 0
  pub day : Time → ℕ
  pub erigon_eth_total_key : String
  pub chain_hour_key : ℕ → Time → String
  pub chain_day_key : ℕ → Time → String
  pub total_quota_hour_key : Time → String
  pub total_quota_day_key : Time → String

pub record RateLimiter : Type 0 where
  pub whitelist : List String

pub data LimitError (E : Type 0) : Type 0 where
  bad_count : LimitError E
  redis : E → LimitError E
  exceeded_rate_limit : LimitError E
  api_key_not_exist : LimitError E

-- The loop over the whitelist, in `CheckInWhiteList` and in `allowWhitelist`.
whitelisted : List String → String → Bool
whitelisted [] api_key = false
whitelisted (k ∷ rest) api_key = if k == api_key then true else whitelisted rest api_key

unfoldable pub check_in_white_list : RateLimiter → String → Bool
unfolding whitelisted
check_in_white_list l api_key = whitelisted l.whitelist api_key

-- The number of seconds in 36 hours, and in 90 minutes.
abbrev pub hours_36 : ℤ
hours_36 = pos 129600

abbrev pub minutes_90 : ℤ
minutes_90 = pos 5400

-- `fmt.Sprintf("d:%d:{%s}:%d", chainID, apiKey, day)`
abbrev pub whitelist_key : ℕ → String → ℕ → String
whitelist_key chain_id api_key day =
    "d:" +++ decimal chain_id +++ ":{" +++ api_key +++ "}:" +++ decimal day

module _ (R : Redis) (K : CacheKeys) where
  open R use {Db, Error, incr_by, expire}
  open K use {
    Time, day, erigon_eth_total_key, chain_hour_key, chain_day_key, total_quota_hour_key,
    total_quota_day_key,
  }

  -- An error is logged and dropped.
  abbrev pub logged : {A X : Type 0} → Exec Db Error A → Exec Db X (Unit {0})
  logged m db = (ok tt, (m db).1)

  expire_if : Bool → String → ℤ → Exec Db Error (Unit {0})
  expire_if true key ttl = expire key ttl
  expire_if false key ttl = pure tt

  pub increase_and_set_expire : String → ℤ → ℤ → Exec Db (LimitError Error) (Unit {0})
  increase_and_set_expire key value expire_time = logged (do
    result ← incr_by key value
    expire_if (eq_ℤ result value && ltb_ℤ (pos 0) expire_time) key expire_time)

  unfoldable pub erigon_count : {X : Type 0} → ℤ → Exec Db X (Unit {0})
  erigon_count n = logged (incr_by erigon_eth_total_key n)

  count_whitelisted : Bool → String → ℤ → Exec Db Error (Unit {0})
  count_whitelisted true key n = do count ← incr_by key n; expire_if (eq_ℤ count n) key hours_36
  count_whitelisted false key n = pure tt

  pub allow_whitelist : RateLimiter → Time → ℕ → String → ℤ → Exec Db (LimitError Error) Bool
  allow_whitelist l now chain_id api_key n = wrap_err redis (do
    count_whitelisted (check_in_white_list l api_key) (whitelist_key chain_id api_key (day now)) n
    pure (check_in_white_list l api_key))

  pub redis_allow : ℕ → String → Time → ℤ → Bool → Exec Db (LimitError Error) ℤ
  redis_allow chain_id api_key t n revert =
      if leb_ℤ n (pos 0)
      then fail bad_count
      else wrap_err redis (
          rate_limit_script R (record {
            api_key = "{" +++ api_key +++ "}";
            chain_id = decimal chain_id;
            day = decimal (day t);
            n = n;
            revert = if revert then "1" else "0";
          }))

  -- the counters of the chain and of all chains, by the hour and by the day
  count_chain : Bool → ℕ → Time → ℤ → Exec Db (LimitError Error) (Unit {0})
  count_chain true chain_id t n = do
    increase_and_set_expire (chain_hour_key chain_id t) n minutes_90
    increase_and_set_expire (chain_day_key chain_id t) n hours_36
    increase_and_set_expire (total_quota_hour_key t) n minutes_90
    increase_and_set_expire (total_quota_day_key t) n hours_36
  count_chain false chain_id t n = pure tt

  -- the error that a result of the script stands for
  answer : ℤ → Exec Db (LimitError Error) (Unit {0})
  answer res =
      if eq_ℤ res not_exist
      then fail api_key_not_exist
      else if eq_ℤ res allow_code
      then pure tt
      else fail exceeded_rate_limit

  limit : ℕ → String → Time → ℤ → Exec Db (LimitError Error) (Unit {0})
  limit chain_id api_key t n = do
    res ← redis_allow chain_id api_key t n true
    count_chain (eq_ℤ res (pos 1) && ltb_ℤ (pos 0) n) chain_id t n
    answer res

  pub allow : RateLimiter → Time → Time → ℕ → String → ℤ → Exec Db (LimitError Error) (Unit {0})
  allow l now t chain_id api_key n = do
    in_whitelist ← allow_whitelist l now chain_id api_key n
    if in_whitelist then pure tt else limit chain_id api_key t n
