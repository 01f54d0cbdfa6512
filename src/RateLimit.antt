-- ===== src/RateLimit.antt =====
-- ratelimit/v1/lua.go and ratelimit/v1/lua/ratelimit.lua: the limiter's script, run by `RedisAllow`.
-- The script's four keys are built as texts, and its early returns are branches.
mod Keys
mod Tests
pub mod Verdict
pub mod Script
pub mod Quota
pub mod Limiter
use chain_api.Common.{
  ℕ, String, Bool, true, false, Option, none, some, Exec, Result, ok, err, pure, fail, ◌>>=◌, ◌>>◌,
  ◌==◌, if◌then◌else◌,
}
use chain_api.Common.Int.{ℤ, pos, negsuc, leb_ℤ, ltb_ℤ, eq_ℤ, ◌-ℤ◌}
use chain_api.Common.Text.{◌+++◌, decimal}
use chain_api.Redis.{Redis}

-- KEYS and ARGV of the script. `chain_id` and `day` are sent as decimal texts.
pub record ScriptArgs : Type 0 where
  pub api_key : String
  pub chain_id : String
  pub day : String
  pub n : ℤ
  pub revert : String

abbrev pub sec_quota_key : ScriptArgs → String
sec_quota_key a = "q:s:" +++ a.chain_id +++ ":" +++ a.api_key

abbrev pub day_quota_key : ScriptArgs → String
day_quota_key a = "q:d:" +++ a.chain_id +++ ":" +++ a.api_key

abbrev pub sec_rate_limit_key : ScriptArgs → String
sec_rate_limit_key a = "s:" +++ a.chain_id +++ ":" +++ a.api_key

abbrev pub day_rate_limit_key : ScriptArgs → String
day_rate_limit_key a = "d:" +++ a.chain_id +++ ":" +++ a.api_key +++ ":" +++ a.day

-- The limiter's results, `const` of ratelimit.go.
abbrev pub allow_code : ℤ
allow_code = pos 1

abbrev pub not_exist : ℤ
not_exist = negsuc 0

abbrev pub exceed_second_limit : ℤ
exceed_second_limit = negsuc 1

abbrev pub exceed_day_limit : ℤ
exceed_day_limit = negsuc 2

module _ (R : Redis) where
  open R use {Db, Error, get_number, incr_by, decr_by, expire}

  -- `if current == n then redis.call("EXPIRE", …) end`
  expire_first : Bool → String → ℤ → Exec Db Error (Unit {0})
  expire_first true key ttl = expire key ttl
  expire_first false key ttl = pure tt

  -- `current = INCRBY key n`, and the time to live of a key that this call has made
  count : String → ℤ → ℤ → Exec Db Error ℤ
  count key n ttl = do current ← incr_by key n; expire_first (eq_ℤ current n) key ttl; pure current

  -- `if revert == "1" then redis.call("DECRBY", …) end`
  revert_day : Bool → String → ℤ → Exec Db Error (Unit {0})
  revert_day true key excess = do decr_by key excess; pure tt
  revert_day false key excess = pure tt

  -- from the reading of the day quota on
  count_day : ScriptArgs → Option ℤ → Exec Db Error ℤ
  count_day a none = pure not_exist
  count_day a (some day_quota) = do
    current ← count (day_rate_limit_key a) a.n (pos 129600)
    if ltb_ℤ day_quota current
        then (do
          revert_day (a.revert == "1") (day_rate_limit_key a) (current -ℤ day_quota)
          pure exceed_day_limit)
        else pure allow_code

  -- from the reading of the second quota on
  count_second : ScriptArgs → Option ℤ → Exec Db Error ℤ
  count_second a none = pure not_exist
  count_second a (some sec_quota) = do
    current ← count (sec_rate_limit_key a) a.n a.n
    if ltb_ℤ sec_quota current
        then pure exceed_second_limit
        else (do day_quota ← get_number (day_quota_key a); count_day a day_quota)

  pub rate_limit_script : ScriptArgs → Exec Db Error ℤ
  rate_limit_script a = do sec_quota ← get_number (sec_quota_key a); count_second a sec_quota
