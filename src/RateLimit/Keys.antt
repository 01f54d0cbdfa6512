-- ===== src/RateLimit/Keys.antt =====
-- The four keys of one run of ratelimit/v1/lua/ratelimit.lua are different.
use chain_api.Common.{◌≡◌, ◌≢◌, false, ◌==◌, eq_false, arith, sym}
use chain_api.Common.Text.{append-ne}
use chain_api.RateLimit.{
  ScriptArgs, sec_quota_key, day_quota_key, sec_rate_limit_key, day_rate_limit_key,
}

module _ (a : ScriptArgs) where
  sec-ne-day : sec_rate_limit_key a ≢ day_rate_limit_key a
  sec-ne-day = append-ne "s" "d" ":" ":" _ _ (omega arith)

  pub sec-day : (sec_rate_limit_key a == day_rate_limit_key a) ≡ false
  sec-day = eq_false _ _ sec-ne-day

  pub day-sec : (day_rate_limit_key a == sec_rate_limit_key a) ≡ false
  day-sec = eq_false _ _ (λ e. sec-ne-day (sym e))

  pub sec-quota_day : (sec_rate_limit_key a == day_quota_key a) ≡ false
  sec-quota_day = eq_false _ _ (append-ne "s" "q" ":" ":d:" _ _ (omega arith))

  pub day-quota_day : (day_rate_limit_key a == day_quota_key a) ≡ false
  day-quota_day = eq_false _ _ (append-ne "d" "q" ":" ":d:" _ _ (omega arith))

  pub sec-quota_sec : (sec_rate_limit_key a == sec_quota_key a) ≡ false
  sec-quota_sec = eq_false _ _ (append-ne "s" "q" ":" ":s:" _ _ (omega arith))

  pub day-quota_sec : (day_rate_limit_key a == sec_quota_key a) ≡ false
  day-quota_sec = eq_false _ _ (append-ne "d" "q" ":" ":s:" _ _ (omega arith))
