-- ===== src/RateLimit/Tests.antt =====
-- The theorems on ratelimit/v1 at concrete databases.
use chain_api.Common.{
  String, ◌≡◌, refl, Option, none, some, List, [], ◌∷◌, arith, ◌==◌, if◌then◌else◌,
}
use chain_api.Common.Int.{ℤ, pos, ◌+ℤ◌, ◌≤ℤ◌}
use chain_api.Redis.Concrete.{mem_redis, mem_redis-IsRedis}
use chain_api.RateLimit.{
  ScriptArgs, rate_limit_script, exceed_day_limit, count_second, count_day, count, revert_day,
  expire_first,
}
use chain_api.RateLimit.Verdict.{verdict}
use chain_api.RateLimit.Script.{rate_limit_script_lem}
use chain_api.RateLimit.Quota.{total_granted, total_granted-le-quota}

abbrev args : ScriptArgs
args = record { api_key = "{k}"; chain_id = "1"; day = "7"; n = pos 3; revert = "1" }

-- Five requests are allowed in a second and four in a day, and two were made today.
abbrev db : String → Option ℤ
db key =
    if key == "q:s:1:{k}"
    then some (pos 5)
    else if key == "q:d:1:{k}"
    then some (pos 4)
    else if key == "d:1:{k}:7"
    then some (pos 2)
    else none

rate_limit_script_lem_example :
    (exceed_day_limit ≡ verdict (some (pos 5)) (some (pos 4)) (pos 3) (pos 5))
    × ((rate_limit_script mem_redis args db).1 "d:1:{k}:7" ≡ some (pos 4))
unfolding rate_limit_script count_second count_day count revert_day expire_first ◌+ℤ◌
rate_limit_script_lem_example =
    let post =
      (rate_limit_script_lem mem_redis mem_redis-IsRedis args db (omega arith)).at_ok
        exceed_day_limit refl in
    (post.0, post.1 "d:1:{k}:7")

abbrev runs : List (ℤ × String)
runs = (pos 1, "1") ∷ (pos 3, "1") ∷ (pos 1, "0") ∷ []

total_granted-le-quota_example : pos 2 +ℤ total_granted mem_redis args runs db ≤ℤ pos 4
total_granted-le-quota_example =
    total_granted-le-quota mem_redis mem_redis-IsRedis args (pos 4) runs db
      (omega arith, (omega arith, (omega arith, tt))) refl (omega arith)
