-- ===== src/RateLimit/Verdict.antt =====
-- What the script of ratelimit/v1/lua/ratelimit.lua is to answer, and to leave in its two counters, as
-- functions of the quotas and the totals.
use chain_api.Common.{Bool, true, false, ◌≡◌, refl, some, if◌then◌else◌, arith, Option, none}
use chain_api.Common.Int.{ℤ, ltb_ℤ, ◌-ℤ◌}
use chain_api.RateLimit.{allow_code, not_exist, exceed_second_limit, exceed_day_limit}

-- The verdict on a day's total, and the counter that is left.
abbrev pub day_verdict : ℤ → ℤ → ℤ
day_verdict quota total = if ltb_ℤ quota total then exceed_day_limit else allow_code

abbrev pub day_charge : ℤ → ℤ → Bool → ℤ
day_charge quota total true = if ltb_ℤ quota total then quota else total
day_charge quota total false = total

pub sub_sub : (a b : ℤ) → a -ℤ (a -ℤ b) ≡ b
unfolding ◌-ℤ◌
sub_sub a b = ground arith

-- The verdict on the day's total, if there is a quota for the day.
abbrev pub day_part : Option ℤ → ℤ → ℤ
day_part none day = not_exist
day_part (some day_quota) day = day_verdict day_quota day

-- The verdict on the second's and the day's total, with either quota missing or not.
abbrev pub verdict : Option ℤ → Option ℤ → ℤ → ℤ → ℤ
verdict none day_quota second day = not_exist
verdict (some sec_quota) day_quota second day =
    if ltb_ℤ sec_quota second then exceed_second_limit else day_part day_quota day

-- The day's counter that is left, if the day was reached.
abbrev pub day_rest : Option ℤ → Option ℤ → ℤ → Bool → Option ℤ
day_rest none old day revert = old
day_rest (some day_quota) old day revert = some (day_charge day_quota day revert)

-- The day's counter that is left: `old` where the day was not reached.
abbrev pub day_left : Option ℤ → Option ℤ → ℤ → Option ℤ → ℤ → Bool → Option ℤ
day_left none day_quota second old day revert = old
day_left (some sec_quota) day_quota second old day revert =
    if ltb_ℤ sec_quota second then old else day_rest day_quota old day revert

-- The second's counter that is left.
abbrev pub second_left : Option ℤ → Option ℤ → ℤ → Option ℤ
second_left none old second = old
second_left (some sec_quota) old second = some second

pub day_charge_over :
    (quota total : ℤ) (revert : Bool)
    → ltb_ℤ quota total ≡ true
    → day_charge quota total revert ≡ (if revert then quota else total)
day_charge_over quota total true h = rw h
day_charge_over quota total false h = refl

pub day_charge_under :
    (quota total : ℤ) (revert : Bool)
    → ltb_ℤ quota total ≡ false
    → day_charge quota total revert ≡ total
day_charge_under quota total true h = rw h
day_charge_under quota total false h = refl
