-- ===== src/RateLimit/Quota.antt =====
-- Over any sequence of runs of ratelimit/v1/lua/ratelimit.lua for one API key, chain and day, the
-- requests that were granted stay within the quota of the day.
use chain_api.Common.{
  String, Bool, true, false, ◌≡◌, refl, Option, some, Result, ok, err, List, [], ◌∷◌, arith,
  if◌then◌else◌, none, Bool-cases, ◌⊎◌, inl, inr, All, ◌∙◌, ◌==◌, Result-cases, eq_refl,
}
use chain_api.Common.Int.{ℤ, pos, eq_ℤ, ltb_ℤ, ◌+ℤ◌, ◌≤ℤ◌, ◌<ℤ◌, ltb_ℤ→lt, int_laws, ≤ℤ_total}
use chain_api.Redis.{Redis, IsRedis, or_zero}
use chain_api.RateLimit.{
  ScriptArgs, allow_code, rate_limit_script, sec_rate_limit_key, day_rate_limit_key, day_quota_key,
  sec_quota_key,
}
use chain_api.RateLimit.Keys.{sec-day, sec-quota_day, day-quota_day}
use chain_api.Redis.Numbers.{Leaves}
use chain_api.RateLimit.Verdict.{verdict, day_left, day_verdict, day_charge, day_charge_under}
use chain_api.RateLimit.Script.{Interrupted, rate_limit_script_lem}

-- What a reply of the script grants: the count, if it is `allow_code`.
abbrev granted_by {ℓ} : {E : Type ℓ} → ℤ → Result E ℤ → ℤ
granted_by n (ok code) = if eq_ℤ code allow_code then n else pos 0
granted_by n (err e) = pos 0

abbrev pub AllPositive : List (ℤ × String) → Type 0
AllPositive = All (λ c. pos 0 <ℤ c.0)

module _ (R : Redis) where
  -- The requests that a sequence of runs, one for each count and revert flag, grants.
  pub total_granted : ScriptArgs → List (ℤ × String) → R.Db → ℤ
  total_granted a [] db = pos 0
  total_granted a ((n, revert) ∷ rest) db =
      let args = record a { n = n; revert = revert } in
      let run = rate_limit_script R args db in granted_by n run.0 +ℤ total_granted a rest run.1

-- How one run changes the day's counter `d` to `d'`, and what it grants: nothing, with the counter
-- no lower; nothing, with an overflow taken back to the quota; or `n` requests that fit.
abbrev DayStep : ℤ → ℤ → ℤ → ℤ → ℤ → Type 0
DayStep quota n d d' g =
    ((g ≡ pos 0) × (d ≤ℤ d'))
    ⊎ ((g ≡ pos 0) × (d' ≡ quota) × (quota <ℤ d +ℤ n))
    ⊎ ((g ≡ n) × (d' ≡ d +ℤ n) × (d +ℤ n ≤ℤ quota))

le_of_not-ltb : (a b : ℤ) → ltb_ℤ a b ≡ false → b ≤ℤ a
le_of_not-ltb a b h = ground arith

DayStep-charge :
    (quota n d : ℤ) (revert : Bool)
    → pos 0 <ℤ n
    → DayStep quota n d
        (day_charge quota (d +ℤ n) revert)
        (if eq_ℤ (day_verdict quota (d +ℤ n)) allow_code then n else pos 0)
DayStep-charge quota n d revert h = elim (Bool-cases (ltb_ℤ quota (d +ℤ n))) [
  | inl over ↦ rw over (overflow revert over)
  | inr under ↦
      rw (under, day_charge_under quota (d +ℤ n) revert under)
        (inr (inr (refl, refl, le_of_not-ltb quota (d +ℤ n) under)))
]
  where
    overflow :
        (b : Bool)
        → ltb_ℤ quota (d +ℤ n) ≡ true
        → DayStep quota n d (day_charge quota (d +ℤ n) b) (pos 0)
    overflow true over = rw over (inr (inl (refl, refl, ltb_ℤ→lt quota (d +ℤ n) over)))
    overflow false over = inl (refl, omega int_laws)

DayStep-verdict :
    (sec_quota : Option ℤ) (quota second n : ℤ) (old : Option ℤ) (revert : Bool)
    → pos 0 <ℤ n
    → let day = or_zero old +ℤ n in
      DayStep quota n
        (or_zero old)
        (or_zero (day_left sec_quota (some quota) second old day revert))
        (if eq_ℤ (verdict sec_quota (some quota) second day) allow_code then n else pos 0)
DayStep-verdict none quota second n old revert h = inl (refl, omega arith)
DayStep-verdict (some sec_quota) quota second n old revert h =
    elim (Bool-cases (ltb_ℤ sec_quota second)) [
      | inl over ↦ rw over (inl (refl, omega arith))
      | inr under ↦ rw under (DayStep-charge quota n (or_zero old) revert h)
    ]

-- What a step from `d` to `d'` grants, with what is granted from there on.
DayStep-room :
    (quota n d d' g rest : ℤ)
    → DayStep quota n d d' g
    → (d' ≤ℤ quota → d' +ℤ rest ≤ℤ quota)
    → (quota ≤ℤ d' → rest ≤ℤ pos 0)
    → pos 0 <ℤ n
    → (d ≤ℤ quota → d +ℤ (g +ℤ rest) ≤ℤ quota) × (quota ≤ℤ d → g +ℤ rest ≤ℤ pos 0)
DayStep-room quota n d d' g rest (inl (e, le)) below above h = rw e (
  (λ k. elim (≤ℤ_total d' quota) [
    | inl l ↦ let b = below l in omega int_laws
    | inr l ↦ let b = above l in omega int_laws
  ]),
  λ k. let b = above (omega arith) in omega int_laws,
)
DayStep-room quota n d d' g rest (inr (inl (e, same, over))) below above h =
    let none_left = above (rw same (omega arith)) in
    rw e ((λ k. omega int_laws), λ k. omega int_laws)
DayStep-room quota n d d' g rest (inr (inr (e, grows, fits))) below above h =
    let room = below (rw grows fits) in
    rw e ((λ k. let r = rw grows at room in omega int_laws), λ k. absurd (omega int_laws))

module _ (R : Redis) where
  -- The numbers of the day after a run, at the keys that a sequence of runs reads.
  Leaves-day :
      (a : ScriptArgs) (u w : Option ℤ) (db db' : R.Db)
      → Leaves R (sec_rate_limit_key a) u (day_rate_limit_key a) w db db'
      → (R.number db' (day_quota_key a) ≡ R.number db (day_quota_key a))
        × (R.number db' (day_rate_limit_key a) ≡ w)
  Leaves-day a u w db db' leaves = (
    leaves (day_quota_key a) ∙ rw (sec-quota_day a, day-quota_day a),
    leaves (day_rate_limit_key a) ∙ rw (sec-day a, eq_refl),
  )

module _ (R : Redis) (L : IsRedis R) where
  -- An interrupted run grants nothing, and lowers no counter.
  Interrupted-DayStep :
      (a : ScriptArgs) (quota : ℤ) (db db' : R.Db)
      → pos 0 <ℤ a.n
      → Interrupted R L a db db'
      → (R.number db' (day_quota_key a) ≡ R.number db (day_quota_key a))
        × DayStep quota a.n
            (or_zero (R.number db (day_rate_limit_key a)))
            (or_zero (R.number db' (day_rate_limit_key a)))
            (pos 0)
  Interrupted-DayStep a quota db db' h (inl leaves) =
      let (q, d) = Leaves-day R a _ _ db db' leaves in (q, rw d (inl (refl, omega arith)))
  Interrupted-DayStep a quota db db' h (inr (inl leaves)) =
      let (q, d) = Leaves-day R a _ _ db db' leaves in (q, rw d (inl (refl, omega arith)))
  Interrupted-DayStep a quota db db' h (inr (inr leaves)) =
      let (q, d) = Leaves-day R a _ _ db db' leaves in (q, rw d (inl (refl, omega int_laws)))

  -- One run, whatever it returns, takes a `DayStep` and leaves the quota of the day alone.
  rate_limit_script-DayStep :
      (a : ScriptArgs) (quota : ℤ) (db : R.Db)
      → pos 0 <ℤ a.n
      → R.number db (day_quota_key a) ≡ some quota
      → let run = rate_limit_script R a db in
        (R.number run.1 (day_quota_key a) ≡ some quota)
        × DayStep quota a.n
            (or_zero (R.number db (day_rate_limit_key a)))
            (or_zero (R.number run.1 (day_rate_limit_key a)))
            (granted_by a.n run.0)
  rate_limit_script-DayStep a quota db h q =
      let post = rate_limit_script_lem R L a db h in
      elim (Result-cases (rate_limit_script R a db).0) [
        | inl (code, e) ↦
            let (same, leaves) = post.at_ok code e in
            let (same_quota, day) = Leaves-day R a _ _ db _ leaves in
            (
              same_quota ∙ q,
              rw (e, same, day, q)
                  (DayStep-verdict (R.number db (sec_quota_key a)) quota
                    (or_zero (R.number db (sec_rate_limit_key a)) +ℤ a.n) a.n
                    (R.number db (day_rate_limit_key a)) (a.revert == "1") h),
            )
        | inr (x, e) ↦
            let (same_quota, step) = Interrupted-DayStep a quota db _ h (post.at_err x e) in
            (same_quota ∙ q, rw e step)
      ]

  total_granted_room :
      (a : ScriptArgs) (quota : ℤ) (calls : List (ℤ × String)) (db : R.Db)
      → AllPositive calls
      → R.number db (day_quota_key a) ≡ some quota
      → let day = or_zero (R.number db (day_rate_limit_key a)) in
        let total = total_granted R a calls db in
        (day ≤ℤ quota → day +ℤ total ≤ℤ quota) × (quota ≤ℤ day → total ≤ℤ pos 0)
  unfolding total_granted
  total_granted_room a quota [] db h q = ((λ k. omega int_laws), λ k. omega arith)
  total_granted_room a quota ((n, revert) ∷ rest) db (h, hs) q =
      let args : ScriptArgs = record a { n = n; revert = revert } in
      let run = rate_limit_script R args db in
      let (q', step) = rate_limit_script-DayStep args quota db h q in
      let (below, above) = total_granted_room a quota rest run.1 hs q' in
      DayStep-room quota n (or_zero (R.number db (day_rate_limit_key a)))
        (or_zero (R.number run.1 (day_rate_limit_key a))) (granted_by n run.0)
        (total_granted R a rest run.1) step below above h

  -- Where the day's counter is not above its quota, any sequence of runs of the script for one API
  -- key, chain and day, with positive counts and any revert flags, failed runs included, grants at
  -- most the requests that the quota of the day leaves.
  pub total_granted-le-quota :
      (a : ScriptArgs) (quota : ℤ) (calls : List (ℤ × String)) (db : R.Db)
      → AllPositive calls
      → R.number db (day_quota_key a) ≡ some quota
      → or_zero (R.number db (day_rate_limit_key a)) ≤ℤ quota
      → or_zero (R.number db (day_rate_limit_key a)) +ℤ total_granted R a calls db ≤ℤ quota
  total_granted-le-quota a quota calls db h q start =
      (total_granted_room a quota calls db h q).0 start
