-- ===== src/RateLimit/Script.antt =====
-- What one run of ratelimit/v1/lua/ratelimit.lua does to the numbers in Redis.
use chain_api.Common.{
  String, Bool, true, false, ◌≡◌, refl, ap, ◌∙◌, some, ◌==◌, if◌then◌else◌, arith, Post, Post-pure,
  Post-bind, Post-weaken, Post-if, Option, none, eq_iff, ◌⊎◌, inl, inr,
}
use chain_api.Common.Int.{ℤ, pos, ltb_ℤ, eq_ℤ, ◌+ℤ◌, ◌-ℤ◌, ◌<ℤ◌}
use chain_api.Redis.{Redis, IsRedis, or_zero}
use chain_api.RateLimit.Keys.{sec-day, sec-quota_day}
use chain_api.Redis.Numbers.{
  Sets, Leaves, Same, Same-Sets, Same-Leaves, Sets-Same, Sets-self, Sets-other, Sets-Sets,
  Sets-Leaves, get_number_lem, incr_by_lem,
}
use chain_api.RateLimit.Verdict.{
  day_verdict, day_charge, sub_sub, day_part, verdict, day_rest, day_left, second_left,
  day_charge_over, day_charge_under,
}
use chain_api.RateLimit.{
  ScriptArgs, sec_quota_key, day_quota_key, sec_rate_limit_key, day_rate_limit_key, allow_code,
  not_exist, exceed_second_limit, exceed_day_limit, expire_first, revert_day, count, count_day,
  count_second, rate_limit_script,
}

module _ (R : Redis) (L : IsRedis R) where
  expire_first_lem :
      (b : Bool) (key : String) (ttl : ℤ) (db : R.Db)
      → pos 0 <ℤ ttl
      → Post (expire_first R b key ttl db) (λ _ db'. Same R db db') (λ _ db'. Same R db db')
  unfolding expire_first
  expire_first_lem true key ttl db h = record {
    at_ok = λ _ _ j. L.expire_number key ttl db j h;
    at_err = λ _ _ j. L.expire_number key ttl db j h;
  }
  expire_first_lem false key ttl db h = Post-pure tt db (λ j. refl)

  revert_day_lem :
      (b : Bool) (key : String) (quota : ℤ) (total : ℤ) (db : R.Db)
      → R.number db key ≡ some total
      → Post
          (revert_day R b key (total -ℤ quota) db)
          (λ _ db'. Sets R key (some (if b then quota else total)) db db')
          (λ _ db'. Same R db db')
  unfolding revert_day
  revert_day_lem true key quota total db h =
      Post-bind {P = λ _ db'. Sets R key (some quota) db db'}
        (record {
          at_ok = λ r e j.
              L.decr_number key (total -ℤ quota) db r j e
              ∙ ap (λ v. if key == j then some v else R.number db j) (rw h (sub_sub total quota));
          at_err = λ x e j. L.decr_failed key (total -ℤ quota) db x j e;
        })
        (λ _ s sets. Post-pure tt s sets)
  revert_day_lem false key quota total db h = Post-pure tt db (λ j. ground (arith, eq_iff key j))

  count_lem :
      (key : String) (n ttl : ℤ) (db : R.Db)
      → pos 0 <ℤ ttl
      → let total = or_zero (R.number db key) +ℤ n in
        Post
          (count R key n ttl db)
          (λ r db'. (r ≡ total) × Sets R key (some total) db db')
          (λ _ db'. Same R db db' ⊎ Sets R key (some total) db db')
  unfolding count
  count_lem key n ttl db positive =
      let total : ℤ = or_zero (R.number db key) +ℤ n in
      Post-bind {P = λ r db'. (r ≡ total) × Sets R key (some total) db db'}
        (Post-weaken (incr_by_lem R L key n db) (λ r h. (h.0, rw (← h.0) h.1)) (λ _ same. inl same))
        λ current db₁ h₁.
          Post-bind {P = λ _ db'. Sets R key (some total) db db'}
            (Post-weaken (expire_first_lem (eq_ℤ current n) key ttl db₁ positive)
              (λ _ same j. same j ∙ h₁.1 j) (λ _ same. inr λ j. same j ∙ h₁.1 j))
            λ _ db₂ sets. Post-pure current db₂ (h₁.0, sets)

  count_day_lem :
      (a : ScriptArgs) (quota : ℤ) (db : R.Db)
      → let key = day_rate_limit_key a in
        let total = or_zero (R.number db key) +ℤ a.n in
        Post
          (count_day R a (some quota) db)
          (λ code db'.
            (code ≡ day_verdict quota total)
            × Sets R key (some (day_charge quota total (a.revert == "1"))) db db')
          (λ _ db'. Same R db db' ⊎ Sets R key (some total) db db')
  unfolding count_day
  count_day_lem a quota db =
      let key : String = day_rate_limit_key a in
      let total : ℤ = or_zero (R.number db key) +ℤ a.n in
      Post-bind {P = λ r db'. (r ≡ total) × Sets R key (some total) db db'}
        (count_lem key a.n (pos 129600) db (omega arith))
        λ current db₁ h₁. rw h₁.0 (
          Post-if (ltb_ℤ quota total) _ _ db₁
            (λ over.
              Post-bind
                {P = λ _ db'. Sets R key (some (if a.revert == "1" then quota else total)) db₁ db'}
                (Post-weaken
                  (revert_day_lem (a.revert == "1") key quota total db₁
                    (Sets-self R key (some total) db db₁ h₁.1))
                  (λ _ h. h) (λ _ same. inr λ j. same j ∙ h₁.1 j))
                λ _ db₂ h₂. Post-pure exceed_day_limit db₂ (
                  rw over,
                  rw (day_charge_over quota total (a.revert == "1") over)
                      (Sets-Sets R key (some total) db db₁ h₁.1 _ db₂ h₂),
                ))
            (λ under.
              Post-pure allow_code db₁
                (rw under, rw (day_charge_under quota total (a.revert == "1") under) h₁.1)))

  day_lem :
      (a : ScriptArgs) (quota : Option ℤ) (db : R.Db)
      → let key = day_rate_limit_key a in
        let total = or_zero (R.number db key) +ℤ a.n in
        Post
          (count_day R a quota db)
          (λ code db'.
            (code ≡ day_part quota total)
            × Sets R key (day_rest quota (R.number db key) total (a.revert == "1")) db db')
          (λ _ db'. Same R db db' ⊎ Sets R key (some total) db db')
  unfolding count_day
  day_lem a none db =
      Post-pure not_exist db (refl, Same-Sets R (day_rate_limit_key a) db db (λ j. refl))
  day_lem a (some quota) db = count_day_lem a quota db

  -- What an interrupted run has left: the counters that it had reached are charged.
  abbrev pub Interrupted : ScriptArgs → R.Db → R.Db → Type 0
  Interrupted a db db' =
      let sk = sec_rate_limit_key a in
      let dk = day_rate_limit_key a in
      let second = or_zero (R.number db sk) +ℤ a.n in
      let day = or_zero (R.number db dk) +ℤ a.n in
      Leaves R sk (R.number db sk) dk (R.number db dk) db db'
      ⊎ Leaves R sk (some second) dk (R.number db dk) db db'
      ⊎ Leaves R sk (some second) dk (some day) db db'

  -- the rest of a run whose second counter is charged and fits its quota
  rest_lem :
      (a : ScriptArgs) (quota : ℤ) (db db₁ : R.Db)
      → let sk = sec_rate_limit_key a in
        let dk = day_rate_limit_key a in
        let second = or_zero (R.number db sk) +ℤ a.n in
        let day = or_zero (R.number db dk) +ℤ a.n in
        let day_quota = R.number db (day_quota_key a) in
        Sets R sk (some second) db db₁
        → ltb_ℤ quota second ≡ false
        → Post
            (count_day R a day_quota db₁)
            (λ code db'.
              (code ≡ verdict (some quota) day_quota second day)
              × Leaves R sk
                  (some second)
                  dk
                  (day_left (some quota) day_quota second (R.number db dk) day (a.revert == "1"))
                  db
                  db')
            (λ _ db'. Interrupted a db db')
  rest_lem a quota db db₁ sets under =
      let sk : String = sec_rate_limit_key a in
      let dk : String = day_rate_limit_key a in
      let second : ℤ = or_zero (R.number db sk) +ℤ a.n in
      let same : R.number db₁ dk ≡ R.number db dk =
        Sets-other R sk (some second) db db₁ sets dk (sec-day a) in
      Post-weaken (rw same at (day_lem a (R.number db (day_quota_key a)) db₁))
        (λ code h. (
          rw under h.0,
          rw under (Sets-Leaves R sk (some second) db db₁ sets dk _ _ (sec-day a) h.1),
        ))
        (λ _ h. elim h [
          | inl unreached ↦ inr (inl (Sets-Same R sk (some second) db db₁ sets dk _ unreached))
          | inr reached ↦
              inr (inr (Sets-Leaves R sk (some second) db db₁ sets dk _ _ (sec-day a) reached))
        ])

  second_lem :
      (a : ScriptArgs) (quota : ℤ) (db : R.Db)
      → pos 0 <ℤ a.n
      → let sk = sec_rate_limit_key a in
        let dk = day_rate_limit_key a in
        let second = or_zero (R.number db sk) +ℤ a.n in
        let day = or_zero (R.number db dk) +ℤ a.n in
        let day_quota = R.number db (day_quota_key a) in
        Post
          (count_second R a (some quota) db)
          (λ code db'.
            (code ≡ verdict (some quota) day_quota second day)
            × Leaves R sk
                (some second)
                dk
                (day_left (some quota) day_quota second (R.number db dk) day (a.revert == "1"))
                db
                db')
          (λ _ db'. Interrupted a db db')
  unfolding count_second
  second_lem a quota db positive =
      let sk : String = sec_rate_limit_key a in
      let dk : String = day_rate_limit_key a in
      let total : ℤ = or_zero (R.number db sk) +ℤ a.n in
      Post-bind {P = λ r db'. (r ≡ total) × Sets R sk (some total) db db'}
        (Post-weaken (count_lem sk a.n a.n db positive) (λ _ h. h)
          (λ _ h. elim h [
            | inl none_charged ↦ inl (Same-Leaves R sk dk db _ none_charged)
            | inr charged ↦ inr (inl (Sets-Same R sk (some total) db _ charged dk _ (λ j. refl)))
          ]))
        λ current db₁ h₁. rw h₁.0 (
          Post-if (ltb_ℤ quota total) _ _ db₁
            (λ over.
              Post-pure exceed_second_limit db₁
                (rw over, rw over (Sets-Same R sk (some total) db db₁ h₁.1 dk db₁ (λ j. refl))))
            (λ under.
              Post-bind {P = λ r db'. (r ≡ R.number db₁ (day_quota_key a)) × (db' ≡ db₁)}
                (Post-weaken (get_number_lem R L (day_quota_key a) db₁) (λ _ h. h)
                  (λ _ e.
                    rw e (inr (inl (Sets-Same R sk (some total) db db₁ h₁.1 dk db₁ (λ j. refl))))))
                λ day_quota db₂ h₂.
                  rw
                    (
                      h₂.1,
                      h₂.0,
                      Sets-other R sk (some total) db db₁ h₁.1 (day_quota_key a) (sec-quota_day a),
                    )
                    (rest_lem a quota db db₁ h₁.1 under)))

  any_second_lem :
      (a : ScriptArgs) (sec_quota : Option ℤ) (db : R.Db)
      → pos 0 <ℤ a.n
      → let sk = sec_rate_limit_key a in
        let dk = day_rate_limit_key a in
        let second = or_zero (R.number db sk) +ℤ a.n in
        let day = or_zero (R.number db dk) +ℤ a.n in
        let day_quota = R.number db (day_quota_key a) in
        Post
          (count_second R a sec_quota db)
          (λ code db'.
            (code ≡ verdict sec_quota day_quota second day)
            × Leaves R sk
                (second_left sec_quota (R.number db sk) second)
                dk
                (day_left sec_quota day_quota second (R.number db dk) day (a.revert == "1"))
                db
                db')
          (λ _ db'. Interrupted a db db')
  unfolding count_second
  any_second_lem a none db positive =
      Post-pure not_exist db
        (refl, Same-Leaves R (sec_rate_limit_key a) (day_rate_limit_key a) db db (λ j. refl))
  any_second_lem a (some quota) db positive = second_lem a quota db positive

  -- One run of the script with a positive count returns the verdict on the counters that it found,
  -- raises the second's counter by the count if there is a quota for the second, leaves the day's
  -- counter as `day_left` says, and changes no other number; a run that a failed command interrupts
  -- has charged none of the two counters, the second's, or both.
  pub rate_limit_script_lem :
      (a : ScriptArgs) (db : R.Db)
      → pos 0 <ℤ a.n
      → let sk = sec_rate_limit_key a in
        let dk = day_rate_limit_key a in
        let second = or_zero (R.number db sk) +ℤ a.n in
        let day = or_zero (R.number db dk) +ℤ a.n in
        let sec_quota = R.number db (sec_quota_key a) in
        let day_quota = R.number db (day_quota_key a) in
        Post
          (rate_limit_script R a db)
          (λ code db'.
            (code ≡ verdict sec_quota day_quota second day)
            × Leaves R sk
                (second_left sec_quota (R.number db sk) second)
                dk
                (day_left sec_quota day_quota second (R.number db dk) day (a.revert == "1"))
                db
                db')
          (λ _ db'. Interrupted a db db')
  unfolding rate_limit_script
  rate_limit_script_lem a db positive =
      let sk : String = sec_rate_limit_key a in
      let dk : String = day_rate_limit_key a in
      Post-bind {P = λ r db'. (r ≡ R.number db (sec_quota_key a)) × (db' ≡ db)}
        (Post-weaken (get_number_lem R L (sec_quota_key a) db) (λ _ h. h)
          (λ _ e. rw e (inl (Same-Leaves R sk dk db db (λ j. refl)))))
        λ sec_quota db₁ h.
          rw (h.1, h.0) (any_second_lem a (R.number db (sec_quota_key a)) db positive)
