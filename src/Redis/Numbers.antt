-- ===== src/Redis/Numbers.antt =====
-- How two databases differ in their numbers, and what INCRBY and GET do to them.
use chain_api.Common.{
  String, false, ◌≡◌, ◌∙◌, some, ◌==◌, if◌then◌else◌, arith, Post, Option, eq_iff, eq_refl,
}
use chain_api.Common.Int.{ℤ, ◌+ℤ◌}
use chain_api.Redis.{Redis, IsRedis, or_zero}

-- The numbers of `db'` are those of `db`, but for `v` at `key`.
abbrev pub Sets : (R : Redis) → String → Option ℤ → R.Db → R.Db → Type 0
Sets R key v db db' = (j : String) → R.number db' j ≡ (if key == j then v else R.number db j)

-- The same for two keys, the first of which counts where they are equal.
abbrev pub Leaves : (R : Redis) → String → Option ℤ → String → Option ℤ → R.Db → R.Db → Type 0
Leaves R k v l w db db' =
    (j : String) → R.number db' j ≡ (if k == j then v else if l == j then w else R.number db j)

abbrev pub Same : (R : Redis) → R.Db → R.Db → Type 0
Same R db db' = (j : String) → R.number db' j ≡ R.number db j

module _ (R : Redis) where
  pub Same-Sets :
      (key : String) (db db' : R.Db) → Same R db db' → Sets R key (R.number db key) db db'
  Same-Sets key db db' same j = ground (arith, same j, eq_iff key j)

  pub Same-Leaves :
      (k l : String) (db db' : R.Db)
      → Same R db db'
      → Leaves R k (R.number db k) l (R.number db l) db db'
  Same-Leaves k l db db' same j = ground (arith, same j, eq_iff k j, eq_iff l j)

module _ (R : Redis) (key : String) (v : Option ℤ) (db db₁ : R.Db)
    (sets : Sets R key v db db₁) where
  pub Sets-Same :
      (l : String) (db₂ : R.Db) → Same R db₁ db₂ → Leaves R key v l (R.number db l) db db₂
  Sets-Same l db₂ same j = ground (arith, same j, sets j, eq_iff l j)

  pub Sets-self : R.number db₁ key ≡ v
  Sets-self = sets key ∙ rw (eq_refl key)

  pub Sets-other : (l : String) → (key == l) ≡ false → R.number db₁ l ≡ R.number db l
  Sets-other l h = sets l ∙ rw h

  pub Sets-Sets : (w : Option ℤ) (db₂ : R.Db) → Sets R key w db₁ db₂ → Sets R key w db db₂
  Sets-Sets w db₂ again j = ground (arith, again j, sets j)

  pub Sets-Leaves :
      (l : String) (w : Option ℤ) (db₂ : R.Db)
      → (key == l) ≡ false
      → Sets R l w db₁ db₂
      → Leaves R key v l w db db₂
  Sets-Leaves l w db₂ h again j =
      ground (arith, again j, sets j, eq_iff l j, eq_iff key j, eq_iff key l)

module _ (R : Redis) (L : IsRedis R) where
  pub get_number_lem :
      (key : String) (db : R.Db)
      → Post (R.get_number key db) (λ r db'. (r ≡ R.number db key) × (db' ≡ db)) (λ _ db'. db' ≡ db)
  get_number_lem key db = record {
    at_ok = λ r e. (L.get_reply key db r e, L.get_keeps key db);
    at_err = λ _ _. L.get_keeps key db;
  }

  pub incr_by_lem :
      (key : String) (n : ℤ) (db : R.Db)
      → Post
          (R.incr_by key n db)
          (λ r db'. (r ≡ or_zero (R.number db key) +ℤ n) × Sets R key (some r) db db')
          (λ _ db'. Same R db db')
  incr_by_lem key n db = record {
    at_ok = λ r e. (L.incr_reply key n db r e, λ j. L.incr_number key n db r j e);
    at_err = λ x e j. L.incr_failed key n db x j e;
  }
