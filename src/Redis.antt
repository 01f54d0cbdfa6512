-- ===== src/Redis.antt =====
-- The Redis commands that ratelimit/v1/lua/ratelimit.lua, ratelimit/v1/ratelimit.go and
-- pkg/utils/cache.go issue. Redis is not part of the repository, so its commands are parameters;
-- what the code relies on stands in `IsRedis`, as the commands' documentation states it.
pub mod Concrete
pub mod Numbers
use chain_api.Common.{String, ◌≡◌, Option, none, some, Exec, Result, ok, err, ◌==◌, if◌then◌else◌}
use chain_api.Common.Int.{ℤ, pos, ◌+ℤ◌, ◌-ℤ◌, ◌<ℤ◌}

pub record Redis : Type 1 where
  pub Db : Type 0
  pub Error : Type 0
  -- GET, its reply read as a number: `tonumber(redis.call("GET", key))`
  pub get_number : String → Exec Db Error (Option ℤ)
  pub incr_by : String → ℤ → Exec Db Error ℤ
  pub decr_by : String → ℤ → Exec Db Error ℤ
  -- EXPIRE, in seconds
  pub expire : String → ℤ → Exec Db Error (Unit {0})
  -- what an observer reads in a database: the number at a key
  pub number : Db → String → Option ℤ

-- A missing key counts as 0.
abbrev pub or_zero : Option ℤ → ℤ
or_zero none = pos 0
or_zero (some v) = v

-- What the documentation of the commands promises. A command that fails has changed no number.
pub record IsRedis (R : Redis) : Type 0 where
  pub get_reply :
      (k : String) (db : R.Db) (r : Option ℤ) → (R.get_number k db).0 ≡ ok r → r ≡ R.number db k
  pub get_keeps : (k : String) (db : R.Db) → (R.get_number k db).1 ≡ db
  pub incr_reply :
      (k : String) (n : ℤ) (db : R.Db) (r : ℤ)
      → (R.incr_by k n db).0 ≡ ok r
      → r ≡ or_zero (R.number db k) +ℤ n
  pub incr_number :
      (k : String) (n : ℤ) (db : R.Db) (r : ℤ) (j : String)
      → (R.incr_by k n db).0 ≡ ok r
      → R.number (R.incr_by k n db).1 j ≡ (if k == j then some r else R.number db j)
  pub incr_failed :
      (k : String) (n : ℤ) (db : R.Db) (e : R.Error) (j : String)
      → (R.incr_by k n db).0 ≡ err e
      → R.number (R.incr_by k n db).1 j ≡ R.number db j
  pub decr_number :
      (k : String) (n : ℤ) (db : R.Db) (r : ℤ) (j : String)
      → (R.decr_by k n db).0 ≡ ok r
      → R.number (R.decr_by k n db).1 j
        ≡ (if k == j then some (or_zero (R.number db k) -ℤ n) else R.number db j)
  pub decr_failed :
      (k : String) (n : ℤ) (db : R.Db) (e : R.Error) (j : String)
      → (R.decr_by k n db).0 ≡ err e
      → R.number (R.decr_by k n db).1 j ≡ R.number db j
  -- a positive time to live takes no key away
  pub expire_number :
      (k : String) (t : ℤ) (db : R.Db) (j : String)
      → pos 0 <ℤ t
      → R.number (R.expire k t db).1 j ≡ R.number db j
