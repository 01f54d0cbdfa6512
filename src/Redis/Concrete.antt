-- ===== src/Redis/Concrete.antt =====
-- A database that never fails, as a function from keys: it meets every law of `IsRedis`.
use chain_api.Common.{String, refl, Option, some, ok, ◌==◌, if◌then◌else◌}
use chain_api.Common.Int.{ℤ, ◌+ℤ◌, ◌-ℤ◌}
use chain_api.Redis.{Redis, IsRedis, or_zero}

abbrev pub put : String → ℤ → (String → Option ℤ) → String → Option ℤ
put key v db j = if key == j then some v else db j

abbrev pub mem_redis : Redis
mem_redis = record {
  Db = String → Option ℤ;
  Error = String;
  get_number = λ key db. (ok (db key), db);
  incr_by = λ key n db. (ok (or_zero (db key) +ℤ n), put key (or_zero (db key) +ℤ n) db);
  decr_by = λ key n db. (ok (or_zero (db key) -ℤ n), put key (or_zero (db key) -ℤ n) db);
  expire = λ key ttl db. (ok tt, db);
  number = λ db key. db key;
}

pub mem_redis-IsRedis : IsRedis mem_redis
mem_redis-IsRedis = record {
  get_reply = λ k db r e. cc;
  get_keeps = λ k db. refl;
  incr_reply = λ k n db r e. cc;
  incr_number = λ k n db r j e. cc;
  incr_failed = λ k n db e j h. cc;
  decr_number = λ k n db r j e. refl;
  decr_failed = λ k n db e j h. cc;
  expire_number = λ k t db j h. refl;
}
