-- ===== src/Ipfs/Limit.antt =====
-- ratelimit/v1/ratelimit_ipfs.go: the quota of an IPFS user, and the counters of the traffic.
-- A Go map has no order: the entries of a hash come in some order, and the verdict is the same in all.
pub mod Verdict
pub mod Quiet
mod Tests
use chain_api.Common.{
  ℕ, String, Bool, true, false, Option, none, some, List, [], ◌∷◌, map, Exec, Result, ok, err, pure,
  fail, ◌>>=◌, ◌>>◌, ◌==◌, ◌&&◌, ◌||◌, if◌then◌else◌, leb, nat_eq,
}
use chain_api.Common.Int.{ℤ, pos}
use chain_api.Redis.{Redis}
use chain_api.RateLimit.Limiter.{
  CacheKeys, RateLimiter, LimitError, hours_36, allow_whitelist, increase_and_set_expire,
}
use chain_api.Ipfs.{IpfsUser, Surroundings, Names, add_uint64, uint64_of}
use chain_api.Ipfs.Service.{get_ipfs_user_no_cache, incr_ipfs_usage}

abbrev pub band_width_upload : ℕ
band_width_upload = 1

abbrev pub band_width_download : ℕ
band_width_download = 2

pub data UsageError (E : Type 0) : Type 0 where
  no_user no_plan_limit : UsageError E
  redis_error : E → UsageError E

-- The three results of `GetIPFSUserUsage`; `nil` is the map without entries.
pub record Usage (E : Type 0) : Type 0 where
  pub result : List (String × ℕ)
  pub failed : Option (UsageError E)
  pub is_done : Bool

-- What a map has at a key; the zero value of a missing one is the empty text.
pub text_at : String → List (String × String) → String
text_at key [] = ""
text_at key ((k, v) ∷ rest) = let later = text_at key rest in if k == key then v else later

module _ (S : Surroundings) (N : Names) where
  open S use {World, Error}
  open N use {usage_key, limit_key, storage_field, transfer_up_field, transfer_down_field}

  abbrev usage_of : List (String × String) → Usage Error
  usage_of entries = record {
    result = map (λ kv. (kv.0, N.cast_to_uint64 kv.1)) entries;
    failed = none;
    is_done = true;
  }

  -- Three fields of the hash are written; an error of each is logged.
  abbrev init_usage : String → Result Error IpfsUser × World → Usage Error × World
  init_usage key (err e, w) = (record { result = []; failed = some no_user; is_done = true }, w)
  init_usage key (ok user, w) =
      let w1 = (S.hset key storage_field user.total_storage w).1 in
      let w2 = (S.hset key transfer_up_field user.transfer_up w1).1 in
      let w3 = (S.hset key transfer_down_field user.transfer_down w2).1 in (usage_of [], w3)

  abbrev read_usage :
      String → ℕ → Result Error (List (String × String)) × World → Usage Error × World
  read_usage api_key chain_id (ok entries, w) = (usage_of entries, w)
  read_usage api_key chain_id (err e, w) =
      if S.is_not_found e
      then init_usage (usage_key api_key chain_id) (get_ipfs_user_no_cache S N api_key w)
      else (record { result = []; failed = some (redis_error e); is_done = false }, w)

  pub get_ipfs_user_usage : String → ℕ → World → Usage Error × World
  get_ipfs_user_usage api_key chain_id w =
      read_usage api_key chain_id (S.hget_all (usage_key api_key chain_id) w)

  -- The usage at a field with the bytes of the request.
  pub charged : ℤ → ℕ → String → ℕ → ℕ
  charged file_size bw_type field usage =
      let size = uint64_of file_size in
      let up =
        if (field == storage_field || field == transfer_up_field)
          && nat_eq bw_type band_width_upload
        then add_uint64 usage size
        else usage in
      if field == transfer_down_field && nat_eq bw_type band_width_download
      then add_uint64 up size
      else up

  -- The loop over the usages: whether none is out of the plan's limit.
  pub within_limits : List (String × String) → ℤ → ℕ → List (String × ℕ) → Bool
  unfolding text_at charged
  within_limits user_limit file_size bw_type [] = true
  within_limits user_limit file_size bw_type ((field, usage) ∷ rest) =
      let later = within_limits user_limit file_size bw_type rest in
      if leb (N.cast_to_uint64 (text_at field user_limit)) (charged file_size bw_type field usage)
      then false
      else later

  abbrev limit_verdict :
      ℤ
      → ℕ
      → List (String × ℕ)
      → Result Error (List (String × String)) × World
      → Result (UsageError Error) Bool × World
  limit_verdict file_size bw_type usage (err e, w) = (err no_plan_limit, w)
  limit_verdict file_size bw_type usage (ok user_limit, w) =
      (ok (within_limits user_limit file_size bw_type usage), w)

  -- `return done, err` where the usage is not done
  abbrev not_done : Option (UsageError Error) → World → Result (UsageError Error) Bool × World
  not_done none w = (ok false, w)
  not_done (some e) w = (err e, w)

  abbrev judge : String → ℕ → ℤ → ℕ → Usage Error × World → Result (UsageError Error) Bool × World
  judge api_key chain_id file_size bw_type (usage, w) =
      if usage.is_done
      then limit_verdict file_size bw_type usage.result (S.hget_all (limit_key api_key chain_id) w)
      else not_done usage.failed w

  pub check_ipfs_limit : String → ℕ → ℤ → ℕ → Exec World (UsageError Error) Bool
  unfolding get_ipfs_user_usage within_limits
  check_ipfs_limit api_key chain_id file_size bw_type w =
      judge api_key chain_id file_size bw_type (get_ipfs_user_usage api_key chain_id w)

  -- `up_key` and `down_key` are `GetUserBWDayUpKey` and `GetUserBWDayDownKey` of cachekey.
  module _ (R : Redis) (K : CacheKeys) (up_key down_key : String → ℕ → K.Time → String) where
    abbrev pub Both : Type 0
    Both = R.Db × World

    -- a counter of the day, and the usage of the period
    abbrev count_traffic : String → String → ℕ → String → ℤ → Both → Both
    count_traffic day_key api_key chain_id field size (db, w) = (
      (increase_and_set_expire R K day_key size hours_36 db).1,
      incr_ipfs_usage S N api_key field chain_id size w,
    )

    abbrev hook : K.Time → ℕ → String → ℤ → ℕ → Both → Both
    hook t chain_id api_key size bw_type s =
        if nat_eq bw_type band_width_upload
        then count_traffic (up_key api_key chain_id t) api_key chain_id transfer_up_field size s
        else if nat_eq bw_type band_width_download
        then count_traffic (down_key api_key chain_id t) api_key chain_id transfer_down_field size s
        else s

    abbrev hook_after :
        K.Time
        → ℕ
        → String
        → ℤ
        → ℕ
        → World
        → Result (LimitError R.Error) Bool × R.Db
        → Result (LimitError R.Error) (Unit {0}) × Both
    hook_after t chain_id api_key size bw_type w (err e, db) = (err e, (db, w))
    hook_after t chain_id api_key size bw_type w (ok true, db) = (ok tt, (db, w))
    hook_after t chain_id api_key size bw_type w (ok false, db) =
        (ok tt, hook t chain_id api_key size bw_type (db, w))

    pub bandwidth_hook :
        RateLimiter
        → K.Time
        → K.Time
        → ℕ
        → String
        → ℤ
        → ℕ
        → Exec Both (LimitError R.Error) (Unit {0})
    bandwidth_hook l now t chain_id api_key size bw_type (db, w) =
        hook_after t chain_id api_key size bw_type w
          (allow_whitelist R K l now chain_id api_key (pos 1) db)
