-- ===== src/Ipfs/Limit/Quiet.antt =====
-- The quota check of ratelimit/v1/ratelimit_ipfs.go forwards nothing.
use chain_api.Common.{
  ℕ, String, Bool, true, false, ◌≡◌, ◌∙◌, Result, ok, err, List, [], Option, none, some,
  if◌then◌else◌,
}
use chain_api.Common.Int.{ℤ}
use chain_api.Ipfs.{IpfsUser, Surroundings, Names}
use chain_api.Ipfs.Quiet.{Keeps, IsQuiet}
use chain_api.Ipfs.Service.{get_ipfs_user_no_cache}
use chain_api.Ipfs.Service.Quiet.{get_ipfs_user-Keeps}
use chain_api.Ipfs.Limit.{
  UsageError, redis_error, Usage, init_usage, read_usage, limit_verdict, not_done, judge,
  get_ipfs_user_usage, check_ipfs_limit,
}

module _ (S : Surroundings) (N : Names) {O : Type 0} (obs : S.World → O) (Q : IsQuiet S obs) where
  open S use {World, Error}

  init_usage-keeps :
      (key : String) (w : World) (p : Result Error IpfsUser × World)
      → obs p.1 ≡ obs w
      → obs (init_usage S N key p).1 ≡ obs w
  init_usage-keeps key w (err e, w') h = h
  init_usage-keeps key w (ok user, w') h =
      Q.hset_quiet key N.transfer_down_field user.transfer_down _
      ∙ Q.hset_quiet key N.transfer_up_field user.transfer_up _
      ∙ Q.hset_quiet key N.storage_field user.total_storage w'
      ∙ h

  usage-Keeps :
      (api_key : String) (chain_id : ℕ) → Keeps S obs (get_ipfs_user_usage S N api_key chain_id)
  unfolding get_ipfs_user_usage
  usage-Keeps api_key chain_id w =
      read (S.hget_all (N.usage_key api_key chain_id) w)
        (Q.hget_all_quiet (N.usage_key api_key chain_id) w)
    where
      found :
          (b : Bool) (e : Error) (w' : World)
          → obs w' ≡ obs w
          → obs
              (if b
                then init_usage S N
                    (N.usage_key api_key chain_id)
                    (get_ipfs_user_no_cache S N api_key w')
                else (record { result = []; failed = some (redis_error e); is_done = false }, w')).1
            ≡ obs w
      found true e w' h =
          init_usage-keeps (N.usage_key api_key chain_id) w (get_ipfs_user_no_cache S N api_key w')
            (get_ipfs_user-Keeps S N obs Q api_key w' ∙ h)
      found false e w' h = h

      read :
          (p : Result Error (List (String × String)) × World)
          → obs p.1 ≡ obs w
          → obs (read_usage S N api_key chain_id p).1 ≡ obs w
      read (ok entries, w') h = h
      read (err e, w') h = found (S.is_not_found e) e w' h

  pub check_ipfs_limit-Keeps :
      (api_key : String) (chain_id : ℕ) (size : ℤ) (bw_type : ℕ)
      → Keeps S obs (check_ipfs_limit S N api_key chain_id size bw_type)
  unfolding check_ipfs_limit
  check_ipfs_limit-Keeps api_key chain_id size bw_type w =
      judged (get_ipfs_user_usage S N api_key chain_id w) (usage-Keeps api_key chain_id w)
    where
      decided :
          (usage : List (String × ℕ)) (p : Result Error (List (String × String)) × World)
          → obs p.1 ≡ obs w
          → obs (limit_verdict S N size bw_type usage p).1 ≡ obs w
      decided usage (err e, w') h = h
      decided usage (ok lims, w') h = h

      undone :
          (o : Option (UsageError Error)) (w' : World)
          → obs w' ≡ obs w
          → obs (not_done S N o w').1 ≡ obs w
      undone none w' h = h
      undone (some e) w' h = h

      by_done :
          (b : Bool) (u : Usage Error) (w' : World)
          → obs w' ≡ obs w
          → obs
              (if b
                then limit_verdict S N size bw_type u.result
                    (S.hget_all (N.limit_key api_key chain_id) w')
                else not_done S N u.failed w').1
            ≡ obs w
      by_done true u w' h =
          decided u.result (S.hget_all (N.limit_key api_key chain_id) w')
            (Q.hget_all_quiet (N.limit_key api_key chain_id) w' ∙ h)
      by_done false u w' h = undone u.failed w' h

      judged :
          (p : Usage Error × World)
          → obs p.1 ≡ obs w
          → obs (judge S N api_key chain_id size bw_type p).1 ≡ obs w
      judged (u, w') h = by_done u.is_done u w' h
