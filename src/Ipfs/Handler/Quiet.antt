-- ===== src/Ipfs/Handler/Quiet.antt =====
-- What pkg/handler/ipfsHandler.go does before a request is forwarded: the user's quota, and the
-- statistics of an object that is to be pinned.
use chain_api.Common.{
  ℕ, String, Bool, true, false, ◌≡◌, refl, Result, ok, err, [], nat_eq, if◌then◌else◌, wrapped,
  wrap_err,
}
use chain_api.Common.Int.{ℤ, pos}
use chain_api.Ipfs.{IpfsFile, Surroundings, Names}
use chain_api.Ipfs.Quiet.{Keeps, IsQuiet, bind-Keeps}
use chain_api.Ipfs.Service.{get_user_ipfs_file}
use chain_api.Ipfs.Service.Quiet.{get_user_ipfs_file-Keeps}
use chain_api.Ipfs.Limit.{UsageError, band_width_upload, check_ipfs_limit}
use chain_api.Ipfs.Limit.Quiet.{check_ipfs_limit-Keeps}
use chain_api.Ipfs.Handler.{
  limit_answer, refuse, check_ipfs_user_limit, or_no_file, pin_new_file, pin_file_by, pin_add_file,
}

module _ (S : Surroundings) (N : Names) {O : Type 0} (obs : S.World → O) (Q : IsQuiet S obs) where
  open S use {World, Error}

  pub wrap_err-Keeps :
      {E E' A : Type 0} (g : E → E') (m : World → Result E A × World)
      → Keeps S obs m
      → Keeps S obs (wrap_err g m)
  wrap_err-Keeps {E = E} {E' = E'} {A = A} g m h w = kept (m w) (h w)
    where
      kept : (p : Result E A × World) → obs p.1 ≡ obs w → obs (wrapped g p).1 ≡ obs w
      kept (ok a, w') k = k
      kept (err e, w') k = k

  pub check_ipfs_user_limit-Keeps :
      (api_key : String) (size : ℤ) (bw_type : ℕ)
      → Keeps S obs (check_ipfs_user_limit S N api_key size bw_type)
  unfolding check_ipfs_user_limit
  check_ipfs_user_limit-Keeps api_key size bw_type w =
      kept (check_ipfs_limit S N api_key N.ipfs_chain_id size bw_type w)
        (check_ipfs_limit-Keeps S N obs Q api_key N.ipfs_chain_id size bw_type w)
    where
      kept :
          (p : Result (UsageError Error) Bool × World)
          → obs p.1 ≡ obs w
          → obs (limit_answer S N p).1 ≡ obs w
      kept (err e, w') h = h
      kept (ok false, w') h = h
      kept (ok true, w') h = h

  pub check_ipfs_user_limit-passes :
      (api_key : String) (size : ℤ) (bw_type : ℕ) (w : World)
      → (check_ipfs_user_limit S N api_key size bw_type w).0 ≡ ok tt
      → (check_ipfs_limit S N api_key N.ipfs_chain_id size bw_type w).0 ≡ ok true
  unfolding check_ipfs_user_limit
  check_ipfs_user_limit-passes api_key size bw_type w =
      passed (check_ipfs_limit S N api_key N.ipfs_chain_id size bw_type w)
    where
      passed :
          (p : Result (UsageError Error) Bool × World)
          → (limit_answer S N p).0 ≡ ok tt
          → p.0 ≡ ok true
      passed (err e, w') h = cc
      passed (ok false, w') h = cc
      passed (ok true, w') h = refl

  pin_file_by-Keeps :
      (api_key cid : String) (file : IpfsFile) → Keeps S obs (pin_file_by S N api_key cid file)
  pin_file_by-Keeps api_key cid file w = by_id (nat_eq file.id 0)
    where
      new : Keeps S obs (pin_new_file S N api_key cid)
      new =
          bind-Keeps S obs (wrap_err (λ e. refuse 500 "pin files failed") (S.object_stat cid)) _
            (wrap_err-Keeps (λ e. refuse 500 "pin files failed") (S.object_stat cid)
              (Q.object_stat_quiet cid))
            (λ stats.
              bind-Keeps S obs
                (check_ipfs_user_limit S N api_key stats.cumulative_size band_width_upload) _
                (check_ipfs_user_limit-Keeps api_key stats.cumulative_size band_width_upload)
                (λ u w. refl))

      by_id :
          (b : Bool)
          → obs
              ((if b
                  then pin_new_file S N api_key cid
                  else (λ w. (ok (record { bw_type = 0; bw_size = pos 0; files = [] }), w)))
                w).1
            ≡ obs w
      by_id true = new w
      by_id false = refl

  pub pin_add_file-Keeps : (api_key cid : String) → Keeps S obs (pin_add_file S N api_key cid)
  unfolding pin_add_file
  pin_add_file-Keeps api_key cid =
      bind-Keeps S obs (λ w. or_no_file S N (get_user_ipfs_file S N api_key cid w)) _
        (λ w.
          kept w (get_user_ipfs_file S N api_key cid w)
            (get_user_ipfs_file-Keeps S N obs Q api_key cid w))
        (λ file. pin_file_by-Keeps api_key cid file)
    where
      kept :
          (w : World) (p : Result Error IpfsFile × World)
          → obs p.1 ≡ obs w
          → obs (or_no_file S N p).1 ≡ obs w
      kept w (ok file, w') h = h
      kept w (err e, w') h = h
