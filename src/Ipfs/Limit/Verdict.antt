-- ===== src/Ipfs/Limit/Verdict.antt =====
-- When ratelimit/v1/ratelimit_ipfs.go lets a request of an IPFS user pass.
use chain_api.Common.{
  ℕ, ◌+◌, ◌%◌, ◌<◌, String, Bool, true, false, List, [], ◌∷◌, ok, All, ◌≡◌, ◌↔◌, refl, ◌==◌, ◌&&◌,
  ◌||◌, if◌then◌else◌, nat_eq, leb, leb→le, Bool-cases, inl, inr, arith,
}
use chain_api.Common.Int.{ℤ}
use chain_api.Ipfs.{Surroundings, Names, uint64_of, two_64}
use chain_api.Ipfs.Limit.{
  text_at, charged, within_limits, get_ipfs_user_usage, check_ipfs_limit, usage_of,
  band_width_upload, band_width_download,
}

charge_join :
    (p u q d : Bool) (x n : ℕ)
    → (u ≡ true → d ≡ false)
    → x < two_64
    → (if q && d
        then ((if p && u then (x + n) % two_64 else x) + n) % two_64
        else if p && u
        then (x + n) % two_64
        else x)
      ≡ (x + (if u then (if p then n else 0) else if d && q then n else 0)) % two_64
charge_join p u q d x n apart h = ground arith

not_both : (n : ℕ) → nat_eq n band_width_upload ≡ true → nat_eq n band_width_download ≡ false
not_both n h = ground arith

-- One entry within its limit, and the rest.
entry_join :
    (c limit : ℕ) (later : Bool) (P : Type 0)
    → (later ≡ true) ↔ P
    → ((if leb limit c then false else later) ≡ true) ↔ ((c < limit) × P)
entry_join c limit later P h = elim (Bool-cases (leb limit c)) [
  | inl t ↦ rw t (let over = leb→le limit c t in (λ e. cc, λ (below, p). ground arith))
  | inr f ↦ let below : c < limit = ground arith in rw f ((λ e. (below, h.0 e)), (λ (l, p). h.1 p))
]

module _ (S : Surroundings) (N : Names) where
  open N use {storage_field, transfer_up_field, transfer_down_field, cast_to_uint64}

  -- The bytes that a request adds to a field of the usage: an upload to the storage and to the upward
  -- traffic, a download to the downward traffic.
  abbrev pub bytes_for : ℤ → ℕ → String → ℕ
  bytes_for size bw_type field =
      if nat_eq bw_type band_width_upload
      then (if field == storage_field || field == transfer_up_field then uint64_of size else 0)
      else if nat_eq bw_type band_width_download && field == transfer_down_field
      then uint64_of size
      else 0

  -- The usage at a field stays below the plan's limit with the request's bytes, in 64 bits.
  abbrev pub IsWithin : List (String × String) → ℤ → ℕ → String × String → Type 0
  IsWithin user_limit size bw_type (field, usage) =
      (cast_to_uint64 usage + bytes_for size bw_type field) % two_64
      < cast_to_uint64 (text_at field user_limit)

  charged_lem :
      (size : ℤ) (bw_type : ℕ) (field : String) (usage : ℕ)
      → usage < two_64
      → charged S N size bw_type field usage ≡ (usage + bytes_for size bw_type field) % two_64
  unfolding charged
  charged_lem size bw_type field usage =
      charge_join (field == storage_field || field == transfer_up_field)
        (nat_eq bw_type band_width_upload) (field == transfer_down_field)
        (nat_eq bw_type band_width_download) usage (uint64_of size) (not_both bw_type)

  within_limits-All :
      (user_limit : List (String × String)) (size : ℤ) (bw_type : ℕ)
      → ((s : String) → cast_to_uint64 s < two_64)
      → (entries : List (String × String))
      → (within_limits S N user_limit size bw_type (usage_of S N entries).result ≡ true)
        ↔ All (IsWithin user_limit size bw_type) entries
  unfolding within_limits
  within_limits-All user_limit size bw_type bound [] = (λ h. tt, λ h. refl)
  within_limits-All user_limit size bw_type bound ((field, usage) ∷ rest) =
      rw (charged_lem size bw_type field (cast_to_uint64 usage) (bound usage)) (
        entry_join ((cast_to_uint64 usage + bytes_for size bw_type field) % two_64)
          (cast_to_uint64 (text_at field user_limit))
          (within_limits S N user_limit size bw_type (usage_of S N rest).result)
          (All (IsWithin user_limit size bw_type) rest)
          (within_limits-All user_limit size bw_type bound rest))

  -- Where the usage and the plan's limits can be read and numbers fit 64 bits: the check passes exactly
  -- when every field of the recorded usage, with the bytes that the request adds to it, stays below the
  -- plan's limit of that field.
  pub check_ipfs_limit-Verdict :
      (api_key : String) (chain_id : ℕ) (size : ℤ) (bw_type : ℕ) (w w1 w2 : S.World)
      (entries user_limit : List (String × String))
      → ((s : String) → cast_to_uint64 s < two_64)
      → S.hget_all (N.usage_key api_key chain_id) w ≡ (ok entries, w1)
      → S.hget_all (N.limit_key api_key chain_id) w1 ≡ (ok user_limit, w2)
      → (passes : Bool) × (check_ipfs_limit S N api_key chain_id size bw_type w ≡ (ok passes, w2))
        × ((passes ≡ true) ↔ All (IsWithin user_limit size bw_type) entries)
  unfolding check_ipfs_limit get_ipfs_user_usage
  check_ipfs_limit-Verdict api_key chain_id size bw_type w w1 w2 entries user_limit bound u l = (
    within_limits S N user_limit size bw_type (usage_of S N entries).result,
    rw (u, l) refl,
    within_limits-All user_limit size bw_type bound entries,
  )
