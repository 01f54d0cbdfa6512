-- ===== src/Ipfs/Limit/Tests.antt =====
-- The quota of ratelimit/v1/ratelimit_ipfs.go for a user with one field of usage.
use chain_api.Common.{Bool, true, ◌≡◌, ◌↔◌, refl, [], ◌∷◌, ok, All, arith}
use chain_api.Common.Int.{pos}
use chain_api.Ipfs.Concrete.{calm, names}
use chain_api.Ipfs.Limit.{check_ipfs_limit}
use chain_api.Ipfs.Limit.Verdict.{IsWithin, check_ipfs_limit-Verdict}

-- An upload of 30 bytes.
check_ipfs_limit-Verdict_example :
    (passes : Bool) × (check_ipfs_limit calm names "key" 9 (pos 30) 1 [] ≡ (ok passes, []))
    × ((passes ≡ true)
        ↔ All (IsWithin calm names (("storage", "60") ∷ []) (pos 30) 1) (("storage", "60") ∷ []))
check_ipfs_limit-Verdict_example =
    check_ipfs_limit-Verdict calm names "key" 9 (pos 30) 1 [] [] [] (("storage", "60") ∷ [])
      (("storage", "60") ∷ []) (λ s. omega arith) refl refl
