-- ===== src/Ipfs/Service/Quiet.antt =====
-- The lookups of service/ipfsService.go that the gateway makes before it forwards a request.
use chain_api.Common.{
  String, Bool, true, false, ◌≡◌, refl, ◌∙◌, Result, ok, err, Option, none, some, nat_eq,
  if◌then◌else◌,
}
use chain_api.Ipfs.{IpfsUser, Gateway, Surroundings, Names}
use chain_api.Ipfs.Quiet.{Keeps, IsQuiet, bind-Keeps}
use chain_api.Ipfs.Service.{
  checked, gateway_key, active_gateway, if_active, get_user_id_by_api_key,
  get_api_key_by_active_gateway, get_ipfs_user_no_cache, get_user_ipfs_file,
}

module _ (S : Surroundings) (N : Names) {O : Type 0} (obs : S.World → O) (Q : IsQuiet S obs) where
  open S use {World, Error}

  checked-keeps :
      {A : Type 0} (w : World) (p : (A × Option Error) × World)
      → obs p.1 ≡ obs w
      → obs (checked S N p).1 ≡ obs w
  checked-keeps w ((a, none), w') h = h
  checked-keeps w ((a, some e), w') h = h

  pub get_user_id-Keeps : (api_key : String) → Keeps S obs (get_user_id_by_api_key S N api_key)
  unfolding get_user_id_by_api_key
  get_user_id-Keeps api_key =
      Q.cache_quiet (N.api_key_user_id api_key) 0 (S.get_id_by_api_key api_key)
        (Q.get_id_quiet api_key)

  pub get_ipfs_user-Keeps : (api_key : String) → Keeps S obs (get_ipfs_user_no_cache S N api_key)
  unfolding get_ipfs_user_no_cache
  get_ipfs_user-Keeps api_key w =
      let (user, w') = get_user_id_by_api_key S N api_key w in
      checked-keeps w (S.get_ipfs_user user w')
        (Q.get_ipfs_user_quiet user w' ∙ get_user_id-Keeps api_key w)

  pub get_user_ipfs_file-Keeps :
      (api_key cid : String) → Keeps S obs (get_user_ipfs_file S N api_key cid)
  unfolding get_user_ipfs_file
  get_user_ipfs_file-Keeps api_key cid w =
      let (user, w') = get_user_id_by_api_key S N api_key w in
      checked-keeps w (S.get_user_file user cid w')
        (Q.get_user_file_quiet user cid w' ∙ get_user_id-Keeps api_key w)

  if_active-Keeps : (gateway : Gateway) (user : IpfsUser) → Keeps S obs (if_active S N gateway user)
  if_active-Keeps gateway user w = by_id (nat_eq user.active_gateway_id gateway.id)
    where
      by_id :
          (b : Bool)
          → obs ((if b then S.first_project user.id else (λ w. (err S.gateway_not_active, w))) w).1
            ≡ obs w
      by_id true = Q.first_project_quiet user.id w
      by_id false = refl

  active_gateway-Keeps : (subdomain : String) → Keeps S obs (active_gateway S N subdomain)
  active_gateway-Keeps subdomain =
      bind-Keeps S obs (S.query_gateway subdomain) _ (Q.query_gateway_quiet subdomain) (λ gateway.
        bind-Keeps S obs (λ w. checked S N (S.get_ipfs_user gateway.user_id w)) _
          (λ w.
            checked-keeps w (S.get_ipfs_user gateway.user_id w)
              (Q.get_ipfs_user_quiet gateway.user_id w))
          (λ user. if_active-Keeps gateway user))

  pub get_api_key-Keeps :
      (subdomain : String) → Keeps S obs (get_api_key_by_active_gateway S N subdomain)
  unfolding get_api_key_by_active_gateway
  get_api_key-Keeps subdomain =
      Q.cache_quiet (N.api_key_by_gateway subdomain) ""
        (λ w. gateway_key S N (active_gateway S N subdomain w))
        (λ w. keyed w (active_gateway S N subdomain w) (active_gateway-Keeps subdomain w))
    where
      keyed :
          (w : World) (p : Result Error String × World)
          → obs p.1 ≡ obs w
          → obs (gateway_key S N p).1 ≡ obs w
      keyed w (ok key, w') h = h
      keyed w (err e, w') h = h
