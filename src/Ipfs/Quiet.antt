-- ===== src/Ipfs/Quiet.antt =====
-- What an observer sees of the surroundings of the IPFS gateway, and the calls that leave it.
use chain_api.Common.{ℕ, String, ◌≡◌, ◌∙◌, Exec, Result, ok, err, continue, ◌>>=◌}
use chain_api.Ipfs.{Assigned, Surroundings}

module _ (S : Surroundings) where
  open S use {World, Error}

  -- What an observer counts of a world, the requests that were forwarded say, is left as it was.
  abbrev pub Keeps : {O X : Type 0} → (World → O) → (World → X × World) → Type 0
  Keeps obs m = (w : World) → obs (m w).1 ≡ obs w

  -- Every call but the forwarding of a request keeps the observation.
  pub record IsQuiet {O : Type 0} (obs : World → O) : Type 1 where
    pub cache_quiet :
        {A : Type 0} (key : String) (a : A) (m : Assigned World Error A)
        → Keeps obs m
        → Keeps obs (S.cache_fn key a m)
    pub hget_all_quiet : (key : String) → Keeps obs (S.hget_all key)
    pub hset_quiet : (key field : String) (n : ℕ) → Keeps obs (S.hset key field n)
    pub get_user_file_quiet : (user : ℕ) (cid : String) → Keeps obs (S.get_user_file user cid)
    pub get_ipfs_user_quiet : (user : ℕ) → Keeps obs (S.get_ipfs_user user)
    pub query_gateway_quiet : (subdomain : String) → Keeps obs (S.query_gateway subdomain)
    pub first_project_quiet : (user : ℕ) → Keeps obs (S.first_project user)
    pub get_id_quiet : (api_key : String) → Keeps obs (S.get_id_by_api_key api_key)
    pub object_stat_quiet : (cid : String) → Keeps obs (S.object_stat cid)

  -- A chain of calls that keep the observation.
  pub bind-Keeps :
      {O E A B : Type 0} (obs : World → O) (m : Exec World E A) (f : A → Exec World E B)
      → Keeps obs m
      → ((x : A) → Keeps obs (f x))
      → Keeps obs (m >>= f)
  bind-Keeps {E = E} {A = A} {B = B} obs m f hm hf w = continued (m w) (hm w)
    where
      continued : (p : Result E A × World) → obs p.1 ≡ obs w → obs (continue f p).1 ≡ obs w
      continued (ok x, w') h = hf x w' ∙ h
      continued (err e, w') h = h
