-- ===== src/Ipfs/Service.antt =====
-- service/ipfsService.go. An error that the code only logs, or assigns to `_`, is dropped.
pub mod Storage
pub mod Quiet
mod Tests
use chain_api.Common.{
  ℕ, zero, suc, String, Bool, true, false, Option, none, some, List, [], ◌∷◌, map, Exec, Result, ok,
  err, pure, fail, ◌>>=◌, ◌>>◌, Stop, error, panic, wrap_err, ◌==◌, if◌then◌else◌, ltb, nat_eq,
}
use chain_api.Common.Int.{ℤ, to_int64}
use chain_api.Ipfs.{
  IpfsFile, NewFile, IpfsUser, Gateway, AddResp, AddParam, Assigned, Surroundings, Names,
  add_uint64, sub_uint64,
}

abbrev pub allow_method : List String
allow_method =
    "/add" ∷ "/block/get" ∷ "/block/put" ∷ "/block/stat" ∷ "/cat" ∷ "/dag/get" ∷ "/dag/put"
    ∷ "/dag/resolve" ∷ "/get" ∷ "/pin/add" ∷ "/pin/ls" ∷ "/pin/rm" ∷ "/pin/update" ∷ "/version" ∷ []

-- The loop of `CheckMethod`.
method_in : List String → String → Bool
method_in [] path = false
method_in (v ∷ rest) path = let later = method_in rest path in if v == path then true else later

unfoldable pub check_method : String → Bool
unfolding method_in
check_method path = method_in allow_method path

abbrev pub no_file : IpfsFile
no_file = record { id = 0 }

-- the last entry of a list that is not empty
abbrev pub last_of : AddResp → List AddResp → AddResp
last_of v [] = v
last_of v (x ∷ rest) = last_of x rest

module _ (S : Surroundings) (N : Names) where
  open S use {World, Error}
  open N use {pin_status_pin, pin_status_unpin}

  -- the value of a variable, whatever the error
  abbrev pub assigned : {A : Type 0} → Assigned World Error A → World → A × World
  assigned m w = ((m w).0.0, (m w).1)

  -- a Go function's result: its error, or its value
  abbrev pub checked : {A : Type 0} → (A × Option Error) × World → Result Error A × World
  checked ((a, none), w) = (ok a, w)
  checked ((a, some e), w) = (err e, w)

  -- `getUserIDByAPIKey`: 0 where the lookup fails and assigns nothing
  unfoldable pub get_user_id_by_api_key : String → World → ℕ × World
  get_user_id_by_api_key api_key =
      assigned (S.cache_fn (N.api_key_user_id api_key) 0 (S.get_id_by_api_key api_key))

  -- a call for the user of an API key
  abbrev for_user : {B : Type 0} → String → (ℕ → World → B) → World → B
  for_user api_key m w = m (get_user_id_by_api_key api_key w).0 (get_user_id_by_api_key api_key w).1

  pub get_user_ipfs_file : String → String → Exec World Error IpfsFile
  unfolding get_user_id_by_api_key
  get_user_ipfs_file api_key cid = for_user api_key (λ user w. checked (S.get_user_file user cid w))

  abbrev found_file : (IpfsFile × Option Error) × World → (Bool × Option Error) × World
  found_file ((file, e), w) = ((ltb 0 file.id, none), w)

  pub check_user_cid : String → String → World → Bool × World
  unfolding get_user_id_by_api_key
  check_user_cid api_key cid = assigned (
      S.cache_fn (N.check_cid api_key cid) false
        (for_user api_key (λ user w. found_file (S.get_user_file user cid w))))

  pub list_user_file : String → Assigned World Error (List IpfsFile)
  unfolding get_user_id_by_api_key
  list_user_file api_key =
      S.cache_fn (N.user_ipfs_files api_key) [] (for_user api_key (λ user. S.list_user_file user))

  unfoldable pub get_ipfs_pin_file : String → Exec World Error IpfsFile
  get_ipfs_pin_file cid w = checked (S.get_pin_file cid pin_status_pin w)

  pub pin_object : String → String → Exec World Error (Unit {0})
  unfolding get_user_id_by_api_key
  pin_object api_key cid =
      for_user api_key (λ user. S.set_user_file_pin_status user pin_status_pin cid)

  unfoldable pub un_pin_object : String → String → Exec World Error (Unit {0})
  unfolding get_user_id_by_api_key
  un_pin_object api_key cid =
      for_user api_key (λ user. S.set_user_file_pin_status user pin_status_unpin cid)

  pub get_ipfs_user_no_cache : String → Exec World Error IpfsUser
  unfolding get_user_id_by_api_key
  get_ipfs_user_no_cache api_key = for_user api_key (λ user w. checked (S.get_ipfs_user user w))

  pub incr_ipfs_usage : String → String → ℕ → ℤ → World → World
  incr_ipfs_usage api_key field chain_id n w =
      (S.hincr_by (N.usage_key_mate api_key chain_id) field n w).1

  -- the function that `GetApiKeyByActiveGateway` gives to the cache; the variable is empty before
  abbrev gateway_key : Result Error String × World → (String × Option Error) × World
  gateway_key (ok key, w) = ((key, none), w)
  gateway_key (err e, w) = (("", some e), w)

  abbrev if_active : Gateway → IpfsUser → Exec World Error String
  if_active gateway user =
      if nat_eq user.active_gateway_id gateway.id
      then S.first_project user.id
      else fail S.gateway_not_active

  abbrev active_gateway : String → Exec World Error String
  active_gateway subdomain = do
    gateway ← S.query_gateway subdomain
    user ← λ w. checked (S.get_ipfs_user gateway.user_id w)
    if_active gateway user

  pub get_api_key_by_active_gateway : String → World → String × World
  get_api_key_by_active_gateway subdomain = assigned (
      S.cache_fn (N.api_key_by_gateway subdomain) ""
        (λ w. gateway_key (active_gateway subdomain w)))

  abbrev pub new_file : ℕ → AddParam → String → String → AddResp → NewFile
  new_file user param dir_name dir_cid v = record {
    pin_status = param.pin_status;
    user_id = user;
    file_size = N.cast_to_uint64 v.size;
    file_name = v.name;
    cid = v.hash;
    wrap_dir_name = dir_name;
    wrap_with_dir_cid = dir_cid;
  }

  -- The files to store and the size of the directory around them; an empty list is read at index -1
  -- where a directory is asked for.
  pub new_files : ℕ → AddParam → List AddResp → Option (List NewFile × ℕ)
  new_files user param [] = if param.wrap_with_directory then none else some ([], 0)
  new_files user param (v ∷ rest) =
      let dir = last_of v rest in
      if param.wrap_with_directory
      then some (map (new_file user param dir.name dir.hash) (v ∷ rest), N.cast_to_uint64 dir.size)
      else some (map (new_file user param "" "") (v ∷ rest), 0)

  -- The loop that sums up the sizes of the files that the user does not have.
  pub add_storage : ℕ → List NewFile → ℕ → World → ℕ × World
  add_storage user [] total w = (total, w)
  add_storage user (v ∷ rest) total w =
      let (id, w') = assigned (S.select_user_file_id user v.cid) w in
      add_storage user rest (if nat_eq id 0 then add_uint64 total v.file_size else total) w'

  abbrev pub usage_if : String → ℕ → Result Error (Unit {0}) × World → World
  usage_if api_key added (ok u, w) =
      incr_ipfs_usage api_key N.storage_field N.ipfs_chain_id (to_int64 added) w
  usage_if api_key added (err e, w) = w

  pub count_storage : String → ℕ → ℕ → ℕ → World → World
  unfolding incr_ipfs_usage
  count_storage api_key user total dir_size w =
      let added = sub_uint64 total dir_size in
      if ltb 0 total then usage_if api_key added (S.incr_user_storage user added w) else w

  abbrev pub stored : String → ℕ → Option (List NewFile × ℕ) → Exec World (Stop Error) (Unit {0})
  stored api_key user none w = (err panic, w)
  stored api_key user (some (files, dir_size)) w =
      let (total, w') = add_storage user files 0 w in
      wrap_err error (S.batch_first_or_create_files files)
        (count_storage api_key user total dir_size w')

  pub add : String → AddParam → List AddResp → Exec World (Stop Error) (Unit {0})
  unfolding get_user_id_by_api_key new_files add_storage count_storage
  add api_key param files =
      for_user api_key (λ user. stored api_key user (new_files user param files))
