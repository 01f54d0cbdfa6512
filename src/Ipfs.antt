-- ===== src/Ipfs.antt =====
-- The surroundings of the IPFS gateway: the cache and the database of service/ipfsService.go, the
-- hashes of ratelimit/v1/ratelimit_ipfs.go, the node of pkg/handler/ipfsHandler.go, and the data that
-- they exchange. The packages cache, cachekey, dao, models, cast, kubo and echo's binder are not part
-- of the repository: they are parameters. An identifier of the database is a number, 0 for none.
pub mod Service
pub mod Quiet
pub mod Concrete
pub mod Limit
pub mod Handler
pub mod Serve
use chain_api.Common.{
  ℕ, ◌+◌, ◌-◌, ◌%◌, ◌^◌, String, Bool, true, false, Option, none, some, List, Exec, Result, ok, err,
}
use chain_api.Common.Int.{ℤ, pos, negsuc}
use chain_api.RpcHandler.Forward.{Outgoing, Response, Header}

-- `models.IPFSFile`, as far as the program reads it
pub record IpfsFile : Type 0 where
  pub id : ℕ

-- `models.IPFSFile`, as `Add` writes it
pub record NewFile : Type 0 where
  pub pin_status : ℕ
  pub user_id : ℕ
  pub file_size : ℕ
  pub file_name : String
  pub cid : String
  pub wrap_dir_name : String
  pub wrap_with_dir_cid : String

-- `models.IPFSUser`
pub record IpfsUser : Type 0 where
  pub id : ℕ
  pub total_storage : ℕ
  pub transfer_up : ℕ
  pub transfer_down : ℕ
  pub active_gateway_id : ℕ

pub record Gateway : Type 0 where
  pub id : ℕ
  pub user_id : ℕ

-- `format.NodeStat`; its size is an int.
pub record NodeStat : Type 0 where
  pub hash : String
  pub cumulative_size : ℤ

-- pkg/response/ipfs_response.go
pub record AddResp : Type 0 where
  pub name : String
  pub hash : String
  pub size : String

-- pkg/request/ipfs_request.go, as far as the program reads it
pub record AddParam : Type 0 where
  pub wrap_with_directory : Bool
  pub pin_status : ℕ

pub record UpdatePinParam : Type 0 where
  pub unpin : Bool
  pub arg : List String

-- What a call leaves in the variable that it is given, beside its error.
abbrev pub Assigned : Type 0 → Type 0 → Type 0 → Type 0
Assigned World Error A = World → (A × Option Error) × World

pub record Surroundings : Type 1 where
  pub World : Type 0
  pub Error : Type 0
  pub error_text : Error → String
  -- `errors.New("gateway not active")`
  pub gateway_not_active : Error
  -- `Cache.CacheFn`: the variable, its value before, and the function that assigns it
  pub cache_fn : {A : Type 0} → String → A → Assigned World Error A → Assigned World Error A
  -- `Cache.HIncrBy`
  pub hincr_by : String → String → ℤ → Exec World Error (Unit {0})
  -- the client's `HGetAll` and `HSet`
  pub hget_all : String → Exec World Error (List (String × String))
  pub hset : String → String → ℕ → Exec World Error (Unit {0})
  pub is_not_found : Error → Bool
  -- the data access objects
  pub get_user_file : ℕ → String → Assigned World Error IpfsFile
  pub list_user_file : ℕ → Assigned World Error (List IpfsFile)
  pub get_pin_file : String → ℕ → Assigned World Error IpfsFile
  pub set_user_file_pin_status : ℕ → ℕ → String → Exec World Error (Unit {0})
  pub select_user_file_id : ℕ → String → Assigned World Error ℕ
  pub incr_user_storage : ℕ → ℕ → Exec World Error (Unit {0})
  pub batch_first_or_create_files : List NewFile → Exec World Error (Unit {0})
  pub get_ipfs_user : ℕ → Assigned World Error IpfsUser
  pub query_gateway : String → Exec World Error Gateway
  -- the API key of a user's first project
  pub first_project : ℕ → Exec World Error String
  pub get_id_by_api_key : String → Assigned World Error ℕ
  -- the node: a request to it, the pinning of an object, and an object's statistics
  pub do_request : Outgoing → Exec World Error Response
  -- the error of `http.NewRequest`, if any
  pub request_error : String → String → Option Error
  pub pin_add : String → Exec World Error (Unit {0})
  pub object_stat : String → Exec World Error NodeStat

-- The packages cachekey, models and cast.
pub record Names : Type 0 where
  pub user_ipfs_files : String → String
  pub api_key_by_gateway : String → String
  pub api_key_user_id : String → String
  pub check_cid : String → String → String
  pub usage_key : String → ℕ → String
  pub usage_key_mate : String → ℕ → String
  pub limit_key : String → ℕ → String
  pub storage_field : String
  pub transfer_up_field : String
  pub transfer_down_field : String
  pub pin_status_pin : ℕ
  pub pin_status_unpin : ℕ
  -- `constant.ChainIPFS.ChainID`
  pub ipfs_chain_id : ℕ
  pub cast_to_uint64 : String → ℕ
  pub cast_to_int64 : String → ℤ
  -- `cast.ToString` of an int
  pub cast_to_string : ℤ → String

abbrev pub two_64 : ℕ
two_64 = 2 ^ 64

-- uint64 arithmetic, and the conversion `uint64` of an int64
abbrev pub add_uint64 : ℕ → ℕ → ℕ
add_uint64 a b = (a + b) % two_64

abbrev pub sub_uint64 : ℕ → ℕ → ℕ
sub_uint64 a b = (a + two_64 - b) % two_64

abbrev pub uint64_of : ℤ → ℕ
uint64_of (pos n) = n % two_64
uint64_of (negsuc n) = (two_64 - 1 - n) % two_64
