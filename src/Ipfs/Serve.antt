-- ===== src/Ipfs/Serve.antt =====
-- pkg/handler/ipfs_proxy.go, and `requestCheck` of pkg/handler/ipfsHandler.go: the requests to the
-- IPFS node. The uploads' rows are stored by a goroutine of its own: it is what `Proxy` leaves to be
-- run, beside the answer. Reading the node's body, and writing to the client, do not fail here.
pub mod Checked
pub mod Quota
pub mod Asked
mod Tests
use chain_api.Common.{
  ℕ, String, Bool, true, false, not, Option, none, some, List, [], ◌∷◌, Exec, Result, ok, err, pure,
  fail, ◌>>=◌, ◌>>◌, Stop, error, panic, ◌==◌, ◌||◌, if◌then◌else◌, ltb, nat_eq, wrap_err,
}
use chain_api.Common.Int.{ℤ, pos}
use chain_api.Common.Strings.{split, contains}
use chain_api.Redis.{Redis}
use chain_api.JsonRpc.{JsonRpcErr}
use chain_api.RateLimit.Limiter.{CacheKeys, LimitError}
use chain_api.JsonRpcHandler.{rate_limit}
use chain_api.RpcHandler.Forward.{Header, Response, values}
use chain_api.Ipfs.{AddResp, AddParam, UpdatePinParam, NodeStat, Surroundings, Names}
use chain_api.Ipfs.Service.{check_method, add, get_api_key_by_active_gateway}
use chain_api.Ipfs.Limit.{band_width_upload, band_width_download, bandwidth_hook}
use chain_api.Ipfs.Handler.{
  IpfsHandler, Request, Binder, Answer, Done, answered, panics, json, plain, bytes, no_pins, answer,
  refuse, refuse_with_msg, bind_api_key, ipfs_method, get_add_file_list, json_rpc_error_text,
  check_ipfs_user_limit, proxy_to_ipfs, PinAdded, pin_add_file, pin_hook, un_pin_db_with_pined,
}

-- The rows that a goroutine stores after an upload.
pub record Task : Type 0 where
  pub api_key : String
  pub param : AddParam
  pub files : List AddResp

-- What the preprocessing leaves for later: the traffic, the files and the arguments of a pin request.
pub record Prepared : Type 0 where
  pub bw_type : ℕ
  pub bw_size : ℤ
  pub files : List AddResp
  pub pin_cid : String
  pub update : Option (Bool × String)

-- The four calls of `time.Now` that a request makes: two of the limiter, two of the bandwidth hook.
pub record Times (Time : Type 0) : Type 0 where
  pub limit_now : Time
  pub limit_day : Time
  pub hook_now : Time
  pub hook_day : Time

abbrev nothing_prepared : Prepared
nothing_prepared = record { bw_type = 0; bw_size = pos 0; files = []; pin_cid = ""; update = none }

abbrev prepared_pin : String → Option (Bool × String) → PinAdded → Prepared
prepared_pin cid update p = record {
  bw_type = p.bw_type;
  bw_size = p.bw_size;
  files = p.files;
  pin_cid = cid;
  update = update;
}

abbrev first_or_empty : List String → String
first_or_empty [] = ""
first_or_empty (v ∷ rest) = v

-- `Header.Get`
abbrev header_get : Option (List String) → String
header_get none = ""
header_get (some vs) = first_or_empty vs

abbrev is_upload : String → Bool
is_upload path = path == "/add" || path == "/dag/put" || path == "/block/put"

abbrev is_download : String → Bool
is_download path = path == "/dag/get" || path == "/get" || path == "/cat" || path == "/block/get"

module _ (R : Redis) (K : CacheKeys) (S : Surroundings) (N : Names) (B : Binder)
    (up_key down_key : String → ℕ → K.Time → String) where
  open S use {World, Error}

  abbrev pub Both : Type 0
  Both = R.Db × World

  abbrev pub Handled : Type 0 → Type 0
  Handled A = Exec Both Done A

  abbrev pub on_world : {A : Type 0} → Exec World Done A → Handled A
  on_world m (db, w) = ((m w).0, (db, (m w).1))

  abbrev limit_answer : Stop JsonRpcErr → Done
  limit_answer (error e) = refuse 400 (json_rpc_error_text e)
  limit_answer panic = panics

  abbrev limited : IpfsHandler → K.Time → K.Time → String → Handled (Unit {0})
  limited h now t api_key (db, w) =
      let r = wrap_err limit_answer (rate_limit R K h.json_handler now t api_key (pos 1)) db in
      (r.0, (r.1, w))

  abbrev key_answer : Result String String → Handled String
  key_answer (err e) = fail (refuse 401 e)
  key_answer (ok key) = pure key

  abbrev key_of_gateway : String × World → Result Done String × World
  key_of_gateway (key, w) =
      if key == "" then (err (refuse 401 "not found apiKey"), w) else (ok key, w)

  -- the API key, of the path or of the gateway that the header `Domain` names
  pub request_key : Request → Handled String
  request_key req =
      let subdomain = first_or_empty (split (header_get (values req.header "Domain")) ".") in
      if subdomain == ""
      then key_answer (bind_api_key req.path)
      else on_world (λ w. key_of_gateway (get_api_key_by_active_gateway S N subdomain w))

  abbrev pub check_path :
      IpfsHandler → K.Time → K.Time → String → String → Handled (String × String)
  check_path h now t api_key path =
      if contains path "ping"
      then fail (answer 200 (plain "pong"))
      else if not (check_method path)
      then fail (refuse 405 "not supported method")
      else (do limited h now t api_key; pure (api_key, path))

  pub request_check : IpfsHandler → K.Time → K.Time → Request → Handled (String × String)
  unfolding request_key
  request_check h now t req = do
    api_key ← request_key req
    check_path h now t api_key (ipfs_method api_key req.path)

  -- `Header["Content-Length"][0]`: a panic where the request has no such header
  abbrev content_length : Option (List String) → Handled String
  content_length none = fail panics
  content_length (some []) = fail panics
  content_length (some (v ∷ rest)) = pure v

  abbrev checked_traffic : String → ℕ → ℤ → Handled Prepared
  checked_traffic api_key bw_type bw_size = do
    on_world (check_ipfs_user_limit S N api_key bw_size bw_type)
    pure (record nothing_prepared { bw_type = bw_type; bw_size = bw_size })

  abbrev stat_answer : Result Error NodeStat × World → Result Done NodeStat × World
  stat_answer (ok stats, w) = (ok stats, w)
  stat_answer (err e, w) = (err (refuse_with_msg [] 500 "get ipfs object stats error"), w)

  abbrev prepare_ls : Option String → Handled Prepared
  prepare_ls none = fail (refuse_with_msg [] 400 "read the pin ls param failed")
  prepare_ls (some arg) = if arg == "" then fail (answer 200 no_pins) else pure nothing_prepared

  abbrev pin_file : String → String → Option (Bool × String) → Handled Prepared
  pin_file api_key cid update = do
    p ← on_world (pin_add_file S N api_key cid)
    pure (prepared_pin cid update p)

  abbrev prepare_pin : String → Option String → Handled Prepared
  prepare_pin api_key none = fail (refuse_with_msg [] 400 "read the pin add param failed")
  prepare_pin api_key (some arg) =
      if arg == ""
      then fail (refuse_with_msg [] 400 "read the pin add param failed")
      else pin_file api_key arg none

  abbrev prepare_update_of : String → Bool → List String → Handled Prepared
  prepare_update_of api_key unpin [] = fail (refuse_with_msg [] 400 "pin update param error")
  prepare_update_of api_key unpin (a ∷ []) = fail (refuse_with_msg [] 400 "pin update param error")
  prepare_update_of api_key unpin (a ∷ b ∷ rest) = pin_file api_key b (some (unpin, a))

  abbrev prepare_update : String → Option UpdatePinParam → Handled Prepared
  prepare_update api_key none = fail (refuse_with_msg [] 400 "pin update param error")
  prepare_update api_key (some p) = prepare_update_of api_key p.unpin p.arg

  -- The first `switch` of `Proxy`: the user's quota, and the arguments.
  pub prepare : Request → String → String → Handled Prepared
  prepare req api_key path =
      if is_upload path
      then (do
        size ← content_length (values req.header "Content-Length")
        checked_traffic api_key band_width_upload (N.cast_to_int64 size))
      else if is_download path
      then (do
        stats ← on_world (λ w. stat_answer (S.object_stat (B.get req.raw_query "arg") w))
        checked_traffic api_key band_width_download stats.cumulative_size)
      else if path == "/pin/ls"
      then prepare_ls (B.pin_ls_arg req.raw_query)
      else if path == "/pin/add"
      then prepare_pin api_key (B.pin_arg req.raw_query)
      else if path == "/pin/update"
      then prepare_update api_key (B.update_pin_param req.raw_query)
      else pure nothing_prepared

  abbrev un_pin_if : String → Option (Bool × String) → Handled (Unit {0})
  un_pin_if api_key none = pure tt
  un_pin_if api_key (some (false, cid)) = pure tt
  un_pin_if api_key (some (true, cid)) = on_world (un_pin_db_with_pined S N api_key cid)

  abbrev remove_pin : Header → String → Option String → Handled (Unit {0})
  remove_pin copied api_key none = fail (refuse_with_msg copied 400 "pin rm param error")
  remove_pin copied api_key (some arg) =
      if arg == ""
      then fail (refuse_with_msg copied 400 "pin rm param error")
      else on_world (un_pin_db_with_pined S N api_key arg)

  -- The second `switch`: the rows of the database, and the goroutine's task.
  pub record_result : Request → String → String → Prepared → Response → Handled (Option Task)
  record_result req api_key path p resp =
      if path == "/add"
      then (let (files, param) = get_add_file_list N B req resp.body in
          pure (some (record { api_key = api_key; param = param; files = files })))
      else if path == "/pin/add"
      then (do on_world (pin_hook S N api_key p.pin_cid p.files); pure none)
      else if path == "/pin/update"
      then (do
        on_world (pin_hook S N api_key p.pin_cid p.files)
        un_pin_if api_key p.update
        pure none)
      else if path == "/pin/rm"
      then (do remove_pin resp.header api_key (B.pin_rm_arg req.raw_query); pure none)
      else pure none

  -- An error of the hook is logged.
  abbrev hook_if : IpfsHandler → Times K.Time → String → Prepared → Handled (Unit {0})
  hook_if h times api_key p s =
      if ltb 0 p.bw_type
      then (
        ok tt,
        (bandwidth_hook S N R K up_key down_key h.json_handler.rate_limiter times.hook_now
            times.hook_day h.json_handler.chain.id api_key p.bw_size p.bw_type s).1,
      )
      else (ok tt, s)

  abbrev pub ipfs_result : Response → Option Task → Answer × Option Task
  ipfs_result resp task =
      (record { status = resp.status; copied = resp.header; body = bytes resp.body }, task)

  abbrev after_node :
      IpfsHandler
      → Times K.Time
      → Request
      → String
      → String
      → Prepared
      → Response
      → Handled (Answer × Option Task)
  after_node h times req api_key path p resp =
      if not (nat_eq resp.status 200) then pure (ipfs_result resp none) else (do
        task ← record_result req api_key path p resp
        hook_if h times api_key p
        pure (ipfs_result resp task))

  pub proxy : IpfsHandler → Times K.Time → Request → Handled (Answer × Option Task)
  unfolding request_check prepare record_result
  proxy h times req = do
    (api_key, path) ← request_check h times.limit_now times.limit_day req
    p ← prepare req api_key path
    resp ← on_world (proxy_to_ipfs S N h B req path)
    after_node h times req api_key path p resp

  -- The goroutine: an error is logged, and a panic ends the program, since nothing recovers from it.
  pub run_task : Task → Exec World (Stop Error) (Unit {0})
  run_task task = add S N task.api_key task.param task.files
