-- ===== src/Ipfs/Concrete.antt =====
-- Surroundings of the IPFS gateway that never fail: the world is the list of the requests that the node
-- was forwarded, the database has no rows, and every plan allows 100 bytes.
use chain_api.Common.{ℕ, String, false, refl, none, List, [], ◌∷◌, ◌++◌, ok}
use chain_api.Common.Int.{pos}
use chain_api.RpcHandler.Forward.{Outgoing}
use chain_api.Ipfs.{Surroundings, Names}
use chain_api.Ipfs.Quiet.{IsQuiet}

abbrev pub calm : Surroundings
calm = record {
  World = List Outgoing;
  Error = String;
  error_text = λ e. e;
  gateway_not_active = "gateway not active";
  cache_fn = λ key a m w. m w;
  hincr_by = λ key field n w. (ok tt, w);
  hget_all = λ key w. (ok (("storage", "60") ∷ []), w);
  hset = λ key field n w. (ok tt, w);
  is_not_found = λ e. false;
  get_user_file = λ user cid w. ((record { id = 0 }, none), w);
  list_user_file = λ user w. (([], none), w);
  get_pin_file = λ cid status w. ((record { id = 0 }, none), w);
  set_user_file_pin_status = λ user status cid w. (ok tt, w);
  select_user_file_id = λ user cid w. ((0, none), w);
  incr_user_storage = λ user n w. (ok tt, w);
  batch_first_or_create_files = λ files w. (ok tt, w);
  get_ipfs_user = λ user w. (
    (
      record {
        id = 1;
        total_storage = 0;
        transfer_up = 0;
        transfer_down = 0;
        active_gateway_id = 1;
      },
      none,
    ),
    w,
  );
  query_gateway = λ subdomain w. (ok (record { id = 1; user_id = 1 }), w);
  first_project = λ user w. (ok "key", w);
  get_id_by_api_key = λ key w. ((1, none), w);
  do_request = λ req w. (ok (record { status = 200; header = []; body = "" }), w ++ req ∷ []);
  request_error = λ method url. none;
  pin_add = λ cid w. (ok tt, w);
  object_stat = λ cid w. (ok (record { hash = cid; cumulative_size = pos 30 }), w);
}

abbrev pub number : String → ℕ
number s = 60

abbrev pub names : Names
names = record {
  user_ipfs_files = λ k. k;
  api_key_by_gateway = λ k. k;
  api_key_user_id = λ k. k;
  check_cid = λ k cid. k;
  usage_key = λ k c. "usage";
  usage_key_mate = λ k c. "usage";
  limit_key = λ k c. "limit";
  storage_field = "storage";
  transfer_up_field = "up";
  transfer_down_field = "down";
  pin_status_pin = 1;
  pin_status_unpin = 2;
  ipfs_chain_id = 9;
  cast_to_uint64 = number;
  cast_to_int64 = λ s. pos 30;
  cast_to_string = λ n. "30";
}

abbrev pub forwarded : List Outgoing → List Outgoing
forwarded w = w

abbrev pub calm-IsQuiet : IsQuiet calm forwarded
calm-IsQuiet = record {
  cache_quiet = λ key a m h. h;
  hget_all_quiet = λ key w. refl;
  hset_quiet = λ key field n w. refl;
  get_user_file_quiet = λ user cid w. refl;
  get_ipfs_user_quiet = λ user w. refl;
  query_gateway_quiet = λ subdomain w. refl;
  first_project_quiet = λ user w. refl;
  get_id_quiet = λ key w. refl;
  object_stat_quiet = λ cid w. refl;
}
