-- ===== src/Ipfs/Handler/Tests.antt =====
-- The unpinning of an object of 30 bytes by pkg/handler/ipfsHandler.go.
use chain_api.Common.Int.{pos}
use chain_api.Common.{
  String, [], ◌≡◌, refl, eq_iff, ok, ltb, Bool, true, false, none, ◌==◌, if◌then◌else◌,
}
use chain_api.Ipfs.{Surroundings}
use chain_api.Ipfs.Handler.Unpin.{Pins, Answers, Pinned, un_pin_db_with_pined-Pinned}
use chain_api.Ipfs.Concrete.{names}
use chain_api.Ipfs.Handler.{un_pin_db_with_pined}

-- The rows of all users together, and the pins of the node, as functions from the objects.
abbrev pinning : Surroundings
pinning = record {
  World = (String → Bool) × (String → Bool);
  Error = String;
  error_text = λ e. e;
  gateway_not_active = "gateway not active";
  cache_fn = λ key a m w. m w;
  hincr_by = λ key field n w. (ok tt, w);
  hget_all = λ key w. (ok [], w);
  hset = λ key field n w. (ok tt, w);
  is_not_found = λ e. false;
  get_user_file = λ user cid w. ((record { id = 0 }, none), w);
  list_user_file = λ user w. (([], none), w);
  get_pin_file = λ cid status w. ((record { id = if w.0 cid then 1 else 0 }, none), w);
  set_user_file_pin_status = λ user status cid w. (ok tt, w);
  select_user_file_id = λ user cid w. ((0, none), w);
  incr_user_storage = λ user n w. (ok tt, w);
  batch_first_or_create_files = λ files w. (ok tt, w);
  get_ipfs_user = λ user w. (
    (
      record {
        id = 1;
        total_storage = 0;
        transfer_up = 0;
        transfer_down = 0;
        active_gateway_id = 1;
      },
      none,
    ),
    w,
  );
  query_gateway = λ subdomain w. (ok (record { id = 1; user_id = 1 }), w);
  first_project = λ user w. (ok "key", w);
  get_id_by_api_key = λ key w. ((1, none), w);
  do_request = λ req w. (ok (record { status = 200; header = []; body = "" }), w);
  request_error = λ method url. none;
  pin_add = λ cid w. (ok tt, (w.0, λ c. if c == cid then true else w.1 c));
  object_stat = λ cid w. (ok (record { hash = cid; cumulative_size = pos 30 }), w);
}

abbrev pins : Pins pinning names
pins = record { row = λ w. w.0; node = λ w. w.1 }

id_of_row : (b : Bool) → ltb 0 (if b then 1 else 0) ≡ b
id_of_row true = refl
id_of_row false = refl

abbrev pinning-Answers : Answers pinning names pins
pinning-Answers = record {
  cache_keeps = λ key a m h. h;
  id_keeps = λ key w cid. (refl, refl);
  unpin_row = λ user cid w c e. e;
  unpin_node = λ user cid w c. refl;
  file_keeps = λ cid w c. (refl, refl);
  file_found = λ cid w. (_, refl, id_of_row (w.0 cid));
  pin_row = λ cid w c. refl;
  pin_node = λ cid w c. refl;
}

-- Another user pins the object that the node has just removed.
abbrev removed : (String → Bool) × (String → Bool)
removed = ((λ c. c == "Qm1"), (λ c. false))

un_pin_db_with_pined-Pinned_example :
    Pinned pinning names pins (un_pin_db_with_pined pinning names "key" "Qm1" removed).1
un_pin_db_with_pined-Pinned_example =
    un_pin_db_with_pined-Pinned pinning names pins pinning-Answers "key" "Qm1" removed
      (λ c other e. elim (other ((eq_iff c "Qm1").0 e)) [ ])
