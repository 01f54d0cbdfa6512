-- ===== src/Proxy/Concrete.antt =====
-- Surroundings that never fail: a cache as a function, and a log of the addresses that were asked.
use chain_api.Common.{
  String, refl, sym, ok-injective, Option, none, some, List, [], ◌∷◌, ok, ◌==◌, eq_refl,
  if◌then◌else◌,
}
use chain_api.Common.Text.{◌+++◌}
use chain_api.JsonRpc.{float64}
use chain_api.Proxy.{Services}
use chain_api.Proxy.Cache.{IsCache, Answers}

abbrev pub memory : Services
memory = record {
  World = (String → Option String) × List String;
  Error = String;
  get = λ key w. (ok (w.0 key), w);
  set = λ key value ttl w. (ok tt, ((λ k. if key == k then some value else w.0 k), w.1));
  post = λ url body w. (ok "0x10", (w.0, url ∷ w.1));
  http_get = λ url w. (ok "0x10", (w.0, url ∷ w.1));
  md5_hex = λ s. s;
  marshal_request = λ r. "{}";
  Response = String;
  unmarshal_response = λ s. some s;
  result = λ r. some r;
  id_of = λ r. float64 r;
  marshal_upstream = λ r. some r;
  marshal_response = λ id version value. some ("result:" +++ value);
}

abbrev pub memory-IsCache : IsCache memory
memory-IsCache = record {
  lookup = λ w key. w.0 key;
  get_reply = λ k w r e. sym (ok-injective e);
  get_keeps = λ k w. refl;
  set_stores = λ k v ttl w e. rw (eq_refl k) refl;
}

pub memory-Answers : Answers memory
memory-Answers = record { gets = λ k w. (w.0 k, refl); sets = λ k v ttl w. refl }

abbrev pub fresh : (String → Option String) × List String
fresh = ((λ key. none), [])
