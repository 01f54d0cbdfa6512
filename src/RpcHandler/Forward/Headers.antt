-- ===== src/RpcHandler/Forward/Headers.antt =====
-- The header that `forwardHttpRequest` of pkg/handler/rpcHandler.go sends to a node.
use chain_api.Common.{
  String, Bool, true, false, ◌≡◌, refl, ◌∙◌, Option, none, some, List, [], ◌∷◌, any, ◌||◌, ◌==◌,
  if◌then◌else◌, eq_iff, arith,
}
use chain_api.RpcHandler.Forward.{
  Header, values, remove, Http, hop_by_hop_headers, set, del_all, connection_headers, forwarded_for,
  forwarded_header,
}

values-remove :
    (key k : String) (h : Header)
    → values (remove key h) k ≡ (if key == k then none else values h k)
unfolding values remove
values-remove key k [] = ground arith
values-remove key k ((name, vs) ∷ rest) =
    ground (arith, values-remove key k rest, eq_iff name key, eq_iff name k, eq_iff key k)

-- Two removals, in either order.
join_or :
    (b c : Bool) (v : Option (List String))
    → (if c then none else if b then none else v) ≡ (if b || c then none else v)
join_or true true v = refl
join_or true false v = refl
join_or false c v = refl

join_tests :
    (b c : Bool) (v : Option (List String))
    → (if b then none else if c then none else v) ≡ (if b || c then none else v)
join_tests true c v = refl
join_tests false true v = refl
join_tests false false v = refl

module _ (H : Http) where
  -- Whether a name is, in its canonical spelling, among some names.
  abbrev pub names : List String → String → Bool
  names keys k = any (λ key. H.canonical key == k) keys

  values-del_all :
      (keys : List String) (k : String) (h : Header)
      → values (del_all H keys h) k ≡ (if names keys k then none else values h k)
  unfolding del_all
  values-del_all [] k h = refl
  values-del_all (key ∷ keys) k h =
      values-del_all keys k (remove (H.canonical key) h)
      ∙ rw (values-remove (H.canonical key) k h)
          (join_or (H.canonical key == k) (names keys k) (values h k))

  values-set :
      (key value k : String) (h : Header)
      → values (set H key value h) k
        ≡ (if H.canonical key == k then some (value ∷ []) else values h k)
  unfolding values set
  values-set key value k h =
      rw (values-remove (H.canonical key) k h)
        (kept (H.canonical key == k) (value ∷ []) (values h k))
    where
      kept :
          (b : Bool) (vs : List String) (v : Option (List String))
          → (if b then some vs else if b then none else v) ≡ (if b then some vs else v)
      kept true vs v = refl
      kept false vs v = refl

  -- The header that is sent on has, at every name: the client's address at `X-Real-IP`; at
  -- `X-Forwarded-For` the addresses that came, and that address after them; nothing at a hop-by-hop
  -- header and at those that the first `Connection` header lists; and else what came.
  pub values-forwarded_header :
      (h : Header) (ip k : String)
      → values (forwarded_header H h ip) k ≡ (
          if H.canonical "X-Forwarded-For" == k
          then some (forwarded_for H (values h "X-Forwarded-For") ip ∷ [])
          else if H.canonical "X-Real-IP" == k
          then some (ip ∷ [])
          else if names hop_by_hop_headers k || names (connection_headers H h) k
          then none
          else values h k)
  unfolding forwarded_header
  values-forwarded_header h ip k =
      rw
        (
          values-set "X-Forwarded-For" (forwarded_for H (values h "X-Forwarded-For") ip) k (
              set H "X-Real-IP" ip
                (del_all H hop_by_hop_headers (del_all H (connection_headers H h) h))),
          values-set "X-Real-IP" ip k
              (del_all H hop_by_hop_headers (del_all H (connection_headers H h) h)),
          values-del_all hop_by_hop_headers k (del_all H (connection_headers H h) h),
          values-del_all (connection_headers H h) k h,
          join_tests (names hop_by_hop_headers k) (names (connection_headers H h) k) (values h k),
        )
        refl
