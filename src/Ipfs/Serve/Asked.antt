-- ===== src/Ipfs/Serve/Asked.antt =====
-- What stands between a client and the IPFS node: pkg/handler/ipfs_proxy.go forwards a request only
-- after the checks that its path asks for.
use chain_api.Common.{
  ℕ, String, ◌≡◌, refl, sym, ap, subst, ◌∙◌, ◌⊎◌, inl, inr, Result, ok, Post, Post-bind,
  Post-weaken, Result-cases,
}
use chain_api.Redis.{Redis}
use chain_api.RateLimit.Limiter.{CacheKeys}
use chain_api.Ipfs.{Surroundings, Names}
use chain_api.Ipfs.Quiet.{IsQuiet}
use chain_api.Ipfs.Handler.{IpfsHandler, Request, Binder, Done}
use chain_api.Ipfs.Serve.{Times, Both, request_key, request_check, proxy}
use chain_api.Ipfs.Serve.Checked.{IsChecked, HasQuota, request_key-Post, check_path-Post}
use chain_api.Ipfs.Serve.Quota.{prepare-Post}

module _ (R : Redis) (K : CacheKeys) (S : Surroundings) (N : Names) (B : Binder)
    (up_key down_key : String → ℕ → K.Time → String) (h : IpfsHandler) (times : Times K.Time)
    (req : Request) where
  open S use {World}

  abbrev pub request_check_here :
      R.Db → World → Result Done (String × String) × Both R K S N B up_key down_key
  request_check_here db w =
      request_check R K S N B up_key down_key h times.limit_now times.limit_day req (db, w)

  -- Either the observation is as it was, or the request has passed every check: the limiter's on the
  -- database that the request found, and the quota's in the state that these checks left.
  abbrev pub Asked : {O : Type 0} → (World → O) → R.Db → World → World → Type 0
  Asked obs db w w' =
      (obs w' ≡ obs w)
      ⊎ ((api_key path : String) × ((request_key R K S N B up_key down_key req (db, w)).0
            ≡ ok api_key)
          × IsChecked R K S N B up_key down_key h times req db api_key path
          × HasQuota R K S N B up_key down_key h times req (request_check_here db w).1.1 api_key
              path)

  always :
      {A : Type 0} {P : Both R K S N B up_key down_key → Type 0}
      (p : Result Done A × Both R K S N B up_key down_key)
      → ((s : Both R K S N B up_key down_key) → P s)
      → Post p (λ a s. P s) (λ e s. P s)
  always p k = record { at_ok = λ a e. k p.1; at_err = λ x e. k p.1 }

  -- What the checks of the key, of the path and of the limiter have found where they pass.
  request_check-Post :
      {O : Type 0} (obs : World → O)
      → IsQuiet S obs
      → (db : R.Db) (w : World)
      → Post
          (request_check_here db w)
          (λ a s.
            (s ≡ (request_check_here db w).1)
            × ((request_key R K S N B up_key down_key req (db, w)).0 ≡ ok a.0)
            × IsChecked R K S N B up_key down_key h times req db a.0 a.1
            × (obs s.1 ≡ obs w))
          (λ x s. obs s.1 ≡ obs w)
  unfolding request_check
  request_check-Post {O} obs Q db w = record {
    at_ok = λ a r. let (given, c, e) = passed.at_ok a r in (refl, given, c, e);
    at_err = λ x r. passed.at_err x r;
  }
    where
      key_found :
          Post
            (request_key R K S N B up_key down_key req (db, w))
            (λ key s.
              ((request_key R K S N B up_key down_key req (db, w)).0 ≡ ok key)
              × (s.0 ≡ db)
              × (obs s.1 ≡ obs w))
            (λ x s. obs s.1 ≡ obs w)
      key_found =
          let p = request_key-Post R K S N B up_key down_key h times req obs Q w (db, w) refl in
          record {
            at_ok = λ key r. (r, (p.at_ok key r).0, (p.at_ok key r).1);
            at_err = λ x r. p.at_err x r;
          }

      passed :
          Post
            (request_check_here db w)
            (λ a s.
              ((request_key R K S N B up_key down_key req (db, w)).0 ≡ ok a.0)
              × IsChecked R K S N B up_key down_key h times req db a.0 a.1
              × (obs s.1 ≡ obs w))
            (λ x s. obs s.1 ≡ obs w)
      passed = Post-bind key_found (λ key s (given, same, e).
          Post-weaken (check_path-Post R K S N B up_key down_key h times req obs Q w key s e)
            (λ a (its, c, e'). (
              given ∙ ap ok (sym its),
              subst (λ d. IsChecked R K S N B up_key down_key h times req d a.0 a.1) same c,
              e',
            ))
            (λ x l. l))

  -- Where every call but the forwarding of a request keeps what an observer sees: `Proxy` leaves it as
  -- it was, or the request has an API key, its path is a method of the list, the limiter, on the
  -- database that the request found, lets one request of the key pass, and in the state that these
  -- checks left the quota of the key's user has room: for an upload, as large as the first value of the
  -- request's Content-Length; for a download, as large as the node says of the object asked for.
  pub proxy-Asked :
      {O : Type 0} (obs : World → O)
      → IsQuiet S obs
      → (db : R.Db) (w : World)
      → Asked obs db w (proxy R K S N B up_key down_key h times req (db, w)).1.1
  unfolding proxy
  proxy-Asked {O} obs Q db w =
      let post : Post (proxy R K S N B up_key down_key h times req (db, w))
          (λ a s. Asked obs db w s.1) (λ e s. Asked obs db w s.1) =
        Post-bind
          {P = λ a s.
            (s ≡ (request_check_here db w).1)
            × ((request_key R K S N B up_key down_key req (db, w)).0 ≡ ok a.0)
            × IsChecked R K S N B up_key down_key h times req db a.0 a.1
            × (obs s.1 ≡ obs w)}
          (Post-weaken (request_check-Post obs Q db w) (λ a l. l) (λ x l. inl l))
          (λ (key, path) s (after, given, c, e).
            Post-bind
              {P = λ p s'.
                HasQuota R K S N B up_key down_key h times req s.1 key path × (obs s'.1 ≡ obs w)}
              (Post-weaken (prepare-Post R K S N B up_key down_key h times req obs Q w key path s e)
                (λ a l. l) (λ x l. inl l))
              (λ p s' q. always _ (λ s''. inr (
                key,
                path,
                given,
                c,
                subst (λ s1. HasQuota R K S N B up_key down_key h times req s1.1 key path) after
                    q.0,
              )))) in
      elim (Result-cases (proxy R K S N B up_key down_key h times req (db, w)).0) [
        | inl (a, e) ↦ post.at_ok a e
        | inr (x, e) ↦ post.at_err x e
      ]
