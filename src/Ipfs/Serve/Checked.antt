-- ===== src/Ipfs/Serve/Checked.antt =====
-- What the checks of pkg/handler/ipfs_proxy.go have found where they let a request pass, and that they
-- forward nothing.
use chain_api.Common.{
  ℕ, String, Bool, true, false, not, ◌≡◌, refl, ◌∙◌, some, List, ◌∷◌, Exec, Result, ok, err, Stop,
  Post, Post-bind, Post-fail, Post-pure, Post-if, if◌then◌else◌, ◌==◌, wrapped,
}
use chain_api.Common.Int.{ℤ, pos}
use chain_api.Common.Strings.{contains, split}
use chain_api.Redis.{Redis}
use chain_api.JsonRpc.{JsonRpcErr}
use chain_api.RateLimit.Limiter.{CacheKeys}
use chain_api.JsonRpcHandler.{rate_limit}
use chain_api.RpcHandler.Forward.{values}
use chain_api.Ipfs.{NodeStat, Surroundings, Names}
use chain_api.Ipfs.Quiet.{Keeps, IsQuiet}
use chain_api.Ipfs.Service.{check_method, get_api_key_by_active_gateway}
use chain_api.Ipfs.Service.Quiet.{get_api_key-Keeps}
use chain_api.Ipfs.Limit.{band_width_upload, band_width_download, check_ipfs_limit}
use chain_api.Ipfs.Handler.{IpfsHandler, Request, Binder, Done, refuse, bind_api_key, ipfs_method}
use chain_api.Ipfs.Serve.{
  Times, Both, on_world, key_answer, key_of_gateway, limited, limit_answer, first_or_empty,
  header_get, request_key, check_path, is_upload, is_download,
}

module _ (R : Redis) (K : CacheKeys) (S : Surroundings) (N : Names) (B : Binder)
    (up_key down_key : String → ℕ → K.Time → String) (h : IpfsHandler) (times : Times K.Time)
    (req : Request) where
  open S use {World, Error}

  -- The limiter, asked for one unit of the key on this database, lets the request pass.
  abbrev pub IsLimited : R.Db → String → Type 0
  IsLimited db api_key =
      (rate_limit R K h.json_handler times.limit_now times.limit_day api_key (pos 1) db).0 ≡ ok tt

  -- The quota of the key's user, asked from here for traffic of a size, has room for it.
  abbrev pub HasRoom : World → String → ℤ → ℕ → Type 0
  HasRoom w api_key size bw_type =
      (check_ipfs_limit S N api_key N.ipfs_chain_id size bw_type w).0 ≡ ok true

  -- An upload has the header Content-Length, and the quota has room for an upload of its first value.
  abbrev pub UploadFits : World → String → String → Type 0
  UploadFits w api_key path =
      is_upload path ≡ true
      → (v : String) × (rest : List String) × (values req.header "Content-Length" ≡ some (v ∷ rest))
        × HasRoom w api_key (N.cast_to_int64 v) band_width_upload

  -- The node answers for the object of a download, and the quota has room for a download of its size.
  abbrev pub DownloadFits : World → String → String → Type 0
  DownloadFits w api_key path =
      is_upload path ≡ false
      → is_download path ≡ true
      → (stats : NodeStat) × (w1 : World) × (S.object_stat (B.get req.raw_query "arg") w
          ≡ (ok stats, w1))
        × HasRoom w1 api_key stats.cumulative_size band_width_download

  abbrev pub HasQuota : World → String → String → Type 0
  HasQuota w api_key path = UploadFits w api_key path × DownloadFits w api_key path

  abbrev pub IsChecked : R.Db → String → String → Type 0
  IsChecked db api_key path =
      (path ≡ ipfs_method api_key req.path) × (check_method path ≡ true) × IsLimited db api_key

  module _ {O : Type 0} (obs : World → O) (Q : IsQuiet S obs) (w0 : World) where
    abbrev pub Same : Both R K S N B up_key down_key → Type 0
    Same s = obs s.1 ≡ obs w0

    pub on_world-Post :
        {A : Type 0} (m : Exec World Done A) (s : Both R K S N B up_key down_key)
        → Keeps S obs m
        → Same s
        → Post (on_world R K S N B up_key down_key m s) (λ a s'. Same s') (λ e s'. Same s')
    on_world-Post m s k e = record { at_ok = λ a r. k s.1 ∙ e; at_err = λ x r. k s.1 ∙ e }

    pub request_key-Post :
        (s : Both R K S N B up_key down_key)
        → Same s
        → Post
            (request_key R K S N B up_key down_key req s)
            (λ a s'. (s'.0 ≡ s.0) × Same s')
            (λ e s'. Same s')
    unfolding request_key
    request_key-Post s e =
        Post-if (subdomain == "") (key_answer R K S N B up_key down_key (bind_api_key req.path))
          (on_world R K S N B up_key down_key (λ w.
            key_of_gateway R K S N B up_key down_key
              (get_api_key_by_active_gateway S N subdomain w)))
          s (λ t. of_path (bind_api_key req.path))
          (λ f. with_db (
            on_world-Post
              (λ w.
                key_of_gateway R K S N B up_key down_key
                  (get_api_key_by_active_gateway S N subdomain w))
              s
              (λ w.
                of_gateway w (get_api_key_by_active_gateway S N subdomain w)
                  (get_api_key-Keeps S N obs Q subdomain w))
              e))
      where
        subdomain : String
        subdomain = first_or_empty (split (header_get (values req.header "Domain")) ".")

        of_path :
            (r : Result String String)
            → Post
                (key_answer R K S N B up_key down_key r s)
                (λ a s'. (s'.0 ≡ s.0) × Same s')
                (λ x s'. Same s')
        of_path (err x) = Post-fail _ s e
        of_path (ok key) = Post-pure key s (refl, e)

        with_db :
            {r : Result Done String} {w : World}
            → Post (r, (s.0, w)) (λ a s'. Same s') (λ x s'. Same s')
            → Post (r, (s.0, w)) (λ a s'. (s'.0 ≡ s.0) × Same s') (λ x s'. Same s')
        with_db p = record { at_ok = λ a h. (refl, p.at_ok a h); at_err = λ x h. p.at_err x h }

        of_gateway :
            (w : World) (p : String × World)
            → obs p.1 ≡ obs w
            → obs (key_of_gateway R K S N B up_key down_key p).1 ≡ obs w
        of_gateway w (key, w') k = by_key (key == "")
          where
            by_key :
                (b : Bool)
                → obs
                    (if◌then◌else◌ {A = Result Done String × World} b
                      (err (refuse 401 "not found apiKey"), w')
                      (ok key, w')).1
                  ≡ obs w
            by_key true = k
            by_key false = k

    pub check_path-Post :
        (api_key : String) (s : Both R K S N B up_key down_key)
        → Same s
        → Post
            (check_path R K S N B up_key down_key h times.limit_now times.limit_day api_key
              (ipfs_method api_key req.path)
              s)
            (λ a s'. (a.0 ≡ api_key) × IsChecked s.0 a.0 a.1 × Same s')
            (λ e s'. Same s')
    check_path-Post api_key s e =
        Post-if (contains path "ping") _ _ s (λ t. Post-fail _ s e)
          (λ f.
            Post-if (not (check_method path)) _ _ s (λ t. Post-fail _ s e)
              (λ m. Post-bind limited-Post (λ u s' l.
                Post-pure (api_key, path) s'
                  (refl, (refl, allowed (check_method path) m, l.0), l.1))))
      where
        path : String
        path = ipfs_method api_key req.path

        allowed : (b : Bool) → not b ≡ false → b ≡ true
        allowed true m = refl
        allowed false m = cc

        passed :
            (p : Result (Stop JsonRpcErr) (Unit {0}) × R.Db)
            → (wrapped (limit_answer R K S N B up_key down_key) p).0 ≡ ok tt
            → p.0 ≡ ok tt
        passed (ok u, db) l = refl
        passed (err x, db) l = cc

        limited-Post :
            Post
              (limited R K S N B up_key down_key h times.limit_now times.limit_day api_key s)
              (λ u s'. IsLimited s.0 api_key × Same s')
              (λ x s'. Same s')
        limited-Post = record {
          at_ok = λ u l. (
            passed
                (rate_limit R K h.json_handler times.limit_now times.limit_day api_key (pos 1) s.0)
                l,
            e,
          );
          at_err = λ x l. e;
        }
