-- ===== src/Ipfs/Serve/Quota.antt =====
-- What the preprocessing of pkg/handler/ipfs_proxy.go has found of the traffic of a request where it
-- lets it pass, and that it forwards nothing.
use chain_api.Common.{
  ℕ, String, Bool, true, false, ◌≡◌, refl, ap, subst, ◌∙◌, ◌>>=◌, Option, none, some, List, [], ◌∷◌,
  Result, ok, err, Post, Post-bind, Post-fail, Post-pure, Post-weaken, Post-if, ◌==◌,
}
use chain_api.Common.Int.{ℤ}
use chain_api.Redis.{Redis}
use chain_api.RateLimit.Limiter.{CacheKeys}
use chain_api.RpcHandler.Forward.{values}
use chain_api.Ipfs.{UpdatePinParam, NodeStat, Surroundings, Names}
use chain_api.Ipfs.Quiet.{IsQuiet}
use chain_api.Ipfs.Limit.{band_width_upload, band_width_download}
use chain_api.Ipfs.Handler.{IpfsHandler, Request, Binder, Done, pin_add_file}
use chain_api.Ipfs.Handler.Quiet.{
  check_ipfs_user_limit-Keeps, check_ipfs_user_limit-passes, pin_add_file-Keeps,
}
use chain_api.Ipfs.Serve.{
  Prepared, Times, Both, on_world, content_length, checked_traffic, stat_answer, prepare_ls,
  pin_file, prepare_pin, prepare_update_of, prepare_update, prepare, is_upload, is_download,
}
use chain_api.Ipfs.Serve.Checked.{HasRoom, HasQuota, on_world-Post}

module _ (R : Redis) (K : CacheKeys) (S : Surroundings) (N : Names) (B : Binder)
    (up_key down_key : String → ℕ → K.Time → String) (h : IpfsHandler) (times : Times K.Time)
    (req : Request) where
  open S use {World, Error}

  module _ {O : Type 0} (obs : World → O) (Q : IsQuiet S obs) (w0 : World) where
    abbrev pub Same : Both R K S N B up_key down_key → Type 0
    Same s = obs s.1 ≡ obs w0

    checked_traffic-Post :
        (api_key : String) (bw_type : ℕ) (size : ℤ) (s : Both R K S N B up_key down_key)
        → Same s
        → Post
            (checked_traffic R K S N B up_key down_key api_key bw_type size s)
            (λ a s'.
              HasRoom R K S N B up_key down_key h times req s.1 api_key size bw_type × Same s')
            (λ e s'. Same s')
    checked_traffic-Post api_key bw_type size s e =
        Post-bind
          {P = λ a s'.
            HasRoom R K S N B up_key down_key h times req s.1 api_key size bw_type × Same s'}
          (record {
            at_ok = λ u r. (
              check_ipfs_user_limit-passes S N obs Q api_key size bw_type s.1 r,
              check_ipfs_user_limit-Keeps S N obs Q api_key size bw_type s.1 ∙ e,
            );
            at_err = λ x r. check_ipfs_user_limit-Keeps S N obs Q api_key size bw_type s.1 ∙ e;
          })
          (λ u s' l. Post-pure _ s' l)

    content_length-Post :
        (o : Option (List String)) (s : Both R K S N B up_key down_key)
        → Same s
        → Post
            (content_length R K S N B up_key down_key o s)
            (λ v s'. (s' ≡ s) × (rest : List String) × (o ≡ some (v ∷ rest)))
            (λ x s'. Same s')
    content_length-Post none s e = Post-fail _ s e
    content_length-Post (some []) s e = Post-fail _ s e
    content_length-Post (some (v ∷ rest)) s e = Post-pure v s (refl, rest, refl)

    pin_file-Post :
        (api_key cid : String) (update : Option (Bool × String))
        (s : Both R K S N B up_key down_key)
        → Same s
        → Post
            (pin_file R K S N B up_key down_key api_key cid update s)
            (λ a s'. Same s')
            (λ x s'. Same s')
    pin_file-Post api_key cid update s e =
        Post-bind
          (on_world-Post R K S N B up_key down_key h times req obs Q w0
            (pin_add_file S N api_key cid) s (pin_add_file-Keeps S N obs Q api_key cid) e)
          (λ p s' k. Post-pure _ s' k)

    prepare_pin-Post :
        (api_key : String) (o : Option String) (s : Both R K S N B up_key down_key)
        → Same s
        → Post
            (prepare_pin R K S N B up_key down_key api_key o s)
            (λ a s'. Same s')
            (λ x s'. Same s')
    prepare_pin-Post api_key none s e = Post-fail _ s e
    prepare_pin-Post api_key (some arg) s e =
        Post-if (arg == "") _ _ s (λ t. Post-fail _ s e) (λ f. pin_file-Post api_key arg none s e)

    prepare_ls-Post :
        (o : Option String) (s : Both R K S N B up_key down_key)
        → Same s
        → Post (prepare_ls R K S N B up_key down_key o s) (λ a s'. Same s') (λ x s'. Same s')
    prepare_ls-Post none s e = Post-fail _ s e
    prepare_ls-Post (some arg) s e =
        Post-if (arg == "") _ _ s (λ t. Post-fail _ s e) (λ f. Post-pure _ s e)

    prepare_update-Post :
        (api_key : String) (o : Option UpdatePinParam) (s : Both R K S N B up_key down_key)
        → Same s
        → Post
            (prepare_update R K S N B up_key down_key api_key o s)
            (λ a s'. Same s')
            (λ x s'. Same s')
    prepare_update-Post api_key none s e = Post-fail _ s e
    prepare_update-Post api_key (some p) s e = of_args p.arg
      where
        of_args :
            (args : List String)
            → Post
                (prepare_update_of R K S N B up_key down_key api_key p.unpin args s)
                (λ a s'. Same s')
                (λ x s'. Same s')
        of_args [] = Post-fail _ s e
        of_args (a ∷ []) = Post-fail _ s e
        of_args (a ∷ b ∷ rest) = pin_file-Post api_key b (some (p.unpin, a)) s e

    stat-Post :
        (s : Both R K S N B up_key down_key)
        → Same s
        → Post
            (on_world R K S N B up_key down_key
              (λ w.
                stat_answer R K S N B up_key down_key (S.object_stat (B.get req.raw_query "arg") w))
              s)
            (λ stats s'.
              (S.object_stat (B.get req.raw_query "arg") s.1 ≡ (ok stats, s'.1)) × Same s')
            (λ x s'. Same s')
    stat-Post s e = record {
      at_ok =
          λ stats r. (answered found stats r, stat-Keeps found (Q.object_stat_quiet arg s.1) ∙ e);
      at_err = λ x r. stat-Keeps found (Q.object_stat_quiet arg s.1) ∙ e;
    }
      where
        arg : String
        arg = B.get req.raw_query "arg"

        found : Result Error NodeStat × World
        found = S.object_stat arg s.1

        answered :
            (p : Result Error NodeStat × World) (stats : NodeStat)
            → (stat_answer R K S N B up_key down_key p).0 ≡ ok stats
            → p ≡ (ok stats, (stat_answer R K S N B up_key down_key p).1)
        answered (ok st, w) stats r = cc
        answered (err x, w) stats r = cc

        stat-Keeps :
            (p : Result Error NodeStat × World)
            → obs p.1 ≡ obs s.1
            → obs (stat_answer R K S N B up_key down_key p).1 ≡ obs s.1
        stat-Keeps (ok stats, w') k = k
        stat-Keeps (err x, w') k = k

    upload-Post :
        (api_key path : String) (s : Both R K S N B up_key down_key)
        → Same s
        → is_upload path ≡ true
        → Post
            (◌>>=◌
              (content_length R K S N B up_key down_key (values req.header "Content-Length"))
              (λ size.
                checked_traffic R K S N B up_key down_key api_key band_width_upload
                  (N.cast_to_int64 size))
              s)
            (λ a s'. HasQuota R K S N B up_key down_key h times req s.1 api_key path × Same s')
            (λ x s'. Same s')
    upload-Post api_key path s e t =
        Post-bind (content_length-Post (values req.header "Content-Length") s e)
          (λ v s' (same, rest, given).
            Post-weaken
              (checked_traffic-Post api_key band_width_upload (N.cast_to_int64 v) s'
                (ap (λ s1. obs s1.1) same ∙ e))
              (λ p l. (
                (
                  λ up. (
                    v,
                    rest,
                    given,
                    subst
                        (λ s1.
                          HasRoom R K S N B up_key down_key h times req s1.1 api_key
                            (N.cast_to_int64 v) band_width_upload)
                        same l.0,
                  ),
                  λ f. cc,
                ),
                l.1,
              ))
              (λ x l. l))

    download-Post :
        (api_key path : String) (s : Both R K S N B up_key down_key)
        → Same s
        → is_upload path ≡ false
        → Post
            (◌>>=◌
              (on_world R K S N B up_key down_key (λ w.
                stat_answer R K S N B up_key down_key
                  (S.object_stat (B.get req.raw_query "arg") w)))
              (λ stats.
                checked_traffic R K S N B up_key down_key api_key band_width_download
                  stats.cumulative_size)
              s)
            (λ a s'. HasQuota R K S N B up_key down_key h times req s.1 api_key path × Same s')
            (λ x s'. Same s')
    download-Post api_key path s e f = Post-bind (stat-Post s e) (λ stats s' (found, k).
        Post-weaken (checked_traffic-Post api_key band_width_download stats.cumulative_size s' k)
          (λ p l. (((λ up. cc), (λ _ _. (stats, s'.1, found, l.0))), l.1)) (λ x l. l))

    pub prepare-Post :
        (api_key path : String) (s : Both R K S N B up_key down_key)
        → Same s
        → Post
            (prepare R K S N B up_key down_key req api_key path s)
            (λ a s'. HasQuota R K S N B up_key down_key h times req s.1 api_key path × Same s')
            (λ e s'. Same s')
    unfolding prepare
    prepare-Post api_key path s e =
        Post-if (is_upload path) _ _ s (upload-Post api_key path s e) (λ f.
          Post-if (is_download path) _ _ s (λ t. download-Post api_key path s e f)
            (λ f2.
              Post-if (path == "/pin/ls") _ _ s
                (λ t. rest f f2 (prepare_ls-Post (B.pin_ls_arg req.raw_query) s e))
                (λ f3.
                  Post-if (path == "/pin/add") _ _ s
                    (λ t. rest f f2 (prepare_pin-Post api_key (B.pin_arg req.raw_query) s e))
                    (λ f4.
                      Post-if (path == "/pin/update") _ _ s
                        (λ t.
                          rest f f2
                            (prepare_update-Post api_key (B.update_pin_param req.raw_query) s e))
                        (λ f5. Post-pure _ s (no_traffic f f2, e))))))
      where
        no_traffic :
            is_upload path ≡ false
            → is_download path ≡ false
            → HasQuota R K S N B up_key down_key h times req s.1 api_key path
        no_traffic f f2 = ((λ t. cc), (λ _ t. cc))

        rest :
            {p : Result Done Prepared × Both R K S N B up_key down_key}
            → is_upload path ≡ false
            → is_download path ≡ false
            → Post p (λ a s'. Same s') (λ x s'. Same s')
            → Post p
                (λ a s'. HasQuota R K S N B up_key down_key h times req s.1 api_key path × Same s')
                (λ x s'. Same s')
        rest f f2 k = Post-weaken k (λ a l. (no_traffic f f2, l)) (λ x l. l)
