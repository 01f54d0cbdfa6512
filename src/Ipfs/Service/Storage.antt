-- ===== src/Ipfs/Service/Storage.antt =====
-- What `Add` of service/ipfsService.go adds to a user's storage, and when it panics.
use chain_api.Common.{
  ℕ, ◌+◌, String, Bool, true, false, some, List, [], ◌∷◌, Result, ok, err, error, panic, wrapped,
  ◌≡◌, ◌≢◌, ◌↔◌, refl, if◌then◌else◌, nat_eq,
}
use chain_api.Ipfs.{NewFile, AddResp, AddParam, Surroundings, Names}
use chain_api.Ipfs.Service.{
  get_user_id_by_api_key, new_files, add_storage, count_storage, stored, add,
}

-- The entries of an answer without the last one.
abbrev pub but_last : AddResp → List AddResp → List AddResp
but_last v [] = []
but_last v (x ∷ rest) = v ∷ but_last x rest

module _ (S : Surroundings) (N : Names) where
  open S use {World, Error}
  open N use {cast_to_uint64}

  -- The sizes of the entries that have no row of the user's, `ids` giving the rows.
  abbrev pub unknown_bytes : (String → ℕ) → List AddResp → ℕ
  unknown_bytes ids [] = 0
  unknown_bytes ids (v ∷ rest) =
      (if nat_eq (ids v.hash) 0 then cast_to_uint64 v.size else 0) + unknown_bytes ids rest

  -- `Add` panics exactly where a directory is asked for and the node listed no entry.
  pub add-panic :
      (api_key : String) (param : AddParam) (files : List AddResp) (w : World)
      → ((add S N api_key param files w).0 ≡ err panic)
        ↔ ((param.wrap_with_directory ≡ true) × (files ≡ []))
  unfolding add new_files
  add-panic api_key param files w =
      let user = get_user_id_by_api_key S N api_key w in
      by_wrap files param.wrap_with_directory user.0 user.1
    where
      no_panic : (p : Result Error (Unit {0}) × World) → (wrapped (λ e. error e) p).0 ≢ err panic
      no_panic (ok u, w) h = cc
      no_panic (err e, w) h = cc

      stores :
          (user : ℕ) (w : World) (fs : List NewFile × ℕ)
          → (stored S N api_key user (some fs) w).0 ≢ err panic
      stores user w (fs, dir_size) =
          let t = add_storage S N user fs 0 w in
          no_panic
            (S.batch_first_or_create_files fs (count_storage S N api_key user t.0 dir_size t.1))

      by_wrap :
          (files : List AddResp) (b : Bool) (user : ℕ) (w : World)
          → ((stored S N api_key user
                (new_files S N user (record param { wrap_with_directory = b }) files)
                w).0
              ≡ err panic)
            ↔ ((b ≡ true) × (files ≡ []))
      by_wrap [] true user w = (λ h. (refl, refl), λ h. refl)
      by_wrap [] false user w = (λ h. elim (stores user w ([], 0) h) [ ], λ h. cc)
      by_wrap (v ∷ rest) true user w = (λ h. elim (stores user w _ h) [ ], λ h. cc)
      by_wrap (v ∷ rest) false user w = (λ h. elim (stores user w _ h) [ ], λ h. cc)
