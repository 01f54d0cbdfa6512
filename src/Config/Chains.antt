-- ===== src/Config/Chains.antt =====
-- What `LoadRPCConfig` of config/config.go loads, and when it ends with a panic.
use chain_api.Common.{
  ℕ, suc, String, Bool, true, false, not, Option, none, some, List, [], ◌∷◌, Result, ok, err, panic,
  All, length, count_if, ◌≡◌, ◌≢◌, ◌⊎◌, ◌↔◌, inl, inr, refl, ap, subst, ◌==◌, eq_iff, if◌then◌else◌,
  ok-injective,
}
use chain_api.Common.Int.{ℤ, pos, eq_ℤ, eq_ℤ_iff}
use chain_api.RpcHandler.{ChainConfig}
use chain_api.Config.{
  bad_value, with_method, unsupported_chain_type, RpcConfig, Toml, LoadError, apply_chain_type,
  load_chain, load_chains, load_rpc_config, value_at, is_setting, combine, decoded, default_config,
  text_of, pushgateway_of, with_chains,
}

-- A chain that the gateway can check: one of the four types, with what that type fixes.
abbrev pub IsSupported : ChainConfig → Type 0
IsSupported cfg =
    ((cfg.chain_type ≡ "evm") × (cfg.block_number_method ≡ "eth_blockNumber"))
    ⊎ (((cfg.chain_type ≡ "svm") × (cfg.block_number_method ≡ "getBlockHeight"))
        ⊎ (((cfg.chain_type ≡ "aptos") × (cfg.block_number_result_expression ≡ ".ledger_version"))
            ⊎ ((cfg.chain_type ≡ "tron")
                × (cfg.block_number_method ≡ "eth_blockNumber")
                × (cfg.max_behind_blocks ≢ pos 10))))

limit-ne : (n : ℤ) → (if eq_ℤ n (pos 10) then pos 40 else n) ≢ pos 10
limit-ne n = kept (eq_ℤ n (pos 10)) refl
  where
    kept : (b : Bool) → eq_ℤ n (pos 10) ≡ b → (if b then pos 40 else n) ≢ pos 10
    kept true p h = cc
    kept false p h = let same = (eq_ℤ_iff n (pos 10)).1 h in cc

apply_chain_type-IsSupported :
    (cfg cfg' : ChainConfig) → apply_chain_type cfg ≡ ok cfg' → IsSupported cfg'
unfolding apply_chain_type
apply_chain_type-IsSupported cfg cfg' =
    chosen (t == "evm") refl (t == "svm") refl (t == "aptos") refl (t == "tron") refl
  where
    t : String
    t = cfg.chain_type

    tron : ChainConfig
    tron = record cfg {
      block_number_method = "eth_blockNumber";
      max_behind_blocks =
          if eq_ℤ cfg.max_behind_blocks (pos 10) then pos 40 else cfg.max_behind_blocks;
    }

    chosen :
        (a : Bool)
        → (t == "evm") ≡ a
        → (b : Bool) → (t == "svm") ≡ b
        → (c : Bool) → (t == "aptos") ≡ c
        → (d : Bool) → (t == "tron") ≡ d
        → (if a
            then ok (with_method "eth_blockNumber" cfg)
            else if b
            then ok (with_method "getBlockHeight" cfg)
            else if c
            then ok (record cfg { block_number_result_expression = ".ledger_version" })
            else if d
            then ok tron
            else err (unsupported_chain_type t))
          ≡ ok cfg'
        → IsSupported cfg'
    chosen true p b q c r d s e =
        subst IsSupported (ok-injective e) (inl ((eq_iff t "evm").0 p, refl))
    chosen false p true q c r d s e =
        subst IsSupported (ok-injective e) (inr (inl ((eq_iff t "svm").0 q, refl)))
    chosen false p false q true r d s e =
        subst IsSupported (ok-injective e) (inr (inr (inl ((eq_iff t "aptos").0 r, refl))))
    chosen false p false q false r true s e =
        subst IsSupported (ok-injective e)
          (inr (inr (inr ((eq_iff t "tron").0 s, refl, limit-ne cfg.max_behind_blocks))))
    chosen false p false q false r false s e = cc

-- The number of the keys that name a chain.
abbrev pub chain_keys : {V : Type 0} → List (String × V) → ℕ
chain_keys entries = count_if (λ kv. not (is_setting kv.0)) entries

module _ (T : Toml) where
  open T use {Value}

  abbrev One : Bool → Result LoadError (Option ChainConfig) → Type 0
  One setting (err e) = Unit
  One setting (ok none) = setting ≡ true
  One setting (ok (some cfg)) = (setting ≡ false) × IsSupported cfg

  load_chain-One : (name : String) (v : Value) → One (is_setting name) (load_chain T name v)
  unfolding load_chain
  load_chain-One name v = by_key (is_setting name) (T.encode v)
    where
      typed :
          (cfg : ChainConfig) (r : Result LoadError ChainConfig)
          → apply_chain_type cfg ≡ r
          → One false (elim r [ err e ↦ err e | ok cfg' ↦ ok (some cfg') ])
      typed cfg (err e) p = tt
      typed cfg (ok cfg') p = (refl, apply_chain_type-IsSupported cfg cfg' p)

      at_decoded : (o : Option ChainConfig) → One false (decoded T o)
      at_decoded none = tt
      at_decoded (some cfg) = typed cfg (apply_chain_type cfg) refl

      by_key :
          (b : Bool) (o : Option String)
          → One b (
              if b then ok none else elim o [
                | none ↦ err bad_value
                | some text ↦ decoded T (T.decode text (default_config name))
              ])
      by_key true o = refl
      by_key false none = tt
      by_key false (some text) = at_decoded (T.decode text (default_config name))

  abbrev AllLoaded : ℕ → Result LoadError (List ChainConfig) → Type 0
  AllLoaded k (err e) = Unit
  AllLoaded k (ok cs) = (length cs ≡ k) × All IsSupported cs

  load_chains-All :
      (entries : List (String × Value)) → AllLoaded (chain_keys entries) (load_chains T entries)
  unfolding load_chains
  load_chains-All [] = (refl, tt)
  load_chains-All ((name, v) ∷ rest) =
      added (is_setting name) (load_chain T name v) (load_chain-One name v) (chain_keys rest)
        (load_chains T rest) (load_chains-All rest)
    where
      added :
          (b : Bool) (x : Result LoadError (Option ChainConfig))
          → One b x
          → (k : ℕ) (later : Result LoadError (List ChainConfig)) → AllLoaded k later
          → AllLoaded (elim (not b) [ false ↦ k | true ↦ suc k ]) (combine x later)
      added b (err e) o k later h = tt
      added true (ok none) o k later h = h
      added false (ok none) o k later h = cc
      added true (ok (some cfg)) o k later h = let no = o.0 in cc
      added false (ok (some cfg)) o k (err e) h = tt
      added false (ok (some cfg)) o k (ok cs) h = (ap suc h.0, (o.1, h.1))

  -- Where the configuration loads, every chain in it has one of the four types that the gateway can
  -- check and the method or expression that the type fixes, no tron chain has the default limit 10, and
  -- there are as many chains as keys of the file beside the two settings.
  pub load_rpc_config-IsSupported :
      (text : String) (entries : List (String × Value)) (config : RpcConfig)
      → T.unmarshal text ≡ some entries
      → load_rpc_config T text ≡ ok config
      → (length config.chains ≡ chain_keys entries) × All IsSupported config.chains
  unfolding load_rpc_config
  load_rpc_config-IsSupported text entries config u =
      rw (load_rpc_config, u)
        (at_texts (text_of T (value_at "apikey" entries))
          (pushgateway_of T (value_at "health_pushgateway" entries)) (load_chains T entries)
          (load_chains-All entries))
    where
      at_texts :
          (key gateway : Option String) (r : Result LoadError (List ChainConfig))
          → AllLoaded (chain_keys entries) r
          → elim key [
            | none ↦ err panic
            | some api_key ↦ elim gateway [ none ↦ err panic | some g ↦ with_chains T api_key g r ]
          ]
            ≡ ok config
          → (length config.chains ≡ chain_keys entries) × All IsSupported config.chains
      at_texts none gateway r h e = cc
      at_texts (some key) none r h e = cc
      at_texts (some key) (some g) (err x) h e = cc
      at_texts (some key) (some g) (ok cs) h e =
          subst (λ c. (length c.chains ≡ chain_keys entries) × All IsSupported c.chains)
            (ok-injective e) h

  -- A file that parses ends the load with a panic exactly when its API key is missing or no text, or
  -- when its push gateway is there and no text.
  pub load_rpc_config-panic :
      (text : String) (entries : List (String × Value))
      → T.unmarshal text ≡ some entries
      → (load_rpc_config T text ≡ err panic) ↔ (
          (text_of T (value_at "apikey" entries) ≡ none)
          ⊎ (pushgateway_of T (value_at "health_pushgateway" entries) ≡ none))
  unfolding load_rpc_config
  load_rpc_config-panic text entries u =
      rw (load_rpc_config, u)
        (at_texts (text_of T (value_at "apikey" entries))
          (pushgateway_of T (value_at "health_pushgateway" entries)) (load_chains T entries))
    where
      at_texts :
          (key gateway : Option String) (r : Result LoadError (List ChainConfig))
          → (elim key [
            | none ↦ err panic
            | some api_key ↦ elim gateway [ none ↦ err panic | some g ↦ with_chains T api_key g r ]
          ]
              ≡ err panic)
            ↔ ((key ≡ none) ⊎ (gateway ≡ none))
      at_texts none gateway r = (λ h. inl refl, λ h. refl)
      at_texts (some key) none r = (λ h. inr refl, λ h. refl)
      at_texts (some key) (some g) (err x) = (λ h. cc, λ h. elim h [ inl e ↦ cc | inr e ↦ cc ])
      at_texts (some key) (some g) (ok cs) = (λ h. cc, λ h. elim h [ inl e ↦ cc | inr e ↦ cc ])
