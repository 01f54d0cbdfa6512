-- ===== src/Config/Order.antt =====
-- What the order in which `LoadRPCConfig` of config/config.go ranges over its map changes.
use mathlib.Core.List.{Permᴰ}
use chain_api.Common.{refl, String, Option, none, some, List, [], ◌∷◌, Result, ok, err, subst}
use chain_api.RpcHandler.{ChainConfig}
use chain_api.Config.{Toml, LoadError, load_chain, load_chains, combine}

-- Both fail, or both load the same chains in some order.
abbrev pub Agree :
    Result LoadError (List ChainConfig) → Result LoadError (List ChainConfig) → Type 0
Agree (ok cs) (ok ds) = Permᴰ cs ds
Agree (err e) (err d) = Unit
Agree (ok cs) (err d) = ⊥
Agree (err e) (ok ds) = ⊥

perm_refl : (cs : List ChainConfig) → Permᴰ cs cs
perm_refl [] = Permᴰ.nil
perm_refl (c ∷ cs) = Permᴰ.cons refl (perm_refl cs)

Agree-refl : (r : Result LoadError (List ChainConfig)) → Agree r r
Agree-refl (ok cs) = perm_refl cs
Agree-refl (err e) = tt

Agree-trans : (r s t : Result LoadError (List ChainConfig)) → Agree r s → Agree s t → Agree r t
Agree-trans (ok a) (ok b) (ok c) h k = Permᴰ.trans h k
Agree-trans (err a) (err b) (err c) h k = tt
Agree-trans (ok a) (ok b) (err c) h k = k
Agree-trans (ok a) (err b) t h k = elim h [ ]
Agree-trans (err a) (ok b) t h k = elim h [ ]
Agree-trans (err a) (err b) (ok c) h k = k

combine-Agree :
    (x : Result LoadError (Option ChainConfig)) (r s : Result LoadError (List ChainConfig))
    → Agree r s
    → Agree (combine x r) (combine x s)
combine-Agree (err e) r s h = tt
combine-Agree (ok none) r s h = h
combine-Agree (ok (some c)) (ok a) (ok b) h = Permᴰ.cons refl h
combine-Agree (ok (some c)) (err a) (err b) h = tt
combine-Agree (ok (some c)) (ok a) (err b) h = h
combine-Agree (ok (some c)) (err a) (ok b) h = h

combine-swap :
    (x y : Result LoadError (Option ChainConfig)) (r : Result LoadError (List ChainConfig))
    → Agree (combine x (combine y r)) (combine y (combine x r))
combine-swap (err e) (err d) r = tt
combine-swap (err e) (ok none) r = tt
combine-swap (err e) (ok (some d)) r = tt
combine-swap (ok none) y r = Agree-refl (combine y r)
combine-swap (ok (some c)) (err d) (ok a) = tt
combine-swap (ok (some c)) (err d) (err a) = tt
combine-swap (ok (some c)) (ok none) r = Agree-refl (combine (ok (some c)) r)
combine-swap (ok (some c)) (ok (some d)) (ok a) = Permᴰ.swap refl refl
combine-swap (ok (some c)) (ok (some d)) (err a) = tt

module _ (T : Toml) where
  open T use {Value}

  -- Whatever the order in which the loop meets the entries of the file: it fails in every order or in
  -- none, and where it succeeds it loads the same chains, in some order.
  pub load_chains-Agree :
      {xs ys : List (String × Value)} → Permᴰ xs ys → Agree (load_chains T xs) (load_chains T ys)
  unfolding load_chains
  load_chains-Agree Permᴰ.nil = Permᴰ.nil
  load_chains-Agree (Permᴰ.cons {a} {b} {l₁ = xs} {l₂ = ys} e p) =
      subst (λ c. Agree (load_chains T (a ∷ xs)) (load_chains T (c ∷ ys))) e
        (combine-Agree (load_chain T a.0 a.1) (load_chains T xs) (load_chains T ys)
          (load_chains-Agree p))
  load_chains-Agree (Permᴰ.swap {a} {b} {a'} {b'} {l} e d) =
      subst (λ c. Agree (load_chains T (a ∷ b ∷ l)) (load_chains T (a' ∷ c ∷ l))) e
        (subst (λ c. Agree (load_chains T (a ∷ b ∷ l)) (load_chains T (c ∷ a ∷ l))) d
          (combine-swap (load_chain T a.0 a.1) (load_chain T b.0 b.1) (load_chains T l)))
  load_chains-Agree (Permᴰ.trans {l₁ = xs} {l₂ = ys} {l₃ = zs} p q) =
      Agree-trans (load_chains T xs) (load_chains T ys) (load_chains T zs) (load_chains-Agree p)
        (load_chains-Agree q)
