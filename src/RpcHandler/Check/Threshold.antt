-- ===== src/RpcHandler/Check/Threshold.antt =====
-- The highest block number of a round, and the least number that counts as healthy
-- (pkg/handler/rpcHandler.go).
use chain_api.Common.{
  ℕ, zero, suc, ◌+◌, ◌-◌, ◌^◌, false, ◌≡◌, ◌≢◌, refl, sym, subst, ◌∙◌, some, List, [], ◌∷◌, ◌++◌,
  map, if◌then◌else◌, get_elem?, get_elem?-map, get_elem?-map_inv, get_elem?-append_left,
  get_elem?-append_right, get_elem?-append_cases, length-map, length, arith, ◌⊎◌, inl, inr,
  Bool-cases, All,
}
use chain_api.Common.Int.{
  to_int64, wrap_int64, ℤ, pos, negsuc, ◌-ℤ◌, ◌≤ℤ◌, ◌<ℤ◌, ltb_ℤ, ltb_ℤ→lt, int_laws,
}
use mathlib.Core.Option.{some-injective}
use chain_api.RpcHandler.Check.{Numbers, max_from, max_of, threshold}

-- Block numbers below 2 ^ 63, which int64 holds.
abbrev pub IsBlockNumber : ℤ → Type 0
IsBlockNumber x = (pos 0 ≤ℤ x) × (x <ℤ pos (2 ^ 63))

abbrev pub AreBlockNumbers : List Numbers → Type 0
AreBlockNumbers = All (λ p. IsBlockNumber p.0 × IsBlockNumber p.1)

le_of_not-ltb : (a b : ℤ) → ltb_ℤ a b ≡ false → b ≤ℤ a
le_of_not-ltb a b h = ground arith

le-max_from : (best : ℤ) (xs : List ℤ) → best ≤ℤ max_from best xs
unfolding max_from
le-max_from best [] = omega arith
le-max_from best (x ∷ xs) = elim (Bool-cases (ltb_ℤ best x)) [
  | inl h ↦ rw h (let lt = ltb_ℤ→lt best x h in omega (arith, le-max_from x xs))
  | inr h ↦ rw h (le-max_from best xs)
]

head-le-max_from : (best y : ℤ) (xs : List ℤ) → y ≤ℤ max_from best (y ∷ xs)
unfolding max_from
head-le-max_from best y xs = elim (Bool-cases (ltb_ℤ best y)) [
  | inl h ↦ rw h (le-max_from y xs)
  | inr h ↦ rw h (let le = le_of_not-ltb best y h in omega (arith, le-max_from best xs))
]

elem-le-max_from :
    (best : ℤ) (xs : List ℤ) (i : ℕ) (x : ℤ) → get_elem? xs i ≡ some x → x ≤ℤ max_from best xs
unfolding max_from
elem-le-max_from best [] i x e = cc
elem-le-max_from best (y ∷ xs) zero x e =
    let same : y ≡ x = cc in
    subst (λ z. z ≤ℤ max_from best (y ∷ xs)) same (head-le-max_from best y xs)
elem-le-max_from best (y ∷ xs) (suc i) x e =
    elem-le-max_from (if ltb_ℤ best y then y else best) xs i x e

elem-le-max_of : (xs : List ℤ) (i : ℕ) (x : ℤ) → get_elem? xs i ≡ some x → x ≤ℤ max_of xs
unfolding max_of
elem-le-max_of [] i x e = cc
elem-le-max_of (y ∷ xs) zero x e =
    let same : y ≡ x = cc in subst (λ z. z ≤ℤ max_from y xs) same (le-max_from y xs)
elem-le-max_of (y ∷ xs) (suc i) x e = elem-le-max_from y xs i x e

max_from-elem :
    (best : ℤ) (xs : List ℤ)
    → (max_from best xs ≡ best) ⊎ ((i : ℕ) × (get_elem? xs i ≡ some (max_from best xs)))
unfolding max_from
max_from-elem best [] = inl refl
max_from-elem best (x ∷ xs) = elim (Bool-cases (ltb_ℤ best x)) [
  | inl h ↦ rw h (elim (max_from-elem x xs) [ inl e ↦ inr (0, cc) | inr (i, e) ↦ inr (suc i, e) ])
  | inr h ↦ rw h (elim (max_from-elem best xs) [ inl e ↦ inl e | inr (i, e) ↦ inr (suc i, e) ])
]

-- The greatest element of a list that is not empty stands in it.
max_of-elem : (xs : List ℤ) → (xs ≡ []) ⊎ ((i : ℕ) × (get_elem? xs i ≡ some (max_of xs)))
unfolding max_of
max_of-elem [] = inl refl
max_of-elem (x ∷ xs) = elim (max_from-elem x xs) [
  | inl e ↦ inr (0, cc)
  | inr (i, e) ↦ inr (suc i, e)
]

-- An int64 result that needs no wrapping.
wrap_int64_id : (x : ℤ) → negsuc (2 ^ 63 - 1) ≤ℤ x → x <ℤ pos (2 ^ 63) → wrap_int64 x ≡ x
unfolding wrap_int64 to_int64
wrap_int64_id (pos n) low high = ground arith
wrap_int64_id (negsuc n) low high = ground arith

-- All numbers of a round, those of HTTP first.
abbrev joined : List Numbers → List ℤ
joined numbers = map (λ n. n.0) numbers ++ map (λ n. n.1) numbers

at_http :
    (numbers : List Numbers) (i : ℕ) (p : Numbers)
    → get_elem? numbers i ≡ some p
    → get_elem? (joined numbers) i ≡ some p.0
at_http numbers i p h =
    get_elem?-append_left (map (λ n. n.0) numbers) (map (λ n. n.1) numbers) i p.0
      (get_elem?-map (λ (n : Numbers). n.0) numbers i p h)

at_second :
    (numbers : List Numbers) (i : ℕ) (p : Numbers)
    → get_elem? numbers i ≡ some p
    → get_elem? (joined numbers) (length numbers + i) ≡ some p.1
at_second numbers i p h = rw (← length-map (λ (n : Numbers). n.0) numbers) (
    get_elem?-append_right (map (λ n. n.0) numbers) (map (λ n. n.1) numbers) i
    ∙ get_elem?-map (λ (n : Numbers). n.1) numbers i p h)

-- Each number of a round comes from a node.
of_joined :
    (numbers : List Numbers) (k : ℕ) (x : ℤ)
    → get_elem? (joined numbers) k ≡ some x
    → (i : ℕ) × (p : Numbers) × (get_elem? numbers i ≡ some p) × ((x ≡ p.0) ⊎ (x ≡ p.1))
of_joined numbers k x h = elim (get_elem?-append_cases (map (λ n. n.0) numbers) _ k x h) [
  | inl e ↦
      let (p, at, same) = get_elem?-map_inv (λ (n : Numbers). n.0) numbers k x e in
      (k, p, at, inl same)
  | inr (j, e) ↦
      let (p, at, same) = get_elem?-map_inv (λ (n : Numbers). n.1) numbers j x e in
      (j, p, at, inr same)
]

joined-nil : (numbers : List Numbers) → joined numbers ≡ [] → numbers ≡ []
joined-nil [] h = refl
joined-nil (p ∷ numbers) h = cc

All-at :
    (numbers : List Numbers) (i : ℕ) (p : Numbers)
    → AreBlockNumbers numbers
    → get_elem? numbers i ≡ some p
    → IsBlockNumber p.0 × IsBlockNumber p.1
All-at [] i p h e = cc
All-at (q ∷ numbers) zero p (h, hs) e =
    subst (λ r. IsBlockNumber r.0 × IsBlockNumber r.1) (some-injective q p e) h
All-at (q ∷ numbers) (suc i) p (h, hs) e = All-at numbers i p hs e

max-IsBlockNumber :
    (numbers : List Numbers) → AreBlockNumbers numbers → IsBlockNumber (max_of (joined numbers))
max-IsBlockNumber numbers h = elim (max_of-elem (joined numbers)) [
  | inl none_there ↦ rw none_there (unfold max_of in (omega arith, omega arith))
  | inr (k, e) ↦
      let (i, p, at, side) = of_joined numbers k _ e in
      let (first, second) = All-at numbers i p h at in
      elim side [ inl same ↦ rw same first | inr same ↦ rw same second ]
]

module _ (numbers : List Numbers) (behind : ℤ) (h : AreBlockNumbers numbers) (low : pos 0 ≤ℤ behind)
    (high : behind <ℤ pos (2 ^ 63)) where
  threshold-eq : threshold numbers behind ≡ max_of (joined numbers) -ℤ behind
  unfolding threshold
  threshold-eq =
      let (a, b) = max-IsBlockNumber numbers h in
      wrap_int64_id (max_of (joined numbers) -ℤ behind) (omega int_laws) (omega int_laws)

  -- No number of the round is more than `behind` above the threshold.
  pub le-threshold :
      (i : ℕ) (p : Numbers)
      → get_elem? numbers i ≡ some p
      → (p.0 -ℤ behind ≤ℤ threshold numbers behind) × (p.1 -ℤ behind ≤ℤ threshold numbers behind)
  le-threshold i p at =
      let first = elem-le-max_of (joined numbers) i p.0 (at_http numbers i p at) in
      let second =
        elem-le-max_of (joined numbers) (length numbers + i) p.1 (at_second numbers i p at) in
      rw threshold-eq (omega int_laws, omega int_laws)

  reached : (x : ℤ) → x ≡ max_of (joined numbers) → threshold numbers behind ≤ℤ x
  reached x same = rw (threshold-eq, same) (omega int_laws)

  -- Some number of the round reaches the threshold.
  pub threshold_reached :
      numbers ≢ []
      → (i : ℕ) × (p : Numbers) × (get_elem? numbers i ≡ some p)
        × ((threshold numbers behind ≤ℤ p.0) ⊎ (threshold numbers behind ≤ℤ p.1))
  threshold_reached some_there = elim (max_of-elem (joined numbers)) [
    | inl none_there ↦ absurd (some_there (joined-nil numbers none_there))
    | inr (k, e) ↦
        let (i, p, at, side) = of_joined numbers k _ e in
        (
          i,
          p,
          at,
          elim side [
            | inl same ↦ inl (reached p.0 (sym same))
            | inr same ↦ inr (reached p.1 (sym same))
          ],
        )
  ]
