-- ===== src/RpcHandler/Check/Serving.antt =====
-- After a round of health checks of pkg/handler/rpcHandler.go: which node serves requests, and that
-- some node does.
use chain_api.Common.{
  ℕ, zero, suc, ◌^◌, Bool, true, ◌≡◌, ◌≢◌, refl, subst, ◌∙◌, Option, none, some, List, All, [], ◌∷◌,
  ◌==◌, if◌then◌else◌, get_elem?, length, arith, ◌⊎◌, inl, inr, Bool-cases, ap,
}
use chain_api.Common.Int.{ℤ, pos, ◌-ℤ◌, ◌≤ℤ◌, ◌<ℤ◌, leb_ℤ, leb_ℤ→le, le→leb_ℤ}
use mathlib.Core.Option.{some-injective}
use chain_api.Utils.{Jq, Floats}
use chain_api.RpcHandler.{RpcNode, Node, RpcHandler, first_with, get_healthy_node}
use chain_api.RpcHandler.Probe.{Net}
use chain_api.RpcHandler.Check.{
  Numbers, Second, ws, extra_write, http_and_ws_numbers, tron_numbers, collect, probe_all,
  threshold, set_health, update_nodes, finish_check, check_http_and_ws_nodes_healthy,
  check_tron_nodes_healthy, check_nodes_healthy,
}
use chain_api.RpcHandler.Check.Threshold.{AreBlockNumbers, le-threshold, threshold_reached}
use chain_api.RpcHandler.Check.Health.{second_health, update_nodes_at}

module _ (J : Jq) (F : Floats) (net : ℕ → Net) (h : RpcHandler J.Query) where
  -- The kind of the chain's second address, and the numbers that a round collects.
  abbrev pub second_of : Second
  second_of = if h.config.chain_type == "tron" then extra_write else ws

  abbrev pub round_numbers : Option (List Numbers)
  round_numbers =
      if h.config.chain_type == "tron"
      then probe_all (λ i. tron_numbers J F (net i) h) 0 h.nodes
      else probe_all (λ i. http_and_ws_numbers J F (net i) h) 0 h.nodes

  pub check-eq :
      (numbers : List Numbers)
      → round_numbers ≡ some numbers
      → check_nodes_healthy J F net h ≡ some (finish_check second_of h numbers)
  unfolding check_nodes_healthy check_tron_nodes_healthy check_http_and_ws_nodes_healthy
  check-eq numbers e = elim (Bool-cases (h.config.chain_type == "tron")) [
    | inl tron ↦ let e' = rw tron at e in rw tron (rw (e', check_tron_nodes_healthy))
    | inr other ↦ let e' = rw other at e in rw other (rw (e', check_http_and_ws_nodes_healthy))
  ]

collect_inv :
    (first : Option Numbers) (later : Option (List Numbers)) {all : List Numbers}
    → collect first later ≡ some all
    → (p : Numbers) × (rest : List Numbers) × (first ≡ some p)
      × (later ≡ some rest)
      × (all ≡ p ∷ rest)
collect_inv none later e = cc
collect_inv (some p) none e = cc
collect_inv (some p) (some rest) {all} e = (p, rest, refl, refl, cc)

probe_all-length :
    (body : ℕ → RpcNode → Option Numbers) (i : ℕ) (nodes : List Node) (numbers : List Numbers)
    → probe_all body i nodes ≡ some numbers
    → length numbers ≡ length nodes
unfolding probe_all
probe_all-length body i [] numbers e = ground arith
probe_all-length body i (n ∷ nodes) numbers e =
    let (p, all, _, later, same) =
      collect_inv (body i n.rpc_node) (probe_all body (suc i) nodes) e in
    rw same (ap suc (probe_all-length body (suc i) nodes all later))

-- The first node that passes is in the list, and passes.
first_with-elem :
    (healthy : Node → Bool) (nodes : List Node) (n : Node)
    → first_with healthy nodes ≡ some n
    → (i : ℕ) × (get_elem? nodes i ≡ some n) × (healthy n ≡ true)
unfolding first_with
first_with-elem healthy [] n e = cc
first_with-elem healthy (m ∷ nodes) n e = elim (Bool-cases (healthy m)) [
  | inl good ↦
      let same : m ≡ n = some-injective m n (rw good at e) in
      (0, ap some same, subst (λ k. healthy k ≡ true) same good)
  | inr bad ↦ let (i, at, good) = first_with-elem healthy nodes n (rw bad at e) in (suc i, at, good)
]

http_flag :
    (s : Second) (x y : Bool) (m n : Node)
    → n ≡ set_health s x y m
    → n.http_health ≡ true
    → x ≡ true
unfolding set_health
http_flag ws x y m n e h = cc
http_flag extra_write x y m n e h = cc

http-set_health : (s : Second) (x y : Bool) (m : Node) → (set_health s x y m).http_health ≡ x
unfolding set_health
http-set_health ws x y m = refl
http-set_health extra_write x y m = refl

second-set_health : (s : Second) (x y : Bool) (m : Node) → second_health s (set_health s x y m) ≡ y
unfolding set_health
second-set_health ws x y m = refl
second-set_health extra_write x y m = refl

nil_of_length :
    (nodes : List Node) (numbers : List Numbers)
    → length numbers ≡ length nodes
    → numbers ≡ []
    → nodes ≡ []
nil_of_length [] numbers l e = refl
nil_of_length (m ∷ nodes) [] l e = absurd (omega arith)
nil_of_length (m ∷ nodes) (p ∷ numbers) l e = cc

first_with-some :
    (healthy : Node → Bool) (nodes : List Node) (i : ℕ) (n : Node)
    → get_elem? nodes i ≡ some n
    → healthy n ≡ true
    → first_with healthy nodes ≢ none
unfolding first_with
first_with-some healthy [] i n at good = cc
first_with-some healthy (m ∷ nodes) zero n at good = ground arith
first_with-some healthy (m ∷ nodes) (suc i) n at good =
    ground (arith, first_with-some healthy nodes i n at good)

elem_at :
    (nodes : List Node) (numbers : List Numbers) (i : ℕ) (p : Numbers)
    → length numbers ≡ length nodes
    → get_elem? numbers i ≡ some p
    → (m : Node) × (get_elem? nodes i ≡ some m)
elem_at nodes [] i p l e = cc
elem_at [] (q ∷ numbers) i p l e = absurd (omega arith)
elem_at (m ∷ nodes) (q ∷ numbers) zero p l e = (m, refl)
elem_at (m ∷ nodes) (q ∷ numbers) (suc i) p l e = elem_at nodes numbers i p (omega arith) e

update_nodes_inv :
    (s : Second) (least : ℤ) (nodes : List Node) (numbers : List Numbers) (i : ℕ) (n : Node)
    → length numbers ≡ length nodes
    → get_elem? (update_nodes s least nodes numbers) i ≡ some n
    → (m : Node) × (p : Numbers) × (get_elem? numbers i ≡ some p)
      × (n ≡ set_health s (leb_ℤ least p.0) (leb_ℤ least p.1) m)
unfolding update_nodes
update_nodes_inv s least [] numbers i n l e = cc
update_nodes_inv s least (m ∷ nodes) [] i n l e = absurd (omega arith)
update_nodes_inv s least (m ∷ nodes) (p ∷ numbers) zero n l e = (m, p, refl, cc)
update_nodes_inv s least (m ∷ nodes) (p ∷ numbers) (suc i) n l e =
    update_nodes_inv s least nodes numbers i n (omega arith) e

All-of_get :
    {P : Numbers → Type 0} (numbers : List Numbers)
    → ((j : ℕ) (q : Numbers) → get_elem? numbers j ≡ some q → P q)
    → All P numbers
All-of_get [] h = tt
All-of_get (p ∷ numbers) h = (h zero p refl, All-of_get numbers λ j. h (suc j))

module _ (J : Jq) (F : Floats) (net : ℕ → Net) (h : RpcHandler J.Query) (numbers : List Numbers)
    (round : round_numbers J F net h ≡ some numbers) where
  abbrev checked : RpcHandler J.Query
  checked = finish_check (second_of J F net h) h numbers

  same_length : length numbers ≡ length h.nodes
  same_length = elim (Bool-cases (h.config.chain_type == "tron")) [
    | inl tron ↦
        probe_all-length (λ i. tron_numbers J F (net i) h) 0 h.nodes numbers (rw tron at round)
    | inr other ↦
        probe_all-length (λ i. http_and_ws_numbers J F (net i) h) 0 h.nodes numbers
          (rw other at round)
  ]

  module _ (are : AreBlockNumbers numbers) (low : pos 0 ≤ℤ h.config.max_behind_blocks)
      (high : h.config.max_behind_blocks <ℤ pos (2 ^ 63)) where
    -- Where a round of checks collects block numbers below 2 ^ 63 without a panic, and the bound is
    -- not negative, the round ends in the state that `finish_check` gives, and a node that then serves
    -- HTTP requests is the one at some index whose HTTP number is at most the bound below every number
    -- of the round.
    pub serving_node-within :
        (n : Node)
        → get_healthy_node (finish_check (second_of J F net h) h numbers) ≡ some n
        → (check_nodes_healthy J F net h ≡ some (finish_check (second_of J F net h) h numbers))
          × ((i : ℕ) × (p : Numbers) × (get_elem?
                  (finish_check (second_of J F net h) h numbers).nodes
                  i
                ≡ some n)
              × (get_elem? numbers i ≡ some p)
              × All
                  (λ q.
                    (q.0 -ℤ h.config.max_behind_blocks ≤ℤ p.0)
                    × (q.1 -ℤ h.config.max_behind_blocks ≤ℤ p.0))
                  numbers)
    unfolding finish_check get_healthy_node
    serving_node-within n serves =
        let least : ℤ = threshold numbers h.config.max_behind_blocks in
        let (i, at, healthy) = first_with-elem (λ m. m.http_health) checked.nodes n serves in
        let (m, p, here, same) =
          update_nodes_inv (second_of J F net h) least h.nodes numbers i n same_length at in
        let fits = leb_ℤ→le least p.0 (http_flag (second_of J F net h) _ _ m n same healthy) in
        (
          check-eq J F net h numbers round,
          (
            i,
            p,
            at,
            here,
            All-of_get numbers λ j q there.
                let (a, b) = le-threshold numbers _ are low high j q there in
                (omega arith, omega arith),
          ),
        )

    -- Where moreover the chain has a node, some node then serves HTTP requests, or some node serves
    -- the chain's second kind of request.
    pub some_node_serves :
        h.nodes ≢ []
        → (h' : RpcHandler J.Query) × (check_nodes_healthy J F net h ≡ some h')
          × ((get_healthy_node h' ≢ none)
              ⊎ (first_with (second_health (second_of J F net h)) h'.nodes ≢ none))
    unfolding finish_check get_healthy_node
    some_node_serves some_there = (
      checked,
      check-eq J F net h numbers round,
      let least : ℤ = threshold numbers h.config.max_behind_blocks in
          let (i, p, at, side) =
            threshold_reached numbers _ are low high
              (λ e. some_there (nil_of_length h.nodes numbers same_length e)) in
          let (m, there) = elem_at h.nodes numbers i p same_length at in
          let here =
            update_nodes_at (second_of J F net h) least h.nodes numbers i m p.0 p.1 there at in
          elim side [
            | inl le ↦ inl (
                first_with-some (λ m. m.http_health) checked.nodes i _ here
                  (http-set_health (second_of J F net h) _ _ m ∙ le→leb_ℤ least p.0 le))
            | inr le ↦ inr (
                first_with-some (second_health (second_of J F net h)) checked.nodes i _ here
                  (second-set_health (second_of J F net h) _ _ m ∙ le→leb_ℤ least p.1 le))
          ],
    )
