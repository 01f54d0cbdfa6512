-- ===== src/RpcHandler/Check/Tracked.antt =====
-- What a round of checks of pkg/handler/rpcHandler.go keeps of a handler: its configuration, the
-- nodes, and one error count for each.
use chain_api.Common.{
  ℕ, suc, ◌+◌, ◌≤◌, Bool, ◌≡◌, refl, sym, ap, ◌∙◌, subst, some, List, [], ◌∷◌, map, All, length,
  Option, none, true, false, arith, if◌then◌else◌, ◌==◌,
}
use mathlib.Core.Option.{some-injective}
use chain_api.Common.Int.{ℤ, leb_ℤ}
use chain_api.Utils.{Jq, Floats}
use chain_api.RpcHandler.{RpcNode, ChainConfig, Node, RpcHandler}
use chain_api.RpcHandler.Probe.{Net}
use chain_api.RpcHandler.Check.{
  Numbers, Second, ws, extra_write, is_unhealthy, update_nodes, update_counts, finish_check,
  check_nodes_healthy, probe_all, threshold, tron_numbers, http_and_ws_numbers,
  check_tron_nodes_healthy, check_http_and_ws_nodes_healthy,
}
use chain_api.RpcHandler.Check.Health.{set_health-rpc_node}

-- A handler of a configuration after some rounds: its nodes are those of the configuration, in their
-- order, and each has one error count, at most one for each round.
pub record IsTracked {Query : Type 0} (config : ChainConfig) (k : ℕ) (h : RpcHandler Query)
    : Type 0 where
  pub same_config : h.config ≡ config
  pub same_nodes : map (λ n. n.rpc_node) h.nodes ≡ config.nodes
  pub one_count_each : length h.node_error_counts ≡ length h.nodes
  pub few_errors : All (λ c. c ≤ k) h.node_error_counts

update_nodes-map :
    (s : Second) (least : ℤ) (nodes : List Node) (numbers : List Numbers)
    → map (λ n. n.rpc_node) (update_nodes s least nodes numbers) ≡ map (λ n. n.rpc_node) nodes
unfolding update_nodes
update_nodes-map s least [] numbers = refl
update_nodes-map s least (n ∷ nodes) [] = refl
update_nodes-map s least (n ∷ nodes) ((a, b) ∷ numbers) =
    rw
      (
        set_health-rpc_node s (leb_ℤ least a) (leb_ℤ least b) n,
        update_nodes-map s least nodes numbers,
      )
      refl

update_nodes-length :
    (s : Second) (least : ℤ) (nodes : List Node) (numbers : List Numbers)
    → length (update_nodes s least nodes numbers) ≡ length nodes
unfolding update_nodes
update_nodes-length s least [] numbers = refl
update_nodes-length s least (n ∷ nodes) [] = refl
update_nodes-length s least (n ∷ nodes) ((a, b) ∷ numbers) =
    ap suc (update_nodes-length s least nodes numbers)

update_counts-length :
    (s : Second) (least : ℤ) (nodes : List Node) (numbers : List Numbers) (counts : List ℕ)
    → length (update_counts s least nodes numbers counts) ≡ length counts
unfolding update_counts
update_counts-length s least [] numbers counts = refl
update_counts-length s least (n ∷ nodes) [] counts = refl
update_counts-length s least (n ∷ nodes) (p ∷ numbers) [] = refl
update_counts-length s least (n ∷ nodes) (p ∷ numbers) (c ∷ counts) =
    ap suc (update_counts-length s least nodes numbers counts)

All-suc : (k : ℕ) (counts : List ℕ) → All (λ c. c ≤ k) counts → All (λ c. c ≤ k + 1) counts
All-suc k [] h = tt
All-suc k (c ∷ counts) (h, hs) = (omega arith, All-suc k counts hs)

update_counts-few :
    (s : Second) (least : ℤ) (nodes : List Node) (numbers : List Numbers) (counts : List ℕ) (k : ℕ)
    → All (λ c. c ≤ k) counts
    → All (λ c. c ≤ k + 1) (update_counts s least nodes numbers counts)
unfolding update_counts
update_counts-few s least [] numbers counts k h = All-suc k counts h
update_counts-few s least (n ∷ nodes) [] counts k h = All-suc k counts h
update_counts-few s least (n ∷ nodes) (p ∷ numbers) [] k h = tt
update_counts-few s least (n ∷ nodes) (p ∷ numbers) (c ∷ counts) k (h, hs) =
    (grow (is_unhealthy s least n.rpc_node p), update_counts-few s least nodes numbers counts k hs)
  where
    grow : (b : Bool) → (if b then c + 1 else c) ≤ k + 1
    grow b = ground arith

pub no_counts-few : (nodes : List RpcNode) → All (λ c. c ≤ 0) (map (λ n. 0) nodes)
no_counts-few [] = tt
no_counts-few (n ∷ nodes) = (omega arith, no_counts-few nodes)

module _ {Query : Type 0} (config : ChainConfig) where
  finish_check-IsTracked :
      (s : Second) (k : ℕ) (h : RpcHandler Query) (numbers : List Numbers)
      → IsTracked config k h
      → IsTracked config (k + 1) (finish_check s h numbers)
  unfolding finish_check
  finish_check-IsTracked s k h numbers t =
      let least = threshold numbers h.config.max_behind_blocks in
      record {
        same_config = t.same_config;
        same_nodes = update_nodes-map s least h.nodes numbers ∙ t.same_nodes;
        one_count_each =
            update_counts-length s least h.nodes numbers h.node_error_counts
            ∙ t.one_count_each
            ∙ sym (update_nodes-length s least h.nodes numbers);
        few_errors = update_counts-few s least h.nodes numbers h.node_error_counts k t.few_errors;
      }

module _ (J : Jq) (F : Floats) (config : ChainConfig) where
  checked :
      (s : Second) (k : ℕ) (h h' : RpcHandler J.Query) (numbers : Option (List Numbers))
      → IsTracked config k h
      → elim numbers [ none ↦ none | some ns ↦ some (finish_check s h ns) ] ≡ some h'
      → IsTracked config (k + 1) h'
  checked s k h h' none t e = cc
  checked s k h h' (some ns) t e =
      subst (IsTracked config (k + 1)) (some-injective _ _ e)
        (finish_check-IsTracked config s k h ns t)

  -- A round that returns keeps what is known, and counts at most one more error for each node.
  pub check_nodes_healthy-IsTracked :
      (net : ℕ → Net) (k : ℕ) (h h' : RpcHandler J.Query)
      → IsTracked config k h
      → check_nodes_healthy J F net h ≡ some h'
      → IsTracked config (k + 1) h'
  unfolding check_nodes_healthy check_tron_nodes_healthy check_http_and_ws_nodes_healthy
  check_nodes_healthy-IsTracked net k h h' t = by_type (h.config.chain_type == "tron")
    where
      by_type :
          (b : Bool)
          → (if b
              then check_tron_nodes_healthy J F net h
              else check_http_and_ws_nodes_healthy J F net h)
            ≡ some h'
          → IsTracked config (k + 1) h'
      by_type true =
          checked extra_write k h h' (probe_all (λ i. tron_numbers J F (net i) h) 0 h.nodes) t
      by_type false =
          checked ws k h h' (probe_all (λ i. http_and_ws_numbers J F (net i) h) 0 h.nodes) t
