-- ===== src/RpcHandler/Report/Rounds.antt =====
-- The state that the rounds of pkg/handler/rpcHandler.go keep, from the set-up on.
use chain_api.Common.{
  ℕ, zero, suc, ◌+◌, String, ◌≡◌, refl, sym, ap, ◌∙◌, Option, none, some, List, [], ◌∷◌, map,
  length, Result, ok, err, arith, Bool, true, false, not, if◌then◌else◌, ◌==◌, ok-injective, subst,
  length-map,
}
use chain_api.Utils.{Jq, Floats}
use chain_api.RpcHandler.{
  unsupported_extractor, bad_expression, bad_tron_expression, RpcNode, ChainConfig, Node,
  RpcHandler, new_node, new_with_query, new_rpc_handler,
}
use chain_api.RpcHandler.Probe.{Net}
use chain_api.RpcHandler.Check.{check_nodes_healthy}
use chain_api.RpcHandler.Check.Tracked.{IsTracked, no_counts-few, check_nodes_healthy-IsTracked}
use chain_api.RpcHandler.Forward.{Outgoing, Http}
use chain_api.RpcHandler.Report.{
  ErrorNumMetric, RoundPanic, probe_panics, add_metric, metric_name, push_if_any, reported,
  error_metrics, report_node_errors, round, rounds,
}

new_node-map : (nodes : List RpcNode) → map (λ n. n.rpc_node) (map new_node nodes) ≡ nodes
unfolding new_node
new_node-map [] = refl
new_node-map (n ∷ nodes) = ap (λ ns. n ∷ ns) (new_node-map nodes)

-- With a count for every node, the report does not panic.
error_metrics-returns :
    (i : ℕ) (nodes : List Node) (counts : List ℕ)
    → length counts ≡ length nodes
    → (ms : List ErrorNumMetric) × (error_metrics i nodes counts ≡ ok ms)
unfolding error_metrics
error_metrics-returns i [] counts e = ([], refl)
error_metrics-returns i (n ∷ nodes) [] e = cc
error_metrics-returns i (n ∷ nodes) (c ∷ counts) e =
    added c (error_metrics (suc i) nodes counts)
      (error_metrics-returns (suc i) nodes counts (ground arith))
  where
    added :
        (c : ℕ) (later : Result RoundPanic (List ErrorNumMetric))
        → (ms : List ErrorNumMetric) × (later ≡ ok ms)
        → (ms : List ErrorNumMetric) × (add_metric (metric_name i n) c later ≡ ok ms)
    added zero later r = r
    added (suc c) (ok ms) r = (record { node_name = metric_name i n; error_num = suc c } ∷ ms, refl)
    added (suc c) (err x) r = cc

report_node_errors-returns :
    (H : Http) (base : String) {Query : Type 0} (h : RpcHandler Query)
    → length h.node_error_counts ≡ length h.nodes
    → (reqs : List Outgoing) × (report_node_errors H base h ≡ ok reqs)
unfolding report_node_errors
report_node_errors-returns H base h e =
    on_base (base == "") (error_metrics 0 h.nodes h.node_error_counts)
      (error_metrics-returns 0 h.nodes h.node_error_counts e)
  where
    on_base :
        (b : Bool) (ms : Result RoundPanic (List ErrorNumMetric))
        → (l : List ErrorNumMetric) × (ms ≡ ok l)
        → (reqs : List Outgoing) × ((if b then ok [] else elim ms [
          | err e ↦ err e
          | ok metrics ↦ ok (push_if_any H base h.config.chain_name metrics)
        ])
            ≡ ok reqs)
    on_base true ms r = ([], refl)
    on_base false (ok l) r = (push_if_any H base h.config.chain_name l, refl)
    on_base false (err x) r = cc

-- What the rounds leave when they do not end at the panic of a probe: the configuration's nodes with
-- one error count each, of at most the number of rounds.
abbrev pub Outcome :
    {Query : Type 0}
    → ChainConfig
    → ℕ
    → Result RoundPanic (RpcHandler Query × List Outgoing)
    → Type 0
Outcome config k (ok (h, sent)) = IsTracked config k h
Outcome config k (err e) = e ≡ probe_panics

module _ (J : Jq) (config : ChainConfig) where
  new_with_query-IsTracked :
      (q : J.Query) (tq : Option J.Query) → IsTracked config 0 (new_with_query J config q tq)
  unfolding new_with_query new_node
  new_with_query-IsTracked q tq = record {
    same_config = refl;
    same_nodes = new_node-map config.nodes;
    one_count_each = length-map (λ n. 0) config.nodes ∙ sym (length-map new_node config.nodes);
    few_errors = no_counts-few config.nodes;
  }

  -- A new handler has counted no error.
  pub new_rpc_handler-IsTracked :
      (h : RpcHandler J.Query) → new_rpc_handler J config ≡ ok h → IsTracked config 0 h
  unfolding new_rpc_handler
  new_rpc_handler-IsTracked h =
      by_case (config.block_number_result_extractor == "jq")
        (J.parse config.block_number_result_expression) (config.chain_type == "tron")
        (J.parse ".block_header.raw_data.number")
    where
      by_case :
          (b : Bool) (q : Option J.Query) (c : Bool) (tq : Option J.Query)
          → (if not b then err unsupported_extractor else elim q [
            | none ↦ err bad_expression
            | some query ↦
                if c
                then elim tq [
                  | none ↦ err bad_tron_expression
                  | some tron_query ↦ ok (new_with_query J config query (some tron_query))
                ]
                else ok (new_with_query J config query none)
          ])
            ≡ ok h
          → IsTracked config 0 h
      by_case false q c tq e = cc
      by_case true none c tq e = cc
      by_case true (some q) true none e = cc
      by_case true (some q) true (some t) e =
          subst (IsTracked config 0) (ok-injective e) (new_with_query-IsTracked q (some t))
      by_case true (some q) false tq e =
          subst (IsTracked config 0) (ok-injective e) (new_with_query-IsTracked q none)

module _ (J : Jq) (F : Floats) (H : Http) (base : String) (config : ChainConfig) where
  round-Outcome :
      (net : ℕ → Net) (k : ℕ) (h : RpcHandler J.Query) (sent : List Outgoing)
      → IsTracked config k h
      → Outcome config (k + 1) (round J F H base net (h, sent))
  unfolding round
  round-Outcome net k h sent t = step (check_nodes_healthy J F net h) refl
    where
      answered :
          (h' : RpcHandler J.Query) (r : Result RoundPanic (List Outgoing))
          → IsTracked config (k + 1) h'
          → (reqs : List Outgoing) × (r ≡ ok reqs)
          → Outcome config (k + 1) (reported J F H base sent h' r)
      answered h' (ok reqs) t' q = t'
      answered h' (err x) t' q = cc

      step :
          (o : Option (RpcHandler J.Query))
          → check_nodes_healthy J F net h ≡ o
          → Outcome config (k + 1) (elim o [
            | none ↦ err probe_panics
            | some h' ↦ reported J F H base sent h' (report_node_errors H base h')
          ])
      step none e = refl
      step (some h') e =
          let t' = check_nodes_healthy-IsTracked J F config net k h h' t e in
          answered h' (report_node_errors H base h') t'
            (report_node_errors-returns H base h' t'.one_count_each)

  rounds-Outcome :
      (nets : List (ℕ → Net)) (k : ℕ) (h : RpcHandler J.Query) (sent : List Outgoing)
      → IsTracked config k h
      → Outcome config (k + length nets) (rounds J F H base nets (h, sent))
  unfolding rounds
  rounds-Outcome [] k h sent t = subst (λ n. IsTracked config n h) (omega arith) t
  rounds-Outcome (net ∷ nets) k h sent t =
      step (rounds-Outcome nets (k + 1)) (round J F H base net (h, sent))
        (round-Outcome net k h sent t)
    where
      step :
          ((h' : RpcHandler J.Query) (sent' : List Outgoing)
            → IsTracked config (k + 1) h'
            → Outcome config (k + 1 + length nets) (rounds J F H base nets (h', sent')))
          → (r : Result RoundPanic (RpcHandler J.Query × List Outgoing)) → Outcome config (k + 1) r
          → Outcome config
              (k + suc (length nets))
              (elim r [ err e ↦ err e | ok s' ↦ rounds J F H base nets s' ])
      step later (err e) o = o
      step later (ok (h', sent')) o =
          subst (λ n. Outcome config n (rounds J F H base nets (h', sent'))) (omega arith)
            (later h' sent' o)

  -- From the state that `NewRpcHandler` returns, after any number of turns of its goroutine's loop:
  -- the nodes are those of the configuration, in its order, each has one error count, and no count
  -- exceeds the number of turns; a report never panics, so only a probe's panic ends the loop.
  pub new_rpc_handler-Outcome :
      (h : RpcHandler J.Query) (nets : List (ℕ → Net))
      → new_rpc_handler J config ≡ ok h
      → Outcome config (length nets) (rounds J F H base nets (h, []))
  new_rpc_handler-Outcome h nets e =
      subst (λ n. Outcome config n (rounds J F H base nets (h, []))) (omega arith)
        (rounds-Outcome nets 0 h [] (new_rpc_handler-IsTracked J config h e))
