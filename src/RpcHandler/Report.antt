-- ===== src/RpcHandler/Report.antt =====
-- pkg/prometheus/push.go, `reportNodeErrors` of pkg/handler/rpcHandler.go, and the loop of the
-- goroutine that `NewRpcHandler` starts: a round of checks, then a report of the errors counted.
-- The bytes of a request that could be made are sent; what the gateway answers is only logged.
pub mod Rounds
mod Tests
use chain_api.Common.{
  ℕ, zero, suc, ◌+◌, String, Option, none, some, List, [], ◌∷◌, ◌++◌, Exec, Result, ok, err, pure,
  fail, ◌>>=◌, ◌>>◌, ◌==◌, ◌||◌, not, if◌then◌else◌, ltb, leb,
}
use chain_api.Common.Text.{◌+++◌, decimal}
use chain_api.Utils.{Jq, Floats}
use chain_api.RpcHandler.{Node, RpcHandler}
use chain_api.RpcHandler.Probe.{Net}
use chain_api.RpcHandler.Check.{check_nodes_healthy}
use chain_api.RpcHandler.Forward.{Outgoing, Response, Http}

pub record ErrorNumMetric : Type 0 where
  pub node_name : String
  pub error_num : ℕ

-- `ErrorNumMetric.String`
pub metric_text : ErrorNumMetric → String
metric_text m = "error_num{node=\"" +++ m.node_name +++ "\"} " +++ decimal m.error_num

-- The body that `PushMetrics` builds, after what it has built.
pub metrics_body : String → List ErrorNumMetric → String
unfolding metric_text
metrics_body body [] = body
metrics_body body (m ∷ rest) = metrics_body (body +++ (metric_text m +++ "\n")) rest

pub data PushError : Type 0 where
  bad_request no_response : PushError
  bad_status : ℕ → PushError

module _ (H : Http) where
  abbrev status_error : Option Response → Exec (List Outgoing) PushError (Unit {0})
  status_error none = fail no_response
  status_error (some r) =
      if ltb r.status 200 || leb 300 r.status then fail (bad_status r.status) else pure tt

  -- `http.DefaultClient.Do`, which adds to the requests that were sent
  abbrev sent : Outgoing → Exec (List Outgoing) PushError (Unit {0})
  sent req reqs = status_error (H.do_request req) (reqs ++ req ∷ [])

  abbrev push_request : String → String → String → Outgoing
  push_request base network_name body = record {
    method = "POST";
    url = base +++ "/metrics/job/rpc_nde/instance/rpc_nde_error/network/" +++ network_name;
    header = ("Content-Type", "text/plain; version=0.0.4; charset=utf-8" ∷ []) ∷ [];
    body = body;
  }

  pub push_body : String → String → String → Exec (List Outgoing) PushError (Unit {0})
  push_body base network_name body =
      if not (H.is_request "POST" (push_request base network_name body).url)
      then fail bad_request
      else sent (push_request base network_name body)

  -- The requests that are sent; an error is printed and dropped.
  pub push_metrics : String → String → List ErrorNumMetric → List Outgoing
  unfolding push_body metrics_body
  push_metrics base network_name metrics =
      (push_body base network_name (metrics_body "" metrics) []).1

-- Why a round ends the program: a probe, or the report, panics.
pub data RoundPanic : Type 0 where
  probe_panics report_panics : RoundPanic

pub metric_name : ℕ → Node → String
metric_name i node = if node.rpc_node.name == "" then "index_" +++ decimal i else node.rpc_node.name

abbrev add_metric :
    String → ℕ → Result RoundPanic (List ErrorNumMetric) → Result RoundPanic (List ErrorNumMetric)
add_metric name zero later = later
add_metric name (suc n) (err e) = err e
add_metric name (suc n) (ok later) = ok (record { node_name = name; error_num = suc n } ∷ later)

-- The loop of `reportNodeErrors`, from the node with index `i`; the counts are those from there on.
pub error_metrics : ℕ → List Node → List ℕ → Result RoundPanic (List ErrorNumMetric)
unfolding metric_name
error_metrics i [] counts = ok []
error_metrics i (node ∷ rest) [] = err report_panics
error_metrics i (node ∷ rest) (count ∷ counts) =
    add_metric (metric_name i node) count (error_metrics (suc i) rest counts)

module _ (H : Http) (base : String) where
  abbrev push_if_any : String → List ErrorNumMetric → List Outgoing
  push_if_any network_name [] = []
  push_if_any network_name (m ∷ rest) = push_metrics H base network_name (m ∷ rest)

  -- `base` is `prometheus.PushgatewayBase`.
  pub report_node_errors : {Query : Type 0} → RpcHandler Query → Result RoundPanic (List Outgoing)
  unfolding error_metrics push_metrics
  report_node_errors h =
      if base == "" then ok [] else elim (error_metrics 0 h.nodes h.node_error_counts) [
        | err e ↦ err e
        | ok metrics ↦ ok (push_if_any h.config.chain_name metrics)
      ]

module _ (J : Jq) (F : Floats) (H : Http) (base : String) where
  open J use {Query}

  abbrev pub reported :
      List Outgoing
      → RpcHandler Query
      → Result RoundPanic (List Outgoing)
      → Result RoundPanic (RpcHandler Query × List Outgoing)
  reported sent h (err e) = err e
  reported sent h (ok reqs) = ok (h, sent ++ reqs)

  -- One turn of the goroutine's loop, after the requests sent so far.
  pub round :
      (ℕ → Net)
      → RpcHandler Query × List Outgoing
      → Result RoundPanic (RpcHandler Query × List Outgoing)
  unfolding report_node_errors
  round net (h, sent) = elim (check_nodes_healthy J F net h) [
    | none ↦ err probe_panics
    | some h' ↦ reported sent h' (report_node_errors H base h')
  ]

  -- The first turns of the loop, one for each state of the network.
  pub rounds :
      List (ℕ → Net)
      → RpcHandler Query × List Outgoing
      → Result RoundPanic (RpcHandler Query × List Outgoing)
  unfolding round
  rounds [] s = ok s
  rounds (net ∷ nets) s = elim (round net s) [ err e ↦ err e | ok s' ↦ rounds nets s' ]
