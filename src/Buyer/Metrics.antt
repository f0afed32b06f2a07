-- ===== src/Buyer/Metrics.antt =====
-- `reportBuyerMetric` and `evaluateTimeoutsWithMetrics`.
use Prim.Native.String.{◌++◌ as append}
use remote_subagent_protocol.Prelude.{
  ℕ, String, ◌≡◌, refl, true, Option, none, some, List, [], ◌∷◌, ◌++◌, if◌then◌else◌, text_or,
  includes, any_by-append, eq_refl, arith, ◌==◌, Bool-cases, inl, inr,
}
use remote_subagent_protocol.Buyer.Request.{Config, Request}
use remote_subagent_protocol.Buyer.Timeouts.{Transition, evaluate_timeouts}
use remote_subagent_protocol.Contracts.{is_terminal}
use remote_subagent_protocol.Buyer.Timeouts.Laws.{evaluate_timeouts-terminal}
use remote_subagent_protocol.Buyer.Client.{Client, Metric}

-- What came of a report: nothing to do, a metric that the platform took, or the client's exception.
pub data Report : Type 0 where
  skipped : Report
  posted : Metric → Report
  threw : Metric → Report

abbrev pub metric_key : String → Option String → String
metric_key event_type code = append event_type (append ":" (text_or code ""))

abbrev pub metric_of : Request → String → Option String → Metric
metric_of r event_type code = record {
  source = "buyer-controller";
  event_type = event_type;
  request_id = r.request_id;
  seller_id = r.seller_id;
  subagent_id = r.subagent_id;
  code = code;
}

post : Client → Metric → Report
post client m = if client.post_metric m then posted m else threw m

-- The flag is set before the metric is posted.
unfoldable pub report_buyer_metric :
    Option Client → String → Option String → Request → Request × Report
unfolding post
report_buyer_metric none event_type code r = (r, skipped)
report_buyer_metric (some client) event_type code r =
    let key : String = metric_key event_type code in
    if includes r.metric_flags key then (r, skipped) else (
      record r { metric_flags = r.metric_flags ++ key ∷ [] },
      post client (metric_of r event_type code),
    )

report_transition :
    Option Client → Request × Option Transition → Request × Option Transition × Report
unfolding report_buyer_metric
report_transition client (r, none) = (r, none, skipped)
report_transition client (r, some t) =
    let (r', report) = report_buyer_metric client t.event_type t.code r in (r', some t, report)

unfoldable pub evaluate_timeouts_with_metrics :
    ℕ → Config → Option Client → Request → Request × Option Transition × Report
unfolding report_transition
evaluate_timeouts_with_metrics now config client r =
    report_transition client (evaluate_timeouts now config r)

includes-append_self : (ks : List String) (k : String) → includes (ks ++ k ∷ []) k ≡ true
includes-append_self ks k = rw (any_by-append (λ x. x == k) ks (k ∷ []), eq_refl k) (ground arith)

-- A report once made of a request is not made again: a second call with the same event and code
-- changes nothing and posts nothing, whichever client it goes through.
pub report_once :
    (client : Client) (later : Option Client) (event_type : String) (code : Option String)
    (r : Request)
    → let r' = (report_buyer_metric (some client) event_type code r).0 in
      report_buyer_metric later event_type code r' ≡ (r', skipped)
unfolding report_buyer_metric
report_once client none event_type code r = refl
report_once client (some other) event_type code r =
    elim (Bool-cases (includes r.metric_flags (metric_key event_type code))) [
      | inl old ↦ rw (old, old)
      | inr new ↦ rw (new, includes-append_self r.metric_flags (metric_key event_type code))
    ]

-- A report changes nothing of the request but its flags.
pub report_buyer_metric-keeps :
    (client : Option Client) (event_type : String) (code : Option String) (r : Request)
    → let r' = (report_buyer_metric client event_type code r).0 in
      (r'.status ≡ r.status)
      × (r'.result_package ≡ r.result_package)
      × (r'.request_id ≡ r.request_id)
unfolding report_buyer_metric
report_buyer_metric-keeps client event_type code r = ground arith

pub evaluate_timeouts_with_metrics-ended :
    (now : ℕ) (config : Config) (client : Option Client) (r : Request)
    → is_terminal r.status ≡ true
    → (evaluate_timeouts_with_metrics now config client r).0 ≡ r
unfolding evaluate_timeouts_with_metrics
evaluate_timeouts_with_metrics-ended now config client r h =
    rw (evaluate_timeouts-terminal now config r h)
