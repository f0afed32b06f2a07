-- ===== src/Buyer/Server/Reads.antt =====
-- The calls that read: lists, one request, its result. Reading looks at the deadlines too.
pub mod Laws
use remote_subagent_protocol.Prelude.{
  ℕ, String, Bool, true, false, not, Option, none, some, List, [], ◌∷◌, ◌++◌, ◌||◌, ◌&&◌, map,
  if◌then◌else◌, is_some, or_default,
}
use remote_subagent_protocol.Prelude.Dict.{Dict, get, put}
use remote_subagent_protocol.Json.{Fields}
use remote_subagent_protocol.Contracts.{is_terminal}
use remote_subagent_protocol.Buyer.Request.{Request}
use remote_subagent_protocol.Buyer.Timeouts.{Transition}
use remote_subagent_protocol.Buyer.Client.{Metric}
use remote_subagent_protocol.Buyer.Metrics.{
  Report, skipped, posted, threw, evaluate_timeouts_with_metrics,
}
use remote_subagent_protocol.Buyer.Server.Reply.{
  Server, State, Reply, request_is, requests_are, result_is, Outcome, answer, no_request,
  internal_error, with_state,
}

-- The loop of GET /controller/requests.
pub record Sweep : Type 0 where
  pub state : State
  pub metrics : List Metric
  pub mutated : Bool
  pub stopped : Bool

sweep_one : String → Request × Option Transition × Report → Sweep → Sweep
sweep_one k (r, t, skipped) w = record w {
  state = with_state w.state k r;
  mutated = w.mutated || is_some t;
}
sweep_one k (r, t, posted m) w = record w {
  state = with_state w.state k r;
  metrics = w.metrics ++ m ∷ [];
  mutated = w.mutated || is_some t;
}
sweep_one k (r, t, threw m) w = record w { state = with_state w.state k r; stopped = true }

sweep : Server → Dict Request → Sweep → Sweep
unfolding sweep_one
sweep v [] w = w
sweep v ((k, r) ∷ rest) w =
    let now_is : Request = or_default (get w.state.requests k) r in
    let w' = sweep_one k (evaluate_timeouts_with_metrics v.now v.config v.client now_is) w in
    sweep v rest (if w.stopped then w else w')

pub list_requests : Server → State → Outcome
unfolding sweep
list_requests v s =
    let w =
      sweep v s.requests (record { state = s; metrics = []; mutated = false; stopped = false }) in
    record {
      state = w.state;
      metrics = w.metrics;
      saved = not w.stopped && w.mutated;
      reply = if w.stopped then internal_error else requests_are (map (λ e. e.1) w.state.requests);
    }

read_checked : State → String → Request × Option Transition × Report → Outcome
read_checked s k (r, t, skipped) = record {
  state = with_state s k r;
  metrics = [];
  saved = is_some t;
  reply = request_is 200 r;
}
read_checked s k (r, t, posted m) = record {
  state = with_state s k r;
  metrics = m ∷ [];
  saved = is_some t;
  reply = request_is 200 r;
}
read_checked s k (r, t, threw m) = answer (with_state s k r) internal_error

read_found : Server → State → String → Option Request → Outcome
unfolding read_checked
read_found v s k none = no_request s
read_found v s k (some r) =
    read_checked s k (evaluate_timeouts_with_metrics v.now v.config v.client r)

pub read_request : Server → State → String → Outcome
unfolding read_found
read_request v s k = read_found v s k (get s.requests k)

result_found : State → Option Request → Outcome
result_found s none = no_request s
result_found s (some r) =
    if not (is_terminal r.status) || not (is_some r.result_package)
    then answer s (result_is false r.status none)
    else answer s (result_is true r.status r.result_package)

pub read_result : State → String → Outcome
unfolding result_found
read_result s k = result_found s (get s.requests k)
