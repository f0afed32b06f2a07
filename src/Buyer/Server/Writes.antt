-- ===== src/Buyer/Server/Writes.antt =====
-- The calls that change one request: creation, contract draft, mark-sent, acknowledgement, result,
-- timeout decision.
pub mod Laws
use remote_subagent_protocol.Prelude.{
  ℕ, String, Bool, true, false, not, Option, none, some, List, [], ◌∷◌, ◌++◌, ◌||◌, if◌then◌else◌,
}
use remote_subagent_protocol.Prelude.Dict.{get, put}
use remote_subagent_protocol.Json.{Fields}
use remote_subagent_protocol.Contracts.{acked, is_terminal}
use remote_subagent_protocol.Buyer.Request.{
  Request, Body, create_request_record, mark_updated, set_sent_state,
}
use remote_subagent_protocol.Buyer.Timeouts.{Transition, decide_timeout}
use remote_subagent_protocol.Buyer.Result.{apply_result_package}
use remote_subagent_protocol.Buyer.Metrics.{Report, skipped, report_buyer_metric}
use remote_subagent_protocol.Buyer.Dispatch.{create_task_contract_draft}
use remote_subagent_protocol.Buyer.Server.Reply.{
  Server, State, Reply, request_is, contract_is, Outcome, answer, refuse, no_request, not_json,
  internal_error, with_state, finish,
}

pub create_request : Server → State → Option Body → Outcome
create_request v s none = not_json s
create_request v s (some body) =
    let r = create_request_record v.config v.uuid v.now body in
    record {
      state = with_state s r.request_id r;
      metrics = [];
      saved = true;
      reply = request_is 201 r;
    }

draft_found : Server → State → String → Option Request → Option Body → Outcome
draft_found v s k none body = no_request s
draft_found v s k (some r) none = not_json s
draft_found v s k (some r) (some body) =
    let (r', contract) = create_task_contract_draft v.now body r in
    record {
      state = with_state s k r';
      metrics = [];
      saved = true;
      reply = contract_is r.request_id contract;
    }

pub draft_contract : Server → State → String → Option Body → Outcome
unfolding draft_found
draft_contract v s k body = draft_found v s k (get s.requests k) body

mark_sent_found : Server → State → String → Option Request → Outcome
mark_sent_found v s k none = no_request s
mark_sent_found v s k (some r) =
    if is_terminal r.status
    then answer s (request_is 200 r)
    else finish s k (set_sent_state v.now r, skipped) internal_error (request_is 200)

pub mark_sent : Server → State → String → Outcome
unfolding mark_sent_found
mark_sent v s k = mark_sent_found v s k (get s.requests k)

-- The change that POST /controller/requests/:id/ack makes.
unfoldable pub acknowledge : ℕ → Request → Request
unfolding mark_updated
acknowledge now r =
    if is_terminal r.status
    then r
    else mark_updated now "ACKED"
        (record r { status = acked; acknowledged_at = some now; last_error_code = none })

ack_found : Server → State → String → Option Request → Outcome
ack_found v s k none = no_request s
ack_found v s k (some r) =
    finish s k (report_buyer_metric v.client "buyer.request.acked" none (acknowledge v.now r))
      internal_error (request_is 200)

pub ack_request : Server → State → String → Outcome
unfolding ack_found
ack_request v s k = ack_found v s k (get s.requests k)

store_result : Server → State → String → Request × Transition → Outcome
store_result v s k (r, t) =
    finish s k (report_buyer_metric v.client t.event_type t.code r) internal_error (request_is 200)

result_body : Server → State → String → Request → Option Fields → Outcome
unfolding store_result
result_body v s k r none = not_json s
result_body v s k r (some body) = store_result v s k (apply_result_package v.crypto v.now r body [])

result_found : Server → State → String → Option Request → Option Fields → Outcome
unfolding result_body
result_found v s k none body = no_request s
result_found v s k (some r) body =
    if is_terminal r.status
    then refuse s 409 "REQUEST_ALREADY_TERMINAL" "request has already reached a terminal state"
    else result_body v s k r body

pub post_result : Server → State → String → Option Fields → Outcome
unfolding result_found
post_result v s k body = result_found v s k (get s.requests k) body

-- Only a decision to stop is reported.
decision_report : Server → Bool → Request → Request × Report
decision_report v true r = (r, skipped)
decision_report v false r =
    report_buyer_metric v.client "buyer.request.timed_out" r.last_error_code r

decision_found : Server → State → String → Option Request → Option Bool → Outcome
unfolding decision_report
decision_found v s k none continue = no_request s
decision_found v s k (some r) none = not_json s
decision_found v s k (some r) (some continue) =
    finish s k (decision_report v continue (decide_timeout v.now continue r)) internal_error
      (request_is 200)

-- The body as far as it is read: whether `continue_wait` is true.
pub decide : Server → State → String → Option Bool → Outcome
unfolding decision_found
decide v s k continue = decision_found v s k (get s.requests k) continue
