-- ===== src/Buyer/Server/Writes/Laws.antt =====
-- Changing one request keeps what has ended.
use remote_subagent_protocol.Buyer.Client.{Client}
use remote_subagent_protocol.Prelude.{
  ℕ, String, ◌≡◌, refl, [], ◌∷◌, includes, Bool, true, false, Option, none, some, text_or,
}
use remote_subagent_protocol.Prelude.Dict.{get}
use remote_subagent_protocol.Json.{Fields}
use remote_subagent_protocol.Contracts.{is_terminal}
use remote_subagent_protocol.Buyer.Request.{Request, Body, create_request_record}
use remote_subagent_protocol.Buyer.Timeouts.{Transition, decide_timeout}
use remote_subagent_protocol.Buyer.Timeouts.Laws.{decide_timeout-terminal}
use remote_subagent_protocol.Buyer.Result.{apply_result_package}
use remote_subagent_protocol.Buyer.Dispatch.{create_task_contract_draft}
use remote_subagent_protocol.Buyer.Metrics.{report_buyer_metric, metric_key, metric_of}
use remote_subagent_protocol.Buyer.Keeps.{Kept, Kept-report, Keeps-refl, Keeps-put}
use remote_subagent_protocol.Buyer.Server.Reply.{Server, State, finish}
use remote_subagent_protocol.Buyer.Server.Ended.{
  EndedKept, finish-Keeps, if_ended-EndedKept, found-MayReplace,
}
use remote_subagent_protocol.Buyer.Server.Writes.{
  create_request, draft_contract, draft_found, mark_sent, mark_sent_found, acknowledge, ack_request,
  ack_found, post_result, result_found, result_body, store_result, decide, decision_found,
  decision_report,
}

pub create_request-EndedKept :
    (v : Server) (s : State) (b : Body)
    → get s.requests (text_or b.request_id v.uuid) ≡ none
    → EndedKept s (create_request v s (some b))
unfolding create_request create_request_record
create_request-EndedKept v s b fresh = Keeps-put s.requests _ _ (λ old found ended. cc)

draft-Kept : (now : ℕ) (b : Body) (r : Request) → Kept r (create_task_contract_draft now b r).0
unfolding create_task_contract_draft
draft-Kept now b r = record { status = refl; result_package = refl }

draft_found-EndedKept :
    (v : Server) (s : State) (k : String) (o : Option Request) (b : Option Body)
    → get s.requests k ≡ o
    → EndedKept s (draft_found v s k o b)
unfolding draft_found
draft_found-EndedKept v s k none b e = Keeps-refl s.requests
draft_found-EndedKept v s k (some r) none e = Keeps-refl s.requests
draft_found-EndedKept v s k (some r) (some b) e =
    Keeps-put s.requests k _ (found-MayReplace s.requests k r _ e (λ _. draft-Kept v.now b r))

pub draft_contract-EndedKept :
    (v : Server) (s : State) (k : String) (b : Option Body) → EndedKept s (draft_contract v s k b)
unfolding draft_contract
draft_contract-EndedKept v s k b = draft_found-EndedKept v s k (get s.requests k) b refl

mark_sent_found-EndedKept :
    (v : Server) (s : State) (k : String) (o : Option Request)
    → get s.requests k ≡ o
    → EndedKept s (mark_sent_found v s k o)
unfolding mark_sent_found
mark_sent_found-EndedKept v s k none e = Keeps-refl s.requests
mark_sent_found-EndedKept v s k (some r) e =
    if_ended-EndedKept s k r _ _ (Keeps-refl s.requests)
      λ live. finish-Keeps s k _ _ _ (found-MayReplace s.requests k r _ e (λ over. cc))

pub mark_sent-EndedKept : (v : Server) (s : State) (k : String) → EndedKept s (mark_sent v s k)
unfolding mark_sent
mark_sent-EndedKept v s k = mark_sent_found-EndedKept v s k (get s.requests k) refl

acknowledge-Kept :
    (now : ℕ) (r : Request) → is_terminal r.status ≡ true → Kept r (acknowledge now r)
unfolding acknowledge
acknowledge-Kept now r h = rw h (record { status = refl; result_package = refl })

ack_found-EndedKept :
    (v : Server) (s : State) (k : String) (o : Option Request)
    → get s.requests k ≡ o
    → EndedKept s (ack_found v s k o)
unfolding ack_found
ack_found-EndedKept v s k none e = Keeps-refl s.requests
ack_found-EndedKept v s k (some r) e = finish-Keeps s k _ _ _ (
    found-MayReplace s.requests k r _ e
      λ over. Kept-report v.client _ none r _ (acknowledge-Kept v.now r over))

pub ack_request-EndedKept : (v : Server) (s : State) (k : String) → EndedKept s (ack_request v s k)
unfolding ack_request
ack_request-EndedKept v s k = ack_found-EndedKept v s k (get s.requests k) refl

store_result-EndedKept :
    (v : Server) (s : State) (k : String) (r : Request) (settled : Request × Transition)
    → get s.requests k ≡ some r
    → is_terminal r.status ≡ false
    → EndedKept s (store_result v s k settled)
unfolding store_result
store_result-EndedKept v s k r (r', t) e live =
    finish-Keeps s k _ _ _ (found-MayReplace s.requests k r _ e (λ over. cc))

body-EndedKept :
    (v : Server) (s : State) (k : String) (r : Request) (b : Option Fields)
    → get s.requests k ≡ some r
    → is_terminal r.status ≡ false
    → EndedKept s (result_body v s k r b)
unfolding result_body
body-EndedKept v s k r none e live = Keeps-refl s.requests
body-EndedKept v s k r (some b) e live =
    store_result-EndedKept v s k r (apply_result_package v.crypto v.now r b []) e live

result_found-EndedKept :
    (v : Server) (s : State) (k : String) (o : Option Request) (b : Option Fields)
    → get s.requests k ≡ o
    → EndedKept s (result_found v s k o b)
unfolding result_found
result_found-EndedKept v s k none b e = Keeps-refl s.requests
result_found-EndedKept v s k (some r) b e =
    if_ended-EndedKept s k r _ _ (Keeps-refl s.requests) (body-EndedKept v s k r b e)

pub post_result-EndedKept :
    (v : Server) (s : State) (k : String) (b : Option Fields) → EndedKept s (post_result v s k b)
unfolding post_result
post_result-EndedKept v s k b = result_found-EndedKept v s k (get s.requests k) b refl

decision_report-Kept :
    (v : Server) (continue : Bool) (old r : Request)
    → Kept old r
    → Kept old (decision_report v continue r).0
unfolding decision_report
decision_report-Kept v true old r h = h
decision_report-Kept v false old r h = Kept-report v.client _ _ old r h

decided-Kept :
    (now : ℕ) (continue : Bool) (r : Request)
    → is_terminal r.status ≡ true
    → Kept r (decide_timeout now continue r)
decided-Kept now continue r over =
    let kept = decide_timeout-terminal now continue r over in
    record { status = kept.0; result_package = kept.1 }

decision_found-EndedKept :
    (v : Server) (s : State) (k : String) (o : Option Request) (b : Option Bool)
    → get s.requests k ≡ o
    → EndedKept s (decision_found v s k o b)
unfolding decision_found
decision_found-EndedKept v s k none b e = Keeps-refl s.requests
decision_found-EndedKept v s k (some r) none e = Keeps-refl s.requests
decision_found-EndedKept v s k (some r) (some b) e = finish-Keeps s k _ _ _ (
    found-MayReplace s.requests k r _ e
      λ over. decision_report-Kept v b r _ (decided-Kept v.now b r over))

pub decide-EndedKept :
    (v : Server) (s : State) (k : String) (b : Option Bool) → EndedKept s (decide v s k b)
unfolding decide
decide-EndedKept v s k b = decision_found-EndedKept v s k (get s.requests k) b refl

pub create_request-not_json : (v : Server) (s : State) → EndedKept s (create_request v s none)
unfolding create_request
create_request-not_json v s = Keeps-refl s.requests

-- A decision to stop waiting, made of a request that has ended, still reports it to the platform
-- as timed out, where that was not reported before and the platform takes the metric.
pub stop_reports_ended_as_timed_out :
    (v : Server) (s : State) (k : String) (client : Client) (r : Request)
    → get s.requests k ≡ some r
    → v.client ≡ some client
    → is_terminal r.status ≡ true
    → includes r.metric_flags (metric_key "buyer.request.timed_out" r.last_error_code) ≡ false
    → client.post_metric (metric_of r "buyer.request.timed_out" r.last_error_code) ≡ true
    → (decide v s k (some false)).metrics
      ≡ metric_of r "buyer.request.timed_out" r.last_error_code ∷ []
unfolding decide finish report_buyer_metric decide_timeout
stop_reports_ended_as_timed_out v s k client r there e over new taken =
    rw (there, over, e, new, taken)
