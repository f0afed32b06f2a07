-- ===== src/Seller/Inbox.antt =====
-- `processSellerInbox` over the in-process hub. A poll is one step: what tasks do meanwhile comes
-- before or after it.
pub mod Laws
use Prim.Native.String.{◌++◌ as append}
use remote_subagent_protocol.Prelude.{
  ℕ, suc, String, Bool, true, false, not, Option, none, some, List, [], ◌∷◌, ◌++◌, ◌&&◌, ◌||◌,
  if◌then◌else◌, truthy, text_or, or_text, or_default, includes, is_some, same_text,
}
use remote_subagent_protocol.Prelude.Dict.{get, put}
use remote_subagent_protocol.Json.{Fields}
use remote_subagent_protocol.Contracts.Signing.{Crypto}
use remote_subagent_protocol.Transport.Messages.{Envelope}
use remote_subagent_protocol.Transport.Mailbox.{Mailboxes}
use remote_subagent_protocol.Transport.Hub
use remote_subagent_protocol.Transport.Hub.{UrlParser}
use remote_subagent_protocol.Seller.Task.{
  Task, State, Overrides, create_task_record, remember_task, get_task_by_request_id, completed,
}
use remote_subagent_protocol.Seller.Artifacts.{Execution}
use remote_subagent_protocol.Seller.Result.{
  build_error_result_payload, build_result_payload, sign_result_payload,
}
use remote_subagent_protocol.Seller.Platform.{
  Platform, Metric, Rejection, Introspection, active, inactive,
}
use remote_subagent_protocol.Seller.Finalize.{send_result_envelope, report_seller_metric}
use remote_subagent_protocol.Seller.Guardrails.{Guardrails, validate_task_guardrails}
use remote_subagent_protocol.Seller.Queue.{enqueue_task}

-- The identifiers that one round draws.
pub record Draw : Type 0 where
  pub request_uuid : String
  pub task_uuid : String
  pub message_uuid : String

pub record Accepted : Type 0 where
  pub message_id : Option String
  pub task_id : String
  pub deduped : Bool
  pub replayed : Bool

-- The state of the loop. `stopped` is an exception of a call of the platform, which leaves the rest
-- of the inbox for the next poll.
pub record Run : Type 0 where
  pub state : State
  pub hub : Mailboxes
  pub accepted : List Accepted
  pub metrics : List Metric
  pub stopped : Bool

-- What the inbox is processed with: `receiver` is the adapter's own, where acknowledgements go.
pub record Seller : Type 0 where
  pub crypto : Crypto
  pub parse_url : UrlParser
  pub receiver : String
  pub platform : Platform
  pub guardrails : Guardrails
  pub executor_types : Option (List String)
  pub now : ℕ

-- The two tests that skip an envelope.
abbrev pub is_for : State → Envelope → Bool
is_for s e =
    not (truthy e.seller_id && not (same_text e.seller_id (some s.seller_id)))
    && not (truthy e.subagent_id && not (includes s.subagent_ids (text_or e.subagent_id "")))

abbrev pub received : State → Envelope → Metric
received s e = record {
  event_type = "seller.task.received";
  request_id = or_text e.request_id none;
  seller_id = s.seller_id;
  subagent_id = or_text e.subagent_id none;
  code = none;
}

abbrev pub overrides_of : Envelope → Overrides
overrides_of e = record {
  result_delivery = e.result_delivery;
  verification = e.verification;
  return_route = or_text e.sender none;
  reply_to = some (text_or e.sender "buyer-controller");
  thread_id = some (text_or e.thread_id (append "req:" (or_default e.request_id "undefined")));
}

unfoldable pub task_of : Seller → Draw → State → Envelope → Task
task_of v d s e =
    create_task_record d.request_uuid d.task_uuid v.now s (overrides_of e)
      (record { envelope = e; task_id = e.task_id; return_route = none; reply_to = none })

-- `transport.send`, where there is something to send.
unfoldable pub send_to_hub : Seller → Draw → Option Envelope → Mailboxes → Mailboxes
send_to_hub v d none hub = hub
send_to_hub v d (some e) hub = (Hub.send v.parse_url v.receiver d.message_uuid v.now e hub).0

-- `transport.ack` and `accepted.push`
unfoldable pub accept : Seller → Envelope → String → Bool → Bool → Run → Run
accept v e task_id deduped replayed run = record run {
  hub = (Hub.ack v.receiver e.message_id none run.hub).0;
  accepted =
      run.accepted
      ++ record {
        message_id = e.message_id;
        task_id = task_id;
        deduped = deduped;
        replayed = replayed;
      }
        ∷ [];
}

-- The task as its result is sent again: to the sender of the repeated envelope.
abbrev pub readdressed : Envelope → Task → Task
readdressed e t = record t {
  return_route = or_text e.sender t.return_route;
  reply_to = or_text e.sender t.reply_to;
  thread_id = text_or e.thread_id t.thread_id;
}

unfoldable pub replay : Seller → Draw → Envelope → Task → Run → Run
unfolding send_to_hub accept
replay v d e t run = accept v e t.task_id true (is_some t.result_package) (record run {
  hub =
      send_to_hub v d
        (send_result_envelope v.crypto d.message_uuid v.now run.state (readdressed e t)) run.hub;
})

-- After the report of a rejection, which may have thrown.
unfoldable pub after_rejection : Seller → Envelope → Task → Bool → Run → Run
unfolding accept
after_rejection v e t true run = accept v e t.task_id false false run
after_rejection v e t false run = record run { stopped = true }

-- The task is stored and sent with its result; the metric comes after both.
unfoldable pub reject : Seller → Draw → Envelope → Task → Fields → Option String → Run → Run
unfolding send_to_hub after_rejection
reject v d e t payload code run =
    let rejected : Task = record t {
      result_package = some (sign_result_payload v.crypto run.state payload);
    } in
    let reported = report_seller_metric v.platform "seller.task.rejected" code rejected in
    after_rejection v e t reported.went_through (record run {
      state = remember_task reported.task run.state;
      hub =
          send_to_hub v d (send_result_envelope v.crypto d.message_uuid v.now run.state rejected)
            run.hub;
      metrics = run.metrics ++ reported.metrics;
    })

-- The status and times of a task that is rejected.
abbrev pub closed : ℕ → Task → Task
closed now t = record t { status = completed; completed_at = some now; updated_at = now }

abbrev pub store : Task → State → State
store t s = record s { tasks = put s.tasks t.task_id t }

-- `ackPlatform` and what the task keeps of it; `none` is an exception.
unfoldable pub ack_task : Seller → Envelope → Task → Option Bool → Run → Run
unfolding accept
ack_task v e t none run = record run { stopped = true }
ack_task v e t (some ok) run =
    accept v e t.task_id false false
      (record run { state = store (record t { acked = ok }) run.state })

-- After the report of an acceptance, which may have thrown.
unfoldable pub after_acceptance : Seller → Envelope → Task → Bool → Run → Run
unfolding ack_task
after_acceptance v e t true run = ack_task v e t (v.platform.ack_platform t) run
after_acceptance v e t false run = record run { stopped = true }

-- The metric and the acknowledgement read and write the task that the queue holds.
unfoldable pub announce : Seller → Envelope → Task → Run → Run
unfolding after_acceptance
announce v e t run =
    let reported = report_seller_metric v.platform "seller.task.accepted" none t in
    after_acceptance v e reported.task reported.went_through (record run {
      state = store reported.task run.state;
      metrics = run.metrics ++ reported.metrics;
    })

unfoldable pub admit : Seller → Envelope → Task → Run → Run
unfolding announce
admit v e t run =
    let s = enqueue_task v.now none t run.state in
    announce v e (or_default (get s.tasks t.task_id) t) (record run { state = s })

unfoldable pub check_guardrails : Seller → Draw → Envelope → Task → Option Execution → Run → Run
unfolding reject admit
check_guardrails v d e t none run = admit v e t run
check_guardrails v d e t (some failure) run =
    let t' = closed v.now t in
    reject v d e t'
      (build_result_payload v.now t' (some (record { execution = failure; artifacts = [] })))
      failure.error_code run

unfoldable pub check_token : Seller → Draw → Envelope → Task → Option Introspection → Run → Run
unfolding reject check_guardrails
check_token v d e t none run = record run { stopped = true }
check_token v d e t (some (inactive rejection)) run =
    let t' = closed v.now t in
    let code : String = text_or rejection.code "AUTH_TOKEN_INVALID" in
    reject v d e t'
      (build_error_result_payload v.now t' code
        (text_or rejection.message "Task token rejected during seller validation") false true none)
      (some code) run
check_token v d e t (some active) run =
    check_guardrails v d e t (validate_task_guardrails t v.guardrails v.executor_types) run

unfoldable pub receive_new : Seller → Draw → Envelope → Option Task → Run → Run
unfolding replay check_token
receive_new v d e (some t) run = replay v d e t run
receive_new v d e none run =
    let t = task_of v d run.state e in
    check_token v d e t (v.platform.introspect_task_token t.task_token) run

abbrev pub noted : Run → Envelope → Run
noted run e = record run { metrics = run.metrics ++ received run.state e ∷ [] }

-- A round by its tests: the loop has stopped, the envelope is for this seller, and its metric went
-- through.
unfoldable pub round : Seller → Draw → Envelope → Run → Bool → Bool → Bool → Run
unfolding receive_new
round v d e run true is_ours posted = run
round v d e run false false posted = run
round v d e run false true false = record (noted run e) { stopped = true }
round v d e run false true true =
    receive_new v d e (get_task_by_request_id run.state e.request_id) (noted run e)

-- One round of the loop.
unfoldable pub receive : Seller → Draw → Envelope → Run → Run
unfolding round
receive v d e run =
    round v d e run run.stopped (is_for run.state e) (v.platform.post_metric (received run.state e))

unfoldable pub receive_all : Seller → (ℕ → Draw) → ℕ → List Envelope → Run → Run
receive_all v draws n [] run = run
receive_all v draws n (e ∷ es) run = receive_all v draws (suc n) es (receive v (draws n) e run)

unfoldable pub process_seller_inbox :
    Seller → (ℕ → Draw) → Option String → ℕ → State → Mailboxes → Run
process_seller_inbox v draws receiver limit s hub =
    let (hub', items) = Hub.poll v.receiver limit (some (text_or receiver s.seller_id)) hub in
    receive_all v draws 0 items
      (record { state = s; hub = hub'; accepted = []; metrics = []; stopped = false })
