-- ===== src/Buyer/Server/Remote.antt =====
-- The calls that talk to the platform or the transport: preparation, remote requests, dispatch,
-- synchronisation of events, the pull of the inbox.
pub mod Laws
use remote_subagent_protocol.Prelude.{
  ℕ, String, Bool, true, false, not, Option, none, some, List, [], ◌∷◌, ◌++◌, ◌||◌, if◌then◌else◌,
  text_or,
}
use remote_subagent_protocol.Prelude.Dict.{get, put}
use remote_subagent_protocol.Contracts.{is_terminal}
use remote_subagent_protocol.Transport.Messages.{Envelope}
use remote_subagent_protocol.Transport.Mailbox.{Mailboxes}
use remote_subagent_protocol.Transport.Hub
use remote_subagent_protocol.Buyer.Request.{Request, Body, create_request_record, set_sent_state}
use remote_subagent_protocol.Buyer.Client.{Client}
use remote_subagent_protocol.Buyer.Events.{sync_buyer_request_events}
use remote_subagent_protocol.Buyer.Metrics.{Report, skipped, report_buyer_metric}
use remote_subagent_protocol.Buyer.Dispatch.{
  Prepared, prepared, PrepareError, requires_seller_and_subagent, signer_binding_mismatch, upstream,
  prepare_buyer_request, create_task_contract_draft, build_dispatch_envelope,
}
use remote_subagent_protocol.Buyer.Dispatch
use remote_subagent_protocol.Buyer.Inbox
use remote_subagent_protocol.Buyer.Inbox.{poll_buyer_inbox}
use remote_subagent_protocol.Buyer.Server.Reply.{
  Server, State, Reply, prepared_is, dispatched, remote_is, synced_is, accepted_are, upstream_error,
  Outcome, answer, refuse, no_request, no_platform, no_transport, not_json, internal_error,
  with_state, finish,
}

-- The handlers' `catch`; the first two errors have answers of their own.
prepare_failed : State → String → String → PrepareError → Outcome
prepare_failed s invalid fallback requires_seller_and_subagent =
    refuse s 400 invalid "seller_id and subagent_id are required"
prepare_failed s invalid fallback signer_binding_mismatch =
    refuse s 409 "SIGNER_BINDING_MISMATCH" "expected signer public key does not match catalog"
prepare_failed s invalid fallback upstream = answer s (upstream_error fallback)

prepare_done : State → String → Prepared → Outcome
unfolding prepare_failed
prepare_done s k (Dispatch.refused e) =
    prepare_failed s "CONTRACT_INVALID_PREPARE_REQUEST" "BUYER_PLATFORM_PREPARE_FAILED" e
prepare_done s k (prepared r token) = record {
  state = with_state s k r;
  metrics = [];
  saved = true;
  reply = prepared_is r token;
}

-- A body that is no JSON is an exception within the handler's `try`.
prepare_found : Server → State → Client → String → Option Request → Option Body → Outcome
unfolding prepare_done
prepare_found v s client k none body = no_request s
prepare_found v s client k (some r) none = answer s (upstream_error "BUYER_PLATFORM_PREPARE_FAILED")
prepare_found v s client k (some r) (some body) =
    prepare_done s k (prepare_buyer_request v.now client body r)

prepare_with : Server → State → Option Client → String → Option Body → Outcome
unfolding prepare_found
prepare_with v s none k body = no_platform s
prepare_with v s (some client) k body = prepare_found v s client k (get s.requests k) body

pub prepare_request : Server → State → String → Option Body → Outcome
unfolding prepare_with
prepare_request v s k body = prepare_with v s v.client k body

-- `transport.send`, then SENT unless the request has ended.
send_envelope : Server → State → Envelope → State
send_envelope v s e = record s { hub = (Hub.send v.parse_url v.receiver v.uuid v.now e s.hub).0 }

pub sent_if_active : ℕ → Request → Request
sent_if_active now r = if is_terminal r.status then r else set_sent_state now r

dispatch_to : Server → State → String → Request → Body → Outcome
unfolding send_envelope sent_if_active
dispatch_to v s k r body =
    let envelope = build_dispatch_envelope v.uuid v.now r body in
    finish (send_envelope v s envelope) k
      (report_buyer_metric v.client "buyer.request.dispatched" none (sent_if_active v.now r))
      internal_error (λ r'. dispatched 202 r' envelope)

dispatch_body : Server → State → String → Request → Option Body → Outcome
unfolding dispatch_to
dispatch_body v s k r none = not_json s
dispatch_body v s k r (some body) = dispatch_to v s k r body

dispatch_found : Server → State → String → Option Request → Option Body → Outcome
unfolding dispatch_body
dispatch_found v s k none body = no_request s
dispatch_found v s k (some r) body =
    if not v.has_transport then no_transport s else dispatch_body v s k r body

pub dispatch_request : Server → State → String → Option Body → Outcome
unfolding dispatch_found
dispatch_request v s k body = dispatch_found v s k (get s.requests k) body

-- POST /controller/remote-requests: the record is in the map before the platform is asked.
remote_sent : Server → State → Body → String → Request → Outcome
unfolding send_envelope sent_if_active
remote_sent v s body token r =
    let (r', contract) = create_task_contract_draft v.now body r in
    let envelope =
      build_dispatch_envelope v.uuid v.now r' (record body { task_token = some token }) in
    finish (send_envelope v s envelope) r'.request_id
      (report_buyer_metric v.client "buyer.request.dispatched" none (sent_if_active v.now r'))
      (upstream_error "BUYER_REMOTE_REQUEST_FAILED") (λ r''. remote_is r'' token contract envelope)

remote_prepared : Server → State → Body → Prepared → Outcome
unfolding prepare_failed remote_sent
remote_prepared v s body (Dispatch.refused e) =
    prepare_failed s "CONTRACT_INVALID_REMOTE_REQUEST" "BUYER_REMOTE_REQUEST_FAILED" e
remote_prepared v s body (prepared r token) = remote_sent v s body token r

remote_body : Server → State → Client → Option Body → Outcome
unfolding remote_prepared
remote_body v s client none = answer s (upstream_error "BUYER_REMOTE_REQUEST_FAILED")
remote_body v s client (some body) =
    let r = create_request_record v.config v.uuid v.now body in
    remote_prepared v (with_state s r.request_id r) body (prepare_buyer_request v.now client body r)

remote_with : Server → State → Option Client → Option Body → Outcome
unfolding remote_body
remote_with v s none body = no_platform s
remote_with v s (some client) body =
    if v.has_transport then remote_body v s client body else no_transport s

pub remote_request : Server → State → Option Body → Outcome
unfolding remote_with
remote_request v s body = remote_with v s v.client body

synced_report : Client → Request → Bool → Request × Report
synced_report client r true = report_buyer_metric (some client) "buyer.request.acked" none r
synced_report client r false = (r, skipped)

sync_done : State → Client → String → Option (Request × Bool) → Outcome
unfolding synced_report
sync_done s client k none = answer s (upstream_error "BUYER_PLATFORM_EVENTS_FAILED")
sync_done s client k (some (r, acked)) =
    finish s k (synced_report client r acked) (upstream_error "BUYER_PLATFORM_EVENTS_FAILED")
      (λ r'. synced_is r' acked)

sync_found : Server → State → Client → String → Option Request → Outcome
unfolding sync_done
sync_found v s client k none = no_request s
sync_found v s client k (some r) = sync_done s client k (sync_buyer_request_events v.now client r)

sync_with : Server → State → Option Client → String → Outcome
unfolding sync_found
sync_with v s none k = no_platform s
sync_with v s (some client) k = sync_found v s client k (get s.requests k)

pub sync_events : Server → State → String → Outcome
unfolding sync_with
sync_events v s k = sync_with v s v.client k

-- POST /controller/inbox/pull; the body names another receiver, or none.
pull_done : State → Inbox.Run → Outcome
pull_done s run = record {
  state = record { requests = run.requests; hub = run.hub };
  metrics = run.metrics;
  saved = if run.stopped then false else run.mutated;
  reply = if run.stopped then internal_error else accepted_are run.accepted;
}

pub pull_inbox : Server → State → Option (Option String) → Outcome
unfolding pull_done
pull_inbox v s none = if v.has_transport then not_json s else no_transport s
pull_inbox v s (some receiver) =
    if v.has_transport
    then pull_done s (
        poll_buyer_inbox v.crypto v.parse_json (λ r. v.inbox_client)
          (text_or receiver "buyer-controller") v.now s.requests s.hub)
    else no_transport s
