-- ===== src/Seller/Finalize.antt =====
-- `sendResultEnvelope`, `reportSellerMetric`, `finalizeTask` and `failTask`.
use Prim.Native.String.{◌++◌ as append}
use remote_subagent_protocol.Prelude.{
  ℕ, String, Bool, true, false, Option, none, some, List, [], ◌∷◌, ◌++◌, if◌then◌else◌, map, truthy,
  text_or, or_text, and_then, includes,
}
use remote_subagent_protocol.Json.{Json, Fields, get, member, as_text, is_text}
use remote_subagent_protocol.Contracts.Signing.{Crypto}
use remote_subagent_protocol.Transport.Messages.{Envelope, Attachment}
use remote_subagent_protocol.Seller.Task.{Task, Artifact, State, completed}
use remote_subagent_protocol.Seller.Artifacts.{Execution, Materialized, enforce_artifact_size_limit}
use remote_subagent_protocol.Seller.Result.{build_result_payload, sign_result_payload}
use remote_subagent_protocol.Seller.Platform.{Platform, Metric}

abbrev pub attachment_of : Artifact → Attachment
attachment_of a = record {
  name = some a.name;
  media_type = some a.media_type;
  byte_size = some a.byte_size;
  content_base64 = some a.content_base64;
}

-- `encode` stands for the text of the body; the transport carries the package as well.
unfoldable pub result_envelope : Crypto → String → ℕ → State → Task → String → Fields → Envelope
result_envelope crypto uuid now s t target result = record {
  message_id = some (append "msg_result_" uuid);
  thread_id = some (text_or (some t.thread_id) (append "req:" t.request_id));
  sender = some s.seller_id;
  to = some target;
  type = some "task.result";
  request_id = some t.request_id;
  task_id = none;
  seller_id = some s.seller_id;
  subagent_id = t.subagent_id;
  task_token = none;
  task_type = none;
  task_input = none;
  payload = none;
  constraints = none;
  simulate = none;
  delay_ms = none;
  lease_ttl_s = none;
  priority = none;
  result_delivery = none;
  verification = t.verification;
  body_text = some (crypto.encode result);
  attachments = some (map attachment_of t.execution_artifacts);
  result_package = some result;
  sent_at = some now;
  queued_at = none;
}

abbrev pub result_target : Task → Option String
result_target t =
    or_text (and_then t.result_delivery (λ d. d.address)) (or_text t.return_route t.reply_to)

unfoldable pub envelope_for : Crypto → String → ℕ → State → Task → Option Fields → Option Envelope
unfolding result_envelope
envelope_for crypto uuid now s t none = none
envelope_for crypto uuid now s t (some result) =
    if truthy (result_target t)
    then some (result_envelope crypto uuid now s t (text_or (result_target t) "") result)
    else none

-- What is handed to the transport, if anything is.
unfoldable pub send_result_envelope : Crypto → String → ℕ → State → Task → Option Envelope
unfolding envelope_for
send_result_envelope crypto uuid now s t = envelope_for crypto uuid now s t t.result_package

abbrev pub metric_key : String → Option String → String
metric_key event_type code = append event_type (append ":" (text_or code ""))

abbrev pub metric_of : Task → String → Option String → Metric
metric_of t event_type code = record {
  event_type = event_type;
  request_id = some t.request_id;
  seller_id = t.seller_id;
  subagent_id = t.subagent_id;
  code = code;
}

-- The task, the metric that was posted, and whether the call went through.
pub record Reported : Type 0 where
  pub task : Task
  pub metrics : List Metric
  pub went_through : Bool

unfoldable pub report_seller_metric : Platform → String → Option String → Task → Reported
report_seller_metric platform event_type code t =
    let key : String = metric_key event_type code in
    let m : Metric = metric_of t event_type code in
    if includes t.metric_flags key
    then record { task = t; metrics = []; went_through = true }
    else record {
      task = record t { metric_flags = t.metric_flags ++ key ∷ [] };
      metrics = m ∷ [];
      went_through = platform.post_metric m;
    }

abbrev pub reported_ok : Fields → Bool
reported_ok result = is_text (some "ok") (get result "status")

-- `result_package.error?.code || "EXEC_UNKNOWN"` for an error
abbrev pub failure_code : Fields → Option String
failure_code result =
    if is_text (some "error") (get result "status")
    then some (text_or (as_text (member (get result "error") "code")) "EXEC_UNKNOWN")
    else none

pub record Finalized : Type 0 where
  pub task : Task
  pub sent : Option Envelope
  pub metrics : List Metric
  pub went_through : Bool

unfoldable pub materialize : Crypto → ℕ → Option Execution → Option Materialized
materialize crypto limit none = none
materialize crypto limit (some e) = some (enforce_artifact_size_limit crypto limit e)

unfoldable pub artifacts_of : Option Materialized → List Artifact
artifacts_of none = []
artifacts_of (some m) = m.artifacts

-- The task once it has its result; the lifecycle event of the platform is only observed.
unfoldable pub complete_task : Crypto → ℕ → ℕ → State → Option Execution → Task → Task
unfolding materialize artifacts_of
complete_task crypto limit now s execution task =
    let m = materialize crypto limit execution in
    let done : Task = record task {
      status = completed;
      completed_at = some now;
      updated_at = now;
      execution_artifacts = artifacts_of m;
    } in
    record done {
      result_package = some (sign_result_payload crypto s (build_result_payload now done m));
    }

unfoldable pub package_of : Task → Fields
package_of t = elim t.result_package [ none ↦ Fields.end | some p ↦ p ]

unfoldable pub finalize_task :
    Crypto → ℕ → Platform → String → ℕ → State → Option Execution → Task → Finalized
unfolding package_of
finalize_task crypto limit platform uuid now s execution task =
    let done = complete_task crypto limit now s execution task in
    let result = package_of done in
    let reported =
      report_seller_metric platform
        (if reported_ok result then "seller.task.succeeded" else "seller.task.failed")
        (failure_code result) done in
    record {
      task = reported.task;
      sent = send_result_envelope crypto uuid now s done;
      metrics = reported.metrics;
      went_through = reported.went_through;
    }

abbrev pub runtime_error : String → Execution
runtime_error message = record {
  deferred = false;
  reason = none;
  status = some "error";
  error_code = some "EXECUTOR_RUNTIME_ERROR";
  error_message = some message;
  error_retryable = false;
  output = none;
  artifacts = [];
  schema_valid = some true;
  usage = some (
      Json.obj (
        Fields.field "tokens_in" (Json.num 0) (Fields.field "tokens_out" (Json.num 0) Fields.end)));
}

unfoldable pub fail_task : Crypto → ℕ → Platform → String → ℕ → State → String → Task → Finalized
fail_task crypto limit platform uuid now s message task =
    finalize_task crypto limit platform uuid now s (some (runtime_error message)) task
