-- ===== src/Seller/Run.antt =====
-- `runQueuedTask`: what follows the execution of a task.
pub mod Laws
use remote_subagent_protocol.Prelude.{
  ℕ, String, Bool, true, false, not, Option, none, some, List, [], ◌∷◌, ◌++◌, ◌==◌, filter_by,
  or_text,
}
use remote_subagent_protocol.Prelude.Dict.{put}
use remote_subagent_protocol.Contracts.Signing.{Crypto}
use remote_subagent_protocol.Transport.Messages.{Envelope}
use remote_subagent_protocol.Seller.Task.{Task, State, running}
use remote_subagent_protocol.Seller.Artifacts.{Execution}
use remote_subagent_protocol.Seller.Platform.{Platform, Metric}
use remote_subagent_protocol.Seller.Finalize.{Finalized, finalize_task, fail_task}
use remote_subagent_protocol.Seller.Queue.{schedule_process_queue}

-- What the executor does: it throws an error with a message, or returns; `none` is a result that is
-- neither an object nor null. On null, the code throws like the executor.
pub data Executed : Type 0 where
  threw : String → Executed
  returned : Option Execution → Executed

-- What a run is made with: `limit` is EMAIL_MAX_ATTACHMENT_BYTES, the two identifiers are for the
-- messages, and `failure` is the message of an exception of the network.
pub record Worker : Type 0 where
  pub crypto : Crypto
  pub platform : Platform
  pub limit : ℕ
  pub message_uuid : String
  pub second_uuid : String
  pub failure : String
  pub now : ℕ

-- The task after the run, the messages that were sent for it, and the metrics.
pub record Finished : Type 0 where
  pub task : Task
  pub sent : List Envelope
  pub metrics : List Metric

abbrev pub sent_of : Option Envelope → List Envelope
sent_of none = []
sent_of (some e) = e ∷ []

abbrev pub finished : Finalized → Finished
finished f = record { task = f.task; sent = sent_of f.sent; metrics = f.metrics }

abbrev pub is_deferred : Option Execution → Bool
is_deferred none = false
is_deferred (some e) = e.deferred

abbrev pub reason_of : Option Execution → String
reason_of none = "deferred"
reason_of (some e) = elim (or_text e.reason none) [ none ↦ "deferred" | some r ↦ r ]

-- The `catch`, after a `finalizeTask` that went through or threw in its metric.
unfoldable pub catch_failure : Worker → State → Finalized → Bool → Finished
catch_failure w s f true = finished f
catch_failure w s f false =
    let again = fail_task w.crypto w.limit w.platform w.second_uuid w.now s w.failure f.task in
    record {
      task = again.task;
      sent = sent_of f.sent ++ sent_of again.sent;
      metrics = f.metrics ++ again.metrics;
    }

unfoldable pub settle : Worker → State → Task → Option Execution → Bool → Finished
unfolding catch_failure
settle w s t e true = record {
  task = record t { status = running; updated_at = w.now; deferred_reason = some (reason_of e) };
  sent = [];
  metrics = [];
}
settle w s t e false =
    let f = finalize_task w.crypto w.limit w.platform w.message_uuid w.now s e t in
    catch_failure w s f f.went_through

unfoldable pub finish_task : Worker → State → Task → Executed → Finished
unfolding settle
finish_task w s t (threw message) =
    finished (fail_task w.crypto w.limit w.platform w.message_uuid w.now s message t)
finish_task w s t (returned e) = settle w s t e (is_deferred e)

-- The `finally`: the task leaves its worker, and the queue goes on.
unfoldable pub run_queued_task : Worker → State → Task → Executed → State × Finished
run_queued_task w s t executed =
    let done = finish_task w s t executed in
    (
      schedule_process_queue w.now none (record s {
        tasks = put s.tasks t.task_id done.task;
        active_task_ids = filter_by (λ id. not (id == t.task_id)) s.active_task_ids;
      }),
      done,
    )
