-- ===== src/Seller/Task.antt =====
-- The seller's state and tasks: `createSellerState`'s fields, `createTaskRecord`, `rememberTask` and
-- `getTaskByRequestId`. Times are milliseconds.
use Prim.Native.String.{◌++◌ as append}
use remote_subagent_protocol.Prelude.{
  ℕ, String, Bool, true, Option, none, some, List, [], or_text, text_or, number_or, or_default,
  or_else, head?, truthy, if◌then◌else◌, and_then,
}
use remote_subagent_protocol.Prelude.Dict.{Dict, get, put}
use remote_subagent_protocol.Json.{Json, Fields}
use remote_subagent_protocol.Transport.Messages.{Envelope, Delivery, Verification, Constraints}

pub data TaskStatus : Type 0 where
  queued running completed : TaskStatus

-- An artifact as `materializeArtifacts` makes it.
pub record Artifact : Type 0 where
  pub artifact_id : String
  pub name : String
  pub media_type : String
  pub byte_size : ℕ
  pub sha256 : String
  pub content_base64 : String

pub record Task : Type 0 where
  pub task_id : String
  pub request_id : String
  pub subagent_id : Option String
  pub task_type : Option String
  pub task_input : Option Json
  pub payload : Option Json
  pub constraints : Option Constraints
  pub simulate : String
  pub priority : ℕ
  pub delay_ms : ℕ
  pub lease_ttl_s : ℕ
  pub status : TaskStatus
  pub acked : Bool
  pub accepted_at : ℕ
  pub enqueued_at : ℕ
  pub updated_at : ℕ
  pub result_package : Option Fields
  pub result_delivery : Option Delivery
  pub verification : Option Verification
  pub return_route : Option String
  pub reply_to : Option String
  pub thread_id : String
  pub task_token : Option String
  pub seller_id : String
  pub started_at : Option ℕ
  pub completed_at : Option ℕ
  pub lease_expires_at : Option ℕ
  pub deferred_reason : Option String
  pub execution_artifacts : List Artifact
  pub metric_flags : List String

pub record State : Type 0 where
  pub tasks : Dict Task
  pub request_index : Dict String
  pub queue : List String
  pub active_task_ids : List String
  pub worker_concurrency : ℕ
  pub private_key : String
  pub public_key_pem : String
  pub seller_id : String
  pub subagent_ids : List String

-- What a task is made of: an envelope, or a body of the same fields with an id for the task.
pub record Input : Type 0 where
  pub envelope : Envelope
  pub task_id : Option String
  pub return_route : Option String
  pub reply_to : Option String

pub record Overrides : Type 0 where
  pub result_delivery : Option Delivery
  pub verification : Option Verification
  pub return_route : Option String
  pub reply_to : Option String
  pub thread_id : Option String

abbrev pub no_overrides : Overrides
no_overrides = record {
  result_delivery = none;
  verification = none;
  return_route = none;
  reply_to = none;
  thread_id = none;
}

unfoldable pub create_task_record : String → String → ℕ → State → Overrides → Input → Task
create_task_record uuid task_uuid now state overrides input =
    let e = input.envelope in
    let request_id : String = text_or e.request_id uuid in
    record {
      task_id = text_or input.task_id task_uuid;
      request_id = request_id;
      subagent_id = or_text e.subagent_id (head? state.subagent_ids);
      task_type = or_text e.task_type none;
      task_input = or_else e.task_input e.payload;
      payload = or_else e.payload e.task_input;
      constraints = e.constraints;
      simulate = text_or e.simulate "success";
      priority = number_or e.priority 5;
      delay_ms = number_or e.delay_ms 80;
      lease_ttl_s = number_or e.lease_ttl_s 30;
      status = queued;
      acked = true;
      accepted_at = now;
      enqueued_at = now;
      updated_at = now;
      result_package = none;
      result_delivery = or_else overrides.result_delivery e.result_delivery;
      verification = or_else overrides.verification e.verification;
      return_route = or_else overrides.return_route input.return_route;
      reply_to = or_else overrides.reply_to input.reply_to;
      thread_id =
          or_default overrides.thread_id (or_default e.thread_id (append "req:" request_id));
      task_token = or_text e.task_token none;
      seller_id = text_or e.seller_id state.seller_id;
      started_at = none;
      completed_at = none;
      lease_expires_at = none;
      deferred_reason = none;
      execution_artifacts = [];
      metric_flags = [];
    }

unfoldable pub remember_task : Task → State → State
remember_task t s = record s {
  tasks = put s.tasks t.task_id t;
  request_index = put s.request_index t.request_id t.task_id;
}

-- `taskId ? tasks.get(taskId) || null : null`
unfoldable pub task_by_id : Dict Task → Option String → Option Task
task_by_id tasks none = none
task_by_id tasks (some id) = if truthy (some id) then get tasks id else none

unfoldable pub get_task_by_request_id : State → Option String → Option Task
unfolding task_by_id
get_task_by_request_id s request_id =
    task_by_id s.tasks (and_then request_id (λ id. get s.request_index id))
