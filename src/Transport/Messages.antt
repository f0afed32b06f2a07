-- ===== src/Transport/Messages.antt =====
-- Envelopes, as buyer and seller build and read them. Every field may be missing.
use remote_subagent_protocol.Prelude.{ℕ, String, Option, List}
use remote_subagent_protocol.Json.{Json, Fields}

pub record Delivery : Type 0 where
  pub kind : Option String
  pub address : Option String
  pub thread_hint : Option String

pub record Verification : Type 0 where
  pub display_code : Option String

pub record Attachment : Type 0 where
  pub name : Option String
  pub media_type : Option String
  pub byte_size : Option ℕ
  pub content_base64 : Option String

pub record Constraints : Type 0 where
  pub soft_timeout_s : Option Json
  pub hard_timeout_s : Option Json

pub record Envelope : Type 0 where
  pub message_id : Option String
  pub thread_id : Option String
  pub sender : Option String
  pub to : Option String
  pub type : Option String
  pub request_id : Option String
  pub task_id : Option String
  pub seller_id : Option String
  pub subagent_id : Option String
  pub task_token : Option String
  pub task_type : Option String
  pub task_input : Option Json
  pub payload : Option Json
  pub constraints : Option Constraints
  pub simulate : Option String
  pub delay_ms : Option ℕ
  pub lease_ttl_s : Option ℕ
  pub priority : Option ℕ
  pub result_delivery : Option Delivery
  pub verification : Option Verification
  pub body_text : Option String
  pub attachments : Option (List Attachment)
  pub result_package : Option Fields
  pub sent_at : Option ℕ
  pub queued_at : Option ℕ

-- An event of a request's history on the platform.
pub record Event : Type 0 where
  pub event_type : String
  pub at : Option ℕ
  pub actor_type : Option String
  pub seller_id : Option String
  pub subagent_id : Option String
  pub status : Option String
  pub error_code : Option String
  pub finished_at : Option ℕ
  pub eta_hint_s : Option ℕ

-- What the platform tells a buyer about where to send a task and get its result.
pub record DeliveryMeta : Type 0 where
  pub task_delivery : Option Delivery
  pub result_delivery : Option Delivery
  pub thread_hint : Option String
  pub verification : Option Verification
  pub seller_public_key_pem : Option String
