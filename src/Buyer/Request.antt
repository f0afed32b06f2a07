-- ===== src/Buyer/Request.antt =====
-- The buyer's record of a request: `loadBuyerConfig`'s result, `createRequestRecord`, `markUpdated`
-- and `setSentState`. Times are milliseconds; an operation reads the clock once, as `now`.
use remote_subagent_protocol.Prelude.{
  ℕ, ◌+◌, ◌*◌, String, Bool, false, Option, none, some, List, [], ◌∷◌, ◌++◌, or_text, text_or,
  number_or, or_default, or_else,
}
use remote_subagent_protocol.Json.{Json, Fields}
use remote_subagent_protocol.Contracts.{Status, created, sent}
use remote_subagent_protocol.Transport.Messages.{Delivery, Verification, Event, DeliveryMeta}

pub record Config : Type 0 where
  pub ack_deadline_s : Option ℕ
  pub timeout_confirmation_mode : String
  pub hard_timeout_auto_finalize : Bool
  pub events_sync_batch_size : ℕ

pub data Decision : Type 0 where
  pending continue_wait stop_wait : Decision

pub record ConfigSnapshot : Type 0 where
  pub ack_deadline_s : ℕ
  pub timeout_confirmation_mode : String
  pub hard_timeout_auto_finalize : Bool

pub record Contract : Type 0 where
  pub request_id : String
  pub contract_version : String
  pub created_at : ℕ
  pub buyer_id : String
  pub result_delivery : Option Delivery
  pub seller_id : Option String
  pub subagent_id : Option String
  pub task_type : Option String
  pub input : Json
  pub output_schema : Option Json
  pub soft_timeout_s : Option ℕ
  pub hard_timeout_s : Option ℕ
  pub token : Option String
  pub thread_hint : String
  pub source_run_id : Option String
  pub verification : Option Verification

pub record Request : Type 0 where
  pub request_id : String
  pub buyer_id : String
  pub seller_id : Option String
  pub subagent_id : Option String
  pub contract_version : String
  pub expected_signer_public_key_pem : Option String
  pub status : Status
  pub attempt : ℕ
  pub timeout_decision : Decision
  pub needs_timeout_confirmation : Bool
  pub timeline : List (ℕ × String)
  pub created_at : ℕ
  pub updated_at : ℕ
  pub ack_deadline_s : ℕ
  pub ack_deadline_at : Option ℕ
  pub soft_timeout_s : ℕ
  pub hard_timeout_s : ℕ
  pub soft_timeout_at : ℕ
  pub hard_timeout_at : ℕ
  pub config_snapshot : ConfigSnapshot
  pub task_token : Option String
  pub result_delivery : Option Delivery
  pub verification : Option Verification
  pub delivery_meta : Option DeliveryMeta
  pub platform_events : List Event
  pub platform_completed_at : Option ℕ
  pub platform_failed_at : Option ℕ
  pub platform_last_event : Option Event
  pub result_package : Option Fields
  pub contract_draft : Option Contract
  pub last_error_code : Option String
  pub metric_flags : List String
  pub sent_at : Option ℕ
  pub acknowledged_at : Option ℕ
  pub timed_out_at : Option ℕ
  pub ack_eta_hint_s : Option ℕ
  pub task_type : Option String
  pub task_input : Option Json
  pub output_schema : Option Json
  pub source_run_id : Option String

-- The fields that the handlers read of a body.
pub record Body : Type 0 where
  pub request_id : Option String
  pub buyer_id : Option String
  pub seller_id : Option String
  pub subagent_id : Option String
  pub contract_version : Option String
  pub expected_signer_public_key_pem : Option String
  pub attempt : Option ℕ
  pub ack_deadline_s : Option ℕ
  pub soft_timeout_s : Option ℕ
  pub hard_timeout_s : Option ℕ
  pub ack_deadline_at : Option ℕ
  pub task_token : Option String
  pub result_delivery : Option Delivery
  pub task_delivery : Option Delivery
  pub task_delivery_address : Option String
  pub verification : Option Verification
  pub delivery_meta : Option DeliveryMeta
  pub contract_draft : Option Contract
  pub task_type : Option String
  pub task_input : Option Json
  pub input : Option Json
  pub output_schema : Option Json
  pub thread_hint : Option String
  pub source_run_id : Option String
  pub created_at : Option ℕ
  -- the spellings sellerId, subagentId and resultDelivery, which the preparation reads too
  pub camel_seller_id : Option String
  pub camel_subagent_id : Option String
  pub camel_result_delivery : Option Delivery
  pub message_id : Option String
  pub thread_id : Option String
  pub sender : Option String
  pub to : Option String
  pub type : Option String
  pub payload : Option Json
  pub simulate : Option String
  pub delay_ms : Option ℕ
  pub lease_ttl_s : Option ℕ
  pub priority : Option ℕ

abbrev pub local_delivery : Delivery
local_delivery = record {
  kind = some "local";
  address = some "buyer-controller";
  thread_hint = none;
}

unfoldable pub create_request_record : Config → String → ℕ → Body → Request
create_request_record config uuid now body =
    let ack_deadline : ℕ = number_or body.ack_deadline_s (number_or config.ack_deadline_s 120) in
    let soft : ℕ = number_or body.soft_timeout_s 90 in
    let hard : ℕ = number_or body.hard_timeout_s 300 in
    record {
      request_id = text_or body.request_id uuid;
      buyer_id = text_or body.buyer_id "buyer_default";
      seller_id = or_text body.seller_id none;
      subagent_id = or_text body.subagent_id none;
      contract_version = text_or body.contract_version "0.1.0";
      expected_signer_public_key_pem = or_text body.expected_signer_public_key_pem none;
      status = created;
      attempt = number_or body.attempt 1;
      timeout_decision = pending;
      needs_timeout_confirmation = false;
      timeline = (now, "CREATED") ∷ [];
      created_at = now;
      updated_at = now;
      ack_deadline_s = ack_deadline;
      ack_deadline_at = body.ack_deadline_at;
      soft_timeout_s = soft;
      hard_timeout_s = hard;
      soft_timeout_at = now + soft * 1000;
      hard_timeout_at = now + hard * 1000;
      config_snapshot = record {
        ack_deadline_s = ack_deadline;
        timeout_confirmation_mode = config.timeout_confirmation_mode;
        hard_timeout_auto_finalize = config.hard_timeout_auto_finalize;
      };
      task_token = or_text body.task_token none;
      result_delivery = or_else body.result_delivery (some local_delivery);
      verification = body.verification;
      delivery_meta = body.delivery_meta;
      platform_events = [];
      platform_completed_at = none;
      platform_failed_at = none;
      platform_last_event = none;
      result_package = none;
      contract_draft = body.contract_draft;
      last_error_code = none;
      metric_flags = [];
      sent_at = none;
      acknowledged_at = none;
      timed_out_at = none;
      ack_eta_hint_s = none;
      task_type = none;
      task_input = none;
      output_schema = none;
      source_run_id = none;
    }

unfoldable pub mark_updated : ℕ → String → Request → Request
mark_updated now event r = record r { updated_at = now; timeline = r.timeline ++ (now, event) ∷ [] }

unfoldable pub set_sent_state : ℕ → Request → Request
unfolding mark_updated
set_sent_state now r = mark_updated now "SENT" (record r {
  status = sent;
  last_error_code = none;
  sent_at = some (or_default r.sent_at now);
  ack_deadline_at = some (now + r.ack_deadline_s * 1000);
})
