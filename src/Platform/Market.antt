-- ===== src/Platform/Market.antt =====
-- The platform's sellers and catalog, who may see and change them, and the histories of what was
-- reviewed and administered. An account of the caller is its entry in `state.apiKeys`; `none` is a
-- key that is missing or unknown.
pub mod Access
pub mod Review
pub mod Submit
pub mod Upkeep
pub mod Admin
pub mod Operations
pub mod Sound
pub mod Publish
pub mod Unrotated
use remote_subagent_protocol.Prelude.{
  ℕ, String, Bool, true, false, Option, none, some, List, [], ◌∷◌, ◌==◌, ◌&&◌, ◌||◌, includes,
  is_some, or_default, if◌then◌else◌, and_then,
}
use remote_subagent_protocol.Prelude.Dict.{Dict, get, put}
use remote_subagent_protocol.Json.{Json}
use remote_subagent_protocol.Platform.Answer.{Answer, ok, send_error}
use remote_subagent_protocol.Platform.History.{push_capped}
use remote_subagent_protocol.Platform.Keys.{
  User, Status, enabled, disabled, ReviewStatus, pending, approved, rejected, SellerAccount,
  KeyRecord, admin_key, buyer_key, seller_key, Accounts,
}

-- A subagent in the catalog.
pub record Item : Type 0 where
  pub seller_id : String
  pub subagent_id : String
  pub display_name : String
  pub description : Option String
  pub status : Status
  pub review_status : ReviewStatus
  pub submission_version : ℕ
  pub submitted_at : ℕ
  pub reviewed_at : Option ℕ
  pub reviewed_by : Option String
  pub review_reason : Option String
  pub availability_status : String
  pub last_heartbeat_at : ℕ
  pub template_ref : String
  pub task_types : List String
  pub capabilities : List String
  pub tags : List String
  pub input_schema : Option Json
  pub output_schema : Option Json
  pub seller_public_key_pem : Option String
  pub seller_public_keys_pem : List String
  pub signing_key_rotation_window_until : Option String
  pub task_delivery_address : String

pub record Target : Type 0 where
  pub type : String
  pub id : String

abbrev pub on_user : String → Target
on_user id = record { type = "user"; id = id }

abbrev pub on_seller : String → Target
on_seller id = record { type = "seller"; id = id }

abbrev pub on_subagent : String → Target
on_subagent id = record { type = "subagent"; id = id }

pub record Actor : Type 0 where
  pub actor_type : String
  pub actor_id : Option String

pub record AuditEvent : Type 0 where
  pub id : String
  pub action : String
  pub target : Target
  pub recorded_at : ℕ
  pub actor : Actor
  pub detail : Option String

pub record ReviewEvent : Type 0 where
  pub id : String
  pub review_status : ReviewStatus
  pub target : Target
  pub recorded_at : ℕ
  pub actor : Actor
  pub reason : Option String
  pub seller_id : Option String
  pub subagent_id : Option String
  pub submission_version : Option ℕ

-- What the seller of a subagent submitted last.
pub record Submission : Type 0 where
  pub seller_id : String
  pub subagent_id : String
  pub owner_user_id : String
  pub submitted_at : ℕ
  pub submitted_by : String
  pub review_reason : Option String
  pub submission_version : ℕ
  pub latest_review_test_request_id : Option String

pub record Template : Type 0 where
  pub template_ref : String
  pub input_schema : Option Json
  pub output_schema : Option Json

pub record Market : Type 0 where
  pub accounts : Accounts
  pub catalog : Dict Item
  pub templates : Dict Template
  pub submissions : Dict Submission
  pub audit_events : List AuditEvent
  pub review_events : List ReviewEvent
  pub subagents_per_seller : Option ℕ
  pub telemetry_history : ℕ

-- What a call draws from the platform: the time, fresh ids for its events, and a fresh key.
pub record Draw : Type 0 where
  pub now : ℕ
  pub event_id : String
  pub second_event_id : String
  pub user_id : String
  pub api_key : String

abbrev pub describe_actor : Option KeyRecord → Actor
describe_actor none = record { actor_type = "system"; actor_id = none }
describe_actor (some admin_key) = record { actor_type = "admin"; actor_id = some "platform_admin" }
describe_actor (some (buyer_key user scopes)) = record {
  actor_type = "buyer";
  actor_id = some user;
}
describe_actor (some (seller_key id owner scopes subagents)) = record {
  actor_type = "seller";
  actor_id = if id == "" then none else some id;
}

unfoldable pub append_audit_event :
    Draw → Option KeyRecord → String → Target → Option String → Market → Market
append_audit_event d auth action target detail s = record s {
  audit_events = push_capped s.telemetry_history s.audit_events (record {
    id = d.event_id;
    action = action;
    target = target;
    recorded_at = d.now;
    actor = describe_actor auth;
    detail = detail;
  });
}

unfoldable pub append_review_event : ReviewEvent → Market → Market
append_review_event e s = record s {
  review_events = push_capped s.telemetry_history s.review_events e;
}

-- The seller or the subagent is replaced in its map.
abbrev pub set_seller : String → SellerAccount → Market → Market
set_seller id a s = record s {
  accounts = record s.accounts { sellers = put s.accounts.sellers id a };
}

abbrev pub set_item : String → Item → Market → Market
set_item id i s = record s { catalog = put s.catalog id i }
