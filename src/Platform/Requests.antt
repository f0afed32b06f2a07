-- ===== src/Platform/Requests.antt =====
-- The platform's requests: how sellers acknowledge them and write their events. `none` in the place
-- of a caller is a key that is missing or unknown, in the place of a body no JSON.
pub mod Laws
pub mod Parties
pub mod Events
use remote_subagent_protocol.Prelude.{
  ℕ, String, Bool, true, false, not, Option, none, some, List, [], ◌∷◌, ◌==◌, ◌&&◌, ◌||◌, truthy,
  text_or, or_text, or_default, same_text, includes, any_by, find_by, if◌then◌else◌, last?,
  number_or,
}
use remote_subagent_protocol.Prelude.Dict.{Dict, get, put}
use remote_subagent_protocol.Contracts.{StructuredError, build_structured_error}
use remote_subagent_protocol.Transport.Messages.{Event, Delivery, Verification}
use remote_subagent_protocol.Platform.History.{push_capped}

-- The entries of `state.apiKeys`.
pub data Caller : Type 0 where
  admin : Caller
  buyer : String → Caller
  seller : String → List String → Caller

pub record DeliveryMeta : Type 0 where
  pub request_id : String
  pub seller_id : String
  pub subagent_id : String
  pub task_delivery : Delivery
  pub result_delivery : Delivery
  pub verification : Verification
  pub seller_public_key_pem : Option String

pub record Request : Type 0 where
  pub request_id : String
  pub buyer_id : Option String
  pub seller_id : Option String
  pub subagent_id : Option String
  pub request_kind : Option String
  pub request_visibility : Option String
  pub delivery_meta : Option DeliveryMeta
  pub expected_signer_public_key_pem : Option String
  pub events : List Event

-- The body of an acknowledgement or of an event.
pub record Body : Type 0 where
  pub seller_id : Option String
  pub subagent_id : Option String
  pub eta_hint_s : Option ℕ
  pub event_type : Option String
  pub status : Option String
  pub error_code : Option String
  pub finished_at : Option ℕ

pub data Reply : Type 0 where
  accepted : Option Event → Bool → Reply
  refused : ℕ → StructuredError → Reply

abbrev pub refuse : Dict Request → ℕ → String → String → Dict Request × Reply
refuse m status code message = (m, refused status (build_structured_error code message none))

abbrev pub seller_of : Body → String
seller_of b = text_or b.seller_id ""

abbrev pub subagent_of : Body → String
subagent_of b = text_or b.subagent_id ""

-- `request.seller_id && request.seller_id !== body.seller_id`
abbrev pub conflicts : Option String → String → Bool
conflicts bound id = truthy bound && not (same_text bound (some id))

abbrev pub names_parties : Body → Bool
names_parties b = truthy b.seller_id && truthy b.subagent_id

abbrev pub owns : String → List String → Body → Bool
owns id subagents b = (id == seller_of b) && includes subagents (subagent_of b)

abbrev pub bind : Body → Request → Request
bind b r = record r { seller_id = some (seller_of b); subagent_id = some (subagent_of b) }

-- `appendRequestEvent`
unfoldable pub append_request_event : ℕ → Request → Event → Request
append_request_event limit r e = record r { events = push_capped limit r.events e }

abbrev pub is_text_of : Option String → String → Bool
is_text_of o t = same_text o (some t)

abbrev pub is_seller_ack : Event → Bool
is_seller_ack e = (e.event_type == "ACKED") && is_text_of e.actor_type "seller"

abbrev pub ack_event : ℕ → Body → Event
ack_event now b = record {
  event_type = "ACKED";
  at = some now;
  actor_type = some "seller";
  seller_id = none;
  subagent_id = none;
  status = none;
  error_code = none;
  finished_at = none;
  eta_hint_s = some (or_default b.eta_hint_s 0);
}

-- The request after an acknowledgement.
unfoldable pub acknowledged : ℕ → ℕ → Body → Request → Request
unfolding append_request_event
acknowledged now limit b r =
    if any_by is_seller_ack r.events
    then bind b r
    else append_request_event limit (bind b r) (ack_event now b)

module _ (now limit : ℕ) (m : Dict Request) (id : String) where
  -- The two tests of the binding: of the seller, and of the subagent.
  unfoldable pub ack_bound : Body → Request → Bool → Bool → Dict Request × Reply
  ack_bound b r true _ =
      refuse m 409 "REQUEST_BINDING_MISMATCH" "seller_id does not match existing request"
  ack_bound b r false true =
      refuse m 409 "REQUEST_BINDING_MISMATCH" "subagent_id does not match existing request"
  ack_bound b r false false = (put m id (acknowledged now limit b r), accepted none false)

  unfoldable pub ack_found : Body → Option Request → Dict Request × Reply
  unfolding ack_bound
  ack_found b none = refuse m 404 "REQUEST_NOT_FOUND" "no request found with this id"
  ack_found b (some r) =
      ack_bound b r (conflicts r.seller_id (seller_of b)) (conflicts r.subagent_id (subagent_of b))

  -- The tests of the body and of what the caller owns.
  unfoldable pub ack_owned : Body → Bool → Bool → Dict Request × Reply
  unfolding ack_found
  ack_owned b false _ =
      refuse m 400 "CONTRACT_INVALID_ACK_REQUEST" "seller_id and subagent_id are required"
  ack_owned b true false =
      refuse m 403 "AUTH_RESOURCE_FORBIDDEN" "caller does not own the specified seller or subagent"
  ack_owned b true true = ack_found b (get m id)

  -- POST /v1/requests/:id/ack
  unfoldable pub ack_request : Option Caller → Option Body → Dict Request × Reply
  unfolding ack_owned
  ack_request none body = refuse m 401 "AUTH_UNAUTHORIZED" "API key is missing or invalid"
  ack_request (some (seller who subagents)) none =
      refuse m 400 "CONTRACT_INVALID_JSON" "request body is not valid JSON"
  ack_request (some (seller who subagents)) (some b) =
      ack_owned b (names_parties b) (owns who subagents b)
  ack_request (some _) body =
      refuse m 403 "AUTH_SCOPE_FORBIDDEN" "only seller callers may ack requests"
