-- ===== src/Platform/Requests/Events.antt =====
-- POST /v1/requests/:id/events: sellers write how a request ended, each ending once.
pub mod Laws
pub mod Parties
use remote_subagent_protocol.Prelude.{
  ℕ, String, ◌≡◌, refl, ap, ◌∙◌, Bool, true, false, not, Option, none, some, List, [], ◌∷◌, arith,
  eq_iff, eq_refl, ◌==◌, ◌&&◌, ◌||◌, Bool-cases, inl, inr, any_by, find_by, includes, truthy,
  text_or, or_text, or_default, last?, if◌then◌else◌, Option-cases,
}
use remote_subagent_protocol.Prelude.Dict.{Dict, get, put, get-put}
use remote_subagent_protocol.Transport.Messages.{Event}
use remote_subagent_protocol.Platform.History.{push_capped, any_by-push_capped}
use remote_subagent_protocol.Platform.Requests.{
  Request, Body, Caller, Reply, accepted, refused, admin, buyer, seller, conflicts, seller_of,
  subagent_of, append_request_event, bind, refuse, names_parties, owns, is_text_of,
}
use remote_subagent_protocol.Platform.Requests.Laws.{conflicts_self, put-again}

abbrev pub type_of : Body → String
type_of b = text_or b.event_type ""

abbrev pub is_ending : Body → Bool
is_ending b = includes ("COMPLETED" ∷ "FAILED" ∷ []) (type_of b)

-- The test of `findMatchingRequestEvent`.
abbrev pub matches : Body → Event → Bool
matches b e =
    (e.event_type == type_of b)
    && is_text_of e.seller_id (seller_of b)
    && is_text_of e.subagent_id (subagent_of b)

abbrev pub seller_event : ℕ → Body → Event
seller_event now b = record {
  event_type = type_of b;
  at = some now;
  actor_type = some "seller";
  seller_id = some (seller_of b);
  subagent_id = some (subagent_of b);
  status = some (text_or b.status (if type_of b == "FAILED" then "error" else "ok"));
  error_code = or_text b.error_code none;
  finished_at = some (or_default b.finished_at now);
  eta_hint_s = none;
}

-- The request and the reply, by the event that is there already.
unfoldable pub written : ℕ → ℕ → Body → Request → Option Event → Request × Reply
unfolding append_request_event
written now limit b r (some e) = (bind b r, accepted (some e) true)
written now limit b r none =
    let r' = append_request_event limit (bind b r) (seller_event now b) in
    (r', accepted (last? r'.events) false)

unfoldable pub write_to : ℕ → ℕ → Body → Request → Request × Reply
unfolding written
write_to now limit b r = written now limit b r (find_by (matches b) r.events)

module _ (now limit : ℕ) (m : Dict Request) (id : String) where
  unfoldable pub store_written : Request × Reply → Dict Request × Reply
  store_written (r, reply) = (put m id r, reply)

  -- The two tests of the binding: of the seller, and of the subagent.
  unfoldable pub event_bound : Body → Request → Bool → Bool → Dict Request × Reply
  unfolding store_written write_to
  event_bound b r true _ =
      refuse m 409 "REQUEST_BINDING_MISMATCH" "seller_id does not match existing request"
  event_bound b r false true =
      refuse m 409 "REQUEST_BINDING_MISMATCH" "subagent_id does not match existing request"
  event_bound b r false false = store_written (write_to now limit b r)

  unfoldable pub event_found : Body → Option Request → Dict Request × Reply
  unfolding event_bound
  event_found b none = refuse m 404 "REQUEST_NOT_FOUND" "no request found with this id"
  event_found b (some r) =
      event_bound b r (conflicts r.seller_id (seller_of b))
        (conflicts r.subagent_id (subagent_of b))

  -- The tests of the body, of the type of the event, and of what the caller owns.
  unfoldable pub event_owned : Body → Bool → Bool → Bool → Dict Request × Reply
  unfolding event_found
  event_owned b false _ _ =
      refuse m 400 "CONTRACT_INVALID_REQUEST_EVENT"
        "seller_id, subagent_id, and event_type are required"
  event_owned b true false _ =
      refuse m 400 "CONTRACT_INVALID_REQUEST_EVENT" "event_type must be COMPLETED or FAILED"
  event_owned b true true false =
      refuse m 403 "AUTH_RESOURCE_FORBIDDEN" "caller does not own the specified seller or subagent"
  event_owned b true true true = event_found b (get m id)

  unfoldable pub write_event : Option Caller → Option Body → Dict Request × Reply
  unfolding event_owned
  write_event none body = refuse m 401 "AUTH_UNAUTHORIZED" "API key is missing or invalid"
  write_event (some (seller who subagents)) none =
      refuse m 400 "CONTRACT_INVALID_JSON" "request body is not valid JSON"
  write_event (some (seller who subagents)) (some b) =
      event_owned b (names_parties b && truthy b.event_type) (is_ending b) (owns who subagents b)
  write_event (some _) body =
      refuse m 403 "AUTH_SCOPE_FORBIDDEN" "only seller callers may append request events"
