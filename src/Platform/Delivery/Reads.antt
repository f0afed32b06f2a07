-- ===== src/Platform/Delivery/Reads.antt =====
-- GET /v1/requests/:id/events and POST /v1/requests/events/batch. The ids of a batch are the texts
-- that `String` makes of the items of its array; a body of `none` is no JSON, and one whose ids are
-- `none` has no array of them.
use remote_subagent_protocol.Prelude.{
  String, ◌≡◌, refl, ap, ◌∙◌, Bool, true, false, not, Option, none, some, List, [], ◌∷◌, ◌==◌, ◌&&◌,
  ◌||◌, truthy, text_or, includes, same_text, length, ltb, nat_eq, map, filter_by, or_default,
}
use remote_subagent_protocol.Prelude.Dict.{Dict, get}
use remote_subagent_protocol.Transport.Messages.{Event}
use remote_subagent_protocol.Platform.Answer.{Answer, ok, failed, send_error, not_json}
use remote_subagent_protocol.Platform.Keys.{KeyRecord, admin_key, buyer_key, seller_key}
use remote_subagent_protocol.Platform.Requests.{Request}

pub record History : Type 0 where
  pub request_id : String
  pub events : List Event

-- A buyer reads its own requests, a seller those that are its own and of a subagent of its key.
unfoldable pub owns_request : KeyRecord → Request → Bool
owns_request admin_key r = true
owns_request (buyer_key user scopes) r = same_text r.buyer_id (some user)
owns_request (seller_key id owner scopes subagents) r =
    same_text r.seller_id (some id)
    && (not (truthy r.subagent_id) || includes subagents (text_or r.subagent_id ""))

abbrev refusal : KeyRecord → Answer History
refusal (buyer_key user scopes) =
    send_error 403 "AUTH_RESOURCE_FORBIDDEN" "request is owned by another buyer"
refusal _ = send_error 403 "AUTH_RESOURCE_FORBIDDEN" "seller does not own this request"

unfoldable pub events_owned : KeyRecord → Request → Bool → Answer History
events_owned auth r true = ok (record { request_id = r.request_id; events = r.events })
events_owned auth r false = refusal auth

unfoldable pub events_found : KeyRecord → Option Request → Answer History
unfolding events_owned owns_request
events_found auth none = send_error 404 "REQUEST_NOT_FOUND" "no request found with this id"
events_found auth (some r) = events_owned auth r (owns_request auth r)

unfoldable pub read_events : Dict Request → Option KeyRecord → String → Answer History
unfolding events_found
read_events m none id = send_error 401 "AUTH_UNAUTHORIZED" "API key is missing or invalid"
read_events m (some auth) id = events_found auth (get m id)

pub data BatchItem : Type 0 where
  found : History → BatchItem
  not_found : String → BatchItem

abbrev owned_item : String → Request → Bool → BatchItem
owned_item id r true = found (record { request_id = r.request_id; events = r.events })
owned_item id r false = not_found id

abbrev batch_item : KeyRecord → String → Option Request → BatchItem
batch_item auth id none = not_found id
batch_item auth id (some r) = owned_item id r (owns_request auth r)

-- The loop over the ids, which pushes one item for each.
unfoldable pub batch_items : Dict Request → KeyRecord → List String → List BatchItem
batch_items m auth [] = []
batch_items m auth (id ∷ ids) = batch_item auth id (get m id) ∷ batch_items m auth ids

unfoldable pub batch_sized :
    Dict Request → KeyRecord → List String → Bool → Bool → Answer (List BatchItem)
unfolding batch_items
batch_sized m auth ids true _ =
    send_error 400 "CONTRACT_INVALID_BATCH_REQUEST" "request_ids must contain at least one id"
batch_sized m auth ids false true =
    send_error 400 "CONTRACT_INVALID_BATCH_REQUEST" "request_ids cannot exceed 100 items"
batch_sized m auth ids false false = ok (batch_items m auth ids)

abbrev pub ids_of : Option (List String) → List String
ids_of ids = filter_by (λ id. not (id == "")) (or_default ids [])

unfoldable pub read_batch :
    Dict Request → Option KeyRecord → Option (Option (List String)) → Answer (List BatchItem)
unfolding batch_sized
read_batch m none body = send_error 401 "AUTH_UNAUTHORIZED" "API key is missing or invalid"
read_batch m (some auth) none = not_json
read_batch m (some auth) (some ids) =
    batch_sized m auth (ids_of ids) (nat_eq (length (ids_of ids)) 0) (ltb 100 (length (ids_of ids)))

-- The item that tells of one read: what it answered, or only that nothing was found.
abbrev pub item_of : String → Answer History → BatchItem
item_of id (ok history) = found history
item_of id (failed status error) = not_found id

owned-agrees :
    (auth : KeyRecord) (id : String) (r : Request) (b : Bool)
    → owned_item id r b ≡ item_of id (events_owned auth r b)
unfolding events_owned
owned-agrees auth id r true = refl
owned-agrees admin_key id r false = refl
owned-agrees (buyer_key user scopes) id r false = refl
owned-agrees (seller_key k owner scopes subagents) id r false = refl

item-agrees :
    (auth : KeyRecord) (id : String) (o : Option Request)
    → batch_item auth id o ≡ item_of id (events_found auth o)
unfolding events_found
item-agrees auth id none = refl
item-agrees auth id (some r) = owned-agrees auth id r (owns_request auth r)

batch_items-agree :
    (m : Dict Request) (auth : KeyRecord) (ids : List String)
    → batch_items m auth ids ≡ map (λ id. item_of id (read_events m (some auth) id)) ids
unfolding batch_items read_events
batch_items-agree m auth [] = refl
batch_items-agree m auth (id ∷ ids) =
    ap (λ x. x ∷ batch_items m auth ids) (item-agrees auth id (get m id))
    ∙ ap (λ xs. item_of id (events_found auth (get m id)) ∷ xs) (batch_items-agree m auth ids)

-- A batch of one to a hundred ids that are not empty answers for each id, in their order, what the
-- single read answers of it to the same caller, where every refusal of the single read is told as
-- not found.
pub batch_reads_each :
    (m : Dict Request) (auth : KeyRecord) (ids : Option (List String))
    → nat_eq (length (ids_of ids)) 0 ≡ false
    → ltb 100 (length (ids_of ids)) ≡ false
    → read_batch m (some auth) (some ids)
      ≡ ok (map (λ id. item_of id (read_events m (some auth) id)) (ids_of ids))
unfolding read_batch batch_sized
batch_reads_each m auth ids some_ids few =
    (rw (some_ids, few) (ap ok (batch_items-agree m auth (ids_of ids))))
