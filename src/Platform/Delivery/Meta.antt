-- ===== src/Platform/Delivery/Meta.antt =====
-- `normalizeResultDelivery`, `createDeliveryMeta` and POST /v1/requests/:id/delivery-meta.
use text.Mathlib.Text.{starts_with}
use Prim.Native.String.{◌++◌ as append}
use remote_subagent_protocol.Prelude.{
  ℕ, String, Bool, true, false, not, Option, none, some, [], ◌∷◌, ◌==◌, ◌&&◌, ◌||◌, truthy, text_or,
  or_text, includes, if◌then◌else◌,
}
use remote_subagent_protocol.Prelude.Dict.{get, put}
use remote_subagent_protocol.Prelude.Texts.{trim}
use remote_subagent_protocol.Json.{Json, str, arr, obj, member, is_text}
use remote_subagent_protocol.Contracts.{StructuredError, build_structured_error}
use remote_subagent_protocol.Platform.Answer.{Answer, ok, failed, send_error, not_json}
use remote_subagent_protocol.Platform.Keys.{KeyRecord}
use remote_subagent_protocol.Platform.Market.{Item}
use remote_subagent_protocol.Platform.Market.Access.{require_buyer}
use remote_subagent_protocol.Platform.Requests.{
  Request, DeliveryMeta, append_request_event, conflicts,
}
use remote_subagent_protocol.Platform.Tokens.{Parsed, valid, expired, malformed, parse_token}
use remote_subagent_protocol.Platform.Delivery.{
  Platform, set_requests, RequestNames, bind_parties, buyer_event, is_offered,
}

-- Where the result goes: a kind and an address.
pub record Route : Type 0 where
  pub kind : String
  pub address : String

-- `typeof v === "string" ? v.trim() : ""`
abbrev trimmed : Option Json → String
trimmed (some (str s)) = trim s
trimmed _ = ""

abbrev is_known_kind : String → Bool
is_known_kind kind = includes ("email" ∷ "local" ∷ "relay_http" ∷ []) kind

-- The tests of what is there, and of the kind.
unfoldable pub route_of : String → String → Answer Route
route_of kind address =
    if (kind == "") || (address == "")
    then send_error 400 "CONTRACT_INVALID_RESULT_DELIVERY"
        "result_delivery.kind and result_delivery.address are required"
    else if kind == "platform_inbox"
    then send_error 501 "RESULT_DELIVERY_KIND_NOT_IMPLEMENTED"
        "result_delivery.kind 'platform_inbox' is reserved but not implemented"
    else if not (is_known_kind kind)
    then send_error 400 "CONTRACT_INVALID_RESULT_DELIVERY"
        (append "unsupported result_delivery.kind '" (append kind "'"))
    else ok (record { kind = kind; address = address })

abbrev fields_route : Json → Answer Route
fields_route j = route_of (trimmed (member (some j) "kind")) (trimmed (member (some j) "address"))

-- A missing value is an empty object, as an array has no such fields.
unfoldable pub normalize_result_delivery : Option Json → Answer Route
unfolding route_of
normalize_result_delivery none = route_of "" ""
normalize_result_delivery (some (obj o)) = fields_route (obj o)
normalize_result_delivery (some (arr xs)) = fields_route (arr xs)
normalize_result_delivery (some _) =
    send_error 400 "CONTRACT_INVALID_RESULT_DELIVERY" "result_delivery is required"

-- The display code of a request that has one stays.
abbrev display_code_of : String → Option DeliveryMeta → String
display_code_of fresh none = fresh
display_code_of fresh (some meta) = text_or meta.verification.display_code fresh

abbrev delivery_meta_of : String → Request → Item → Route → DeliveryMeta
delivery_meta_of fresh r i route = record {
  request_id = r.request_id;
  seller_id = i.seller_id;
  subagent_id = i.subagent_id;
  task_delivery = record {
    kind = some (if starts_with i.task_delivery_address "local://" then "local" else "email");
    address = some i.task_delivery_address;
    thread_hint = some (append "req:" r.request_id);
  };
  result_delivery = record {
    kind = some route.kind;
    address = some route.address;
    thread_hint = some (append "req:" r.request_id);
  };
  verification = record { display_code = some (display_code_of fresh r.delivery_meta) };
  seller_public_key_pem = i.seller_public_key_pem;
}

unfoldable pub create_delivery_meta : String → Request → Item → Route → Request
create_delivery_meta fresh r i route = record r {
  expected_signer_public_key_pem = i.seller_public_key_pem;
  delivery_meta = some (delivery_meta_of fresh r i route);
}

pub record Body : Type 0 where
  pub seller_id : Option String
  pub subagent_id : Option String
  pub task_token : Option String
  pub token : Option String
  pub result_delivery : Option Json

-- The claims are of this request, for these parties and this buyer.
abbrev claims_match : Json → RequestNames → String → Bool
claims_match claims n user =
    is_text (some n.request_id) (member (some claims) "request_id")
    && is_text (some n.seller_id) (member (some claims) "seller_id")
    && is_text (some n.subagent_id) (member (some claims) "subagent_id")
    && is_text (some user) (member (some claims) "buyer_id")

abbrev token_error : String → String → Option (ℕ × StructuredError)
token_error code message = some (401, build_structured_error code message (some false))

-- What is wrong with the token of the body.
unfoldable pub token_refused : Parsed → RequestNames → String → Option (ℕ × StructuredError)
token_refused (expired claims) n user = token_error "AUTH_TOKEN_EXPIRED" "token has expired"
token_refused malformed n user =
    token_error "AUTH_TOKEN_INVALID" "token format or signature is invalid"
token_refused (valid claims) n user =
    if claims_match claims n user
    then none
    else some (
      403,
      build_structured_error "AUTH_RESOURCE_FORBIDDEN"
          "token claims do not match request parameters" none,
    )

-- `now`, and the display code of a request without one, are drawn.
module _ (hmac : String → String → String) (encode : Json → String) (decode : String → Option Json)
    (now : ℕ) (fresh : String) (p : Platform) where
  -- The tests of the request's buyer, seller and subagent.
  unfoldable pub meta_bound :
      String
      → RequestNames
      → Item
      → Route
      → Request
      → Bool
      → Bool
      → Bool
      → Platform × Answer DeliveryMeta
  unfolding create_delivery_meta
  meta_bound user n i route r true _ _ =
      (p, send_error 403 "AUTH_RESOURCE_FORBIDDEN" "request is owned by another buyer")
  meta_bound user n i route r false true _ =
      (p, send_error 409 "REQUEST_BINDING_MISMATCH" "seller_id does not match existing request")
  meta_bound user n i route r false false true =
      (p, send_error 409 "REQUEST_BINDING_MISMATCH" "subagent_id does not match existing request")
  meta_bound user n i route r false false false =
      let bound = bind_parties user n r in
      (
        set_requests
            (put p.requests n.request_id (
              append_request_event p.event_history (create_delivery_meta fresh bound i route)
                (buyer_event now "DELIVERY_META_ISSUED")))
            p,
        ok (delivery_meta_of fresh bound i route),
      )

  unfoldable pub meta_found :
      String → RequestNames → Item → Route → Option Request → Platform × Answer DeliveryMeta
  unfolding meta_bound
  meta_found user n i route none =
      (p, send_error 404 "REQUEST_NOT_FOUND" "no request found with this id")
  meta_found user n i route (some r) =
      meta_bound user n i route r (conflicts r.buyer_id user) (conflicts r.seller_id n.seller_id)
        (conflicts r.subagent_id n.subagent_id)

  unfoldable pub meta_allowed :
      String
      → RequestNames
      → Item
      → Route
      → Option (ℕ × StructuredError)
      → Platform × Answer DeliveryMeta
  unfolding meta_found
  meta_allowed user n i route (some (status, error)) = (p, failed status error)
  meta_allowed user n i route none = meta_found user n i route (get p.requests n.request_id)

  -- A call without a token is not tested for one.
  unfoldable pub meta_offered :
      String
      → RequestNames
      → Route
      → Option String
      → Option Item
      → Bool
      → Platform × Answer DeliveryMeta
  unfolding meta_allowed token_refused
  meta_offered user n route token (some i) true = meta_allowed user n i route (
      if truthy token
      then token_refused (parse_token hmac encode decode now p.token_secret token) n user
      else none)
  meta_offered user n route token _ _ =
      (p, send_error 404 "CATALOG_SUBAGENT_NOT_FOUND" "subagent not found or not enabled")

  unfoldable pub meta_routed :
      String → RequestNames → Option String → Answer Route → Platform × Answer DeliveryMeta
  unfolding meta_offered
  meta_routed user n token (failed status error) = (p, failed status error)
  meta_routed user n token (ok route) =
      let item = get p.market.catalog n.subagent_id in
      meta_offered user n route token item (is_offered p.market n item)

  unfoldable pub meta_named : String → RequestNames → Body → Bool → Platform × Answer DeliveryMeta
  unfolding meta_routed
  meta_named user n b false = (
    p,
    send_error 400 "CONTRACT_INVALID_DELIVERY_META_REQUEST"
        "seller_id and subagent_id are required",
  )
  meta_named user n b true =
      meta_routed user n (or_text b.task_token (or_text b.token none))
        (normalize_result_delivery b.result_delivery)

  unfoldable pub meta_read : String → Answer String → Option Body → Platform × Answer DeliveryMeta
  unfolding meta_named
  meta_read id (failed status error) body = (p, failed status error)
  meta_read id (ok user) none = (p, not_json)
  meta_read id (ok user) (some b) =
      meta_named user
        (record {
          request_id = id;
          seller_id = text_or b.seller_id "";
          subagent_id = text_or b.subagent_id "";
        })
        b (truthy b.seller_id && truthy b.subagent_id)

  -- POST /v1/requests/:id/delivery-meta
  unfoldable pub post_delivery_meta :
      String → Option KeyRecord → Option Body → Platform × Answer DeliveryMeta
  unfolding meta_read
  post_delivery_meta id auth body = meta_read id (require_buyer auth) body
