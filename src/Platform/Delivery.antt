-- ===== src/Platform/Delivery.antt =====
-- How a buyer gets a request onto the platform: `getOrCreateRequest`, and `issueTaskToken` with
-- POST /v1/tokens/task. A body of `none` is no JSON.
pub mod Meta
pub mod Reads
pub mod Histories
pub mod Parties
use text.Mathlib.Text.{starts_with}
use Prim.Native.String.{◌++◌ as append}
use remote_subagent_protocol.Prelude.{
  ℕ, String, Bool, true, false, not, Option, none, some, List, [], ◌∷◌, ◌==◌, ◌&&◌, ◌||◌, truthy,
  text_or, or_text, includes, is_some, same_text, if◌then◌else◌, or_default,
}
use remote_subagent_protocol.Prelude.Dict.{Dict, get, put}
use remote_subagent_protocol.Prelude.Texts.{trim}
use remote_subagent_protocol.Json.{Json, null, obj, arr, Fields, as_text, member, json_truthy}
use remote_subagent_protocol.Contracts.{build_structured_error}
use remote_subagent_protocol.Transport.Messages.{Event}
use remote_subagent_protocol.Platform.Answer.{Answer, ok, failed, send_error, not_json}
use remote_subagent_protocol.Platform.Keys.{SellerAccount, KeyRecord, Accounts}
use remote_subagent_protocol.Platform.Market.{Market, Item}
use remote_subagent_protocol.Platform.Market.Access.{is_public, require_buyer}
use remote_subagent_protocol.Platform.Requests.{Request, append_request_event, conflicts}
use remote_subagent_protocol.Platform.Tokens.{sign_token, Grant, create_task_claims}

-- The platform as far as requests need it.
pub record Platform : Type 0 where
  pub market : Market
  pub requests : Dict Request
  pub token_secret : String
  pub token_ttl_seconds : ℕ
  pub event_history : ℕ

abbrev pub set_requests : Dict Request → Platform → Platform
set_requests requests p = record p { requests = requests }

abbrev pub new_request : String → Request
new_request id = record {
  request_id = id;
  buyer_id = none;
  seller_id = none;
  subagent_id = none;
  request_kind = none;
  request_visibility = none;
  delivery_meta = none;
  expected_signer_public_key_pem = none;
  events = [];
}

unfoldable pub get_or_create : String → Option Request → Dict Request → Dict Request × Request
get_or_create id (some r) m = (m, r)
get_or_create id none m = (put m id (new_request id), new_request id)

-- The ids that a buyer's call names.
pub record RequestNames : Type 0 where
  pub request_id : String
  pub seller_id : String
  pub subagent_id : String

pub record Body : Type 0 where
  pub request_id : Option String
  pub seller_id : Option String
  pub subagent_id : Option String

abbrev pub names_of : Body → RequestNames
names_of b = record {
  request_id = text_or b.request_id "";
  seller_id = text_or b.seller_id "";
  subagent_id = text_or b.subagent_id "";
}

abbrev pub buyer_event : ℕ → String → Event
buyer_event now event_type = record {
  event_type = event_type;
  at = some now;
  actor_type = some "buyer";
  seller_id = none;
  subagent_id = none;
  status = none;
  error_code = none;
  finished_at = none;
  eta_hint_s = none;
}

-- The request with its parties; the kind and the visibility stay where they are set.
abbrev pub bind_parties : String → RequestNames → Request → Request
bind_parties user n r = record r {
  buyer_id = some user;
  seller_id = some n.seller_id;
  subagent_id = some n.subagent_id;
  request_kind = some (text_or r.request_kind "remote_request");
  request_visibility = some (text_or r.request_visibility "public");
}

-- The item is not there, or not this seller's, or not public.
abbrev pub is_offered : Market → RequestNames → Option Item → Bool
is_offered s n none = false
is_offered s n (some i) = (i.seller_id == n.seller_id) && is_public s (some i)

pub record Issued : Type 0 where
  pub claims : Json
  pub task_token : String

abbrev refuse : ℕ → String → String → Answer Issued
refuse status code message = failed status (build_structured_error code message (some false))

-- `now`, and the id of the token, are drawn.
module _ (hmac : String → String → String) (encode : Json → String) (decode : String → Option Json)
    (now : ℕ) (jti : String) where
  abbrev claims_for : Platform → String → RequestNames → Json
  claims_for p user n = create_task_claims now p.token_ttl_seconds jti (record {
    buyer_id = user;
    request_id = n.request_id;
    seller_id = n.seller_id;
    subagent_id = n.subagent_id;
    request_kind = "remote_request";
  })

  -- The tests of the request's buyer, and of its seller and subagent.
  unfoldable pub issue_bound :
      Platform
      → String
      → RequestNames
      → Dict Request
      → Request
      → Bool
      → Bool
      → Platform × Answer Issued
  issue_bound p user n m r true _ =
      (set_requests m p, refuse 403 "AUTH_RESOURCE_FORBIDDEN" "request is owned by another buyer")
  issue_bound p user n m r false true = (
    set_requests m p,
    refuse 409 "REQUEST_BINDING_MISMATCH"
        "seller_id or subagent_id does not match existing request",
  )
  issue_bound p user n m r false false =
      let claims = claims_for p user n in
      (
        set_requests
            (put m n.request_id (
              append_request_event p.event_history (bind_parties user n r)
                (buyer_event now "TASK_TOKEN_ISSUED")))
            p,
        ok (record {
          claims = claims;
          task_token = sign_token hmac encode decode p.token_secret claims;
        }),
      )

  unfoldable pub issue_to :
      Platform → String → RequestNames → Dict Request × Request → Platform × Answer Issued
  unfolding issue_bound
  issue_to p user n (m, r) =
      issue_bound p user n m r (conflicts r.buyer_id user)
        (conflicts r.seller_id n.seller_id || conflicts r.subagent_id n.subagent_id)

  unfoldable pub issue_offered : Platform → String → RequestNames → Bool → Platform × Answer Issued
  unfolding issue_to
  issue_offered p user n false =
      (p, refuse 404 "CATALOG_SUBAGENT_NOT_FOUND" "subagent not found or not enabled")
  issue_offered p user n true =
      issue_to p user n (get_or_create n.request_id (get p.requests n.request_id) p.requests)

  unfoldable pub issue_task_token : Platform → String → RequestNames → Platform × Answer Issued
  unfolding issue_offered
  issue_task_token p user n = issue_offered p user n (
      is_some (get p.market.accounts.sellers n.seller_id)
      && is_offered p.market n (get p.market.catalog n.subagent_id))

  unfoldable pub issue_named : Platform → String → Body → Bool → Platform × Answer Issued
  unfolding issue_task_token
  issue_named p user b false = (
    p,
    send_error 400 "CONTRACT_INVALID_TOKEN_REQUEST"
        "request_id, seller_id, and subagent_id are required",
  )
  issue_named p user b true = issue_task_token p user (names_of b)

  unfoldable pub issue_read : Platform → Answer String → Option Body → Platform × Answer Issued
  unfolding issue_named
  issue_read p (failed status error) body = (p, failed status error)
  issue_read p (ok user) none = (p, not_json)
  issue_read p (ok user) (some b) =
      issue_named p user b (truthy b.request_id && truthy b.seller_id && truthy b.subagent_id)

  -- POST /v1/tokens/task
  unfoldable pub post_token : Platform → Option KeyRecord → Option Body → Platform × Answer Issued
  unfolding issue_read
  post_token p auth body = issue_read p (require_buyer auth) body
