-- ===== src/Platform/Market/Submit/Build.antt =====
-- The seller and the item that a submission makes.
use Prim.Native.String.{◌++◌ as append}
use remote_subagent_protocol.Prelude.{
  ℕ, ◌+◌, String, Bool, true, false, not, Option, none, some, [], ◌∷◌, ◌++◌, ◌==◌, ◌||◌,
  if◌then◌else◌, or_text, text_or, same_text, unique, and_then,
}
use remote_subagent_protocol.Prelude.Dict.{get}
use remote_subagent_protocol.Json.{Json, json_truthy}
use remote_subagent_protocol.Platform.Keys.{
  disabled, pending, SellerAccount, KeyRecord, buyer_key, seller_key,
}
use remote_subagent_protocol.Platform.Market.{Market, Item, Draw}
use remote_subagent_protocol.Platform.Market.Submit.{Body, normalize_string_list, Names}

-- `auth?.user_id` and `auth?.seller_id`
abbrev pub auth_user : Option KeyRecord → Option String
auth_user (some (buyer_key user scopes)) = some user
auth_user _ = none

abbrev pub auth_seller : Option KeyRecord → Option String
auth_seller (some (seller_key id owner scopes subagents)) = some id
auth_seller _ = none

abbrev pub owner_of : Draw → Body → Option KeyRecord → Option SellerAccount → String
owner_of d b auth seller =
    text_or (and_then seller (λ a. some a.owner_user_id))
      (text_or (auth_user auth) (text_or b.owner_user_id d.user_id))

-- The key that the answer names: the seller's own where it has one.
abbrev pub key_of : Draw → Option SellerAccount → String
key_of d seller = text_or (and_then seller (λ a. a.api_key)) d.api_key

abbrev pub contact_of : Market → Body → Names → String → String
contact_of s b n owner = text_or b.contact_email (
    text_or (and_then (get s.accounts.users owner) (λ u. u.contact_email))
      (append n.seller_id "@test.local"))

unfoldable pub new_seller : Draw → Market → Body → Names → String → SellerAccount
new_seller d s b n owner = record {
  seller_id = n.seller_id;
  owner_user_id = owner;
  api_key = some d.api_key;
  scopes = "seller" ∷ [];
  subagent_ids = [];
  status = disabled;
  review_status = pending;
  reviewed_at = none;
  reviewed_by = none;
  review_reason = none;
  seller_public_key_pem = some n.pem;
  seller_public_keys_pem = n.pem ∷ [];
  signing_key_rotation_window_until = none;
  last_heartbeat_at = d.now;
  availability_status = "healthy";
  contact_email = contact_of s b n owner;
  support_email = text_or b.support_email (append "support+" (append n.seller_id "@test.local"));
}

-- An existing seller changes where its contact, its support or its key does.
abbrev pub has_changed : Body → Names → SellerAccount → Bool
has_changed b n a =
    not (a.contact_email == text_or b.contact_email a.contact_email)
    || not (a.support_email == text_or b.support_email a.support_email)
    || not (same_text a.seller_public_key_pem (some n.pem))

abbrev pub with_submission : Body → Names → SellerAccount → SellerAccount
with_submission b n a = record a {
  contact_email = text_or b.contact_email a.contact_email;
  support_email = text_or b.support_email a.support_email;
  seller_public_key_pem = some n.pem;
  seller_public_keys_pem = unique (n.pem ∷ a.seller_public_keys_pem);
  subagent_ids = unique (a.subagent_ids ++ n.subagent_id ∷ []);
  availability_status = text_or (some a.availability_status) "healthy";
}

-- A new or changed seller goes back to review.
unfoldable pub back_to_review : Bool → SellerAccount → SellerAccount
back_to_review false a = a
back_to_review true a = record a {
  status = disabled;
  review_status = pending;
  reviewed_at = none;
  reviewed_by = none;
  review_reason = none;
}

unfoldable pub submitted_seller :
    Draw → Market → Body → Names → String → Option SellerAccount → SellerAccount
unfolding new_seller back_to_review
submitted_seller d s b n owner none =
    back_to_review true (with_submission b n (new_seller d s b n owner))
submitted_seller d s b n owner (some a) = back_to_review (has_changed b n a) (with_submission b n a)

abbrev pub seller_changed : Body → Names → Option SellerAccount → Bool
seller_changed b n none = true
seller_changed b n (some a) = has_changed b n a

abbrev pub template_of : Body → Names → String
template_of b n = text_or b.template_ref (append n.subagent_id "@v1")

abbrev pub address_of : Body → Names → String
address_of b n =
    text_or b.task_delivery_address
      (append "local://relay/" (append n.seller_id (append "/" n.subagent_id)))

-- `schema || null`
abbrev pub schema_of : Option Json → Option Json
schema_of o = if json_truthy o then o else none

abbrev pub next_version : Market → Names → ℕ
next_version s n = elim (get s.submissions n.subagent_id) [
  | none ↦ 1
  | some last ↦ last.submission_version + 1
]

unfoldable pub submitted_item : Draw → Market → Body → Names → SellerAccount → Option Item → Item
submitted_item d s b n a existing = record {
  seller_id = n.seller_id;
  subagent_id = n.subagent_id;
  display_name = n.display_name;
  description = or_text b.description (or_text (and_then existing (λ i. i.description)) none);
  status = disabled;
  review_status = pending;
  submission_version = next_version s n;
  submitted_at = d.now;
  reviewed_at = none;
  reviewed_by = none;
  review_reason = none;
  availability_status = text_or (and_then existing (λ i. some i.availability_status)) "healthy";
  last_heartbeat_at = elim existing [ none ↦ d.now | some i ↦ i.last_heartbeat_at ];
  template_ref = template_of b n;
  task_types = normalize_string_list b.task_types;
  capabilities = normalize_string_list b.capabilities;
  tags = normalize_string_list b.tags;
  input_schema = schema_of b.input_schema;
  output_schema = schema_of b.output_schema;
  seller_public_key_pem = some n.pem;
  seller_public_keys_pem = a.seller_public_keys_pem;
  signing_key_rotation_window_until = none;
  task_delivery_address = address_of b n;
}
