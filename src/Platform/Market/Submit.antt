-- ===== src/Platform/Market/Submit.antt =====
-- `submitCatalogSubagent` and `registerSellerIdentity`: a seller puts a subagent up for review.
pub mod Build
pub mod Accept
pub mod Routes
use Prim.Native.String.{◌++◌ as append}
use remote_subagent_protocol.Prelude.{
  ℕ, ◌+◌, String, Bool, true, false, not, Option, none, some, List, [], ◌∷◌, ◌++◌, ◌==◌, ◌&&◌, ◌||◌,
  if◌then◌else◌, truthy, or_text, text_or, number_or, same_text, is_some, leb, length, unique, map,
  filter_by, and_then, or_default,
}
use remote_subagent_protocol.Prelude.Dict.{Dict, get, put}
use remote_subagent_protocol.Prelude.Texts.{trim, split, decimal}
use remote_subagent_protocol.Json.{Json, json_truthy}
use remote_subagent_protocol.Contracts.{StructuredError, build_structured_error}
use remote_subagent_protocol.Platform.Answer.{Answer, ok, failed}
use remote_subagent_protocol.Platform.Keys.{
  User, Status, enabled, disabled, ReviewStatus, pending, SellerAccount, KeyRecord, admin_key,
  buyer_key, seller_key, Accounts,
}
use remote_subagent_protocol.Platform.Keys.Roles.{add_user_role}
use remote_subagent_protocol.Platform.Market.{
  Market, Item, Draw, Target, on_seller, on_subagent, Actor, ReviewEvent, Submission, Template,
  describe_actor, append_review_event,
}
use remote_subagent_protocol.Platform.Market.Access.{can_manage_seller}

-- A list in a body: a text is split at commas, and what is neither list nor text is no list.
pub data ListField : Type 0 where
  no_list : ListField
  items : List String → ListField
  text : String → ListField

pub record Body : Type 0 where
  pub seller_id : Option String
  pub subagent_id : Option String
  pub display_name : Option String
  pub seller_public_key_pem : Option String
  pub description : Option String
  pub template_ref : Option String
  pub task_delivery_address : Option String
  pub task_types : ListField
  pub capabilities : ListField
  pub tags : ListField
  pub input_schema : Option Json
  pub output_schema : Option Json
  pub contact_email : Option String
  pub support_email : Option String
  pub owner_user_id : Option String
  pub review_reason : Option String
  pub reason : Option String

unfoldable pub normalize_string_list : ListField → List String
normalize_string_list no_list = []
normalize_string_list (items xs) = filter_by (λ x. not (x == "")) (map trim xs)
normalize_string_list (text t) = filter_by (λ x. not (x == "")) (map trim (split 44 t))

-- The four texts that a submission must have.
pub record Names : Type 0 where
  pub seller_id : String
  pub subagent_id : String
  pub display_name : String
  pub pem : String

abbrev pub has_names : Body → Bool
has_names b =
    truthy b.seller_id
    && truthy b.subagent_id
    && truthy b.display_name
    && truthy b.seller_public_key_pem

abbrev pub names_of : Body → Names
names_of b = record {
  seller_id = text_or b.seller_id "";
  subagent_id = text_or b.subagent_id "";
  display_name = text_or b.display_name "";
  pem = text_or b.seller_public_key_pem "";
}

abbrev pub Refusal : Type 0
Refusal = ℕ × StructuredError

abbrev pub refusal : ℕ → String → String → Option Refusal
refusal status code message = some (status, build_structured_error code message (some false))

abbrev pub quota_of : Market → ℕ
quota_of s = number_or s.subagents_per_seller 25

-- The item is another seller's.
abbrev pub is_taken : Names → Option Item → Bool
is_taken n none = false
is_taken n (some i) = not (i.seller_id == n.seller_id)

-- A new subagent of a seller that has as many as it may.
abbrev pub exceeds_quota : Market → Option SellerAccount → Option Item → Bool
exceeds_quota s (some a) none = leb (quota_of s) (length a.subagent_ids)
exceeds_quota s _ _ = false

unfoldable pub submission_refused :
    Market → Names → Option KeyRecord → Bool → Option SellerAccount → Option Item → Option Refusal
submission_refused s n auth allow_unauthenticated seller item =
    if is_taken n item
    then refusal 409 "SUBAGENT_ID_ALREADY_EXISTS" "a subagent with this id is already registered"
    else if exceeds_quota s seller item
    then refusal 429 "SUBAGENT_QUOTA_EXCEEDED"
        (append "seller has reached the configured subagent quota of " (decimal (quota_of s)))
    else if not (is_some seller) && not (is_some auth) && not allow_unauthenticated
    then refusal 401 "AUTH_UNAUTHORIZED" "buyer or seller authentication is required for onboarding"
    else if is_some seller && not (is_some auth)
    then refusal 401 "AUTH_UNAUTHORIZED" "authentication required to manage an existing seller"
    else if is_some seller && not (can_manage_seller auth seller)
    then refusal 403 "AUTH_RESOURCE_FORBIDDEN" "caller does not own this seller identity"
    else none
