-- ===== src/Platform/Catalog.antt =====
-- What the catalog tells: GET /v1/catalog/subagents, its detail and its templates. Reads of the
-- catalog need no key; `none` is a caller without one. `tests` is `state.reviewTests`.
pub mod Laws
use remote_subagent_protocol.Prelude.{
  ℕ, String, Bool, true, false, not, Option, none, some, List, [], ◌∷◌, ◌==◌, ◌&&◌, ◌||◌, ◌+◌, ◌*◌,
  truthy, text_or, or_text, includes, ltb, map, filter_by, if◌then◌else◌,
}
use remote_subagent_protocol.Prelude.Dict.{Dict, get, values}
use remote_subagent_protocol.Json.{Json}
use remote_subagent_protocol.Platform.Answer.{Answer, ok, send_error}
use remote_subagent_protocol.Platform.Keys.{Status, enabled, disabled, ReviewStatus, KeyRecord}
use remote_subagent_protocol.Platform.Market.{Market, Item, Submission, Template}
use remote_subagent_protocol.Platform.Market.Access.{
  is_public, is_operator_auth, can_manage_seller, can_view_catalog_item_detail,
}

-- `buildAvailability`, by the age in milliseconds
abbrev pub build_availability : ℕ → ℕ → String
build_availability now last_heartbeat_at =
    if ltb (last_heartbeat_at + 180 * 1000) now
    then "offline"
    else if ltb (last_heartbeat_at + 90 * 1000) now
    then "degraded"
    else "healthy"

unfoldable pub resolve_catalog_availability : ℕ → Item → String
resolve_catalog_availability now i =
    if not (i.availability_status == "") && not (i.availability_status == "healthy")
    then i.availability_status
    else build_availability now i.last_heartbeat_at

-- An item without the address that its tasks are sent to.
pub record PublicItem : Type 0 where
  pub seller_id : String
  pub subagent_id : String
  pub display_name : String
  pub description : Option String
  pub status : Status
  pub review_status : ReviewStatus
  pub submission_version : ℕ
  pub submitted_at : ℕ
  pub reviewed_at : Option ℕ
  pub reviewed_by : Option String
  pub review_reason : Option String
  pub availability_status : String
  pub last_heartbeat_at : ℕ
  pub template_ref : String
  pub task_types : List String
  pub capabilities : List String
  pub tags : List String
  pub input_schema : Option Json
  pub output_schema : Option Json
  pub seller_public_key_pem : Option String
  pub seller_public_keys_pem : List String
  pub signing_key_rotation_window_until : Option String
  pub is_public : Bool

abbrev pub sanitize_catalog_item_for_response : Market → Item → PublicItem
sanitize_catalog_item_for_response s i = record {
  seller_id = i.seller_id;
  subagent_id = i.subagent_id;
  display_name = i.display_name;
  description = i.description;
  status = i.status;
  review_status = i.review_status;
  submission_version = i.submission_version;
  submitted_at = i.submitted_at;
  reviewed_at = i.reviewed_at;
  reviewed_by = i.reviewed_by;
  review_reason = i.review_reason;
  availability_status = i.availability_status;
  last_heartbeat_at = i.last_heartbeat_at;
  template_ref = i.template_ref;
  task_types = i.task_types;
  capabilities = i.capabilities;
  tags = i.tags;
  input_schema = i.input_schema;
  output_schema = i.output_schema;
  seller_public_key_pem = i.seller_public_key_pem;
  seller_public_keys_pem = i.seller_public_keys_pem;
  signing_key_rotation_window_until = i.signing_key_rotation_window_until;
  is_public = is_public s (some i);
}

-- The query of the list.
pub record Filters : Type 0 where
  pub status : Option String
  pub availability_status : Option String
  pub task_type : Option String
  pub capability : Option String
  pub tag : Option String

abbrev pub status_text : Status → String
status_text enabled = "enabled"
status_text disabled = "disabled"

abbrev pub is_unset_or : Option String → String → Bool
is_unset_or o t = not (truthy o) || (text_or o "" == t)

abbrev pub is_unset_or_in : Option String → List String → Bool
is_unset_or_in o ts = not (truthy o) || includes ts (text_or o "")

abbrev pub passes : Filters → Item → Bool
passes f i =
    is_unset_or (or_text f.status (some "enabled")) (status_text i.status)
    && is_unset_or f.availability_status i.availability_status
    && is_unset_or_in f.task_type i.task_types
    && is_unset_or_in f.capability i.capabilities
    && is_unset_or_in f.tag i.tags

abbrev pub refreshed : ℕ → Item → Item
refreshed now i = record i { availability_status = resolve_catalog_availability now i }

unfoldable pub list_catalog : ℕ → Market → Filters → List PublicItem
list_catalog now s f = map (sanitize_catalog_item_for_response s) (
    filter_by (passes f)
      (filter_by (λ i. is_public s (some i)) (map (refreshed now) (values s.catalog))))

-- What `summarizeReviewTest` tells of a test.
pub record ReviewTest : Type 0 where
  pub request_id : String
  pub seller_id : String
  pub subagent_id : String
  pub status : String
  pub verdict : Option String
  pub failure_code : Option String
  pub started_at : ℕ
  pub finished_at : Option ℕ
  pub result_summary : Option Json

-- Of two tests the one that started later, and the first where they started at once.
abbrev later : ReviewTest → Option ReviewTest → ReviewTest
later t none = t
later t (some u) = if ltb t.started_at u.started_at then u else t

latest : List ReviewTest → Option ReviewTest
latest [] = none
latest (t ∷ ts) = some (later t (latest ts))

-- `findLatestReviewTest`
unfoldable pub find_latest_review_test : Dict ReviewTest → String → Option ReviewTest
unfolding latest
find_latest_review_test tests id = latest (filter_by (λ t. t.subagent_id == id) (values tests))

-- The detail of an item. Its submission has more fields than the code tells: the owner and the
-- request of its last test stay within the platform.
pub record SubmissionDetail : Type 0 where
  pub submission_version : ℕ
  pub submitted_at : ℕ
  pub submitted_by : String
  pub review_reason : Option String

abbrev told : Option Submission → Option SubmissionDetail
told none = none
told (some u) = some (record {
  submission_version = u.submission_version;
  submitted_at = u.submitted_at;
  submitted_by = u.submitted_by;
  review_reason = or_text u.review_reason none;
})

pub record Detail : Type 0 where
  pub item : Item
  pub is_public : Bool
  pub latest_review_test : Option ReviewTest
  pub submission : Option SubmissionDetail

-- `buildCatalogDetail`, less the submitted payload, which the submissions of the model do not keep
abbrev pub build_catalog_detail : Dict ReviewTest → Market → Item → Detail
build_catalog_detail tests s i = record {
  item = i;
  is_public = is_public s (some i);
  latest_review_test = find_latest_review_test tests i.subagent_id;
  submission = told (get s.submissions i.subagent_id);
}

pub data View : Type 0 where
  listing : PublicItem → View
  detail : Detail → View

unfoldable pub detail_seen : Dict ReviewTest → Market → Option KeyRecord → Item → Bool → Answer View
detail_seen tests s auth i false =
    send_error 404 "CATALOG_SUBAGENT_NOT_FOUND" "subagent not found in catalog"
detail_seen tests s auth i true = ok (
    if is_public s (some i)
      && not (is_operator_auth s auth)
      && not (can_manage_seller auth (get s.accounts.sellers i.seller_id))
    then listing (sanitize_catalog_item_for_response s i)
    else detail (build_catalog_detail tests s i))

unfoldable pub detail_found :
    Dict ReviewTest → Market → Option KeyRecord → Option Item → Answer View
unfolding detail_seen
detail_found tests s auth none =
    send_error 404 "CATALOG_SUBAGENT_NOT_FOUND" "subagent not found in catalog"
detail_found tests s auth (some i) =
    detail_seen tests s auth i (can_view_catalog_item_detail s auth i)

unfoldable pub read_detail : Dict ReviewTest → Market → Option KeyRecord → String → Answer View
unfolding detail_found
read_detail tests s auth id = detail_found tests s auth (get s.catalog id)

unfoldable pub template_seen : Market → Option String → Item → Bool → Answer (Option Template)
template_seen s template_ref i false =
    send_error 404 "TEMPLATE_NOT_FOUND" "subagent or template not found"
template_seen s template_ref i true =
    if is_unset_or template_ref i.template_ref
    then ok (get s.templates i.template_ref)
    else send_error 409 "TEMPLATE_REF_MISMATCH" "template_ref does not match catalog entry"

unfoldable pub template_found :
    Market → Option KeyRecord → Option String → Option Item → Answer (Option Template)
unfolding template_seen
template_found s auth template_ref none =
    send_error 404 "TEMPLATE_NOT_FOUND" "subagent or template not found"
template_found s auth template_ref (some i) =
    template_seen s template_ref i (can_view_catalog_item_detail s auth i)

unfoldable pub read_template :
    Market → Option KeyRecord → String → Option String → Answer (Option Template)
unfolding template_found
read_template s auth id template_ref = template_found s auth template_ref (get s.catalog id)
