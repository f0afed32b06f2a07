-- ===== src/Platform/Market/Submit/Accept.antt =====
-- What an accepted submission stores and answers.
use remote_subagent_protocol.Prelude.{
  ℕ, String, Bool, true, false, Option, none, some, List, ◌==◌, if◌then◌else◌, or_text, text_or,
  or_default,
}
use remote_subagent_protocol.Prelude.Dict.{get, put}
use remote_subagent_protocol.Json.{Json, str, arr, obj, nil, cons, end, field}
use remote_subagent_protocol.Platform.Answer.{Answer, ok}
use remote_subagent_protocol.Platform.Keys.{
  Status, ReviewStatus, pending, SellerAccount, KeyRecord, seller_key,
}
use remote_subagent_protocol.Platform.Keys.Roles.{add_user_role}
use remote_subagent_protocol.Platform.Market.{
  Market, Item, Draw, Target, on_seller, on_subagent, ReviewEvent, Submission, Template,
  describe_actor, append_review_event,
}
use remote_subagent_protocol.Platform.Market.Access.{is_public}
use remote_subagent_protocol.Platform.Market.Submit.{Body, Names}
use remote_subagent_protocol.Platform.Market.Submit.Build.{
  auth_user, auth_seller, owner_of, key_of, submitted_seller, seller_changed, submitted_item,
  next_version,
}

pub record Submitted : Type 0 where
  pub seller_id : String
  pub subagent_id : String
  pub api_key : String
  pub owner_user_id : String
  pub task_delivery_address : String
  pub seller_public_key_pem : Option String
  pub status : Status
  pub seller_status : Status
  pub review_status : ReviewStatus
  pub seller_review_status : ReviewStatus
  pub public_in_catalog : Bool
  pub submission_version : ℕ
  pub task_types : List String
  pub capabilities : List String
  pub tags : List String

abbrev text_schema : Json
text_schema = obj (field "type" (str "string") end)

abbrev object_schema : String → Json → Json
object_schema required properties = obj (
    field "type" (str "object")
      (field "required" (arr (cons (str required) nil)) (field "properties" properties end)))

-- `createTemplateBundle`
unfoldable pub create_template_bundle : String → Option Json → Option Json → Template
create_template_bundle template_ref input output = record {
  template_ref = template_ref;
  input_schema = some (
      or_default input (
        object_schema "prompt" (
          obj (
            field "prompt" text_schema
              (field "context" (obj (field "type" (str "object") end)) end)))));
  output_schema =
      some (or_default output (object_schema "summary" (obj (field "summary" text_schema end))));
}

abbrev request_of_last : Option Submission → Option String
request_of_last none = none
request_of_last (some last) = or_text last.latest_review_test_request_id none

abbrev reason_of : Body → Option String
reason_of b = or_text b.review_reason (or_text b.reason none)

-- The submitting user is a seller from now on.
unfoldable pub with_seller_role : Option String → Market → Market
with_seller_role none s = s
with_seller_role (some user) s =
    if user == "" then s else record s { accounts = (add_user_role user "seller" s.accounts).0 }

module _ (d : Draw) (auth : Option KeyRecord) (b : Body) (n : Names) where
  abbrev submission_of : Market → String → Option Item → Submission
  submission_of s owner existing = record {
    seller_id = n.seller_id;
    subagent_id = n.subagent_id;
    owner_user_id = owner;
    submitted_at = d.now;
    submitted_by = text_or (auth_user auth) (text_or (auth_seller auth) "system");
    review_reason = reason_of b;
    submission_version = next_version s n;
    latest_review_test_request_id = elim existing [
      | none ↦ none
      | some i ↦ request_of_last (get s.submissions n.subagent_id)
    ];
  }

  -- The maps after a submission.
  unfoldable pub store_submission :
      String → String → SellerAccount → Item → Option Item → Market → Market
  unfolding create_template_bundle
  store_submission owner key a i existing s = record s {
    accounts = record s.accounts {
      sellers = put s.accounts.sellers a.seller_id a;
      api_keys = put s.accounts.api_keys key (seller_key a.seller_id owner a.scopes a.subagent_ids);
    };
    catalog = put s.catalog i.subagent_id i;
    templates =
        put s.templates i.template_ref
          (create_template_bundle i.template_ref i.input_schema i.output_schema);
    submissions = put s.submissions i.subagent_id (submission_of s owner existing);
  }

  abbrev pending_event : String → Target → SellerAccount → Item → ReviewEvent
  pending_event id target a i = record {
    id = id;
    review_status = pending;
    target = target;
    recorded_at = d.now;
    actor = describe_actor auth;
    reason = reason_of b;
    seller_id = some a.seller_id;
    subagent_id = some i.subagent_id;
    submission_version = some i.submission_version;
  }

  unfoldable pub with_seller_event : Bool → SellerAccount → Item → Market → Market
  with_seller_event false a i s = s
  with_seller_event true a i s =
      append_review_event (pending_event d.event_id (on_seller a.seller_id) a i) s

  unfoldable pub after_submission :
      String → String → Bool → SellerAccount → Item → Option Item → Market → Market
  unfolding store_submission with_seller_role with_seller_event
  after_submission owner key changed a i existing s =
      append_review_event (pending_event d.second_event_id (on_subagent i.subagent_id) a i) (
        with_seller_event changed a i
          (with_seller_role (auth_user auth) (store_submission owner key a i existing s)))

  abbrev submitted_answer : String → String → SellerAccount → Item → Market → Submitted
  submitted_answer owner key a i s = record {
    seller_id = a.seller_id;
    subagent_id = i.subagent_id;
    api_key = key;
    owner_user_id = owner;
    task_delivery_address = i.task_delivery_address;
    seller_public_key_pem = i.seller_public_key_pem;
    status = i.status;
    seller_status = a.status;
    review_status = i.review_status;
    seller_review_status = a.review_status;
    public_in_catalog = is_public s (some i);
    submission_version = i.submission_version;
    task_types = i.task_types;
    capabilities = i.capabilities;
    tags = i.tags;
  }

  unfoldable pub accept_submission :
      Option SellerAccount → Option Item → Market → Market × Answer Submitted
  unfolding after_submission
  accept_submission seller item s =
      let owner = owner_of d b auth seller in
      let key = key_of d seller in
      let a = submitted_seller d s b n owner seller in
      let i = submitted_item d s b n a item in
      let after = after_submission owner key (seller_changed b n seller) a i item s in
      (after, ok (submitted_answer owner key a i after))
