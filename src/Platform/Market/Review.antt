-- ===== src/Platform/Market/Review.antt =====
-- The operators' routes POST /v1/admin/sellers/:id/(approve|reject|disable|enable), and the same of
-- subagents. A body of `none` is no JSON; `enable` does not read its body.
use remote_subagent_protocol.Prelude.{String, Bool, true, false, Option, none, some, or_text}
use remote_subagent_protocol.Prelude.Dict.{get}
use remote_subagent_protocol.Platform.Answer.{Answer, ok, failed, send_error, not_json}
use remote_subagent_protocol.Platform.Keys.{
  Status, enabled, disabled, ReviewStatus, approved, rejected, SellerAccount, KeyRecord,
}
use remote_subagent_protocol.Platform.Market.{
  Market, Item, Draw, Target, on_seller, on_subagent, ReviewEvent, describe_actor,
  append_audit_event, append_review_event, set_seller, set_item,
}
use remote_subagent_protocol.Platform.Market.Access.{is_approved, is_public, require_operator}

pub data Verb : Type 0 where
  approve : Verb
  reject : Verb
  disable : Verb
  enable : Verb

-- What the routes answer; the visibility is that of the catalog, where the answer has it.
pub record Reviewed : Type 0 where
  pub id : String
  pub status : Status
  pub review_status : ReviewStatus
  pub public_in_catalog : Option Bool

pub record Body : Type 0 where
  pub reason : Option String

-- `body.reason || null`
abbrev reason_of : Body → Option String
reason_of b = or_text b.reason none

-- The body that a route reads: `enable` reads none.
abbrev pub body_read : Verb → Option Body → Option Body
body_read enable body = some (record { reason = none })
body_read _ body = body

module _ (d : Draw) (auth : Option KeyRecord) where
  abbrev review_event : ReviewStatus → Target → Option String → String → Option String → ReviewEvent
  review_event review_status target reason seller_id subagent_id = record {
    id = d.second_event_id;
    review_status = review_status;
    target = target;
    recorded_at = d.now;
    actor = describe_actor auth;
    reason = reason;
    seller_id = some seller_id;
    subagent_id = subagent_id;
    submission_version = none;
  }

  abbrev pub reviewed_seller : Status → ReviewStatus → Body → SellerAccount → SellerAccount
  reviewed_seller status review_status b a = record a {
    status = status;
    review_status = review_status;
    reviewed_at = some d.now;
    reviewed_by = (describe_actor auth).actor_id;
    review_reason = reason_of b;
  }

  abbrev answer_seller : SellerAccount → Option Bool → Answer Reviewed
  answer_seller a visible = ok (record {
    id = a.seller_id;
    status = a.status;
    review_status = a.review_status;
    public_in_catalog = visible;
  })

  unfoldable pub enable_seller : Market → String → SellerAccount → Bool → Market × Answer Reviewed
  enable_seller s id a false =
      (s, send_error 409 "SELLER_NOT_APPROVED" "seller must be approved before it can be enabled")
  enable_seller s id a true =
      let now_enabled : SellerAccount = record a { status = enabled } in
      (
        append_audit_event d auth "seller.enabled" (on_seller a.seller_id) none
            (set_seller id now_enabled s),
        answer_seller now_enabled none,
      )

  unfoldable pub seller_found :
      Market → Verb → Body → String → Option SellerAccount → Market × Answer Reviewed
  unfolding enable_seller
  seller_found s verb b id none =
      (s, send_error 404 "SELLER_NOT_FOUND" "no seller found with this id")
  seller_found s approve b id (some a) =
      let new_account = reviewed_seller enabled approved b a in
      (
        append_review_event
            (review_event approved (on_seller a.seller_id) (reason_of b) a.seller_id none)
            (append_audit_event d auth "seller.approved" (on_seller a.seller_id) (reason_of b)
              (set_seller id new_account s)),
        answer_seller new_account none,
      )
  seller_found s reject b id (some a) =
      let new_account = reviewed_seller disabled rejected b a in
      (
        append_review_event
            (review_event rejected (on_seller a.seller_id) (reason_of b) a.seller_id none)
            (append_audit_event d auth "seller.rejected" (on_seller a.seller_id) (reason_of b)
              (set_seller id new_account s)),
        answer_seller new_account (some false),
      )
  seller_found s disable b id (some a) =
      let new_account : SellerAccount = record a { status = disabled } in
      (
        append_audit_event d auth "seller.disabled" (on_seller a.seller_id) (reason_of b)
            (set_seller id new_account s),
        answer_seller new_account (some false),
      )
  seller_found s enable b id (some a) = enable_seller s id a (is_approved a.review_status)

  abbrev pub reviewed_item : Status → ReviewStatus → Body → Item → Item
  reviewed_item status review_status b i = record i {
    status = status;
    review_status = review_status;
    reviewed_at = some d.now;
    reviewed_by = (describe_actor auth).actor_id;
    review_reason = reason_of b;
  }

  unfoldable pub answer_item : Market → Item → Market × Answer Reviewed
  answer_item s i = (
    s,
    ok (record {
      id = i.subagent_id;
      status = i.status;
      review_status = i.review_status;
      public_in_catalog = some (is_public s (some i));
    }),
  )

  unfoldable pub enable_item : Market → String → Item → Bool → Market × Answer Reviewed
  unfolding answer_item
  enable_item s id i false = (
    s,
    send_error 409 "SUBAGENT_NOT_APPROVED" "subagent must be approved before it can be enabled",
  )
  enable_item s id i true =
      let now_enabled : Item = record i { status = enabled } in
      answer_item
        (append_audit_event d auth "subagent.enabled" (on_subagent i.subagent_id) none
          (set_item id now_enabled s))
        now_enabled

  unfoldable pub item_found : Market → Verb → Body → String → Option Item → Market × Answer Reviewed
  unfolding enable_item answer_item
  item_found s verb b id none =
      (s, send_error 404 "CATALOG_SUBAGENT_NOT_FOUND" "subagent not found in catalog")
  item_found s approve b id (some i) =
      let new_item = reviewed_item enabled approved b i in
      let event =
        review_event approved (on_subagent i.subagent_id) (reason_of b) i.seller_id
          (some i.subagent_id) in
      answer_item
        (append_review_event event (
          append_audit_event d auth "subagent.approved" (on_subagent i.subagent_id) (reason_of b)
            (set_item id new_item s)))
        new_item
  item_found s reject b id (some i) =
      let new_item = reviewed_item disabled rejected b i in
      let event =
        review_event rejected (on_subagent i.subagent_id) (reason_of b) i.seller_id
          (some i.subagent_id) in
      answer_item
        (append_review_event event (
          append_audit_event d auth "subagent.rejected" (on_subagent i.subagent_id) (reason_of b)
            (set_item id new_item s)))
        new_item
  item_found s disable b id (some i) =
      let new_item : Item = record i { status = disabled } in
      answer_item
        (append_audit_event d auth "subagent.disabled" (on_subagent i.subagent_id) (reason_of b)
          (set_item id new_item s))
        new_item
  item_found s enable b id (some i) = enable_item s id i (is_approved i.review_status)

  unfoldable pub seller_read :
      Market → Verb → String → Option Body → Answer Unit → Market × Answer Reviewed
  unfolding seller_found
  seller_read s verb id body (failed status error) = (s, failed status error)
  seller_read s verb id none (ok _) = (s, not_json)
  seller_read s verb id (some b) (ok _) = seller_found s verb b id (get s.accounts.sellers id)

  unfoldable pub item_read :
      Market → Verb → String → Option Body → Answer Unit → Market × Answer Reviewed
  unfolding item_found
  item_read s verb id body (failed status error) = (s, failed status error)
  item_read s verb id none (ok _) = (s, not_json)
  item_read s verb id (some b) (ok _) = item_found s verb b id (get s.catalog id)

  unfoldable pub review_seller : Verb → String → Option Body → Market → Market × Answer Reviewed
  unfolding seller_read
  review_seller verb id body s =
      seller_read s verb id (body_read verb body) (require_operator s auth)

  unfoldable pub review_item : Verb → String → Option Body → Market → Market × Answer Reviewed
  unfolding item_read
  review_item verb id body s = item_read s verb id (body_read verb body) (require_operator s auth)
