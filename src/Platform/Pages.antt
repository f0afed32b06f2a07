-- ===== src/Platform/Pages.antt =====
-- The pages of the administration's listings: `matchesQuery`, `parsePagination`, `paginateItems`,
-- and GET /v1/admin/requests, /v1/admin/reviews and /v1/admin/audit-events. `stringify` is
-- `JSON.stringify` and `to_lower_case` the method of texts; numbers of a query are natural.
pub mod Laws
use Prim.Native.Char.{code}
use remote_subagent_protocol.Prelude.{
  ℕ, String, Bool, true, false, not, Option, none, some, List, [], ◌∷◌, ◌++◌, ◌==◌, ◌&&◌, ◌||◌, ◌+◌,
  min, max, truthy, text_or, ltb, length, take, drop, map, filter_by, same_text, last?, nat_eq,
  or_default, if◌then◌else◌,
}
use remote_subagent_protocol.Prelude.Dict.{Dict, values}
use remote_subagent_protocol.Transport.Messages.{Event}
use remote_subagent_protocol.Platform.Answer.{Answer, ok, failed}
use remote_subagent_protocol.Platform.Keys.{KeyRecord, ReviewStatus, pending, approved, rejected}
use remote_subagent_protocol.Platform.Market.{Market, AuditEvent, ReviewEvent}
use remote_subagent_protocol.Platform.Market.Access.{require_operator}
use remote_subagent_protocol.Platform.Requests.{Request}

-- `text.includes(part)`
is_start : String → String → Bool
is_start String.[] text = true
is_start (String.◌∷◌ c part) String.[] = false
is_start (String.◌∷◌ c part) (String.◌∷◌ d text) = nat_eq (code c) (code d) && is_start part text

contains : String → String → Bool
unfolding is_start
contains String.[] part = is_start part ""
contains (String.◌∷◌ c text) part = is_start part (String.◌∷◌ c text) || contains text part

pub record Pagination : Type 0 where
  pub limit : ℕ
  pub offset : ℕ

-- `Math.max(1, Math.min(200, limit || 50))` and `Math.max(0, offset || 0)`
unfoldable pub parse_pagination : Option ℕ → Option ℕ → Pagination
parse_pagination limit offset = record {
  limit = max 1 (min 200 (or_default limit 50));
  offset = or_default offset 0;
}

pub record Page (A : Type 0) : Type 0 where
  pub items : List A
  pub total : ℕ
  pub limit : ℕ
  pub offset : ℕ
  pub has_more : Bool

unfoldable pub paginate_items : {A : Type 0} → List A → Pagination → Page A
paginate_items items p =
    let sliced = take p.limit (drop p.offset items) in
    record {
      items = sliced;
      total = length items;
      limit = p.limit;
      offset = p.offset;
      has_more = ltb (p.offset + length sliced) (length items);
    }

abbrev reversed {ℓ} : {A : Type ℓ} → List A → List A
reversed [] = []
reversed (x ∷ xs) = reversed xs ++ x ∷ []

abbrev review_text : ReviewStatus → String
review_text pending = "pending"
review_text approved = "approved"
review_text rejected = "rejected"

-- `!filter || value === filter`
abbrev is_unset_or : Option String → Option String → Bool
is_unset_or o t = not (truthy o) || same_text t o

-- `buildRequestAdminSummary`
pub record Summary : Type 0 where
  pub request_id : String
  pub buyer_id : Option String
  pub seller_id : Option String
  pub subagent_id : Option String
  pub request_kind : String
  pub request_visibility : String
  pub event_count : ℕ
  pub latest_event : Option Event

abbrev build_request_admin_summary : Request → Summary
build_request_admin_summary r = record {
  request_id = r.request_id;
  buyer_id = r.buyer_id;
  seller_id = r.seller_id;
  subagent_id = r.subagent_id;
  request_kind = text_or r.request_kind "remote_request";
  request_visibility = text_or r.request_visibility "public";
  event_count = length r.events;
  latest_event = last? r.events;
}

abbrev type_of : Option Event → Option String
type_of none = none
type_of (some e) = some e.event_type

pub record RequestQuery : Type 0 where
  pub q : Option String
  pub buyer_id : Option String
  pub seller_id : Option String
  pub subagent_id : Option String
  pub event_type : Option String

pub record ReviewQuery : Type 0 where
  pub q : Option String
  pub review_status : Option String
  pub target_type : Option String
  pub target_id : Option String

pub record AuditQuery : Type 0 where
  pub q : Option String
  pub action : Option String
  pub actor_type : Option String
  pub target_type : Option String

abbrev paged : {A : Type 0} → Answer Unit → List A → Pagination → Answer (Page A)
paged (failed status error) items p = failed status error
paged (ok _) items p = ok (paginate_items items p)

module _ (to_lower_case : String → String) where
  matches_query : {A : Type 0} → (A → String) → A → Option String → Bool
  unfolding contains
  matches_query stringify value q =
      not (truthy q) || contains (to_lower_case (stringify value)) (to_lower_case (text_or q ""))

  unfoldable pub list_requests :
      (Summary → String)
      → Market
      → Dict Request
      → Option KeyRecord
      → RequestQuery
      → Pagination
      → Answer (Page Summary)
  unfolding matches_query
  list_requests stringify s m auth f p =
      paged (require_operator s auth)
        (filter_by
          (λ r.
            is_unset_or f.buyer_id r.buyer_id
            && is_unset_or f.seller_id r.seller_id
            && is_unset_or f.subagent_id r.subagent_id
            && is_unset_or f.event_type (type_of r.latest_event)
            && matches_query stringify r f.q)
          (map build_request_admin_summary (values m)))
        p

  unfoldable pub list_reviews :
      (ReviewEvent → String)
      → Market
      → Option KeyRecord
      → ReviewQuery
      → Pagination
      → Answer (Page ReviewEvent)
  unfolding matches_query
  list_reviews stringify s auth f p =
      paged (require_operator s auth)
        (filter_by
          (λ e.
            is_unset_or f.review_status (some (review_text e.review_status))
            && is_unset_or f.target_type (some e.target.type)
            && is_unset_or f.target_id (some e.target.id)
            && matches_query stringify e f.q)
          (reversed s.review_events))
        p

  unfoldable pub list_audit_events :
      (AuditEvent → String)
      → Market
      → Option KeyRecord
      → AuditQuery
      → Pagination
      → Answer (Page AuditEvent)
  unfolding matches_query
  list_audit_events stringify s auth f p =
      paged (require_operator s auth)
        (filter_by
          (λ e.
            is_unset_or f.action (some e.action)
            && is_unset_or f.actor_type (some e.actor.actor_type)
            && is_unset_or f.target_type (some e.target.type)
            && matches_query stringify e f.q)
          (reversed s.audit_events))
        p
