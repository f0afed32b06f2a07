-- ===== src/Tests/Market.antt =====
-- The laws of sellers, catalog and tokens at concrete calls.
use remote_subagent_protocol.Prelude.{
  String, ◌≡◌, refl, true, false, Option, none, some, List, [], ◌∷◌, ◌++◌, ◌↔◌, ◌+◌, ◌<◌, ◌≤◌,
  length, drop,
}
use remote_subagent_protocol.Prelude.Dict.{get, put, get-empty}
use remote_subagent_protocol.Tests.Platform.{user, account}
use remote_subagent_protocol.Platform.Keys.{
  disabled, pending, SellerAccount, KeyRecord, admin_key, buyer_key, seller_key,
  rotate_seller_api_key,
}
use remote_subagent_protocol.Platform.Market.{
  Market, Item, Draw, append_audit_event, append_review_event,
}
use remote_subagent_protocol.Platform.History.{push_capped}
use remote_subagent_protocol.Platform.Market.Submit.{Body, no_list, names_of}
use remote_subagent_protocol.Platform.Market.Submit.Build.{owner_of, submitted_seller}
use remote_subagent_protocol.Platform.Market.Submit.Accept.{accept_submission}
use remote_subagent_protocol.Platform.Market.Unrotated.{submission_key_survives_rotation}
use remote_subagent_protocol.Platform.Market.Access.{
  is_operator_auth, is_public, require_operator, can_view_catalog_item_detail,
}
use remote_subagent_protocol.Platform.Pages.{parse_pagination, paginate_items}
use remote_subagent_protocol.Platform.Pages.Laws.{pages_cover}
use remote_subagent_protocol.Platform.Catalog.{Filters, list_catalog, read_detail, read_template}
use remote_subagent_protocol.Platform.Catalog.Laws.{without, unseen_is_missing}
use remote_subagent_protocol.Platform.Market.Review.{
  approve, review_item, item_read, item_found, answer_item,
}
use remote_subagent_protocol.Platform.Market.Operations.{
  Call, subagent_review, resolve_auth, serve_route, serve, serve_all,
}
use remote_subagent_protocol.Platform.Market.Sound.{
  MarketIsSound, IsSound, put_seller-IsSound, put_item-IsSound,
}
use remote_subagent_protocol.Platform.Market.Sound.Calls.{serve_all_keeps_sound}
use remote_subagent_protocol.Platform.Market.Publish.Calls.{only_operators_publish}

-- The seller of the other tests, after its key was revoked.
abbrev revoked : SellerAccount
revoked = record account { api_key = none }

abbrev pub item : Item
item = record {
  seller_id = "s1";
  subagent_id = "a1";
  display_name = "One";
  description = none;
  status = disabled;
  review_status = pending;
  submission_version = 1;
  submitted_at = 1;
  reviewed_at = none;
  reviewed_by = none;
  review_reason = none;
  availability_status = "healthy";
  last_heartbeat_at = 1;
  template_ref = "a1@v1";
  task_types = [];
  capabilities = [];
  tags = [];
  input_schema = none;
  output_schema = none;
  seller_public_key_pem = some "pem1";
  seller_public_keys_pem = "pem1" ∷ [];
  signing_key_rotation_window_until = none;
  task_delivery_address = "local://relay/s1/a1";
}

abbrev pub market : Market
market = record {
  accounts = record {
    users = ("user1", user) ∷ [];
    sellers = ("s1", revoked) ∷ [];
    api_keys = ("sk_1", buyer_key "user1" ("buyer" ∷ [])) ∷ ("sk_0", admin_key) ∷ [];
  };
  catalog = ("a1", item) ∷ [];
  templates = [];
  submissions = [];
  audit_events = [];
  review_events = [];
  subagents_per_seller = none;
  telemetry_history = 5000;
}

abbrev draw : Draw
draw = record {
  now = 10;
  event_id = "e1";
  second_event_id = "e2";
  user_id = "user2";
  api_key = "sk_9";
}

abbrev approval : String → Call
approval key = record {
  bearer = some key;
  within_limit = true;
  draw = draw;
  route = subagent_review approve "a1" (some (record { reason = none }));
}

empty-IsSound : IsSound [] []
empty-IsSound = record {
  sellers_sound = λ k a there. absurd (cc (there, get-empty k));
  items_sound = λ k i there. absurd (cc (there, get-empty k));
}

market-IsSound : MarketIsSound market
unfolding get put
market-IsSound =
    put_item-IsSound (("s1", revoked) ∷ []) []
      (put_seller-IsSound [] [] empty-IsSound "s1" revoked
        (record { own_id = refl; reviewed = λ e. refl }) (λ a there. absurd (cc there)))
      "a1" item
      (record {
        own_id = refl;
        reviewed = λ e. absurd (cc e);
        owner = revoked;
        owned = refl;
        listed = refl;
      })

serve_all_keeps_sound_example :
    MarketIsSound (serve_all (approval "sk_1" ∷ approval "sk_0" ∷ []) market)
serve_all_keeps_sound_example =
    serve_all_keeps_sound (approval "sk_1" ∷ approval "sk_0" ∷ []) market market-IsSound

only_operators_publish_example :
    is_public (serve (approval "sk_1") market) (get (serve (approval "sk_1") market).catalog "a1")
    ≡ false
unfolding get resolve_auth is_operator_auth is_public
only_operators_publish_example =
    only_operators_publish (approval "sk_1") market "a1" market-IsSound refl refl

-- The operator's approval does make it public.
approval_publishes :
    is_public (serve (approval "sk_0") market) (get (serve (approval "sk_0") market).catalog "a1")
    ≡ true
unfolding serve serve_route review_item item_read item_found answer_item require_operator
    resolve_auth append_audit_event append_review_event is_public get put push_capped
approval_publishes = refl

abbrev body : Body
body = record {
  seller_id = some "s1";
  subagent_id = some "a1";
  display_name = some "One";
  seller_public_key_pem = some "pem1";
  description = none;
  template_ref = none;
  task_delivery_address = none;
  task_types = no_list;
  capabilities = no_list;
  tags = no_list;
  input_schema = none;
  output_schema = none;
  contact_email = none;
  support_email = none;
  owner_user_id = none;
  review_reason = none;
  reason = none;
}

abbrev owner : Option KeyRecord
owner = some (buyer_key "user1" ("buyer" ∷ []))

submission_key_survives_rotation_example :
    let after =
      (accept_submission draw owner body (names_of body) (some revoked) (some item) market).0 in
    let id = owner_of draw body owner (some revoked) in
    let submitted = submitted_seller draw market body (names_of body) id (some revoked) in
    get (rotate_seller_api_key "sk_8" "s1" after.accounts).0.api_keys "sk_9"
    ≡ some (seller_key submitted.seller_id id submitted.scopes submitted.subagent_ids)
submission_key_survives_rotation_example =
    submission_key_survives_rotation draw owner body (names_of body) market revoked (some item)
      "sk_8" refl refl refl

abbrev no_filters : Filters
no_filters = record {
  status = none;
  availability_status = none;
  task_type = none;
  capability = none;
  tag = none;
}

-- The market's subagent is not yet reviewed.
unseen_is_missing_example :
    (read_detail [] market none "a1" ≡ read_detail [] (without market "a1") none "a1")
    × (read_template market none "a1" none ≡ read_template (without market "a1") none "a1" none)
    × (list_catalog 10 market no_filters ≡ list_catalog 10 (without market "a1") no_filters)
unfolding get can_view_catalog_item_detail is_public is_operator_auth
unseen_is_missing_example =
    unseen_is_missing [] 10 market none "a1" item none no_filters (refl, tt) refl refl

abbrev three : List String
three = "one" ∷ "two" ∷ "three" ∷ []

pages_cover_example :
    let p = parse_pagination (some 2) (some 1) in
    let page = paginate_items three p in
    (page.items ++ drop (p.offset + p.limit) three ≡ drop p.offset three)
    × ((page.has_more ≡ true) ↔ (0 < length (drop (p.offset + p.limit) three)))
    × (length page.items ≤ 200)
    × (0 < length (drop p.offset three) → 0 < length page.items)
pages_cover_example = pages_cover three (some 2) (some 1)
