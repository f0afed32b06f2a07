-- ===== src/Tests/Platform.antt =====
-- The platform's laws at concrete requests.
use remote_subagent_protocol.Prelude.{
  ℕ, suc, ◌-◌, ◌≤◌, ◌≡◌, refl, Option, none, some, List, [], ◌∷◌, ◌++◌, arith, length, drop,
  if◌then◌else◌, ltb,
}
use remote_subagent_protocol.Prelude.Dict.{Dict, get}
use remote_subagent_protocol.Platform.History.{capacity, push_capped, push_capped_keeps_newest}
use remote_subagent_protocol.Platform.RateLimit.{active_calls, window_of, allow, allow_within_limit}
use remote_subagent_protocol.Platform.Keys.{
  User, enabled, approved, SellerAccount, Accounts, buyer_record, seller_record,
  rotate_buyer_api_key,
}
use remote_subagent_protocol.Platform.Keys.Laws.{Replaces, rotate_buyer_key}
use remote_subagent_protocol.Platform.Requests.{Request, Body, Caller, seller, ack_request}
use remote_subagent_protocol.Platform.Requests.Laws.{ack_twice}
use remote_subagent_protocol.Platform.Requests.Events.{write_event}
use remote_subagent_protocol.Platform.Requests.Events.Laws.{write_twice}

abbrev three : List ℕ
three = 1 ∷ 2 ∷ 3 ∷ []

push_capped_keeps_newest_example :
    (length (push_capped 2 three 4) ≤ capacity 2)
    × (push_capped 2 three 4 ≡ drop (suc (length three) - capacity 2) three ++ 4 ∷ [])
push_capped_keeps_newest_example = push_capped_keeps_newest 2 three 4

abbrev counters : Dict (List ℕ)
counters = ("introspect:s1", 100 ∷ 70000 ∷ []) ∷ ("introspect:s2", 70000 ∷ []) ∷ []

allow_within_limit_example :
    let active = active_calls 80000 (window_of (some 60000)) (get counters "introspect:s1") in
    let (after, ok) = allow 80000 (some 60000) (some 2) "introspect:s1" counters in
    (ok ≡ ltb (length active) 2)
    × (get after "introspect:s1" ≡ some (if ok then active ++ 80000 ∷ [] else active))
    × (get after "introspect:s2" ≡ get counters "introspect:s2")
allow_within_limit_example =
    allow_within_limit 80000 (some 60000) 2 "introspect:s1" "introspect:s2" counters (omega arith)
      refl

abbrev pub request : Request
request = record {
  request_id = "r1";
  buyer_id = some "user1";
  seller_id = some "s1";
  subagent_id = some "a1";
  request_kind = some "remote_request";
  request_visibility = some "public";
  delivery_meta = none;
  expected_signer_public_key_pem = none;
  events = [];
}

abbrev requests : Dict Request
requests = ("r1", request) ∷ []

abbrev caller : Option Caller
caller = some (seller "s1" ("a1" ∷ []))

abbrev body : Body
body = record {
  seller_id = some "s1";
  subagent_id = some "a1";
  eta_hint_s = some 3;
  event_type = some "COMPLETED";
  status = none;
  error_code = none;
  finished_at = none;
}

ack_twice_example :
    let first = ack_request 10 200 requests "r1" caller (some body) in
    get (ack_request 20 200 first.0 "r1" caller (some body)).0 "r1" ≡ get first.0 "r1"
ack_twice_example = ack_twice 10 20 200 requests "r1" caller (some body) "r1"

write_twice_example :
    let first = write_event 10 200 requests "r1" caller (some body) in
    get (write_event 20 200 first.0 "r1" caller (some body)).0 "r1" ≡ get first.0 "r1"
write_twice_example = write_twice 10 20 200 requests "r1" caller (some body) "r1"

abbrev pub user : User
user = record {
  user_id = "user1";
  contact_email = some "u@x";
  api_key = some "sk_1";
  roles = "buyer" ∷ [];
  created_at = 1;
}

abbrev pub account : SellerAccount
account = record {
  seller_id = "s1";
  owner_user_id = "user1";
  api_key = some "sk_2";
  scopes = "seller" ∷ [];
  subagent_ids = "a1" ∷ [];
  status = enabled;
  review_status = approved;
  reviewed_at = some 1;
  reviewed_by = some "platform_admin";
  review_reason = none;
  seller_public_key_pem = some "pem1";
  seller_public_keys_pem = "pem1" ∷ [];
  signing_key_rotation_window_until = none;
  last_heartbeat_at = 1;
  availability_status = "healthy";
  contact_email = "s@x";
  support_email = "support@x";
}

abbrev accounts : Accounts
accounts = record {
  users = ("user1", user) ∷ [];
  sellers = ("s1", account) ∷ [];
  api_keys = ("sk_1", buyer_record user) ∷ ("sk_2", seller_record account) ∷ [];
}

rotate_buyer_key_example :
    Replaces accounts.api_keys
      (rotate_buyer_api_key "sk_3" "user1" accounts).0.api_keys
      "sk_1"
      "sk_3"
      "sk_2"
      (buyer_record user)
unfolding get
rotate_buyer_key_example =
    rotate_buyer_key accounts "user1" "sk_1" "sk_3" "sk_2" user refl refl refl refl refl refl
