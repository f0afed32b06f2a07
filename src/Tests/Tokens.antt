-- ===== src/Tests/Tokens.antt =====
-- The laws of tokens and of the platform's requests at concrete calls, with a toy hash and codec.
use Prim.Native.String.{◌++◌ as append}
use remote_subagent_protocol.Prelude.{
  ◌+◌, ◌*◌, ◌/◌, String, ◌≡◌, refl, ◌↔◌, true, Option, none, some, List, [], ◌∷◌, arith, includes,
  leb, map, if◌then◌else◌, ◌==◌,
}
use remote_subagent_protocol.Prelude.Dict.{Dict, get}
use remote_subagent_protocol.Prelude.Texts.{split}
use remote_subagent_protocol.Json.{Json, member, get as field_of}
use remote_subagent_protocol.Platform.Answer.{ok}
use remote_subagent_protocol.Platform.Keys.{KeyRecord, buyer_key, seller_key}
use remote_subagent_protocol.Platform.Requests.{Request}
use remote_subagent_protocol.Platform.Requests.Parties.{IsBound}
use remote_subagent_protocol.Platform.Tokens.{
  Grant, create_task_claims, sign_token, parse_token, valid, expired, parse_parts, check_mac,
  check_claims, check_exp,
}
use remote_subagent_protocol.Platform.Tokens.Laws.{
  IsSigned, issued_token_is_read, valid_token_has_signature,
}
use remote_subagent_protocol.Platform.Tokens.Introspect.{
  introspect, active, issued_token_serves_its_seller,
}
use remote_subagent_protocol.Platform.Delivery.{Platform}
use remote_subagent_protocol.Platform.Delivery.Reads.{
  read_batch, read_events, item_of, ids_of, batch_reads_each,
}
use remote_subagent_protocol.Platform.Delivery.Histories.{Call, tokens_task, request_ack, serve_all}
use remote_subagent_protocol.Platform.Delivery.Parties.{serve_all_keeps_parties}
use remote_subagent_protocol.Tests.Platform.{request}
use remote_subagent_protocol.Tests.Market.{market}

abbrev grant : Grant
grant = record {
  buyer_id = "user1";
  request_id = "r1";
  seller_id = "s1";
  subagent_id = "a1";
  request_kind = "remote_request";
}

abbrev claims : Json
claims = create_task_claims 5000 300 "tok1" grant

abbrev hmac : String → String → String
hmac secret payload = append secret "-mac"

abbrev encode : Json → String
encode j = "payload"

abbrev decode : String → Option Json
decode t = if t == "payload" then some claims else none

issued_token_is_read_example :
    parse_token hmac encode decode 6000 "k" (some (sign_token hmac encode decode "k" claims))
    ≡ (if leb ((5000 / 1000 + 300) * 1000) 6000 then expired claims else valid claims)
issued_token_is_read_example =
    issued_token_is_read hmac encode decode 5000 6000 300 "k" "tok1" grant refl refl refl

valid_token_has_signature_example : IsSigned hmac encode decode 6000 "k" "payload.k-mac" claims
unfolding parse_token parse_parts check_mac check_claims check_exp split create_task_claims member
    field_of
valid_token_has_signature_example =
    valid_token_has_signature hmac encode decode 6000 "k" "payload.k-mac" claims refl

issued_token_serves_its_seller_example :
    (introspect hmac encode decode 6000 "k" (some (seller_key "s1" "user1" [] ("a1" ∷ []))) (
        some
          (record { task_token = some (sign_token hmac encode decode "k" claims); token = none }))
      ≡ ok (active claims))
    ↔ ((grant.seller_id ≡ grant.seller_id) × (includes ("a1" ∷ []) "a1" ≡ true))
issued_token_serves_its_seller_example =
    issued_token_serves_its_seller hmac encode decode 5000 6000 300 "k" "tok1" grant "s1" "user1" []
      ("a1" ∷ []) none refl refl refl refl refl (omega arith)

abbrev requests : Dict Request
requests = ("r1", request) ∷ []

abbrev buyer : KeyRecord
buyer = buyer_key "user1" ("buyer" ∷ [])

batch_reads_each_example :
    read_batch requests (some buyer) (some (some ("r1" ∷ "" ∷ "r2" ∷ [])))
    ≡ ok (
        map
          (λ id. item_of id (read_events requests (some buyer) id))
          (ids_of (some ("r1" ∷ "" ∷ "r2" ∷ []))))
batch_reads_each_example = batch_reads_each requests buyer (some ("r1" ∷ "" ∷ "r2" ∷ [])) refl refl

abbrev platform : Platform
platform = record {
  market = market;
  requests = requests;
  token_secret = "k";
  token_ttl_seconds = 300;
  event_history = 200;
}

abbrev calls : List Call
calls =
    record {
      bearer = some "sk_1";
      now = 10;
      route = tokens_task "tok1" (
          some (record { request_id = some "r1"; seller_id = some "s2"; subagent_id = some "a1" }));
    }
    ∷ record { bearer = none; now = 20; route = request_ack "r1" none }
    ∷ []

serve_all_keeps_parties_example :
    IsBound (serve_all hmac encode decode calls platform).requests "r1" "user1" "s1" "a1"
unfolding get
serve_all_keeps_parties_example =
    serve_all_keeps_parties hmac encode decode calls platform "r1" "user1" "s1" "a1" refl refl refl
      (record {
        entry = request;
        found = refl;
        buyer_id = refl;
        seller_id = refl;
        subagent_id = refl;
      })
