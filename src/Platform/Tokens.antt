-- ===== src/Platform/Tokens.antt =====
-- Task tokens: `signToken`, `parseToken`, `createTaskClaims` and POST /v1/tokens/introspect. The
-- keyed hash, and JSON within base64url, are parameters: `hmac` of a secret and a payload, `encode`
-- of claims, and `decode`, which gives `none` where it throws.
pub mod Laws
pub mod Introspect
use Prim.Native.String.{◌++◌ as append}
use remote_subagent_protocol.Prelude.{
  ℕ, ◌+◌, ◌*◌, ◌/◌, String, Bool, true, false, not, Option, none, some, List, [], ◌∷◌, ◌==◌,
  if◌then◌else◌, leb, truthy, or_text, text_or, includes, or_default,
}
use remote_subagent_protocol.Prelude.Texts.{split}
use remote_subagent_protocol.Json.{
  Json, null, bool, num, str, arr, obj, Fields, end, field, member, json_truthy, as_text,
}

-- Valid, or an error: of a token that has run out the claims are told too.
pub data Parsed : Type 0 where
  valid : Json → Parsed
  expired : Json → Parsed
  malformed : Parsed

-- `typeof claims.exp !== "number" || Date.now() >= claims.exp * 1000`
unfoldable pub check_exp : ℕ → Json → Option Json → Parsed
check_exp now claims (some (num exp)) =
    if leb (exp * 1000) now then expired claims else valid claims
check_exp now claims _ = expired claims

-- `null` has no field to read, and the read throws.
unfoldable pub check_claims : ℕ → Option Json → Parsed
unfolding check_exp
check_claims now none = malformed
check_claims now (some null) = malformed
check_claims now (some claims) = check_exp now claims (member (some claims) "exp")

module _ (hmac : String → String → String) (encode : Json → String)
    (decode : String → Option Json) where
  unfoldable pub sign_token : String → Json → String
  sign_token secret claims =
      let payload = encode claims in append payload (append "." (hmac secret payload))

  unfoldable pub check_mac : ℕ → String → String → String → Parsed
  check_mac now secret payload signature =
      if hmac secret payload == signature then check_claims now (decode payload) else malformed

  -- What is behind a second dot is not read.
  unfoldable pub parse_parts : ℕ → String → List String → Parsed
  unfolding check_mac
  parse_parts now secret (payload ∷ signature ∷ rest) = check_mac now secret payload signature
  parse_parts now secret _ = malformed

  unfoldable pub parse_token : ℕ → String → Option String → Parsed
  unfolding parse_parts
  parse_token now secret none = malformed
  parse_token now secret (some token) = parse_parts now secret (split 46 token)

-- What a task token says. `now` is in milliseconds, the claims count seconds.
pub record Grant : Type 0 where
  pub buyer_id : String
  pub request_id : String
  pub seller_id : String
  pub subagent_id : String
  pub request_kind : String

unfoldable pub create_task_claims : ℕ → ℕ → String → Grant → Json
create_task_claims now ttl_seconds jti g = obj (
    field "iss" (str "delexec-platform-api") (
      field "sub" (str g.buyer_id) (
        field "aud" (str g.seller_id) (
          field "jti" (str jti) (
            field "iat" (num (now / 1000)) (
              field "exp" (num (now / 1000 + ttl_seconds)) (
                field "buyer_id" (str g.buyer_id) (
                  field "request_id" (str g.request_id) (
                    field "seller_id" (str g.seller_id) (
                      field "subagent_id" (str g.subagent_id)
                        (field "request_kind" (str g.request_kind) end)))))))))))
