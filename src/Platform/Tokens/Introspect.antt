-- ===== src/Platform/Tokens/Introspect.antt =====
-- POST /v1/tokens/introspect: a seller asks whether a token is good. A body of `none` is no JSON.
use remote_subagent_protocol.Prelude.{
  [], ◌∷◌, ◌↔◌, ℕ, ◌+◌, ◌*◌, ◌/◌, ◌<◌, String, ◌≡◌, refl, sym, ap, ◌∙◌, Bool, true, false, not,
  Option, none, some, List, ◌==◌, ◌||◌, or_text, includes, eq_iff, arith, leb, if◌then◌else◌,
  truthy, Bool-cases, inl, inr,
}
use remote_subagent_protocol.Prelude.Texts.{lacks, split}
use remote_subagent_protocol.Json.{Json, str, member, get, json_truthy, is_text}
use remote_subagent_protocol.Platform.Answer.{Answer, ok, failed, send_error, not_json}
use remote_subagent_protocol.Platform.Keys.{KeyRecord, seller_key}
use remote_subagent_protocol.Platform.Market.Access.{seller_matches}
use remote_subagent_protocol.Platform.Tokens.{
  Parsed, valid, expired, malformed, parse_token, sign_token, Grant, create_task_claims,
}
use remote_subagent_protocol.Platform.Tokens.Laws.{issued_token_is_read, split-sign_token}

pub data Introspection : Type 0 where
  active : Json → Introspection
  inactive : String → Option Json → Introspection

pub record Body : Type 0 where
  pub task_token : Option String
  pub token : Option String

abbrev claims_of : Parsed → Option Json
claims_of (valid claims) = some claims
claims_of (expired claims) = some claims
claims_of malformed = none

abbrev verdict : Parsed → Introspection
verdict (valid claims) = active claims
verdict (expired claims) = inactive "AUTH_TOKEN_EXPIRED" (some claims)
verdict malformed = inactive "AUTH_TOKEN_INVALID" none

-- `auth.subagent_ids.includes(subagentId)`
abbrev lists_field : List String → Option Json → Bool
lists_field subagents (some (str s)) = includes subagents s
lists_field subagents _ = false

-- The guard: of claims with a seller, `requireSeller` for that seller and subagent; of others,
-- `requireAuth`, and the caller's type is tested behind it.
unfoldable pub guard : Option KeyRecord → Option Json → Answer Unit
guard none claims = send_error 401 "AUTH_UNAUTHORIZED" "API key is missing or invalid"
guard (some (seller_key id owner scopes subagents)) claims =
    let seller_id = member claims "seller_id" in
    let subagent_id = member claims "subagent_id" in
    if json_truthy seller_id
    then seller_matches (is_text (some id) seller_id)
        (not (json_truthy subagent_id) || lists_field subagents subagent_id)
    else ok tt
guard (some _) claims =
    if json_truthy (member claims "seller_id")
    then send_error 403 "AUTH_SCOPE_FORBIDDEN" "caller lacks the required seller scope"
    else send_error 403 "AUTH_SCOPE_FORBIDDEN" "only seller callers may introspect tokens"

unfoldable pub answer : Parsed → Answer Unit → Answer Introspection
answer p (failed status error) = failed status error
answer p (ok _) = ok (verdict p)

module _ (hmac : String → String → String) (encode : Json → String)
    (decode : String → Option Json) where
  unfoldable pub introspect : ℕ → String → Option KeyRecord → Option Body → Answer Introspection
  unfolding guard answer
  introspect now secret auth none = not_json
  introspect now secret auth (some b) =
      let p = parse_token hmac encode decode now secret (or_text b.task_token b.token) in
      answer p (guard auth (claims_of p))

  sign_token-truthy :
      (secret : String) (claims : Json)
      → lacks 46 (encode claims) ≡ true
      → lacks 46 (hmac secret (encode claims)) ≡ true
      → truthy (some (sign_token hmac encode decode secret claims)) ≡ true
  unfolding split
  sign_token-truthy secret claims payload_plain mac_plain =
      named (sign_token hmac encode decode secret claims) refl
        (split-sign_token hmac encode decode secret claims payload_plain mac_plain)
    where
      named :
          {x y : String} (t : String) → (t ≡ t) → split 46 t ≡ x ∷ y ∷ [] → truthy (some t) ≡ true
      named t _ parts = elim (Bool-cases (t == "")) [
        | inl empty ↦ absurd (cc (parts, ap (split 46) ((eq_iff t "").0 empty)))
        | inr filled ↦ rw filled refl
      ]

  guard-grant :
      (issued ttl_seconds : ℕ) (jti : String) (g : Grant) (id owner : String)
      (scopes subagents : List String)
      → (g.seller_id == "") ≡ false
      → (g.subagent_id == "") ≡ false
      → guard
          (some (seller_key id owner scopes subagents))
          (some (create_task_claims issued ttl_seconds jti g))
        ≡ seller_matches (id == g.seller_id) (includes subagents g.subagent_id)
  unfolding guard create_task_claims member get
  guard-grant issued ttl_seconds jti g id owner scopes subagents seller_named subagent_named =
      rw (seller_named, subagent_named) refl

  matches-both :
      (claims : Json) (a b : Bool)
      → (answer (valid claims) (seller_matches a b) ≡ ok (active claims))
        ↔ ((a ≡ true) × (b ≡ true))
  unfolding answer
  matches-both claims true true = (λ e. (refl, refl), λ h. refl)
  matches-both claims true false = (λ e. absurd (cc e), λ h. absurd (cc (h.1)))
  matches-both claims false b = (λ e. absurd (cc e), λ h. absurd (cc (h.0)))

  issued_token-served :
      (issued now ttl_seconds : ℕ) (secret jti : String) (g : Grant) (id owner : String)
      (scopes subagents : List String) (other : Option String)
      → let claims = create_task_claims issued ttl_seconds jti g in
        lacks 46 (encode claims) ≡ true
        → lacks 46 (hmac secret (encode claims)) ≡ true
        → decode (encode claims) ≡ some claims
        → (g.seller_id == "") ≡ false
        → (g.subagent_id == "") ≡ false
        → now < (issued / 1000 + ttl_seconds) * 1000
        → introspect now secret (some (seller_key id owner scopes subagents)) (
            some (record {
              task_token = some (sign_token hmac encode decode secret claims);
              token = other;
            }))
          ≡ answer
              (valid claims)
              (seller_matches (id == g.seller_id) (includes subagents g.subagent_id))
  unfolding introspect
  issued_token-served issued now ttl_seconds secret jti g id owner scopes subagents other
        payload_plain mac_plain decodes seller_named subagent_named early =
      let claims = create_task_claims issued ttl_seconds jti g in
      let token = sign_token hmac encode decode secret claims in
      let auth = some (seller_key id owner scopes subagents) in
      let given : or_text (some token) other ≡ some token =
        ap (λ b. if b then some token else other)
          (sign_token-truthy secret claims payload_plain mac_plain) in
      let late : leb ((issued / 1000 + ttl_seconds) * 1000) now ≡ false = ground (arith, early) in
      let parsed =
        ap (parse_token hmac encode decode now secret) given
        ∙ issued_token_is_read hmac encode decode issued now ttl_seconds secret jti g payload_plain
            mac_plain decodes
        ∙ ap (λ b. if b then expired claims else valid claims) late in
      ap (λ p. answer p (guard auth (claims_of p))) parsed
      ∙ ap (answer (valid claims)) (
          guard-grant issued ttl_seconds jti g id owner scopes subagents seller_named
            subagent_named)

  -- While it has not run out, a token that the platform issued is active for a seller's key exactly
  -- if it was issued for that seller and for a subagent that the key lists. It takes that the
  -- encoded claims and their code have no dot, that decoding undoes the encoding of the claims, and
  -- that the token names a seller and a subagent.
  pub issued_token_serves_its_seller :
      (issued now ttl_seconds : ℕ) (secret jti : String) (g : Grant) (id owner : String)
      (scopes subagents : List String) (other : Option String)
      → let claims = create_task_claims issued ttl_seconds jti g in
        lacks 46 (encode claims) ≡ true
        → lacks 46 (hmac secret (encode claims)) ≡ true
        → decode (encode claims) ≡ some claims
        → (g.seller_id == "") ≡ false
        → (g.subagent_id == "") ≡ false
        → now < (issued / 1000 + ttl_seconds) * 1000
        → (introspect now secret (some (seller_key id owner scopes subagents)) (
              some (record {
                task_token = some (sign_token hmac encode decode secret claims);
                token = other;
              }))
            ≡ ok (active claims))
          ↔ ((id ≡ g.seller_id) × (includes subagents g.subagent_id ≡ true))
  issued_token_serves_its_seller issued now ttl_seconds secret jti g id owner scopes subagents other
        payload_plain mac_plain decodes seller_named subagent_named early =
      let claims = create_task_claims issued ttl_seconds jti g in
      let served =
        issued_token-served issued now ttl_seconds secret jti g id owner scopes subagents other
          payload_plain mac_plain decodes seller_named subagent_named early in
      let both = matches-both claims (id == g.seller_id) (includes subagents g.subagent_id) in
      (
        (λ e.
            let (same, lists) = both.0 (sym served ∙ e) in ((eq_iff id g.seller_id).0 same, lists)),
        (λ h. served ∙ both.1 ((eq_iff id g.seller_id).1 h.0, h.1)),
      )
