-- ===== src/Platform/Tokens/Laws.antt =====
-- What a token carries and when it is valid.
use Prim.Native.String.{◌++◌ as append}
use text.Mathlib.TextLemmas.{cons-append, nil-append}
use remote_subagent_protocol.Prelude.{
  ℕ, ◌+◌, ◌*◌, ◌/◌, ◌<◌, String, ◌≡◌, refl, sym, ap, ◌∙◌, subst, Bool, true, false, Option, none,
  some, List, [], ◌∷◌, ◌==◌, arith, eq_refl, eq_iff, leb, if◌then◌else◌,
}
use remote_subagent_protocol.Prelude.Texts.{split, lacks, split-append, split-lacks}
use remote_subagent_protocol.Json.{Json, null, bool, num, str, arr, obj, member, get}
use remote_subagent_protocol.Platform.Tokens.{
  valid, expired, malformed, check_exp, check_claims, sign_token, check_mac, parse_parts,
  parse_token, Grant, create_task_claims,
}

timely :
    (late : Bool) (claims claims' : Json)
    → (if late then expired claims else valid claims) ≡ valid claims'
    → (claims ≡ claims') × (late ≡ false)
timely true claims claims' e = absurd (cc e)
timely false claims claims' e = (cc e, refl)

InTime : ℕ → Option Json → Type 0
InTime now field = (exp : ℕ) × (field ≡ some (num exp)) × (now < exp * 1000)

check_exp-valid :
    (now : ℕ) (claims claims' : Json) (field : Option Json)
    → check_exp now claims field ≡ valid claims'
    → (claims ≡ claims') × InTime now field
unfolding check_exp InTime
check_exp-valid now claims claims' none e = absurd (cc e)
check_exp-valid now claims claims' (some null) e = absurd (cc e)
check_exp-valid now claims claims' (some (bool b)) e = absurd (cc e)
check_exp-valid now claims claims' (some (str t)) e = absurd (cc e)
check_exp-valid now claims claims' (some (arr xs)) e = absurd (cc e)
check_exp-valid now claims claims' (some (obj o)) e = absurd (cc e)
check_exp-valid now claims claims' (some (num exp)) e =
    let (same, early) = timely (leb (exp * 1000) now) claims claims' e in
    (same, (exp, refl, ground (arith, early)))

check_json-valid :
    (now : ℕ) (j claims : Json)
    → check_exp now j (member (some j) "exp") ≡ valid claims
    → (some j ≡ some claims) × InTime now (member (some claims) "exp")
check_json-valid now j claims e =
    let (same, timely) = check_exp-valid now j claims _ e in
    (ap some same, subst (λ x. InTime now (member (some x) "exp")) same timely)

check_claims-valid :
    (now : ℕ) (o : Option Json) (claims : Json)
    → check_claims now o ≡ valid claims
    → (o ≡ some claims) × InTime now (member (some claims) "exp")
unfolding check_claims
check_claims-valid now none claims e = absurd (cc e)
check_claims-valid now (some null) claims e = absurd (cc e)
check_claims-valid now (some (bool b)) claims e = check_json-valid now (bool b) claims e
check_claims-valid now (some (num n)) claims e = check_json-valid now (num n) claims e
check_claims-valid now (some (str t)) claims e = check_json-valid now (str t) claims e
check_claims-valid now (some (arr xs)) claims e = check_json-valid now (arr xs) claims e
check_claims-valid now (some (obj o)) claims e = check_json-valid now (obj o) claims e

module _ (hmac : String → String → String) (encode : Json → String)
    (decode : String → Option Json) where
  -- A signed token splits into its payload and its code.
  pub split-sign_token :
      (secret : String) (claims : Json)
      → lacks 46 (encode claims) ≡ true
      → lacks 46 (hmac secret (encode claims)) ≡ true
      → split 46 (sign_token hmac encode decode secret claims)
        ≡ encode claims ∷ hmac secret (encode claims) ∷ []
  unfolding sign_token
  split-sign_token secret claims payload_plain mac_plain =
      ap (λ t. split 46 (append (encode claims) t))
        (cons-append "." "" (hmac secret (encode claims))
          ∙ ap (String.◌∷◌ ".") (nil-append (hmac secret (encode claims))))
      ∙ split-append 46 "." (encode claims) (hmac secret (encode claims)) refl payload_plain
      ∙ ap (λ l. encode claims ∷ l) (split-lacks 46 (hmac secret (encode claims)) mac_plain)

  pub parse_token-sign_token :
      (now : ℕ) (secret : String) (claims : Json)
      → lacks 46 (encode claims) ≡ true
      → lacks 46 (hmac secret (encode claims)) ≡ true
      → decode (encode claims) ≡ some claims
      → parse_token hmac encode decode now secret
          (some (sign_token hmac encode decode secret claims))
        ≡ check_claims now (some claims)
  unfolding parse_token parse_parts check_mac
  parse_token-sign_token now secret claims payload_plain mac_plain decodes =
      ap (parse_parts hmac encode decode now secret)
        (split-sign_token secret claims payload_plain mac_plain)
      ∙ (rw (eq_refl (hmac secret (encode claims))) (ap (check_claims now) decodes))

  -- A token that the platform issued is read back with exactly its claims: as valid until its
  -- seconds have passed from the second of its issue on, and as expired from then on. It takes that
  -- the encoded claims and their code have no dot, and that decoding undoes the encoding of the
  -- claims.
  pub issued_token_is_read :
      (issued now ttl_seconds : ℕ) (secret jti : String) (g : Grant)
      → let claims = create_task_claims issued ttl_seconds jti g in
        lacks 46 (encode claims) ≡ true
        → lacks 46 (hmac secret (encode claims)) ≡ true
        → decode (encode claims) ≡ some claims
        → parse_token hmac encode decode now secret
            (some (sign_token hmac encode decode secret claims))
          ≡ (if leb ((issued / 1000 + ttl_seconds) * 1000) now
              then expired claims
              else valid claims)
  unfolding check_claims check_exp create_task_claims member get
  issued_token_is_read issued now ttl_seconds secret jti g payload_plain mac_plain decodes =
      parse_token-sign_token now secret (create_task_claims issued ttl_seconds jti g) payload_plain
        mac_plain decodes

  -- What makes a token valid.
  pub record IsSigned (now : ℕ) (secret token : String) (claims : Json) : Type 0 where
    pub payload : String
    pub rest : List String
    pub parts : split 46 token ≡ payload ∷ hmac secret payload ∷ rest
    pub decodes : decode payload ≡ some claims
    pub exp : ℕ
    pub exp_field : member (some claims) "exp" ≡ some (num exp)
    pub in_time : now < exp * 1000

  check_mac-valid :
      (now : ℕ) (secret payload signature : String) (claims : Json)
      → check_mac hmac encode decode now secret payload signature ≡ valid claims
      → (hmac secret payload ≡ signature) × (check_claims now (decode payload) ≡ valid claims)
  unfolding check_mac
  check_mac-valid now secret payload signature claims e =
      matched (hmac secret payload == signature) refl e
    where
      matched :
          (b : Bool)
          → (hmac secret payload == signature) ≡ b
          → (if b then check_claims now (decode payload) else malformed) ≡ valid claims
          → (hmac secret payload ≡ signature) × (check_claims now (decode payload) ≡ valid claims)
      matched true same e = ((eq_iff (hmac secret payload) signature).0 same, e)
      matched false other e = absurd (cc e)

  parse_parts-valid :
      (now : ℕ) (secret token : String) (parts : List String) (claims : Json)
      → split 46 token ≡ parts
      → parse_parts hmac encode decode now secret parts ≡ valid claims
      → IsSigned now secret token claims
  unfolding parse_parts InTime
  parse_parts-valid now secret token [] claims there e = absurd (cc e)
  parse_parts-valid now secret token (payload ∷ []) claims there e = absurd (cc e)
  parse_parts-valid now secret token (payload ∷ signature ∷ rest) claims there e =
      let (mac, read) = check_mac-valid now secret payload signature claims e in
      let (decodes, (exp, exp_field, in_time)) =
        check_claims-valid now (decode payload) claims read in
      record {
        payload = payload;
        rest = rest;
        parts = there ∙ ap (λ m. payload ∷ m ∷ rest) (sym mac);
        decodes = decodes;
        exp = exp;
        exp_field = exp_field;
        in_time = in_time;
      }

  -- A token is taken as valid only if its second part is the keyed hash of its first, the first
  -- decodes to the claims, and the claims have a number of seconds that has not passed yet.
  pub valid_token_has_signature :
      (now : ℕ) (secret token : String) (claims : Json)
      → parse_token hmac encode decode now secret (some token) ≡ valid claims
      → IsSigned now secret token claims
  unfolding parse_token
  valid_token_has_signature now secret token claims e =
      parse_parts-valid now secret token _ claims refl e
