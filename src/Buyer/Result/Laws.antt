-- ===== src/Buyer/Result/Laws.antt =====
-- What a result package must pass to end a request as a success, and how every package ends it.
use remote_subagent_protocol.Prelude.{ℕ, String, ◌≡◌, true, false, some, List, arith, ◌↔◌, text_or}
use remote_subagent_protocol.Json.{Fields, get, as_text, is_false, is_text, json_truthy}
use remote_subagent_protocol.Contracts.{succeeded}
use remote_subagent_protocol.Contracts.Canonical.{canonicalize}
use remote_subagent_protocol.Contracts.Signing.{Crypto}
use remote_subagent_protocol.Transport.Messages.{Attachment}
use remote_subagent_protocol.Buyer.Request.{Request}
use remote_subagent_protocol.Buyer.Result.{
  result_context_matches_request, verify_result_signature, verify_artifact_bindings,
  apply_result_package,
}

-- Everything that the buyer checks of a package.
pub record Passes (crypto : Crypto) (r : Request) (body : Fields) (attachments : List Attachment)
    : Type 0 where
  pub context : result_context_matches_request (record r { result_package = some body }) body ≡ true
  pub signature :
      verify_result_signature crypto (record r { result_package = some body }) body ≡ true
  pub artifacts : verify_artifact_bindings crypto body attachments ≡ true
  pub schema : is_false (get body "schema_valid") ≡ false
  pub reported_ok : is_text (some "ok") (get body "status") ≡ true

module _ (crypto : Crypto) (now : ℕ) (r : Request) (body : Fields)
    (attachments : List Attachment) where
  succeeded-Passes :
      (apply_result_package crypto now r body attachments).0.status ≡ succeeded
      → Passes crypto r body attachments
  unfolding apply_result_package
  succeeded-Passes h = ground arith

  Passes-succeeded :
      Passes crypto r body attachments
      → (apply_result_package crypto now r body attachments).0.status ≡ succeeded
  unfolding apply_result_package
  Passes-succeeded h = ground arith

  -- A package makes the request a success exactly if it passes every check: context, signature,
  -- artifacts, schema, and the seller's own report of success.
  pub succeeds_iff :
      ((apply_result_package crypto now r body attachments).0.status ≡ succeeded)
      ↔ Passes crypto r body attachments
  succeeds_iff = (succeeded-Passes, Passes-succeeded)

-- Whatever the key verifies is the signed part of a package that its owner has signed.
abbrev pub Unforgeable : Crypto → String → (Fields → Type 0) → Type 0
Unforgeable crypto public Signed =
    (m s : String)
    → crypto.verify public m s ≡ some true
    → (q : Fields) × Signed q × (m ≡ crypto.encode (canonicalize q))

signature_is_signed :
    (crypto : Crypto) (r : Request) (body : Fields) (pem : String) (Signed : Fields → Type 0)
    → r.expected_signer_public_key_pem ≡ some pem
    → json_truthy (get body "signature_base64") ≡ true
    → Unforgeable crypto pem Signed
    → verify_result_signature crypto r body ≡ true
    → (q : Fields) × Signed q × (crypto.encode (canonicalize body) ≡ crypto.encode (canonicalize q))
signature_is_signed crypto r body pem Signed known carries unforgeable h =
    unforgeable (crypto.encode (canonicalize body))
      (text_or (as_text (get body "signature_base64")) "")
      (unfold verify_result_signature in ground arith)

-- Where the buyer knows the seller's key, the package carries a signature, and whatever the key
-- verifies was signed by its owner, a success means that the bytes that were checked are those of a
-- package which the owner signed.
pub success_is_signed :
    (crypto : Crypto) (now : ℕ) (r : Request) (body : Fields) (attachments : List Attachment)
    (pem : String) (Signed : Fields → Type 0)
    → r.expected_signer_public_key_pem ≡ some pem
    → json_truthy (get body "signature_base64") ≡ true
    → Unforgeable crypto pem Signed
    → (apply_result_package crypto now r body attachments).0.status ≡ succeeded
    → (q : Fields) × Signed q × (crypto.encode (canonicalize body) ≡ crypto.encode (canonicalize q))
success_is_signed crypto now r body attachments pem Signed known carries unforgeable h =
    signature_is_signed crypto (record r { result_package = some body }) body pem Signed known
      carries unforgeable (succeeded-Passes crypto now r body attachments h).signature
