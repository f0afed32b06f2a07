-- ===== src/Buyer/Result.antt =====
-- `applyResultPackage` and the checks it makes: context, signature, artifacts, schema.
pub mod Laws
use remote_subagent_protocol.Prelude.{
  ℕ, String, Bool, true, false, not, Option, none, some, List, [], ◌∷◌, ◌&&◌, ◌||◌, ◌==◌,
  if◌then◌else◌, nat_eq, truthy, text_or, and_then, same_text, find_by,
}
use remote_subagent_protocol.Json.{
  Json, Fields, get, member, as_text, as_number, as_array, json_truthy, is_false, is_text,
}
use remote_subagent_protocol.Contracts.{Status, succeeded, failed, unverified}
use remote_subagent_protocol.Contracts.Canonical.{canonicalize}
use remote_subagent_protocol.Contracts.Signing.{Crypto}
use remote_subagent_protocol.Transport.Messages.{Attachment}
use remote_subagent_protocol.Buyer.Request.{Request, mark_updated}
use remote_subagent_protocol.Buyer.Timeouts.{Transition}

-- resultContextMatchesRequest
unfoldable pub version_is_supported : Option String → Bool
version_is_supported none = true
version_is_supported (some v) = v == "0.1.0"

unfoldable pub result_context_matches_request : Request → Fields → Bool
unfolding version_is_supported
result_context_matches_request r body =
    let code : Option String = and_then r.verification (λ v. v.display_code) in
    is_text (some r.request_id) (get body "request_id")
    && version_is_supported (as_text (get body "result_version"))
    && (not (truthy r.seller_id) || is_text r.seller_id (get body "seller_id"))
    && (not (truthy r.subagent_id) || is_text r.subagent_id (get body "subagent_id"))
    && (not (truthy code) || is_text code (member (get body "verification") "display_code"))

module _ (crypto : Crypto) where
  -- `crypto.verify` within `try`: an exception is a signature that does not verify.
  unfoldable pub verifies : String → Fields → Option Json → Bool
  verifies pem body (some (Json.str signature)) =
      elim (crypto.verify pem (crypto.encode (canonicalize body)) signature) [
        | none ↦ false
        | some valid ↦ valid
      ]
  verifies pem body _ = false

  unfoldable pub verify_result_signature : Request → Fields → Bool
  unfolding verifies
  verify_result_signature r body =
      if json_truthy (get body "signature_base64")
      then truthy r.expected_signer_public_key_pem
        && verifies (text_or r.expected_signer_public_key_pem "") body (get body "signature_base64")
      else not (is_false (get body "signature_valid"))

  -- One round of the loop over the declared artifacts.
  unfoldable pub size_agrees : Option ℕ → Option ℕ → Bool
  size_agrees none _ = true
  size_agrees (some n) none = false
  size_agrees (some n) (some m) = nat_eq n m

  unfoldable pub attachment_agrees : Json → Option Attachment → Bool
  unfolding size_agrees
  attachment_agrees artifact none = false
  attachment_agrees artifact (some a) =
      (not (json_truthy (member (some artifact) "media_type"))
        || is_text a.media_type (member (some artifact) "media_type"))
      && size_agrees (as_number (member (some artifact) "byte_size")) a.byte_size
      && (not (json_truthy (member (some artifact) "sha256"))
          || is_text (some (crypto.sha256 (text_or a.content_base64 "")))
              (member (some artifact) "sha256"))

  unfoldable pub artifact_is_bound : List Attachment → Json → Bool
  unfolding attachment_agrees
  artifact_is_bound attachments artifact =
      attachment_agrees artifact
        (find_by (λ a. is_text a.name (member (some artifact) "name")) attachments)

  unfoldable pub all_bound : List Attachment → List Json → Bool
  unfolding artifact_is_bound
  all_bound attachments [] = true
  all_bound attachments (artifact ∷ rest) =
      artifact_is_bound attachments artifact && all_bound attachments rest

  unfoldable pub is_empty : List Attachment → Bool
  is_empty [] = true
  is_empty (a ∷ as') = false

  unfoldable pub bound_or_none : List Json → List Attachment → Bool
  unfolding is_empty all_bound
  bound_or_none [] attachments = is_empty attachments
  bound_or_none (d ∷ ds) attachments = all_bound attachments (d ∷ ds)

  unfoldable pub verify_artifact_bindings : Fields → List Attachment → Bool
  unfolding bound_or_none
  verify_artifact_bindings body attachments =
      bound_or_none (as_array (get body "artifacts")) attachments

-- The assignments and the return of one branch of applyResultPackage.
settle : ℕ → Status → Option String → String → String → Request → Request × Transition
unfolding mark_updated
settle now status code event event_type r = (
  mark_updated now event (record r { status = status; last_error_code = code }),
  record { status = status; event_type = event_type; code = code },
)

unverify : ℕ → String → Request → Request × Transition
unfolding settle
unverify now code r = settle now unverified (some code) code "buyer.request.unverified" r

unfoldable pub apply_result_package :
    Crypto → ℕ → Request → Fields → List Attachment → Request × Transition
unfolding settle unverify
apply_result_package crypto now request body attachments =
    let r : Request = record request { result_package = some body } in
    if not (result_context_matches_request r body)
    then unverify now "RESULT_CONTEXT_MISMATCH" r
    else if not (verify_result_signature crypto r body)
    then unverify now "RESULT_SIGNATURE_INVALID" r
    else if not (verify_artifact_bindings crypto body attachments)
    then unverify now "RESULT_ARTIFACT_INVALID" r
    else if is_false (get body "schema_valid")
    then unverify now "RESULT_SCHEMA_INVALID" r
    else if is_text (some "ok") (get body "status")
    then settle now succeeded none "SUCCEEDED" "buyer.request.succeeded" r
    else settle now failed
        (some (text_or (as_text (member (get body "error") "code")) "EXEC_UNKNOWN")) "FAILED"
        "buyer.request.failed" r
