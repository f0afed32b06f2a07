-- ===== src/Seller/Result.antt =====
-- Result packages: `buildResultPayload` and what it is made of, and `signResultPayload`.
use remote_subagent_protocol.Prelude.{
  ℕ, ◌-◌, String, Bool, true, false, not, Option, none, some, List, [], ◌∷◌, if◌then◌else◌, text_or,
  or_default, same_text,
}
use remote_subagent_protocol.Json.{Json, Items, Fields, end, field}
use remote_subagent_protocol.Contracts.Canonical.{canonicalize}
use remote_subagent_protocol.Contracts.Signing.{Crypto}
use remote_subagent_protocol.Transport.Messages.{Verification}
use remote_subagent_protocol.Seller.Task.{Task, Artifact, State}
use remote_subagent_protocol.Seller.Artifacts.{Execution, Materialized}

abbrev pub text_json : Option String → Json
text_json none = Json.null
text_json (some s) = Json.str s

abbrev pub verification_json : Option Verification → Json
verification_json none = Json.null
verification_json (some v) = Json.obj (field "display_code" (text_json v.display_code) end)

-- `{ ...a, ...b }` where the two share no key
abbrev pub spread : Fields → Fields → Fields
spread end b = b
spread (field k v rest) b = field k v (spread rest b)

-- buildResultTiming
unfoldable pub build_result_timing : ℕ → Task → Fields
build_result_timing now t =
    let finished : ℕ = or_default t.completed_at now in
    field "accepted_at" (Json.num t.accepted_at) (
      field "finished_at" (Json.num finished)
        (field "elapsed_ms" (Json.num (finished - t.accepted_at)) end))

unfoldable pub build_base_result_payload : ℕ → Task → Fields
unfolding build_result_timing
build_base_result_payload now t = field "message_type" (Json.str "remote_subagent_result") (
    field "request_id" (Json.str t.request_id) (
      field "result_version" (Json.str "0.1.0") (
        field "seller_id" (Json.str t.seller_id) (
          field "subagent_id" (text_json t.subagent_id) (
            field "verification" (verification_json t.verification)
              (field "timing" (Json.obj (build_result_timing now t)) end))))))

abbrev pub no_usage : Json
no_usage = Json.obj (field "tokens_in" (Json.num 0) (field "tokens_out" (Json.num 0) end))

unfoldable pub build_error_result_payload :
    ℕ → Task → String → String → Bool → Bool → Option Json → Fields
unfolding build_base_result_payload
build_error_result_payload now t code message retryable schema_valid usage =
    spread (build_base_result_payload now t) (
      field "status" (Json.str "error") (
        field "error"
          (Json.obj (
            field "code" (Json.str code)
              (field "message" (Json.str message) (field "retryable" (Json.bool retryable) end))))
          (field "schema_valid" (Json.bool schema_valid)
            (field "usage" (or_default usage no_usage) end))))

-- sanitizeArtifactsForResult: everything but the content
abbrev pub artifact_json : Artifact → Json
artifact_json a = Json.obj (
    field "artifact_id" (Json.str a.artifact_id) (
      field "name" (Json.str a.name) (
        field "media_type" (Json.str a.media_type) (
          field "byte_size" (Json.num a.byte_size) (
            field "sha256" (Json.str a.sha256) (
              field "delivery" (Json.obj (field "kind" (Json.str "email_attachment") end)) end))))))

abbrev pub artifacts_json : List Artifact → Items
artifacts_json [] = Items.nil
artifacts_json (a ∷ rest) = Items.cons (artifact_json a) (artifacts_json rest)

abbrev pub not_false : Option Bool → Bool
not_false (some false) = false
not_false _ = true

unfoldable pub build_ok_payload : ℕ → Task → Execution → List Artifact → Fields
unfolding build_base_result_payload
build_ok_payload now t e artifacts = spread (build_base_result_payload now t) (
    field "status" (Json.str "ok") (
      field "output" (or_default e.output Json.null) (
        field "artifacts" (Json.arr (artifacts_json artifacts)) (
          field "schema_valid" (Json.bool (not_false e.schema_valid))
            (field "usage" (or_default e.usage no_usage) end)))))

-- `none` is an execution that is neither an object nor null; on null the caller throws before.
unfoldable pub build_result_payload : ℕ → Task → Option Materialized → Fields
unfolding build_error_result_payload build_ok_payload
build_result_payload now t none =
    build_error_result_payload now t "EXECUTOR_INVALID_RESULT"
      "Seller executor returned an invalid result object" false true none
build_result_payload now t (some m) =
    let e = m.execution in
    if same_text e.status (some "error")
    then build_error_result_payload now t (text_or e.error_code "EXECUTOR_RUNTIME_ERROR")
        (text_or e.error_message "Seller executor reported an error") e.error_retryable
        (not_false e.schema_valid) e.usage
    else if not (same_text e.status (some "ok"))
    then build_error_result_payload now t "EXECUTOR_INVALID_RESULT"
        "Seller executor must return status 'ok' or 'error'" false true none
    else build_ok_payload now t e m.artifacts

unfoldable pub sign_result_payload : Crypto → State → Fields → Fields
sign_result_payload crypto s payload = spread payload (
    field "signature_algorithm" (Json.str "Ed25519") (
      field "signer_public_key_pem" (Json.str s.public_key_pem) (
        field "signature_base64"
          (Json.str (crypto.sign s.private_key (crypto.encode (canonicalize payload)))) end)))
