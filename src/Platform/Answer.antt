-- ===== src/Platform/Answer.antt =====
-- What a route of the platform answers: a body, or a status and a structured error.
use remote_subagent_protocol.Prelude.{ℕ, String, true, none, some}
use remote_subagent_protocol.Contracts.{StructuredError, build_structured_error}

pub data Answer (A : Type 0) : Type 0 where
  ok : A → Answer A
  failed : ℕ → StructuredError → Answer A

-- `sendError`
abbrev pub send_error : {A : Type 0} → ℕ → String → String → Answer A
send_error status code message = failed status (build_structured_error code message none)

-- What every route answers to a body that is no JSON, and to a caller over its limit.
abbrev pub not_json : {A : Type 0} → Answer A
not_json = send_error 400 "CONTRACT_INVALID_JSON" "request body is not valid JSON"

abbrev pub rate_limited : {A : Type 0} → Answer A
rate_limited =
    failed 429 (build_structured_error "RATE_LIMITED" "request rate limit exceeded" (some true))
