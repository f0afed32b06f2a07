-- ===== src/Contracts.antt =====
-- packages/contracts/src/index.js: request statuses, error codes and structured errors.
pub mod Canonical
pub mod Signing
pub mod Laws
use remote_subagent_protocol.Prelude.{String, Bool, true, false, Option, none, some, List, [], ◌∷◌}
use remote_subagent_protocol.Prelude.Dict.{Dict, get}

-- REQUEST_STATUS
pub data Status : Type 0 where
  created sent acked succeeded failed unverified timed_out : Status

-- TERMINAL_STATUS_SET and ACTIVE_STATUS_SET of buyer-controller-core
unfoldable pub is_terminal : Status → Bool
is_terminal succeeded = true
is_terminal failed = true
is_terminal unverified = true
is_terminal timed_out = true
is_terminal _ = false

unfoldable pub is_active : Status → Bool
is_active created = true
is_active sent = true
is_active acked = true
is_active _ = false

-- ERROR_REGISTRY: each code with its `retryable`
unfoldable pub error_registry : Dict Bool
error_registry =
    ("AUTH_UNAUTHORIZED", false)
    ∷ ("AUTH_SCOPE_FORBIDDEN", false)
    ∷ ("AUTH_RESOURCE_FORBIDDEN", false)
    ∷ ("AUTH_TOKEN_INVALID", true)
    ∷ ("AUTH_TOKEN_EXPIRED", false)
    ∷ ("AUTH_INTROSPECT_FAILED", true)
    ∷ ("AUTH_TOKEN_NOT_FOUND", false)
    ∷ ("AUTH_AUDIENCE_MISMATCH", false)
    ∷ ("AUTH_CREDENTIALS_MISSING", false)
    ∷ ("AUTH_INVALID_CREDENTIALS", false)
    ∷ ("AUTH_INVALID_PASSPHRASE", false)
    ∷ ("AUTH_SECRET_STORE_EXISTS", false)
    ∷ ("AUTH_SECRET_STORE_MISSING", false)
    ∷ ("AUTH_SESSION_REQUIRED", false)
    ∷ ("AUTH_BOOTSTRAP_FORBIDDEN", false)
    ∷ ("AUTH_KEY_NOT_FOUND", false)
    ∷ ("CONTRACT_INVALID_JSON", false)
    ∷ ("CONTRACT_INVALID_REGISTER_BODY", false)
    ∷ ("CONTRACT_INVALID_SELLER_REGISTER_BODY", false)
    ∷ ("CONTRACT_INVALID_RESULT_DELIVERY", false)
    ∷ ("CONTRACT_INVALID_TOKEN_REQUEST", false)
    ∷ ("CONTRACT_INVALID_DELIVERY_META_REQUEST", false)
    ∷ ("CONTRACT_INVALID_ACK_REQUEST", false)
    ∷ ("CONTRACT_INVALID_REQUEST_EVENT", false)
    ∷ ("CONTRACT_INVALID_METRIC_EVENT", false)
    ∷ ("CONTRACT_INVALID_ROLE_GRANT", false)
    ∷ ("CONTRACT_INVALID_API_KEY_REVOKE", false)
    ∷ ("CONTRACT_INVALID_PREPARE_REQUEST", false)
    ∷ ("CONTRACT_INVALID_REMOTE_REQUEST", false)
    ∷ ("CONTRACT_INVALID_POLL_REQUEST", false)
    ∷ ("CONTRACT_INVALID_PEEK_REQUEST", false)
    ∷ ("CONTRACT_INVALID_SEND_REQUEST", false)
    ∷ ("CONTRACT_INVALID_BATCH_REQUEST", false)
    ∷ ("CONTRACT_INVALID_SIGNING_KEY_ROTATION", false)
    ∷ ("CONTRACT_INVALID_TIMEOUT", false)
    ∷ ("CONTRACT_TIMEOUT_EXCEEDS_SELLER_LIMIT", false)
    ∷ ("CONTRACT_TASK_TYPE_UNSUPPORTED", false)
    ∷ ("CONTRACT_REJECTED", false)
    ∷ ("CONTRACT_UNSUPPORTED_VERSION", false)
    ∷ ("CONTRACT_INVALID_TRANSPORT_BODY", false)
    ∷ ("CONTRACT_INVALID_TRANSPORT_TYPE", false)
    ∷ ("EXEC_TIMEOUT", true)
    ∷ ("EXEC_TIMEOUT_HARD", false)
    ∷ ("EXEC_TIMEOUT_MANUAL_STOP", false)
    ∷ ("EXEC_INTERNAL_ERROR", true)
    ∷ ("EXEC_UNKNOWN", true)
    ∷ ("EXECUTOR_RUNTIME_ERROR", false)
    ∷ ("EXECUTOR_INVALID_RESULT", false)
    ∷ ("EXEC_IN_PROGRESS", true)
    ∷ ("EXEC_QUEUE_FULL", true)
    ∷ ("RESULT_CONTEXT_MISMATCH", false)
    ∷ ("RESULT_SIGNATURE_INVALID", false)
    ∷ ("RESULT_SCHEMA_INVALID", false)
    ∷ ("RESULT_ARTIFACT_INVALID", false)
    ∷ ("RESULT_BODY_INVALID_JSON", false)
    ∷ ("RESULT_ARTIFACT_TOO_LARGE", false)
    ∷ ("RESULT_DELIVERY_KIND_NOT_IMPLEMENTED", false)
    ∷ ("RESULT_NOT_READY", true)
    ∷ ("DELIVERY_OR_ACCEPTANCE_TIMEOUT", true)
    ∷ ("DELIVERY_FAILED", true)
    ∷ ("DELIVERY_DUPLICATE", false)
    ∷ ("DELIVERY_PARSE_FAILED", false)
    ∷ ("DELIVERY_RATE_LIMITED", true)
    ∷ ("TEMPLATE_NOT_FOUND", false)
    ∷ ("TEMPLATE_REF_MISMATCH", false)
    ∷ ("PLATFORM_NOT_CONFIGURED", false)
    ∷ ("PLATFORM_RATE_LIMITED", true)
    ∷ ("PLATFORM_API_INTERNAL_ERROR", true)
    ∷ ("PLATFORM_REVIEW_TRANSPORT_NOT_CONFIGURED", false)
    ∷ ("PLATFORM_REVIEW_TEST_UNSUPPORTED", false)
    ∷ ("CATALOG_SUBAGENT_NOT_FOUND", false)
    ∷ ("REQUEST_NOT_FOUND", false)
    ∷ ("REQUEST_BINDING_MISMATCH", false)
    ∷ ("REQUEST_ALREADY_TERMINAL", false)
    ∷ ("SELLER_NOT_FOUND", false)
    ∷ ("SELLER_NOT_APPROVED", false)
    ∷ ("SELLER_NOT_ENABLED", false)
    ∷ ("SELLER_PLATFORM_REGISTER_FAILED", true)
    ∷ ("SELLER_RUNTIME_INTERNAL_ERROR", true)
    ∷ ("USER_NOT_FOUND", false)
    ∷ ("SUBAGENT_ID_ALREADY_EXISTS", false)
    ∷ ("SUBAGENT_QUOTA_EXCEEDED", false)
    ∷ ("SUBAGENT_NOT_APPROVED", false)
    ∷ ("SUBAGENT_INVALID_RESULT", false)
    ∷ ("SUBAGENT_PROCESS_EXITED", false)
    ∷ ("SUBAGENT_PROCESS_INVALID_JSON", false)
    ∷ ("SUBAGENT_HTTP_INVALID_JSON", false)
    ∷ ("SUBAGENT_HTTP_FAILED", false)
    ∷ ("SUBAGENT_NOT_CONFIGURED", false)
    ∷ ("SUBAGENT_ID_REQUIRED", false)
    ∷ ("SUBAGENT_INVALID_INPUT", false)
    ∷ ("SUBAGENT_NOT_FOUND", false)
    ∷ ("TRANSPORT_NOT_CONFIGURED", false)
    ∷ ("TRANSPORT_SEND_NOT_AVAILABLE", false)
    ∷ ("TRANSPORT_POLL_NOT_AVAILABLE", false)
    ∷ ("TRANSPORT_CONNECTION_FAILED", true)
    ∷ ("SIGNER_BINDING_MISMATCH", false)
    ∷ ("TASK_NOT_FOUND", false)
    ∷ ("BUYER_PLATFORM_REGISTER_FAILED", true)
    ∷ ("BUYER_PLATFORM_CATALOG_FAILED", true)
    ∷ ("BUYER_PLATFORM_SELLER_REGISTER_FAILED", true)
    ∷ ("BUYER_PLATFORM_TOKEN_FAILED", true)
    ∷ ("BUYER_PLATFORM_DELIVERY_META_FAILED", true)
    ∷ ("BUYER_PLATFORM_EVENTS_FAILED", true)
    ∷ ("BUYER_PLATFORM_EVENTS_BATCH_FAILED", true)
    ∷ ("BUYER_PLATFORM_METRIC_FAILED", true)
    ∷ ("BUYER_PLATFORM_PREPARE_FAILED", true)
    ∷ ("BUYER_REMOTE_REQUEST_FAILED", true)
    ∷ ("BUYER_CONTROLLER_INTERNAL_ERROR", true)
    ∷ ("BUYER_NOT_REGISTERED", false)
    ∷ ("RELAY_INTERNAL_ERROR", true)
    ∷ ("OPS_SUPERVISOR_INTERNAL_ERROR", true)
    ∷ []

unfoldable pub is_retryable_error_code : String → Bool → Bool
is_retryable_error_code code fallback = elim (get error_registry code) [
  | none ↦ fallback
  | some retryable ↦ retryable
]

pub record StructuredError : Type 0 where
  pub code : String
  pub message : String
  pub retryable : Bool

-- `retryable ?? isRetryableErrorCode(code, false)`
unfoldable pub build_structured_error : String → String → Option Bool → StructuredError
build_structured_error code message retryable = record {
  code = code;
  message = message;
  retryable = elim retryable [ some r ↦ r | none ↦ is_retryable_error_code code false ];
}
