-- ===== src/Seller/Guardrails.antt =====
-- `validateTaskGuardrails`: the limits on timeouts and task types.
use Prim.Native.String.{◌++◌ as append}
use remote_subagent_protocol.Prelude.{
  ℕ, String, Bool, true, false, not, Option, none, some, List, [], ◌∷◌, ◌&&◌, if◌then◌else◌, ltb,
  nat_eq, truthy, truthy_number, and_then, or_else, or_default, includes, text_or,
}
use remote_subagent_protocol.Json.{as_number}
use remote_subagent_protocol.Seller.Task.{Task}
use remote_subagent_protocol.Prelude.Texts.{decimal}
use remote_subagent_protocol.Seller.Artifacts.{Execution}
use remote_subagent_protocol.Seller.Result.{no_usage}

pub record Guardrails : Type 0 where
  pub max_hard_timeout_s : Option ℕ
  pub allowed_task_types : Option (List String)

-- `Number(task.constraints?.hard_timeout_s)` where it is finite
abbrev pub hard_timeout : Task → Option ℕ
hard_timeout t = and_then t.constraints (λ c. as_number c.hard_timeout_s)

abbrev pub soft_timeout : Task → Option ℕ
soft_timeout t = and_then t.constraints (λ c. as_number c.soft_timeout_s)

unfoldable pub is_zero : Option ℕ → Bool
is_zero none = false
is_zero (some n) = nat_eq n 0

unfoldable pub exceeds : Option ℕ → Option ℕ → Bool
exceeds (some a) (some b) = ltb b a
exceeds _ _ = false

unfoldable pub is_empty : List String → Bool
is_empty [] = true
is_empty (x ∷ xs) = false

unfoldable pub unsupported : Option String → Option (List String) → Bool
unfolding is_empty
unsupported task_type none = false
unsupported task_type (some types) =
    truthy task_type && not (is_empty types) && not (includes types (text_or task_type ""))

-- buildGuardrailError
unfoldable pub build_guardrail_error : String → String → Execution
build_guardrail_error code message = record {
  deferred = false;
  reason = none;
  status = some "error";
  error_code = some code;
  error_message = some message;
  error_retryable = false;
  output = none;
  artifacts = [];
  schema_valid = some true;
  usage = some no_usage;
}

-- The error, or `none` where the task may run. The executor's own list counts where the guardrails
-- have none.
unfoldable pub validate_task_guardrails :
    Task → Guardrails → Option (List String) → Option Execution
unfolding is_zero exceeds unsupported
validate_task_guardrails task guardrails executor_types =
    let hard = hard_timeout task in
    let soft = soft_timeout task in
    let limit = guardrails.max_hard_timeout_s in
    if is_zero soft
    then some
        (build_guardrail_error "CONTRACT_INVALID_TIMEOUT" "soft_timeout_s must be greater than 0")
    else if is_zero hard
    then some
        (build_guardrail_error "CONTRACT_INVALID_TIMEOUT" "hard_timeout_s must be greater than 0")
    else if exceeds soft hard
    then some (
        build_guardrail_error "CONTRACT_INVALID_TIMEOUT"
          "soft_timeout_s cannot exceed hard_timeout_s")
    else if truthy_number limit && exceeds hard limit
    then some (
        build_guardrail_error "CONTRACT_TIMEOUT_EXCEEDS_SELLER_LIMIT"
          (append "hard_timeout_s exceeds seller limit " (decimal (or_default limit 0))))
    else if unsupported task.task_type (or_else guardrails.allowed_task_types executor_types)
    then some (
        build_guardrail_error "CONTRACT_TASK_TYPE_UNSUPPORTED" (
          append "task_type '"
            (append (text_or task.task_type "") "' is not allowed by seller guardrail")))
    else none
