-- ===== src/Seller/Executors/Router.antt =====
-- `createSimulatorExecutor`, `createExampleFunctionExecutor` and `createSubagentRouterExecutor`.
use Prim.Native.String.{◌++◌ as append}
use remote_subagent_protocol.Prelude.{
  String, ◌≡◌, Bool, true, false, not, Option, none, some, List, [], ◌∷◌, ◌==◌, text_or, or_text,
  or_else, or_default, and_then, truthy, map, if◌then◌else◌,
}
use remote_subagent_protocol.Prelude.Dict.{Dict, get, values}
use remote_subagent_protocol.Prelude.Snapshots.{restore}
use remote_subagent_protocol.Json.{Json, null, bool, str, obj, end, field, get as field_of}
use remote_subagent_protocol.Seller.Executors.{
  usage_of, error_result, ok_result, defer_task, is_result, normalize_execution_result, Run, gave,
  Context, Executor, value, create_function_executor, Subagent, World,
  create_configured_subagent_executor,
}

unfoldable pub simulate : Context → Json
simulate c =
    if c.simulate == "timeout"
    then defer_task (some "timeout")
    else if c.simulate == "token_expired"
    then error_result "AUTH_TOKEN_EXPIRED" "Token expired during seller validation"
    else if c.simulate == "schema_invalid"
    then ok_result (obj (field "malformed_field" (bool true) end)) false (usage_of 12 6)
    else if c.simulate == "reject"
    then error_result "CONTRACT_REJECTED" "Seller guardrail rejected this task"
    else ok_result
        (obj (field "summary" (str "Task completed") (field "task_id" (str c.task_id) end))) true
        (usage_of 42 24)

unfoldable pub create_simulator_executor : Executor
unfolding simulate
create_simulator_executor =
    create_function_executor (λ c. value (some (simulate c))) "simulator-executor" none

unfoldable pub example : Context → Json
example c =
    ok_result
      (obj (
        field "summary"
          (str (
            append "Handled " (
              append (text_or c.task_type "task")
                (append " for " (or_default c.subagent_id "undefined")))))
          (field "received" (or_default c.task_input null) end)))
      true (usage_of 1 1)

unfoldable pub create_example_function_executor : Executor
unfolding example
create_example_function_executor =
    create_function_executor (λ c. value (some (example c))) "example-function-executor" none

pub record Selected : Type 0 where
  pub definition : Subagent
  pub executor : Executor

pub record Listed : Type 0 where
  pub subagent_id : Option String
  pub display_name : Option String
  pub enabled : Bool
  pub adapter_type : String
  pub task_types : List String
  pub capabilities : List String
  pub tags : List String

abbrev listed : Selected → Listed
listed x = record {
  subagent_id = x.definition.subagent_id;
  display_name = or_text x.definition.display_name x.definition.subagent_id;
  enabled = or_default x.definition.enabled true;
  adapter_type = text_or x.definition.adapter_type "process";
  task_types = or_default x.definition.task_types [];
  capabilities = or_default x.definition.capabilities [];
  tags = or_default x.definition.tags [];
}

-- `definition.enabled === false`, or no definition
abbrev pub is_off : Option Selected → Bool
is_off none = true
is_off (some x) = not (or_default x.definition.enabled true)

abbrev not_configured : Context → Json
not_configured c = error_result "SUBAGENT_NOT_CONFIGURED" (
    append "subagent '"
      (append (or_default c.subagent_id "undefined") "' is not configured locally"))

abbrev fall_back : Option Executor → Context → Run
fall_back none c = gave (not_configured c)
fall_back (some fallback) c = fallback.execute c

module _ (w : World) where
  -- An entry for each subagent with an id.
  unfoldable pub entries_of : List Subagent → Dict Selected
  entries_of [] = []
  entries_of (a ∷ rest) =
      let others = entries_of rest in
      if truthy a.subagent_id
      then (
        text_or a.subagent_id "",
        record { definition = a; executor = create_configured_subagent_executor w a },
      )
        ∷ others
      else others

  -- `new Map(entries)`: of entries with one id the last counts.
  unfoldable pub configured : List Subagent → Dict Selected
  unfolding entries_of
  configured subagents = restore (entries_of subagents)

  unfoldable pub list_subagents : List Subagent → List Listed
  unfolding configured
  list_subagents subagents = map listed (values (configured subagents))

  unfoldable pub get_allowed_task_types :
      List Subagent → Option Executor → String → Option (List String)
  unfolding configured
  get_allowed_task_types subagents fallback subagent_id =
      or_else
        (and_then (get (configured subagents) subagent_id) (λ x. x.executor.allowed_task_types))
        (and_then fallback (λ f. f.allowed_task_types))

  abbrev run_selected : Option Executor → Context → Option Selected → Bool → Run
  run_selected fallback c (some x) false = x.executor.execute c
  run_selected fallback c _ _ = fall_back fallback c

  unfoldable pub route : List Subagent → Option Executor → Context → Run
  unfolding configured
  route subagents fallback c =
      let selected = and_then c.subagent_id (λ id. get (configured subagents) id) in
      run_selected fallback c selected (is_off selected)

-- A result is an object that says what it is.
IsSettled : Json → Type 0
IsSettled r = (is_result r ≡ true) × (normalize_execution_result (some r) ≡ r)
