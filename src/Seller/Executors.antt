-- ===== src/Seller/Executors.antt =====
-- packages/seller-runtime-core/src/executors.js: what runs a task. Results are JSON values, `none`
-- where JavaScript has `undefined`. Processes, HTTP calls and functions are parameters.
pub mod Router
use Prim.Native.String.{◌++◌ as append}
use remote_subagent_protocol.Prelude.{
  ℕ, String, ◌≡◌, refl, sym, ap, ◌∙◌, ◌⊎◌, Bool, true, false, not, Option, none, some, List, [],
  ◌∷◌, ◌==◌, ◌||◌, ◌&&◌, text_or, or_text, or_else, or_default, and_then, truthy, nat_eq, map,
  filter_by, if◌then◌else◌, Bool-cases, inl, inr, is_some,
}
use remote_subagent_protocol.Prelude.Dict.{Dict, get, values}
use remote_subagent_protocol.Prelude.Snapshots.{restore}
use remote_subagent_protocol.Prelude.Texts.{trim, decimal}
use remote_subagent_protocol.Json.{
  Json, null, bool, num, str, arr, obj, Fields, end, field, get as field_of, member, as_bool,
  as_text, is_text,
}
use remote_subagent_protocol.Seller.Result.{no_usage}

abbrev pub usage_of : ℕ → ℕ → Json
usage_of tokens_in tokens_out =
    obj (field "tokens_in" (num tokens_in) (field "tokens_out" (num tokens_out) end))

abbrev pub error_result : String → String → Json
error_result code message = obj (
    field "status" (str "error") (
      field "error"
        (obj (
          field "code" (str code)
            (field "message" (str message) (field "retryable" (bool false) end))))
        (field "schema_valid" (bool true) (field "usage" (usage_of 0 0) end))))

abbrev pub ok_result : Json → Bool → Json → Json
ok_result output schema_valid usage = obj (
    field "status" (str "ok")
      (field "output" output (field "schema_valid" (bool schema_valid) (field "usage" usage end))))

-- `deferTask`
abbrev pub defer_task : Option String → Json
defer_task reason =
    obj (field "deferred" (bool true) (field "reason" (str (or_default reason "deferred")) end))

-- `result.status === "ok" || result.status === "error" || result.deferred === true`
abbrev pub is_result : Json → Bool
is_result r =
    is_text (some "ok") (member (some r) "status")
    || is_text (some "error") (member (some r) "status")
    || or_default (as_bool (member (some r) "deferred")) false

abbrev as_result : Json → Json
as_result r = if is_result r then r else ok_result r true (usage_of 0 0)

abbrev pub invalid_result : Json
invalid_result =
    error_result "SUBAGENT_INVALID_RESULT" "subagent returned an invalid result payload"

unfoldable pub normalize_execution_result : Option Json → Json
normalize_execution_result (some (obj o)) = as_result (obj o)
normalize_execution_result (some (arr xs)) = as_result (arr xs)
normalize_execution_result _ = invalid_result

-- What an executor gives: an exception with its message, or a result.
pub data Run : Type 0 where
  threw : String → Run
  gave : Json → Run

-- What the code reads of a context.
pub record Context : Type 0 where
  pub subagent_id : Option String
  pub task_id : String
  pub task_type : Option String
  pub simulate : String
  pub task_input : Option Json

pub record Executor : Type 0 where
  pub name : String
  pub allowed_task_types : Option (List String)
  pub execute : Context → Run

-- A function that was called: it threw, or gave a value.
pub data Called : Type 0 where
  failed : String → Called
  value : Option Json → Called

abbrev after_call : Called → Run
after_call (failed message) = threw message
after_call (value v) = gave (normalize_execution_result v)

unfoldable pub create_function_executor :
    (Context → Called) → String → Option (List String) → Executor
create_function_executor fn name types = record {
  name = name;
  allowed_task_types = types;
  execute = λ c. after_call (fn c);
}

-- A process that ended, with its output and error output; `none` is a code that is null, as after a
-- signal.
pub record Exit : Type 0 where
  pub code : Option ℕ
  pub stdout : String
  pub stderr : String

abbrev exited_with : Option ℕ → Bool
exited_with none = false
exited_with (some n) = nat_eq n 0

abbrev shown_code : Option ℕ → String
shown_code none = "null"
shown_code (some n) = decimal n

-- `JSON.parse`; `none` is its exception.
abbrev pub Parser : Type 0
Parser = String → Option Json

parsed_output : String → Option Json → Json
parsed_output code none =
    error_result code "process adapter must emit a single JSON payload on stdout"
parsed_output code (some j) = normalize_execution_result (some j)

-- `runProcessAdapter`, from the end of the process on.
unfoldable pub process_result : Parser → Exit → Json
unfolding parsed_output
process_result parse e =
    if not (exited_with e.code)
    then error_result "SUBAGENT_PROCESS_EXITED"
        (text_or (some (trim e.stderr)) (append "process exited with code " (shown_code e.code)))
    else if trim e.stdout == ""
    then normalize_execution_result (some null)
    else parsed_output "SUBAGENT_PROCESS_INVALID_JSON" (parse e.stdout)

pub record Response : Type 0 where
  pub ok : Bool
  pub status : ℕ
  pub text : String

abbrev failure_message : Json → ℕ → String
failure_message body status = text_or (as_text (member (member (some body) "error") "message")) (
    text_or (as_text (member (some body) "message"))
      (append "http adapter returned " (decimal status)))

http_body : Bool → ℕ → Option Json → Json
http_body ok status none = error_result "SUBAGENT_HTTP_INVALID_JSON" "http adapter must return JSON"
http_body false status (some body) =
    error_result "SUBAGENT_HTTP_FAILED" (failure_message body status)
http_body true status (some body) = normalize_execution_result (some body)

-- `runHttpAdapter`, from the response on.
unfoldable pub http_result : Parser → Response → Json
unfolding http_body
http_result parse r = http_body r.ok r.status (if r.text == "" then some null else parse r.text)

-- A configured subagent. Its adapter: where it has no command or address, the run throws.
pub record Subagent : Type 0 where
  pub subagent_id : Option String
  pub display_name : Option String
  pub enabled : Option Bool
  pub adapter_type : Option String
  pub fn : Option (Context → Called)
  pub cmd : Option String
  pub url : Option String
  pub task_types : Option (List String)
  pub capabilities : Option (List String)
  pub tags : Option (List String)

-- The outside: a command and an address, with what they were given, may fail with a message.
pub record World : Type 0 where
  pub parse : Parser
  pub spawn : String → Context → String ⊎ Exit
  pub fetch : String → Context → String ⊎ Response

process_run : Parser → String ⊎ Exit → Run
process_run parse (inl message) = threw message
process_run parse (inr e) = gave (process_result parse e)

http_run : Parser → String ⊎ Response → Run
http_run parse (inl message) = threw message
http_run parse (inr r) = gave (http_result parse r)

module _ (w : World) where
  unfoldable pub run_process_adapter : Option String → Context → Run
  unfolding process_run
  run_process_adapter cmd c =
      if truthy cmd
      then process_run w.parse (w.spawn (text_or cmd "") c)
      else threw "process_adapter_cmd_required"

  unfoldable pub run_http_adapter : Option String → Context → Run
  unfolding http_run
  run_http_adapter url c =
      if truthy url
      then http_run w.parse (w.fetch (text_or url "") c)
      else threw "http_adapter_url_required"

  abbrev process_executor : Subagent → Executor
  process_executor a = record {
    name = append "process-adapter:" (text_or a.subagent_id "unknown");
    allowed_task_types = a.task_types;
    execute = run_process_adapter a.cmd;
  }

  abbrev http_executor : Subagent → Executor
  http_executor a = record {
    name = append "http-adapter:" (or_default a.subagent_id "undefined");
    allowed_task_types = a.task_types;
    execute = run_http_adapter a.url;
  }

  abbrev function_or_process : Subagent → Option (Context → Called) → Executor
  function_or_process a none = process_executor a
  function_or_process a (some fn) =
      create_function_executor fn
        (append "function-adapter:" (or_default a.subagent_id "undefined")) a.task_types

  unfoldable pub create_configured_subagent_executor : Subagent → Executor
  create_configured_subagent_executor a = elim (or_default a.adapter_type "" == "http") [
    | true ↦ http_executor a
    | false ↦
        function_or_process a (if or_default a.adapter_type "" == "function" then a.fn else none)
  ]
