-- ===== src/Tests/Data.antt =====
-- Concrete requests, tasks, messages and services.
use Prim.Native.String.{◌++◌ as append}
use remote_subagent_protocol.Prelude.{
  String, ◌≡◌, refl, true, false, none, some, [], ◌∷◌, ◌==◌, ◌&&◌, text_or,
}
use remote_subagent_protocol.Json.{Json, Fields, end, field, get, as_text}
use remote_subagent_protocol.Contracts.{created, succeeded}
use remote_subagent_protocol.Contracts.Signing.{Crypto}
use remote_subagent_protocol.Transport.Messages.{Envelope}
use remote_subagent_protocol.Buyer.Request.{
  Config, Request, Body, create_request_record, pending, local_delivery,
}
use remote_subagent_protocol.Buyer.Client.{Client}
use remote_subagent_protocol.Buyer.Server.Reply
use remote_subagent_protocol.Buyer.Server.Reply.{Server}
use remote_subagent_protocol.Seller.Task
use remote_subagent_protocol.Seller.Task.{Task, create_task_record, no_overrides, queued}
use remote_subagent_protocol.Seller.Artifacts.{Execution}

abbrev pub signature : String → String → String
signature key m = String.◌∷◌ "s" (append key m)

-- Signatures are a letter, the key and the message; an object's bytes are its id.
abbrev pub crypto : Crypto
crypto = record {
  encode = λ f. text_or (as_text (get f "request_id")) "";
  sign = signature;
  verify = λ pem m s. some (signature pem m == s);
  sha256 = λ c. append "sha:" c;
}

-- One signature, of one message.
abbrev pub one_signature : Crypto
one_signature = record crypto { verify = λ pem m s. some (m == "r1" && s == "sig") }

abbrev pub config : Config
config = record {
  ack_deadline_s = some 120;
  timeout_confirmation_mode = "ask_by_default";
  hard_timeout_auto_finalize = true;
  events_sync_batch_size = 2;
}

abbrev pub body : Body
body = record {
  request_id = some "r1";
  buyer_id = none;
  seller_id = some "s1";
  subagent_id = some "a1";
  contract_version = none;
  expected_signer_public_key_pem = some "key";
  attempt = none;
  ack_deadline_s = none;
  soft_timeout_s = none;
  hard_timeout_s = none;
  ack_deadline_at = none;
  task_token = none;
  result_delivery = none;
  task_delivery = none;
  task_delivery_address = none;
  verification = none;
  delivery_meta = none;
  contract_draft = none;
  task_type = none;
  task_input = none;
  input = none;
  output_schema = none;
  thread_hint = none;
  source_run_id = none;
  created_at = none;
  camel_seller_id = none;
  camel_subagent_id = none;
  camel_result_delivery = none;
  message_id = none;
  thread_id = none;
  sender = none;
  to = none;
  type = none;
  payload = none;
  simulate = none;
  delay_ms = none;
  lease_ttl_s = none;
  priority = none;
}

-- What `createRequestRecord` makes of the body at time 0.
abbrev pub new_request : Request
new_request = record {
  request_id = "r1";
  buyer_id = "buyer_default";
  seller_id = some "s1";
  subagent_id = some "a1";
  contract_version = "0.1.0";
  expected_signer_public_key_pem = some "key";
  status = created;
  attempt = 1;
  timeout_decision = pending;
  needs_timeout_confirmation = false;
  timeline = (0, "CREATED") ∷ [];
  created_at = 0;
  updated_at = 0;
  ack_deadline_s = 120;
  ack_deadline_at = none;
  soft_timeout_s = 90;
  hard_timeout_s = 300;
  soft_timeout_at = 90000;
  hard_timeout_at = 300000;
  config_snapshot = record {
    ack_deadline_s = 120;
    timeout_confirmation_mode = "ask_by_default";
    hard_timeout_auto_finalize = true;
  };
  task_token = none;
  result_delivery = some local_delivery;
  verification = none;
  delivery_meta = none;
  platform_events = [];
  platform_completed_at = none;
  platform_failed_at = none;
  platform_last_event = none;
  result_package = none;
  contract_draft = none;
  last_error_code = none;
  metric_flags = [];
  sent_at = none;
  acknowledged_at = none;
  timed_out_at = none;
  ack_eta_hint_s = none;
  task_type = none;
  task_input = none;
  output_schema = none;
  source_run_id = none;
}

new_request-is : create_request_record config "u1" 0 body ≡ new_request
unfolding create_request_record
new_request-is = refl

abbrev pub ended : Request
ended = record new_request { status = succeeded; result_package = some end }

abbrev pub ok_package : Fields
ok_package = field "request_id" (Json.str "r1") (
    field "seller_id" (Json.str "s1") (
      field "subagent_id" (Json.str "a1")
        (field "status" (Json.str "ok") (field "schema_valid" (Json.bool true) end))))

abbrev pub signed_package : Fields
signed_package = field "signature_base64" (Json.str "sig") ok_package

abbrev pub client : Client
client = record {
  key = "platform::key";
  post_metric = λ m. true;
  request_events = λ id. some [];
  request_events_batch = λ ids. some [];
  issue_task_token = λ r s a. some "token";
  delivery_meta = λ r s a t d. none;
}

abbrev pub server : Server
server = record {
  config = config;
  crypto = crypto;
  parse_json = λ t. none;
  parse_url = λ t. none;
  client = some client;
  inbox_client = some client;
  has_transport = true;
  receiver = "buyer-controller";
  uuid = "u1";
  now = 400000;
}

abbrev pub envelope : Envelope
envelope = record {
  message_id = some "m1";
  thread_id = some "t1";
  sender = some "buyer-controller";
  to = some "s1";
  type = some "task.requested";
  request_id = some "r1";
  task_id = none;
  seller_id = some "s1";
  subagent_id = some "a1";
  task_token = some "token";
  task_type = none;
  task_input = none;
  payload = none;
  constraints = none;
  simulate = none;
  delay_ms = none;
  lease_ttl_s = none;
  priority = some 3;
  result_delivery = none;
  verification = none;
  body_text = none;
  attachments = none;
  result_package = none;
  sent_at = none;
  queued_at = none;
}

-- A message that carries a result.
abbrev pub result_message : Envelope
result_message = record envelope {
  message_id = some "m2";
  to = some "buyer-controller";
  result_package = some ok_package;
}

abbrev pub buyer_state : Reply.State
buyer_state = record {
  requests = ("r1", ended) ∷ [];
  hub = ("buyer-controller", result_message ∷ []) ∷ [];
}

abbrev pub seller_state : Task.State
seller_state = record {
  tasks = [];
  request_index = [];
  queue = [];
  active_task_ids = [];
  worker_concurrency = 1;
  private_key = "key";
  public_key_pem = "key";
  seller_id = "s1";
  subagent_ids = "a1" ∷ [];
}

-- What `createTaskRecord` makes of the envelope at time 10.
abbrev pub task : Task
task = record {
  task_id = "task1";
  request_id = "r1";
  subagent_id = some "a1";
  task_type = none;
  task_input = none;
  payload = none;
  constraints = none;
  simulate = "success";
  priority = 3;
  delay_ms = 80;
  lease_ttl_s = 30;
  status = queued;
  acked = true;
  accepted_at = 10;
  enqueued_at = 10;
  updated_at = 10;
  result_package = none;
  result_delivery = none;
  verification = none;
  return_route = none;
  reply_to = none;
  thread_id = "t1";
  task_token = some "token";
  seller_id = "s1";
  started_at = none;
  completed_at = none;
  lease_expires_at = none;
  deferred_reason = none;
  execution_artifacts = [];
  metric_flags = [];
}

task-is :
    create_task_record "u1" "task1" 10 seller_state no_overrides
      (record { envelope = envelope; task_id = none; return_route = none; reply_to = none })
    ≡ task
unfolding create_task_record
task-is = refl

abbrev pub execution : Execution
execution = record {
  deferred = false;
  reason = none;
  status = some "ok";
  error_code = none;
  error_message = none;
  error_retryable = false;
  output = some (Json.str "done");
  artifacts =
      record {
        artifact_id = none;
        name = some "a.txt";
        media_type = some "text/plain";
        content_base64 = "aGk=";
        content_length = 2;
      }
      ∷ record {
        artifact_id = none;
        name = some "b.txt";
        media_type = none;
        content_base64 = "";
        content_length = 0;
      }
      ∷ [];
  schema_valid = none;
  usage = none;
}
