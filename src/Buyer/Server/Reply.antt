-- ===== src/Buyer/Server/Reply.antt =====
-- What the buyer's server answers with, and what a call leaves behind.
use remote_subagent_protocol.Prelude.{
  ℕ, String, Bool, true, false, Option, none, some, List, [], ◌∷◌,
}
use remote_subagent_protocol.Prelude.Dict.{Dict, put}
use remote_subagent_protocol.Json.{Fields}
use remote_subagent_protocol.Contracts.{Status, StructuredError, build_structured_error}
use remote_subagent_protocol.Contracts.Signing.{Crypto}
use remote_subagent_protocol.Transport.Messages.{Envelope}
use remote_subagent_protocol.Transport.Mailbox.{Mailboxes}
use remote_subagent_protocol.Transport.Hub.{UrlParser}
use remote_subagent_protocol.Buyer.Request.{Config, Request, Contract}
use remote_subagent_protocol.Buyer.Client.{Client, Metric}
use remote_subagent_protocol.Buyer.Metrics.{Report, skipped, posted, threw}
use remote_subagent_protocol.Buyer.Inbox.{Accepted, JsonParser}

-- What a server is made with, and what a call draws: the client that `resolvePlatformClient` gives,
-- whether there is a transport, the adapter's own receiver, a fresh identifier and the time.
pub record Server : Type 0 where
  pub config : Config
  pub crypto : Crypto
  pub parse_json : JsonParser
  pub parse_url : UrlParser
  pub client : Option Client
  -- the client of the inbox, which is there only with an API key
  pub inbox_client : Option Client
  pub has_transport : Bool
  pub receiver : String
  pub uuid : String
  pub now : ℕ

pub record State : Type 0 where
  pub requests : Dict Request
  pub hub : Mailboxes

pub data Reply : Type 0 where
  request_is : ℕ → Request → Reply
  requests_are : List Request → Reply
  result_is : Bool → Status → Option Fields → Reply
  prepared_is : Request → String → Reply
  contract_is : String → Contract → Reply
  dispatched : ℕ → Request → Envelope → Reply
  remote_is : Request → String → Contract → Envelope → Reply
  synced_is : Request → Bool → Reply
  accepted_are : List Accepted → Reply
  refused : ℕ → StructuredError → Reply
  -- sendUpstreamError with its fallback code
  upstream_error : String → Reply

-- `saved` is a call of `persistBuyerState`.
pub record Outcome : Type 0 where
  pub state : State
  pub metrics : List Metric
  pub saved : Bool
  pub reply : Reply

abbrev pub answer : State → Reply → Outcome
answer s reply = record { state = s; metrics = []; saved = false; reply = reply }

abbrev pub refuse : State → ℕ → String → String → Outcome
refuse s status code message = answer s (refused status (build_structured_error code message none))

abbrev pub no_request : State → Outcome
no_request s = refuse s 404 "REQUEST_NOT_FOUND" "no request found with this id"

abbrev pub no_platform : State → Outcome
no_platform s = refuse s 409 "PLATFORM_NOT_CONFIGURED" "platform client is not configured"

abbrev pub no_transport : State → Outcome
no_transport s = refuse s 409 "TRANSPORT_NOT_CONFIGURED" "transport adapter is not configured"

abbrev pub not_json : State → Outcome
not_json s = refuse s 400 "CONTRACT_INVALID_JSON" "request body is not valid JSON"

abbrev pub internal_error : Reply
internal_error =
    refused 500
      (build_structured_error "BUYER_CONTROLLER_INTERNAL_ERROR" "unknown_error" (some true))

abbrev pub with_state : State → String → Request → State
with_state s k r = record s { requests = put s.requests k r }

-- A handler that reports, saves and answers. An exception of the report leaves the change in memory
-- and answers `failure` instead.
unfoldable pub finish : State → String → Request × Report → Reply → (Request → Reply) → Outcome
finish s k (r, skipped) failure reply = record {
  state = with_state s k r;
  metrics = [];
  saved = true;
  reply = reply r;
}
finish s k (r, posted m) failure reply = record {
  state = with_state s k r;
  metrics = m ∷ [];
  saved = true;
  reply = reply r;
}
finish s k (r, threw m) failure reply = answer (with_state s k r) failure
