-- ===== src/Buyer/Inbox.antt =====
-- `extractEmailResult` and `pollBuyerInbox`, over the in-process hub as the transport.
pub mod Laws
use Prim.Native.Char.{code}
use remote_subagent_protocol.Prelude.Texts.{is_space}
use remote_subagent_protocol.Prelude.{
  leb, nat_eq, ◌||◌, ℕ, String, Bool, true, false, not, Option, none, some, List, [], ◌∷◌, ◌++◌,
  ◌&&◌, ◌==◌, if◌then◌else◌, map, truthy, text_or, or_default, or_else, map,
}
use remote_subagent_protocol.Prelude.Dict.{Dict, get, put}
use remote_subagent_protocol.Json.{Json, Fields, member, as_text, as_number, as_array, json_truthy}
use remote_subagent_protocol.Json
use remote_subagent_protocol.Contracts.{Status, unverified, is_terminal}
use remote_subagent_protocol.Contracts.Signing.{Crypto}
use remote_subagent_protocol.Transport.Messages.{Attachment, Envelope}
use remote_subagent_protocol.Transport.Mailbox.{Mailboxes}
use remote_subagent_protocol.Transport.Hub
use remote_subagent_protocol.Buyer.Request.{Request, mark_updated}
use remote_subagent_protocol.Buyer.Timeouts.{Transition}
use remote_subagent_protocol.Buyer.Result.{apply_result_package}
use remote_subagent_protocol.Buyer.Client.{Client, Metric}
use remote_subagent_protocol.Buyer.Metrics.{Report, skipped, posted, threw, report_buyer_metric}

pub record Extracted : Type 0 where
  pub result_package : Option Json
  pub attachments : List Attachment
  pub parse_error : Bool

attachment_of : Json → Attachment
attachment_of j = record {
  name = as_text (member (some j) "name");
  media_type = as_text (member (some j) "media_type");
  byte_size = as_number (member (some j) "byte_size");
  content_base64 = as_text (member (some j) "content_base64");
}

-- `envelope.result_package || envelope.payload?.result_package`
abbrev pub carried : Envelope → Option Json
carried e = elim e.result_package [
  | some fields ↦ some (Json.obj fields)
  | none ↦ member e.payload "result_package"
]

-- `envelope.attachments || envelope.payload?.attachments || []`
carried_attachments : Envelope → List Attachment
unfolding attachment_of
carried_attachments e =
    or_default e.attachments (map attachment_of (as_array (member e.payload "attachments")))

-- What `JSON.parse` gives of a text; `none` is its exception.
abbrev pub JsonParser : Type 0
JsonParser = String → Option Json

parsed_body : List Attachment → Option Json → Extracted
parsed_body attachments none = record {
  result_package = none;
  attachments = attachments;
  parse_error = true;
}
parsed_body attachments (some j) = record {
  result_package = some j;
  attachments = attachments;
  parse_error = false;
}

-- `trim` leaves nothing of the text.
is_blank : String → Bool
unfolding is_space
is_blank String.[] = true
is_blank (String.◌∷◌ c s) = is_space (code c) && is_blank s

has_text : Option String → Bool
unfolding is_blank
has_text none = false
has_text (some t) = not (is_blank t)

unfoldable pub extract_email_result : JsonParser → Envelope → Extracted
unfolding parsed_body carried_attachments has_text
extract_email_result parse_json e =
    if json_truthy (carried e)
    then record {
      result_package = carried e;
      attachments = carried_attachments e;
      parse_error = false;
    }
    else if has_text e.body_text
    then parsed_body (or_default e.attachments []) (parse_json (or_default e.body_text ""))
    else record {
      result_package = if json_truthy (member e.payload "request_id") then e.payload else none;
      attachments = or_default e.attachments [];
      parse_error = false;
    }

pub record Accepted : Type 0 where
  pub message_id : Option String
  pub request_id : Option String

-- The state of the loop. `stopped` is an exception, which leaves the rest of the inbox for the next
-- poll and skips the writing of the state.
pub record Run : Type 0 where
  pub requests : Dict Request
  pub hub : Mailboxes
  pub accepted : List Accepted
  pub metrics : List Metric
  pub mutated : Bool
  pub stopped : Bool

module _ (crypto : Crypto) (parse_json : JsonParser) where
  module _ (client_of : Request → Option Client) (receiver : String) (now : ℕ) where
    -- `transport.ack` and `accepted.push`
    accept : Envelope → Option String → Run → Run
    accept e request_id run = record run {
      hub = (Hub.ack receiver e.message_id (some receiver) run.hub).0;
      accepted = run.accepted ++ record { message_id = e.message_id; request_id = request_id } ∷ [];
    }

    -- A body that is no JSON ends the request that the envelope names.
    reject_body : String → Option Request → Run → Run
    unfolding mark_updated
    reject_body id none run = run
    reject_body id (some r) run = if is_terminal r.status then run else record run {
      requests = put run.requests id (
          mark_updated now "RESULT_BODY_INVALID_JSON"
            (record r { status = unverified; last_error_code = some "RESULT_BODY_INVALID_JSON" }));
      mutated = true;
    }

    -- After the report: an exception ends the poll, and the envelope is not acknowledged.
    after_report : Envelope → String → Request → Report → Run → Run
    unfolding accept
    after_report e id r skipped run =
        accept e (some id) (record run { requests = put run.requests id r; mutated = true })
    after_report e id r (posted m) run = accept e (some id) (record run {
      requests = put run.requests id r;
      mutated = true;
      metrics = run.metrics ++ m ∷ [];
    })
    after_report e id r (threw m) run = record run {
      requests = put run.requests id r;
      stopped = true;
    }

    settle_request : Envelope → String → Fields → List Attachment → Request → Run → Run
    unfolding after_report
    settle_request e id body attachments r run =
        let (r', t) = apply_result_package crypto now r body attachments in
        let (r'', report) = report_buyer_metric (client_of r) t.event_type t.code r' in
        after_report e id r'' report run

    receive_for : Envelope → String → Fields → List Attachment → Option Request → Run → Run
    unfolding accept settle_request
    receive_for e id body attachments none run = run
    receive_for e id body attachments (some r) run =
        if is_terminal r.status
        then accept e (some id) run
        else settle_request e id body attachments r run

    -- A package names its request by a text; under any other id the map has no request.
    receive_named : Envelope → Fields → Option Json → List Attachment → Run → Run
    unfolding receive_for
    receive_named e body (some (Json.str id)) attachments run =
        receive_for e id body attachments (get run.requests id) run
    receive_named e body _ attachments run = run

    receive_package : Envelope → Option Json → List Attachment → Run → Run
    unfolding receive_named
    receive_package e (some (Json.obj body)) attachments run =
        receive_named e body (Json.get body "request_id") attachments run
    receive_package e _ attachments run = run

    receive_extracted : Envelope → Extracted → Run → Run
    unfolding accept reject_body receive_package
    receive_extracted e x run =
        if json_truthy (member x.result_package "request_id")
        then receive_package e x.result_package x.attachments run
        else if x.parse_error && truthy e.request_id
        then accept e e.request_id
            (reject_body (text_or e.request_id "") (get run.requests (text_or e.request_id "")) run)
        else run

    -- One round of the loop.
    unfoldable pub receive : Envelope → Run → Run
    unfolding receive_extracted
    receive e run =
        if run.stopped then run else receive_extracted e (extract_email_result parse_json e) run

    unfoldable pub receive_all : List Envelope → Run → Run
    receive_all [] run = run
    receive_all (e ∷ es) run = receive_all es (receive e run)

    unfoldable pub poll_buyer_inbox : Dict Request → Mailboxes → Run
    poll_buyer_inbox requests hub =
        let (hub', items) = Hub.poll receiver 10 (some receiver) hub in
        receive_all items (record {
          requests = requests;
          hub = hub';
          accepted = [];
          metrics = [];
          mutated = false;
          stopped = false;
        })
