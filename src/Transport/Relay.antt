-- ===== src/Transport/Relay.antt =====
-- apps/transport-relay/src/server.js: the relay's memory store and its HTTP handler.
pub mod Laws
use remote_subagent_protocol.Prelude.{
  ℕ, String, Bool, true, false, Option, none, some, List, [], ◌∷◌, ◌++◌, ◌==◌, ◌&&◌, not,
  if◌then◌else◌, truthy, text_or, number_or, or_default, same_text, length, take, filter_by,
}
use remote_subagent_protocol.Prelude.Dict.{put}
use remote_subagent_protocol.Contracts.{StructuredError, build_structured_error}
use remote_subagent_protocol.Transport.Messages.{Envelope}
use remote_subagent_protocol.Transport.Mailbox.{Mailboxes, get_queue, remove_first}

-- createMemoryRelayStore
unfoldable pub enqueue : String → Envelope → Mailboxes → Mailboxes × Envelope
enqueue receiver envelope b =
    let (boxes, queue) = get_queue b receiver in
    (put boxes receiver (queue ++ envelope ∷ []), envelope)

unfoldable pub poll : String → ℕ → Mailboxes → Mailboxes × List Envelope
poll receiver limit b = let (boxes, queue) = get_queue b receiver in (boxes, take limit queue)

unfoldable pub splice : Mailboxes → String → Option (List Envelope) → Mailboxes × Bool
splice boxes receiver none = (boxes, false)
splice boxes receiver (some left) = (put boxes receiver left, true)

unfoldable pub ack : String → Option String → Mailboxes → Mailboxes × Bool
unfolding splice
ack receiver id b =
    let (boxes, queue) = get_queue b receiver in splice boxes receiver (remove_first id queue)

unfoldable pub peek : String → Option String → Mailboxes → Mailboxes × List Envelope
peek receiver thread b =
    let (boxes, queue) = get_queue b receiver in
    (boxes, if truthy thread then filter_by (λ m. same_text m.thread_id thread) queue else queue)

unfoldable pub queue_depth : String → Mailboxes → Mailboxes × ℕ
queue_depth receiver b = let (boxes, queue) = get_queue b receiver in (boxes, length queue)

-- A parsed body. `none` in its place is a body that is no JSON.
pub record Body : Type 0 where
  pub receiver : Option String
  pub envelope : Option Envelope
  pub message_id : Option String
  pub limit : Option ℕ

pub data Call : Type 0 where
  preflight healthz root : Call
  sends polls acks : Option Body → Call
  peeks : Option String → Option String → Call
  health : String → Call
  unknown : String → Call

pub data Reply : Type 0 where
  no_content service_info : Reply
  stored : Envelope → Reply
  items : List Envelope → Reply
  acked : Bool → Reply
  depth : String → ℕ → Reply
  refused : ℕ → StructuredError → Reply

abbrev pub refuse : Mailboxes → ℕ → String → String → Mailboxes × Reply
refuse b status code message = (b, refused status (build_structured_error code message none))

-- `!body.receiver || !body.envelope || !body.envelope.message_id`
handle_send : ℕ → Option String → Option Envelope → Mailboxes → Mailboxes × Reply
unfolding enqueue
handle_send now receiver none b =
    refuse b 400 "CONTRACT_INVALID_SEND_REQUEST" "required fields are missing in send request"
handle_send now receiver (some e) b =
    if truthy receiver && truthy e.message_id
    then (let (boxes, message) =
          enqueue (text_or receiver "") (record e { queued_at = some (or_default e.queued_at now) })
            b in
        (boxes, stored message))
    else refuse b 400 "CONTRACT_INVALID_SEND_REQUEST" "required fields are missing in send request"

handle_poll : Body → Mailboxes → Mailboxes × Reply
unfolding poll
handle_poll body b =
    if truthy body.receiver
    then (let (boxes, found) = poll (text_or body.receiver "") (number_or body.limit 10) b in
        (boxes, items found))
    else refuse b 400 "CONTRACT_INVALID_POLL_REQUEST" "receiver is required for poll"

handle_ack : Body → Mailboxes → Mailboxes × Reply
unfolding ack
handle_ack body b =
    if truthy body.receiver && truthy body.message_id
    then (let (boxes, done) = ack (text_or body.receiver "") body.message_id b in
        (boxes, acked done))
    else refuse b 400 "CONTRACT_INVALID_ACK_REQUEST" "receiver and message_id are required for ack"

handle_peek : Option String → Option String → Mailboxes → Mailboxes × Reply
unfolding peek
handle_peek receiver thread b =
    if truthy receiver
    then (let (boxes, found) = peek (text_or receiver "") thread b in (boxes, items found))
    else refuse b 400 "CONTRACT_INVALID_PEEK_REQUEST" "thread_id is required for peek"

abbrev pub not_json : Mailboxes → Mailboxes × Reply
not_json b = refuse b 400 "CONTRACT_INVALID_JSON" "request body is not valid JSON"

-- createRelayServer, over the memory store
unfoldable pub handle : ℕ → Call → Mailboxes → Mailboxes × Reply
unfolding handle_send handle_poll handle_ack handle_peek queue_depth
handle now preflight b = (b, no_content)
handle now healthz b = (b, service_info)
handle now root b = (b, service_info)
handle now (sends none) b = not_json b
handle now (sends (some body)) b = handle_send now body.receiver body.envelope b
handle now (polls none) b = not_json b
handle now (polls (some body)) b = handle_poll body b
handle now (acks none) b = not_json b
handle now (acks (some body)) b = handle_ack body b
handle now (peeks receiver thread) b = handle_peek receiver thread b
handle now (health receiver) b =
    let (boxes, n) = queue_depth receiver b in (boxes, depth receiver n)
handle now (unknown path) b = refuse b 404 "not_found" "no matching route"
