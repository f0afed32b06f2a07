-- ===== src/Transport/Hub.antt =====
-- packages/transports/local/src/index.js: the in-process hub and its adapter.
pub mod Refine
use text.Mathlib.Text.{starts_with}
use remote_subagent_protocol.Prelude.{
  ℕ, String, Bool, true, false, Option, none, some, List, [], ◌∷◌, ◌++◌, ◌==◌, ◌&&◌, if◌then◌else◌,
  truthy, or_text, text_or, number_or, or_default, same_text, length, take, filter_by, is_some,
}
use remote_subagent_protocol.Prelude.Dict.{put}
use remote_subagent_protocol.Transport.Messages.{Envelope}
use remote_subagent_protocol.Transport.Mailbox.{Mailboxes, get_queue, remove_first}

-- What `new URL` gives of an address: the host and the segments of the path that are not empty.
pub record ParsedUrl : Type 0 where
  pub hostname : String
  pub segments : List String

-- The platform's URL parser; `none` is its exception.
abbrev pub UrlParser : Type 0
UrlParser = String → Option ParsedUrl

first_segment_or_host : String → ParsedUrl → String
first_segment_or_host target (parsed) = elim parsed.segments [
  | segment ∷ _ ↦ segment
  | [] ↦ if parsed.hostname == "" then target else parsed.hostname
]

unfoldable pub resolve_receiver : UrlParser → String → String
unfolding first_segment_or_host
resolve_receiver parse_url target =
    if starts_with target "local://"
    then (elim (parse_url target) [
      | none ↦ target
      | some parsed ↦ first_segment_or_host target parsed
    ])
    else target

-- An adapter's operations; `receiver` is the adapter's own, `uuid` and `now` what the calls draw.
module _ (parse_url : UrlParser) (receiver : String) where
  unfoldable pub send : String → ℕ → Envelope → Mailboxes → Mailboxes × Envelope
  send uuid now envelope hub =
      let target =
        resolve_receiver parse_url (text_or (or_text envelope.to envelope.seller_id) receiver) in
      let message : Envelope = record envelope {
        message_id = some (text_or envelope.message_id uuid);
        queued_at = some (or_default envelope.queued_at now);
      } in
      let (boxes, queue) = get_queue hub target in
      (put boxes target (queue ++ message ∷ []), message)

-- `poll`, `ack` and `peek` may name another receiver.
unfoldable pub poll : String → ℕ → Option String → Mailboxes → Mailboxes × List Envelope
poll receiver limit override hub =
    let (boxes, queue) = get_queue hub (text_or override receiver) in (boxes, take limit queue)

-- `if (index >= 0) { queue.splice(index, 1); return { acked: true } }`
unfoldable pub splice : Mailboxes → String → Option (List Envelope) → Mailboxes × Bool
splice boxes target none = (boxes, false)
splice boxes target (some left) = (put boxes target left, true)

unfoldable pub ack : String → Option String → Option String → Mailboxes → Mailboxes × Bool
ack receiver id override hub =
    let target = text_or override receiver in
    let (boxes, queue) = get_queue hub target in splice boxes target (remove_first id queue)

unfoldable pub peek : String → Option String → Option String → Mailboxes → Mailboxes × List Envelope
peek receiver thread override hub =
    let (boxes, queue) = get_queue hub (text_or override receiver) in
    (boxes, if truthy thread then filter_by (λ m. same_text m.thread_id thread) queue else queue)

unfoldable pub queue_depth : String → Mailboxes → Mailboxes × ℕ
queue_depth receiver hub = let (boxes, queue) = get_queue hub receiver in (boxes, length queue)
