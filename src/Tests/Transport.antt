-- ===== src/Tests/Transport.antt =====
-- The laws of hub and relay at concrete messages.
use remote_subagent_protocol.Prelude.{◌≡◌, refl, none, some, List, [], ◌∷◌}
use remote_subagent_protocol.Transport.Mailbox.{Mailboxes, waiting}
use remote_subagent_protocol.Transport.Hub.{UrlParser}
use remote_subagent_protocol.Transport.Hub.Refine.{
  Call, sends, polls, acks, peeks, counts, run, promised_run, hub_refines_queues,
}
use remote_subagent_protocol.Transport.Relay.{handle, acks}
use remote_subagent_protocol.Transport.Relay.Laws.{refused_changes_nothing}
use remote_subagent_protocol.Tests.Data.{envelope, result_message}

abbrev no_url : UrlParser
no_url = λ t. none

-- A mailbox with two messages.
abbrev boxes : Mailboxes
boxes = ("s1", result_message ∷ envelope ∷ []) ∷ []

refused_changes_nothing_example : (handle 7 (acks none) boxes).0 ≡ boxes
unfolding handle
refused_changes_nothing_example = refused_changes_nothing 7 (acks none) boxes 400 _ refl

abbrev calls : List Call
calls =
    sends "s1" "u1" 7 envelope
    ∷ acks "s1" (some "m1") none
    ∷ polls "s1" 10 none
    ∷ peeks "s2" none (some "s1")
    ∷ acks "s1" (some "m1") none
    ∷ counts "s1"
    ∷ []

hub_refines_queues_example : run no_url boxes calls ≡ promised_run no_url (waiting boxes) calls
hub_refines_queues_example = hub_refines_queues no_url boxes (waiting boxes) calls (λ k. refl)
