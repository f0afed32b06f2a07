-- ===== src/Transport/Relay/Laws.antt =====
-- The relay's memory store does to the mailboxes what the local hub does, and a call that is
-- refused changes nothing.
use remote_subagent_protocol.Prelude.{ℕ, String, ◌≡◌, refl, Option, none, some, arith}
use remote_subagent_protocol.Contracts.{StructuredError}
use remote_subagent_protocol.Transport.Mailbox.{Mailboxes}
use remote_subagent_protocol.Transport.Hub
use remote_subagent_protocol.Transport.Relay.{
  Call, sends, polls, acks, peeks, health, refused, handle, poll, ack, peek,
}

-- On the same mailboxes, a relay call for a receiver gives what the hub's adapter for that receiver
-- gives, and leaves the same mailboxes.
pub store-eq-hub :
    (receiver : String) (limit : ℕ) (id thread : Option String) (b : Mailboxes)
    → (poll receiver limit b ≡ Hub.poll receiver limit none b)
      × (ack receiver id b ≡ Hub.ack receiver id none b)
      × (peek receiver thread b ≡ Hub.peek receiver thread none b)
unfolding poll ack peek Hub.poll Hub.ack Hub.peek Hub.splice
store-eq-hub receiver limit id thread b = (refl, ground arith, refl)

-- A refusal of any kind leaves the mailboxes exactly as they were.
pub refused_changes_nothing :
    (now : ℕ) (c : Call) (b : Mailboxes) (status : ℕ) (e : StructuredError)
    → (handle now c b).1 ≡ refused status e
    → (handle now c b).0 ≡ b
unfolding handle
refused_changes_nothing now (sends none) b status e h = refl
refused_changes_nothing now (sends (some body)) b status e h = ground arith
refused_changes_nothing now (polls none) b status e h = refl
refused_changes_nothing now (polls (some body)) b status e h = ground arith
refused_changes_nothing now (acks none) b status e h = refl
refused_changes_nothing now (acks (some body)) b status e h = ground arith
refused_changes_nothing now (peeks r t) b status e h = ground arith
refused_changes_nothing now (health r) b status e h = cc
refused_changes_nothing now _ b status e h = refl
