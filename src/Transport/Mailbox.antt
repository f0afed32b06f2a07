-- ===== src/Transport/Mailbox.antt =====
-- Queues of envelopes by receiver, which the hub and the relay's memory store keep in the same way.
use remote_subagent_protocol.Prelude.{
  String, ◌≡◌, Option, none, some, List, [], ◌∷◌, arith, eq_iff, ◌==◌, if◌then◌else◌, same_text,
}
use remote_subagent_protocol.Prelude.Dict.{Dict, get, put, get-put}
use remote_subagent_protocol.Transport.Messages.{Envelope}

abbrev pub Mailboxes : Type 0
Mailboxes = Dict (List Envelope)

-- `getQueue`: a receiver without a queue gets an empty one.
unfoldable pub get_queue : Mailboxes → String → Mailboxes × List Envelope
get_queue boxes receiver = elim (get boxes receiver) [
  | none ↦ (put boxes receiver [], [])
  | some queue ↦ (boxes, queue)
]

-- `queue.findIndex(m => m.message_id === id)` and `queue.splice(index, 1)`; `none` is index -1
unfoldable pub remove_first : Option String → List Envelope → Option (List Envelope)
remove_first id [] = none
remove_first id (m ∷ rest) =
    if same_text m.message_id id
    then some rest
    else elim (remove_first id rest) [ none ↦ none | some left ↦ some (m ∷ left) ]

-- What a receiver has waiting.
unfoldable pub waiting : Mailboxes → String → List Envelope
waiting boxes receiver = elim (get boxes receiver) [ none ↦ [] | some queue ↦ queue ]

pub get_queue-waiting : (b : Mailboxes) (r : String) → (get_queue b r).1 ≡ waiting b r
unfolding get_queue waiting
get_queue-waiting b r = ground arith

pub waiting-get_queue : (b : Mailboxes) (r k : String) → waiting (get_queue b r).0 k ≡ waiting b k
unfolding get_queue waiting
waiting-get_queue b r k = ground (arith, get-put b r k [], eq_iff r k)

pub waiting-put :
    (b : Mailboxes) (r k : String) (q : List Envelope)
    → waiting (put b r q) k ≡ (if r == k then q else waiting b k)
unfolding waiting
waiting-put b r k q = ground (arith, get-put b r k q, eq_iff r k)
