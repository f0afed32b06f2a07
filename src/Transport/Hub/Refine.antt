-- ===== src/Transport/Hub/Refine.antt =====
-- The hub against what it promises: a queue of messages for every receiver, without the `Map` and
-- the places of a queue that the code works with.
use remote_subagent_protocol.Prelude.{
  ℕ, String, ◌≡◌, refl, ap, ◌∙◌, Bool, true, false, Option, none, some, List, [], ◌∷◌, ◌++◌, arith,
  eq_iff, ◌==◌, ◌||◌, if◌then◌else◌, or_text, text_or, or_default, same_text, take, truthy,
  filter_by, length,
}
use remote_subagent_protocol.Transport.Messages.{Envelope}
use remote_subagent_protocol.Transport.Mailbox.{
  Mailboxes, get_queue, waiting, get_queue-waiting, waiting-get_queue, waiting-put, remove_first,
}
use remote_subagent_protocol.Transport.Hub.{
  UrlParser, resolve_receiver, send, poll, ack, peek, splice, queue_depth,
}

-- A call of an adapter, with the adapter's own receiver first.
pub data Call : Type 0 where
  sends : String → String → ℕ → Envelope → Call
  polls : String → ℕ → Option String → Call
  acks : String → Option String → Option String → Call
  peeks : String → Option String → Option String → Call
  counts : String → Call

pub data Outcome : Type 0 where
  sent : Envelope → Outcome
  listed : List Envelope → Outcome
  acked : Bool → Outcome
  counted : ℕ → Outcome

abbrev with_outcome {ℓ} : {A : Type ℓ} → (A → Outcome) → Mailboxes × A → Mailboxes × Outcome
with_outcome f (hub, a) = (hub, f a)

unfoldable pub call : UrlParser → Mailboxes → Call → Mailboxes × Outcome
call parse_url hub (sends receiver uuid now e) =
    with_outcome sent (send parse_url receiver uuid now e hub)
call parse_url hub (polls receiver limit override) =
    with_outcome listed (poll receiver limit override hub)
call parse_url hub (acks receiver id override) = with_outcome acked (ack receiver id override hub)
call parse_url hub (peeks receiver thread override) =
    with_outcome listed (peek receiver thread override hub)
call parse_url hub (counts receiver) = with_outcome counted (queue_depth receiver hub)

-- The outcomes of calls one after another.
unfoldable pub run : UrlParser → Mailboxes → List Call → List Outcome
run parse_url hub [] = []
run parse_url hub (c ∷ rest) =
    let (after, outcome) = call parse_url hub c in outcome ∷ run parse_url after rest

-- The promise: what every receiver has waiting.
abbrev pub Queues : Type 0
Queues = String → List Envelope

abbrev update : Queues → String → List Envelope → Queues
update q t messages k = if t == k then messages else q k

abbrev holds : Option String → List Envelope → Bool
holds id [] = false
holds id (m ∷ rest) = same_text m.message_id id || holds id rest

abbrev without_first : Option String → List Envelope → List Envelope
without_first id [] = []
without_first id (m ∷ rest) =
    let left = without_first id rest in if same_text m.message_id id then rest else m ∷ left

abbrev stamped : String → ℕ → Envelope → Envelope
stamped uuid now e = record e {
  message_id = some (text_or e.message_id uuid);
  queued_at = some (or_default e.queued_at now);
}

unfoldable pub promised : UrlParser → Queues → Call → Queues × Outcome
promised parse_url q (sends receiver uuid now e) =
    let t = resolve_receiver parse_url (text_or (or_text e.to e.seller_id) receiver) in
    (update q t (q t ++ stamped uuid now e ∷ []), sent (stamped uuid now e))
promised parse_url q (polls receiver limit override) =
    (q, listed (take limit (q (text_or override receiver))))
promised parse_url q (acks receiver id override) =
    let t = text_or override receiver in
    (update q t (without_first id (q t)), acked (holds id (q t)))
promised parse_url q (peeks receiver thread override) =
    let messages = q (text_or override receiver) in
    (
      q,
      listed (
          if truthy thread
          then filter_by (λ m. same_text m.thread_id thread) messages
          else messages),
    )
promised parse_url q (counts receiver) = (q, counted (length (q receiver)))

unfoldable pub promised_run : UrlParser → Queues → List Call → List Outcome
promised_run parse_url q [] = []
promised_run parse_url q (c ∷ rest) =
    let (after, outcome) = promised parse_url q c in outcome ∷ promised_run parse_url after rest

-- A hub stands for the queues that it has waiting.
abbrev pub StandsFor : Mailboxes → Queues → Type 0
StandsFor hub q = (k : String) → waiting hub k ≡ q k

abbrev removed : Bool → List Envelope → Option (List Envelope)
removed true left = some left
removed false left = none

remove_first_lem :
    (id : Option String) (m : List Envelope)
    → remove_first id m ≡ removed (holds id m) (without_first id m)
unfolding remove_first
remove_first_lem id [] = refl
remove_first_lem id (m ∷ rest) = ground (arith, remove_first_lem id rest)

without_first_missing :
    (id : Option String) (m : List Envelope) → holds id m ≡ false → without_first id m ≡ m
without_first_missing id [] h = refl
without_first_missing id (m ∷ rest) h = ground (arith, without_first_missing id rest)

-- What the code leaves of a queue, found or not, is what the promise leaves.
splice-StandsFor :
    (hub : Mailboxes) (q : Queues) (t : String) (id : Option String) (found : Bool)
    → holds id (q t) ≡ found
    → StandsFor hub q
    → StandsFor
        (splice hub t (removed found (without_first id (q t)))).0
        (update q t (without_first id (q t)))
      × ((splice hub t (removed found (without_first id (q t)))).1 ≡ found)
unfolding splice
splice-StandsFor hub q t id true there h = (λ k. waiting-put hub t k _ ∙ (rw (h k) refl), refl)
splice-StandsFor hub q t id false missing h =
    (λ k. h k ∙ (rw (without_first_missing id (q t) missing) (ground (arith, eq_iff t k))), refl)

step-StandsFor :
    (parse_url : UrlParser) (hub : Mailboxes) (q : Queues) (c : Call)
    → StandsFor hub q
    → StandsFor (call parse_url hub c).0 (promised parse_url q c).0
      × ((call parse_url hub c).1 ≡ (promised parse_url q c).1)
unfolding call promised send poll ack peek queue_depth
step-StandsFor parse_url hub q (sends receiver uuid now e) h =
    let t = resolve_receiver parse_url (text_or (or_text e.to e.seller_id) receiver) in
    (
      λ k.
          waiting-put (get_queue hub t).0 t k _
          ∙ (rw (get_queue-waiting hub t, waiting-get_queue hub t k, h t, h k) refl),
      refl,
    )
step-StandsFor parse_url hub q (polls receiver limit override) h =
    let t = text_or override receiver in
    (λ k. waiting-get_queue hub t k ∙ h k, rw (get_queue-waiting hub t, h t) refl)
step-StandsFor parse_url hub q (acks receiver id override) h =
    let t = text_or override receiver in
    let boxes = (get_queue hub t).0 in
    let left =
      splice-StandsFor boxes q t id (holds id (q t)) refl (λ k. waiting-get_queue hub t k ∙ h k) in
    rw (get_queue-waiting hub t, h t, remove_first_lem id (q t)) (left.0, ap acked left.1)
step-StandsFor parse_url hub q (peeks receiver thread override) h =
    let t = text_or override receiver in
    (λ k. waiting-get_queue hub t k ∙ h k, rw (get_queue-waiting hub t, h t) refl)
step-StandsFor parse_url hub q (counts receiver) h = (
  λ k. waiting-get_queue hub receiver k ∙ h k,
  rw (get_queue-waiting hub receiver, h receiver) refl,
)

-- Whatever calls are made of the hub's adapters, in whatever order, each has the outcome that the
-- queues promise, if the hub stands for them at first.
pub hub_refines_queues :
    (parse_url : UrlParser) (hub : Mailboxes) (q : Queues) (calls : List Call)
    → StandsFor hub q
    → run parse_url hub calls ≡ promised_run parse_url q calls
unfolding run promised_run
hub_refines_queues parse_url hub q [] h = refl
hub_refines_queues parse_url hub q (c ∷ rest) h =
    let step = step-StandsFor parse_url hub q c h in
    rw (step.1, hub_refines_queues parse_url (call parse_url hub c).0 _ rest step.0) refl
