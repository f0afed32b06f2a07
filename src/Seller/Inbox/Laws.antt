-- ===== src/Seller/Inbox/Laws.antt =====
-- A repeated envelope makes no second task.
use remote_subagent_protocol.Prelude.{
  String, ◌≡◌, refl, ap, ◌∙◌, ◌⊎◌, inl, inr, Bool, true, false, Option, none, some, arith,
  Bool-cases, ◌==◌,
}
use remote_subagent_protocol.Json.{Fields}
use remote_subagent_protocol.Transport.Messages.{Envelope}
use remote_subagent_protocol.Seller.Task.{Task, State, create_task_record, get_task_by_request_id}
use remote_subagent_protocol.Seller.Artifacts.{Execution}
use remote_subagent_protocol.Seller.Platform.{Introspection, active, inactive}
use remote_subagent_protocol.Seller.Result.{sign_result_payload}
use remote_subagent_protocol.Seller.Finalize.{report_seller_metric}
use remote_subagent_protocol.Seller.Queue.Known.{
  Registered, Registered-found, store-Registered, remember-Registered, enqueue-Registered,
}
use remote_subagent_protocol.Seller.Inbox.{
  Draw, Run, Seller, accept, task_of, replay, reject, ack_task, announce, after_rejection,
  after_acceptance, admit, check_guardrails, check_token, receive_new, receive, round, noted,
  is_for, received, closed,
}

-- After a round: the request has a task, or an exception has stopped the loop.
abbrev Answered : String → Run → Type 0
Answered id run = (run.stopped ≡ true) ⊎ Registered run.state id

report_seller_metric-ids :
    (v : Seller) (event_type : String) (code : Option String) (t : Task)
    → let t' = (report_seller_metric v.platform event_type code t).task in
      (t'.task_id ≡ t.task_id) × (t'.request_id ≡ t.request_id)
unfolding report_seller_metric
report_seller_metric-ids v event_type code t = ground arith

module _ (v : Seller) (d : Draw) (e : Envelope) (id : String) where
  rejection-Answered :
      (t : Task) (ok : Bool) (run : Run)
      → Registered run.state id
      → Answered id (after_rejection v e t ok run)
  unfolding after_rejection accept
  rejection-Answered t true run h = inr h
  rejection-Answered t false run h = inl refl

  reject-Answered :
      (t : Task) (payload : Fields) (code : Option String) (run : Run)
      → t.request_id ≡ id
      → (t.task_id == "") ≡ false
      → Answered id (reject v d e t payload code run)
  unfolding reject
  reject-Answered t payload code run same named =
      let rejected : Task = record t {
        result_package = some (sign_result_payload v.crypto run.state payload);
      } in
      let ids = report_seller_metric-ids v "seller.task.rejected" code rejected in
      rejection-Answered t _ _
        (remember-Registered _ run.state id (ids.1 ∙ same) (rw (ids.0) named))

  ack_task-Answered :
      (t : Task) (o : Option Bool) (run : Run)
      → Registered run.state id
      → Answered id (ack_task v e t o run)
  unfolding ack_task accept
  ack_task-Answered t none run h = inl refl
  ack_task-Answered t (some ok) run h = inr (store-Registered _ run.state id h)

  acceptance-Answered :
      (t : Task) (ok : Bool) (run : Run)
      → Registered run.state id
      → Answered id (after_acceptance v e t ok run)
  unfolding after_acceptance
  acceptance-Answered t true run h = ack_task-Answered t (v.platform.ack_platform t) run h
  acceptance-Answered t false run h = inl refl

  announce-Answered :
      (t : Task) (run : Run) → Registered run.state id → Answered id (announce v e t run)
  unfolding announce
  announce-Answered t run h = acceptance-Answered _ _ _ (store-Registered _ run.state id h)

  admit-Answered :
      (t : Task) (run : Run)
      → t.request_id ≡ id
      → (t.task_id == "") ≡ false
      → Answered id (admit v e t run)
  unfolding admit
  admit-Answered t run same named =
      announce-Answered _ _ (enqueue-Registered v.now none t run.state id same named)

  guardrails-Answered :
      (t : Task) (o : Option Execution) (run : Run)
      → t.request_id ≡ id
      → (t.task_id == "") ≡ false
      → Answered id (check_guardrails v d e t o run)
  unfolding check_guardrails
  guardrails-Answered t none run same named = admit-Answered t run same named
  guardrails-Answered t (some failure) run same named =
      reject-Answered (closed v.now t) _ _ run same named

  token-Answered :
      (t : Task) (o : Option Introspection) (run : Run)
      → t.request_id ≡ id
      → (t.task_id == "") ≡ false
      → Answered id (check_token v d e t o run)
  unfolding check_token
  token-Answered t none run same named = inl refl
  token-Answered t (some active) run same named = guardrails-Answered t _ run same named
  token-Answered t (some (inactive r)) run same named =
      reject-Answered (closed v.now t) _ _ run same named

  task_of-request_id :
      (s : State) → e.request_id ≡ some id → (id == "") ≡ false → (task_of v d s e).request_id ≡ id
  unfolding task_of create_task_record
  task_of-request_id s there named = rw (there, named)

  task_of-named :
      (s : State) → (d.task_uuid == "") ≡ false → ((task_of v d s e).task_id == "") ≡ false
  unfolding task_of create_task_record
  task_of-named s fresh = ground arith

  known-round :
      (t : Task) (run : Run) (stopped is_ours ok : Bool)
      → get_task_by_request_id run.state e.request_id ≡ some t
      → (round v d e run stopped is_ours ok).state ≡ run.state
  unfolding round receive_new replay accept
  known-round t run true is_ours ok known = refl
  known-round t run false false ok known = refl
  known-round t run false true false known = refl
  known-round t run false true true known = rw known

  known_keeps_state :
      (t : Task) (run : Run)
      → get_task_by_request_id run.state e.request_id ≡ some t
      → (receive v d e run).state ≡ run.state
  unfolding receive
  known_keeps_state t run known = known-round t run _ _ _ known

  stopped_stays : (run : Run) → run.stopped ≡ true → receive v d e run ≡ run
  unfolding receive round
  stopped_stays run h = rw h

  receive_new-Answered :
      (o : Option Task) (run : Run)
      → e.request_id ≡ some id
      → (id == "") ≡ false
      → (d.task_uuid == "") ≡ false
      → ((receive_new v d e o run).state ≡ run.state × ((t : Task) × (o ≡ some t)))
        ⊎ Answered id (receive_new v d e o run)
  unfolding receive_new replay accept
  receive_new-Answered none run there named fresh = inr (
      token-Answered _ _ run (task_of-request_id run.state there named)
        (task_of-named run.state fresh))
  receive_new-Answered (some t) run there named fresh = inl (refl, (t, refl))

skipped_stays :
    (v : Seller) (d : Draw) (e : Envelope) (run : Run)
    → is_for run.state e ≡ false
    → receive v d e run ≡ run
unfolding receive round
skipped_stays v d e run h = elim (Bool-cases run.stopped) [
  | inl over ↦ rw over
  | inr live ↦ rw (h, live)
]

receive-round :
    (v : Seller) (d : Draw) (e : Envelope) (run : Run)
    → receive v d e run
      ≡ round v d e run run.stopped
          (is_for run.state e)
          (v.platform.post_metric (received run.state e))
unfolding receive
receive-round v d e run = refl

Answered-stays :
    (v : Seller) (d : Draw) (e : Envelope) (id : String) (run : Run)
    → e.request_id ≡ some id
    → Answered id run
    → (receive v d e run).state ≡ run.state
Answered-stays v d e id run there (inl over) = ap (λ r. r.state) (stopped_stays v d e id run over)
Answered-stays v d e id run there (inr h) =
    known_keeps_state v d e id h.task run (rw there (Registered-found run.state id h))

module _ (v v' : Seller) (d d' : Draw) (e : Envelope) (id : String) (run : Run)
    (there : e.request_id ≡ some id) (named : (id == "") ≡ false)
    (fresh : (d.task_uuid == "") ≡ false) where
  abbrev found : Option Task
  found = get_task_by_request_id run.state e.request_id

  abbrev first : Run
  first = receive_new v d e found (noted run e)

  again-receive_new :
      ((first.state ≡ run.state) × ((t : Task) × (found ≡ some t))) ⊎ Answered id first
      → (receive v' d' e first).state ≡ first.state
  again-receive_new (inl (same, (t, known))) = known_keeps_state v' d' e id t _ (rw same known)
  again-receive_new (inr h) = Answered-stays v' d' e id _ there h

  again-round :
      (stopped is_ours ok : Bool)
      → run.stopped ≡ stopped
      → is_for run.state e ≡ is_ours
      → (receive v' d' e (round v d e run stopped is_ours ok)).state
        ≡ (round v d e run stopped is_ours ok).state
  unfolding round
  again-round true is_ours ok over ours = ap (λ r. r.state) (stopped_stays v' d' e id run over)
  again-round false false ok live other = ap (λ r. r.state) (skipped_stays v' d' e run other)
  again-round false true false live ours = ap (λ r. r.state) (stopped_stays v' d' e id _ refl)
  again-round false true true live ours =
      again-receive_new (receive_new-Answered v d e id _ (noted run e) there named fresh)

  -- An envelope that comes a second time, at any time and whatever the platform then answers, makes
  -- no second task and changes none: the seller's tasks, index, queue and running tasks are those
  -- after the first. It takes an envelope that names its request, and a first task with an id.
  pub repeat_keeps_state : (receive v' d' e (receive v d e run)).state ≡ (receive v d e run).state
  repeat_keeps_state = rw (receive-round v d e run) (again-round _ _ _ refl refl)
