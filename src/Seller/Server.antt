-- ===== src/Seller/Server.antt =====
-- The task routes of `createSellerControllerServer`. A body of `none` is no JSON; `no transport` is
-- a hub that is missing.
use remote_subagent_protocol.Prelude.{
  ℕ, String, ◌≡◌, refl, sym, ap, ◌∙◌, Bool, true, false, not, Option, none, some, List, [], ◌∷◌,
  ◌==◌, ◌||◌, text_or, or_text, number_or, or_default, includes, is_some, filter_by, if◌then◌else◌,
}
use remote_subagent_protocol.Prelude.Dict.{Dict, get, values}
use remote_subagent_protocol.Json.{Fields}
use remote_subagent_protocol.Contracts.{StructuredError, build_structured_error}
use remote_subagent_protocol.Transport.Mailbox.{Mailboxes}
use remote_subagent_protocol.Seller.Task.{
  Task, TaskStatus, running, State, Input, no_overrides, create_task_record, get_task_by_request_id,
}
use remote_subagent_protocol.Seller.Queue.{enqueue_task}
use remote_subagent_protocol.Seller.Queue.Known.{Registered-found, enqueue-Registered}
use remote_subagent_protocol.Seller.Inbox.{Seller, Draw, Accepted, process_seller_inbox}

pub data Reply (A : Type 0) : Type 0 where
  reply : ℕ → A → Reply A
  refused : ℕ → StructuredError → Reply A
  -- the 500 of an exception
  crashed : Reply A

abbrev refuse : {A : Type 0} → ℕ → String → String → Reply A
refuse status code message = refused status (build_structured_error code message none)

abbrev not_json : {A : Type 0} → Reply A
not_json = refuse 400 "CONTRACT_INVALID_JSON" "request body is not valid JSON"

-- The answer to a posted task: of a task that is there already, or of a new one.
pub record Posted : Type 0 where
  pub accepted : Bool
  pub deduped : Bool
  pub replayed : Bool
  pub task_id : String
  pub request_id : String
  pub status : TaskStatus
  pub result_package : Option Fields

abbrev pub known_task : Task → Reply Posted
known_task t = reply (if is_some t.result_package then 200 else 202) (record {
  accepted = not (is_some t.result_package);
  deduped = true;
  replayed = is_some t.result_package;
  task_id = t.task_id;
  request_id = t.request_id;
  status = t.status;
  result_package = t.result_package;
})

abbrev new_task : Task → Reply Posted
new_task t = reply 202 (record {
  accepted = true;
  deduped = false;
  replayed = false;
  task_id = t.task_id;
  request_id = t.request_id;
  status = t.status;
  result_package = none;
})

-- `workers` is the number that the server was made with; the task that the answer reads is the one
-- that the queue holds, as the scheduler may have started it.
unfoldable pub task_found : ℕ → ℕ → Task → State → Option Task → State × Reply Posted
task_found workers now t s (some old) = (s, known_task old)
task_found workers now t s none =
    let after = enqueue_task now (some workers) t s in
    (after, new_task (or_default (get after.tasks t.task_id) t))

-- POST /controller/tasks
unfoldable pub post_task : ℕ → Draw → ℕ → State → Option Input → State × Reply Posted
unfolding task_found
post_task workers d now s none = (s, not_json)
post_task workers d now s (some input) =
    let t = create_task_record d.request_uuid d.task_uuid now s no_overrides input in
    task_found workers now t s (get_task_by_request_id s (some t.request_id))

pub record PullBody : Type 0 where
  pub receiver : Option String
  pub limit : Option ℕ

-- POST /controller/inbox/pull
unfoldable pub pull_inbox :
    Seller
    → (ℕ → Draw)
    → State
    → Option Mailboxes
    → Option PullBody
    → State × Option Mailboxes × Reply (List Accepted)
pull_inbox v draws s none body =
    (s, none, refuse 409 "TRANSPORT_NOT_CONFIGURED" "message transport is not configured")
pull_inbox v draws s (some hub) none = (s, some hub, not_json)
pull_inbox v draws s (some hub) (some b) =
    let run =
      process_seller_inbox v draws (or_text b.receiver (some s.seller_id)) (number_or b.limit 10) s
        hub in
    (run.state, some run.hub, if run.stopped then crashed else reply 200 run.accepted)

-- The tasks of ids that have one.
unfoldable pub tasks_of : Dict Task → List String → List Task
tasks_of tasks [] = []
tasks_of tasks (id ∷ ids) =
    let rest = tasks_of tasks ids in elim (get tasks id) [ none ↦ rest | some t ↦ t ∷ rest ]

abbrev is_running : State → Task → Bool
is_running s t =
    (elim t.status [ running ↦ true | _ ↦ false ]) || includes s.active_task_ids t.task_id

pub record Overview : Type 0 where
  pub queued : List Task
  pub running : List Task

-- GET /controller/queue
unfoldable pub read_queue : State → Overview
unfolding tasks_of
read_queue s = record {
  queued = tasks_of s.tasks s.queue;
  running = filter_by (is_running s) (values s.tasks);
}

-- GET /controller/tasks/:id
unfoldable pub read_task : State → String → Reply Task
read_task s id = elim (get s.tasks id) [
  | none ↦ refuse 404 "TASK_NOT_FOUND" "task does not exist"
  | some t ↦ reply 200 t
]

-- What GET /controller/tasks/:id/result answers: a result only where there is one.
pub data Outcome : Type 0 where
  unavailable : TaskStatus → Outcome
  available : TaskStatus → Fields → Outcome

abbrev outcome_of : Task → Option Fields → Reply Outcome
outcome_of t none = reply 202 (unavailable t.status)
outcome_of t (some package_fields) = reply 200 (available t.status package_fields)

unfoldable pub read_result : State → String → Reply Outcome
read_result s id = elim (get s.tasks id) [
  | none ↦ refuse 404 "TASK_NOT_FOUND" "task does not exist"
  | some t ↦ outcome_of t t.result_package
]

abbrev replay_of : Option Fields → Reply Fields
replay_of none = refuse 409 "RESULT_NOT_READY" "task result is not yet available"
replay_of (some package_fields) = reply 200 package_fields

-- POST /controller/tasks/:id/replay
unfoldable pub replay_result : State → String → Reply Fields
replay_result s id = elim (get s.tasks id) [
  | none ↦ refuse 404 "TASK_NOT_FOUND" "task does not exist"
  | some t ↦ replay_of t.result_package
]

create_task-request :
    (uuid task_uuid : String) (now : ℕ) (s : State) (input : Input) (id : String)
    → input.envelope.request_id ≡ some id
    → (id == "") ≡ false
    → (create_task_record uuid task_uuid now s no_overrides input).request_id ≡ id
unfolding create_task_record
create_task-request uuid task_uuid now s input id there named =
    ap (λ o. text_or o uuid) there ∙ (rw named refl)

create_task-id :
    (d : Draw) (now : ℕ) (s : State) (input : Input)
    → (create_task_record d.request_uuid d.task_uuid now s no_overrides input).task_id
      ≡ text_or input.task_id d.task_uuid
unfolding create_task_record
create_task-id d now s input = refl

-- After a task was posted its request has one.
task_found-known :
    (workers now : ℕ) (t : Task) (s : State) (id : String) (o : Option Task)
    → get_task_by_request_id s (some t.request_id) ≡ o
    → t.request_id ≡ id
    → (t.task_id == "") ≡ false
    → (old : Task) × (get_task_by_request_id (task_found workers now t s o).0 (some id) ≡ some old)
unfolding task_found
task_found-known workers now t s id (some old) there same named =
    (old, ap (λ k. get_task_by_request_id s (some k)) (sym same) ∙ there)
task_found-known workers now t s id none there same named =
    let known = enqueue-Registered now (some workers) t s id same named in
    (known.task, Registered-found _ id known)

-- A task posted a second time, whatever else the body then says, is not made again: the state is
-- that after the first, and the answer is of the same request as the task that is there. It takes a
-- body that names its request both times, and a first task with an id.
pub post_task_twice :
    (workers workers' now now' : ℕ) (d d' : Draw) (s : State) (input input' : Input) (id : String)
    → input.envelope.request_id ≡ some id
    → input'.envelope.request_id ≡ some id
    → (id == "") ≡ false
    → (text_or input.task_id d.task_uuid == "") ≡ false
    → let first = (post_task workers d now s (some input)).0 in
      (t : Task) × (get_task_by_request_id first (some id) ≡ some t)
      × (post_task workers' d' now' first (some input') ≡ (first, known_task t))
unfolding post_task
post_task_twice workers workers' now now' d d' s input input' id there there' named task_named =
    let t = create_task_record d.request_uuid d.task_uuid now s no_overrides input in
    let first = (post_task workers d now s (some input)).0 in
    let t' = create_task_record d'.request_uuid d'.task_uuid now' first no_overrides input' in
    let same = create_task-request d.request_uuid d.task_uuid now s input id there named in
    let same' =
      create_task-request d'.request_uuid d'.task_uuid now' first input' id there' named in
    let (old, found) =
      task_found-known workers now t s id _ refl same
        (ap (λ x. x == "") (create_task-id d now s input) ∙ task_named) in
    (
      old,
      found,
      ap (λ k. task_found workers' now' t' first (get_task_by_request_id first (some k))) same'
          ∙ ap (task_found workers' now' t' first) found,
    )
