-- ===== src/Tests/Seller.antt =====
-- The laws of the seller, and of seller and buyer together, at a concrete task.
use remote_subagent_protocol.Prelude.{
  sym, ◌≤◌, String, ◌≡◌, refl, ap, ◌∙◌, ◌⊎◌, Bool, true, false, none, some, [], ◌∷◌, ◌==◌, arith,
  map, eq_refl, eq_iff, Bool-cases, inl, inr,
}
use remote_subagent_protocol.Prelude.Dict.{Dict, get, get-empty, put, put_cases}
use remote_subagent_protocol.Seller.Snapshot.{
  hydrate_seller_state, serialize_seller_state, HasOwnIds, restart_strands_running,
}
use remote_subagent_protocol.Seller.Server.{post_task, known_task, post_task_twice}
use remote_subagent_protocol.Json.{Json}
use remote_subagent_protocol.Contracts.{succeeded}
use remote_subagent_protocol.Contracts.Signing.{KeyPair}
use remote_subagent_protocol.Buyer.Result.{apply_result_package}
use remote_subagent_protocol.Seller.Task
use remote_subagent_protocol.Seller.Task.{Task, running, Input, get_task_by_request_id}
use remote_subagent_protocol.Seller.Artifacts.{materialize_artifacts, materialize_one, total_bytes}
use remote_subagent_protocol.Seller.Finalize.{
  attachment_of, complete_task, package_of, result_envelope,
}
use remote_subagent_protocol.Seller.Platform.{Platform, active}
use remote_subagent_protocol.Seller.Queue.{schedule_process_queue, worker_concurrency_for_state}
use remote_subagent_protocol.Seller.Queue.Slots
use remote_subagent_protocol.Seller.Queue.Slots.{schedule_fills_workers}
use remote_subagent_protocol.Seller.Inbox.{Seller, Draw, Run, receive}
use remote_subagent_protocol.Seller.Inbox.Laws.{repeat_keeps_state}
use remote_subagent_protocol.Transport.Messages.{Envelope}
use remote_subagent_protocol.Seller.Run.{Worker}
use remote_subagent_protocol.Protocol.RoundTrip.{signed_result_succeeds}
use remote_subagent_protocol.Tests.Data.{
  crypto, new_request, envelope, signature, seller_state, task, execution,
}

abbrev platform : Platform
platform = record {
  post_metric = λ m. true;
  introspect_task_token = λ t. some active;
  ack_platform = λ t. some true;
}

abbrev seller : Seller
seller = record {
  crypto = crypto;
  parse_url = λ t. none;
  receiver = "s1";
  platform = platform;
  guardrails = record { max_hard_timeout_s = none; allowed_task_types = none };
  executor_types = none;
  now = 10;
}

abbrev draw : Draw
draw = record { request_uuid = "u1"; task_uuid = "task1"; message_uuid = "u2" }

abbrev start : Run
start = record { state = seller_state; hub = []; accepted = []; metrics = []; stopped = false }

repeat_keeps_state_example :
    (receive seller draw envelope (receive seller draw envelope start)).state
    ≡ (receive seller draw envelope start).state
repeat_keeps_state_example =
    repeat_keeps_state seller seller draw draw envelope "r1" start refl refl refl

abbrev urgent : Task
urgent = record task { task_id = "task2"; priority = 1 }

abbrev tasks : Dict Task
tasks = ("task1", task) ∷ ("task2", urgent) ∷ ("task3", record task { task_id = "task3" }) ∷ []

abbrev busy : Task.State
busy = record seller_state { tasks = tasks; queue = "task2" ∷ "task1" ∷ [] }

schedule_fills_workers_example :
    (Slots.active (schedule_process_queue 10 (some 1) busy)
      ≤ worker_concurrency_for_state busy (some 1))
    × (((schedule_process_queue 10 (some 1) busy).queue ≡ [])
        ⊎ (worker_concurrency_for_state busy (some 1)
            ≤ Slots.active (schedule_process_queue 10 (some 1) busy)))
unfolding worker_concurrency_for_state
schedule_fills_workers_example =
    schedule_fills_workers 10 (some 1) busy (omega arith) (refl, (refl, tt))

abbrev is_signed : String → Bool
is_signed String.[] = false
is_signed (String.◌∷◌ c s) = true

key-KeyPair : KeyPair crypto "key" "key"
key-KeyPair m = rw (eq_refl (signature "key" m))

signature_there : (m : String) → (signature "key" m == "") ≡ false
signature_there m = elim (Bool-cases (signature "key" m == "")) [
  | inl empty ↦
      let none_there = (eq_iff (signature "key" m) "").0 empty in empty ∙ ap is_signed none_there
  | inr other ↦ other
]

signed_result_succeeds_example :
    (apply_result_package crypto 50 new_request
      (package_of (complete_task crypto 1000 40 seller_state (some execution) task))
      (map attachment_of
        (complete_task crypto 1000 40 seller_state
          (some execution)
          task).execution_artifacts)).0.status
    ≡ succeeded
unfolding materialize_artifacts materialize_one total_bytes
signed_result_succeeds_example =
    signed_result_succeeds crypto 1000 40 50 seller_state execution task new_request refl refl
      (omega arith) (tt, ((refl, tt), tt)) key-KeyPair signature_there
      (record {
        request_id = refl;
        seller_id = refl;
        subagent_id = refl;
        verification = refl;
        signer = refl;
        signer_there = refl;
      })

-- A platform whose answer to a metric does not come through.
abbrev worker : Worker
worker = record {
  crypto = crypto;
  platform = record platform { post_metric = λ m. false };
  limit = 1000;
  message_uuid = "u3";
  second_uuid = "u4";
  failure = "fetch failed";
  now = 40;
}

abbrev addressed : Task
addressed = record task { reply_to = some "buyer-controller" }

-- The first of the two messages.
abbrev first_result : Envelope
first_result =
    result_envelope crypto "u3" 40 seller_state
      (complete_task crypto 1000 40 seller_state (some execution) addressed) "buyer-controller"
      (package_of (complete_task crypto 1000 40 seller_state (some execution) addressed))

abbrev going : Task
going = record task { status = running }

abbrev waiting : Task
waiting = record task { task_id = "task2"; request_id = "r2" }

-- A state with a task that runs and one that waits.
abbrev before_restart : Task.State
before_restart = record seller_state {
  tasks = ("task1", going) ∷ ("task2", waiting) ∷ [];
  request_index = ("r1", "task1") ∷ ("r2", "task2") ∷ [];
  queue = "task2" ∷ [];
  active_task_ids = "task1" ∷ [];
}

own_ids : HasOwnIds before_restart.tasks
unfolding put
own_ids k t there = elim (put_cases (("task1", going) ∷ []) "task2" k waiting t there) [
  | inl (same, new) ↦ ap (λ x. x.task_id) (sym new) ∙ same
  | inr (_, first) ↦ elim (put_cases [] "task1" k going t first) [
    | inl (same, new) ↦ ap (λ x. x.task_id) (sym new) ∙ same
    | inr (_, nowhere) ↦ absurd (cc (nowhere, get-empty k))
  ]
]

restart_strands_running_example :
    let restarted =
      hydrate_seller_state seller_state (some (serialize_seller_state before_restart)) in
    (restarted.active_task_ids ≡ [])
    × (get (schedule_process_queue 20 none restarted).tasks "task1"
        ≡ get before_restart.tasks "task1")
unfolding get
restart_strands_running_example =
    restart_strands_running seller_state before_restart 20 none "task1" (refl, (refl, tt))
      (refl, (refl, tt)) (omega arith) own_ids refl

abbrev input : Input
input = record { envelope = envelope; task_id = none; return_route = none; reply_to = none }

post_task_twice_example :
    let first = (post_task 1 draw 10 seller_state (some input)).0 in
    (t : Task) × (get_task_by_request_id first (some "r1") ≡ some t)
    × (post_task 2 draw 20 first (some input) ≡ (first, known_task t))
post_task_twice_example =
    post_task_twice 1 2 10 20 draw draw seller_state input input "r1" refl refl refl refl
