-- ===== src/Seller/Queue.antt =====
-- The queue of tasks: `enqueueTask`'s sort, and the start of tasks by `scheduleProcessQueue`.
pub mod Order
pub mod Slots
pub mod Known
use remote_subagent_protocol.Prelude.{
  ℕ, ◌+◌, ◌*◌, String, Bool, true, false, not, Option, none, some, List, [], ◌∷◌, ◌++◌, ◌&&◌, ◌||◌,
  ◌==◌, if◌then◌else◌, ltb, nat_eq, max, number_or, length, filter_by,
}
use remote_subagent_protocol.Prelude.Dict.{Dict, get, put}
use remote_subagent_protocol.Seller.Task.{Task, State, running, remember_task}

-- The comparator puts `right` strictly before `left`; an unknown id equals everything.
unfoldable pub comes_before : Option Task → Option Task → Bool
comes_before (some a) (some b) =
    if nat_eq a.priority b.priority
    then ltb a.enqueued_at b.enqueued_at
    else ltb a.priority b.priority
comes_before _ _ = false

abbrev before : Dict Task → String → String → Bool
before tasks a b = comes_before (get tasks a) (get tasks b)

-- `Array.prototype.sort`, which is stable: an insertion that passes only what is strictly before.
insert_into : Dict Task → String → List String → List String
insert_into tasks x [] = x ∷ []
insert_into tasks x (y ∷ ys) =
    let rest = insert_into tasks x ys in if before tasks y x then y ∷ rest else x ∷ y ∷ ys

unfoldable pub sort_queue : Dict Task → List String → List String
unfolding insert_into comes_before
sort_queue tasks [] = []
sort_queue tasks (x ∷ xs) = insert_into tasks x (sort_queue tasks xs)

-- `Math.max(1, Number(override || state.workerConcurrency || 1))`
unfoldable pub worker_concurrency_for_state : State → Option ℕ → ℕ
worker_concurrency_for_state s override =
    max 1 (number_or override (number_or (some s.worker_concurrency) 1))

unfoldable pub start_task : ℕ → Task → State → State
start_task now t s = record s {
  tasks = put s.tasks t.task_id (record t {
    status = running;
    started_at = some now;
    updated_at = now;
    lease_expires_at = some (now + t.lease_ttl_s * 1000);
  });
  active_task_ids = s.active_task_ids ++ t.task_id ∷ [];
}

unfoldable pub start_if_known : ℕ → Option Task → State → State
unfolding start_task
start_if_known now none s = s
start_if_known now (some t) s = start_task now t s

-- The loop, over what is left of the queue. An empty id ends it, as an empty queue does.
unfoldable pub run_queue : ℕ → ℕ → List String → State → State
unfolding start_if_known
run_queue now workers [] s = record s { queue = [] }
run_queue now workers (id ∷ rest) s =
    let next = run_queue now workers rest (start_if_known now (get s.tasks id) s) in
    if not (ltb (length s.active_task_ids) workers)
    then record s { queue = id ∷ rest }
    else if id == ""
    then record s { queue = rest }
    else next

unfoldable pub schedule_process_queue : ℕ → Option ℕ → State → State
schedule_process_queue now override s =
    run_queue now (worker_concurrency_for_state s override) s.queue s

unfoldable pub enqueue_task : ℕ → Option ℕ → Task → State → State
enqueue_task now override t s =
    let known = remember_task t s in
    schedule_process_queue now override
      (record known { queue = sort_queue known.tasks (known.queue ++ t.task_id ∷ []) })
