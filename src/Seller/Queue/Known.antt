-- ===== src/Seller/Queue/Known.antt =====
-- A request that has a task keeps having one while tasks are queued, started and updated.
use remote_subagent_protocol.Prelude.{
  ℕ, String, ◌≡◌, refl, false, Option, none, some, List, [], ◌∷◌, eq_refl, Bool-cases, inl, inr,
  ◌==◌, ltb, length,
}
use remote_subagent_protocol.Prelude.Dict.{get, put, get-put}
use remote_subagent_protocol.Seller.Task.{
  Task, State, remember_task, get_task_by_request_id, task_by_id,
}
use remote_subagent_protocol.Seller.Queue.{
  run_queue, start_if_known, start_task, schedule_process_queue, enqueue_task,
}

pub record Registered (s : State) (id : String) : Type 0 where
  pub task_id : String
  pub task : Task
  pub indexed : get s.request_index id ≡ some task_id
  pub named : (task_id == "") ≡ false
  pub found : get s.tasks task_id ≡ some task

pub Registered-found :
    (s : State) (id : String) (h : Registered s id)
    → get_task_by_request_id s (some id) ≡ some h.task
unfolding get_task_by_request_id task_by_id
Registered-found s id h = rw (h.indexed, h.named, h.found)

-- A write to the tasks.
put-Registered :
    (s s' : State) (id k : String) (t : Task)
    → Registered s id
    → s'.request_index ≡ s.request_index
    → s'.tasks ≡ put s.tasks k t
    → Registered s' id
put-Registered s s' id k t h index tasks = elim (Bool-cases (k == h.task_id)) [
  | inl same ↦ record {
    task_id = h.task_id;
    task = t;
    indexed = rw index h.indexed;
    named = h.named;
    found = rw tasks (rw (get-put s.tasks k h.task_id t, same));
  }
  | inr other ↦ record {
    task_id = h.task_id;
    task = h.task;
    indexed = rw index h.indexed;
    named = h.named;
    found = rw tasks (rw (get-put s.tasks k h.task_id t, other) h.found);
  }
]

pub store-Registered :
    (t : Task) (s : State) (id : String)
    → Registered s id
    → Registered (record s { tasks = put s.tasks t.task_id t }) id
store-Registered t s id h = put-Registered s _ id t.task_id t h refl refl

pub remember-Registered :
    (t : Task) (s : State) (id : String)
    → t.request_id ≡ id
    → (t.task_id == "") ≡ false
    → Registered (remember_task t s) id
unfolding remember_task
remember-Registered t s id same named = record {
  task_id = t.task_id;
  task = t;
  indexed = rw (get-put s.request_index t.request_id id t.task_id, same, eq_refl id);
  named = named;
  found = rw (get-put s.tasks t.task_id t.task_id t, eq_refl t.task_id);
}

start-Registered :
    (now : ℕ) (o : Option Task) (s : State) (id : String)
    → Registered s id
    → Registered (start_if_known now o s) id
unfolding start_if_known start_task
start-Registered now none s id h = h
start-Registered now (some t) s id h = put-Registered s _ id t.task_id _ h refl refl

-- The queue is not part of what is registered.
queue-Registered :
    (s : State) (q : List String) (id : String)
    → Registered s id
    → Registered (record s { queue = q }) id
queue-Registered s q id h = record {
  task_id = h.task_id;
  task = h.task;
  indexed = h.indexed;
  named = h.named;
  found = h.found;
}

run_queue-Registered :
    (now workers : ℕ) (q : List String) (s : State) (id : String)
    → Registered s id
    → Registered (run_queue now workers q s) id
unfolding run_queue
run_queue-Registered now workers [] s id h = queue-Registered s [] id h
run_queue-Registered now workers (k ∷ rest) s id h =
    let next =
      run_queue-Registered now workers rest (start_if_known now (get s.tasks k) s) id
        (start-Registered now (get s.tasks k) s id h) in
    elim (Bool-cases (ltb (length s.active_task_ids) workers)) [
      | inl room ↦ rw room (elim (Bool-cases (k == "")) [
        | inl empty ↦ rw empty (queue-Registered s rest id h)
        | inr there ↦ rw there next
      ])
      | inr full ↦ rw full (queue-Registered s (k ∷ rest) id h)
    ]

pub enqueue-Registered :
    (now : ℕ) (override : Option ℕ) (t : Task) (s : State) (id : String)
    → t.request_id ≡ id
    → (t.task_id == "") ≡ false
    → Registered (enqueue_task now override t s) id
unfolding enqueue_task schedule_process_queue
enqueue-Registered now override t s id same named =
    run_queue-Registered now _ _ _ id
      (queue-Registered (remember_task t s) _ id (remember-Registered t s id same named))
