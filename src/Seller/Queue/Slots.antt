-- ===== src/Seller/Queue/Slots.antt =====
-- The scheduler starts no more tasks than there are workers, and leaves no worker idle while a task
-- waits.
use remote_subagent_protocol.Prelude.{
  ℕ, ◌≤◌, suc, String, ◌≡◌, refl, ◌⊎◌, inl, inr, false, Option, none, some, List, [], ◌∷◌, arith,
  Bool-cases, ltb, length, length-append, All, ◌==◌,
}
use remote_subagent_protocol.Prelude.Dict.{get}
use remote_subagent_protocol.Seller.Task.{Task, State}
use remote_subagent_protocol.Seller.Queue.{
  run_queue, start_if_known, start_task, schedule_process_queue, worker_concurrency_for_state,
}

abbrev pub active : State → ℕ
active s = length s.active_task_ids

start-active :
    (now : ℕ) (t : Option Task) (s : State) → active (start_if_known now t s) ≤ suc (active s)
unfolding start_if_known start_task
start-active now none s = omega arith
start-active now (some t) s = omega (arith, length-append {0} s.active_task_ids (t.task_id ∷ []))

run_queue-within :
    (now workers : ℕ) (q : List String) (s : State)
    → active s ≤ workers
    → active (run_queue now workers q s) ≤ workers
unfolding run_queue
run_queue-within now workers [] s h = h
run_queue-within now workers (id ∷ rest) s h = elim (Bool-cases (ltb (active s) workers)) [
  | inl room ↦ rw room (elim (Bool-cases (id == "")) [
    | inl empty ↦ rw empty h
    | inr there ↦ rw there (
        run_queue-within now workers rest (start_if_known now (get s.tasks id) s)
          (ground (arith, start-active now (get s.tasks id) s)))
  ])
  | inr full ↦ rw full h
]

run_queue-busy :
    (now workers : ℕ) (q : List String) (s : State)
    → All (λ id. (id == "") ≡ false) q
    → ((run_queue now workers q s).queue ≡ []) ⊎ (workers ≤ active (run_queue now workers q s))
unfolding run_queue
run_queue-busy now workers [] s h = inl refl
run_queue-busy now workers (id ∷ rest) s h = elim (Bool-cases (ltb (active s) workers)) [
  | inl room ↦
      rw (room, h.0) (run_queue-busy now workers rest (start_if_known now (get s.tasks id) s) h.1)
  | inr full ↦ rw full (inr (ground arith))
]

workers-positive : (s : State) (override : Option ℕ) → 1 ≤ worker_concurrency_for_state s override
unfolding worker_concurrency_for_state
workers-positive s override = omega arith

-- Where no more tasks run than there are workers, and no id in the queue is empty, the scheduler
-- keeps the number of tasks that run within the number of workers, and stops only when nothing
-- waits or every worker has a task.
pub schedule_fills_workers :
    (now : ℕ) (override : Option ℕ) (s : State)
    → active s ≤ worker_concurrency_for_state s override
    → All (λ id. (id == "") ≡ false) s.queue
    → let s' = schedule_process_queue now override s in
      (active s' ≤ worker_concurrency_for_state s override)
      × ((s'.queue ≡ []) ⊎ (worker_concurrency_for_state s override ≤ active s'))
unfolding schedule_process_queue
schedule_fills_workers now override s h ids =
    (run_queue-within now _ s.queue s h, run_queue-busy now _ s.queue s ids)
