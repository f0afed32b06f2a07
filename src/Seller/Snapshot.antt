-- ===== src/Seller/Snapshot.antt =====
-- `serializeSellerState` and `hydrateSellerState`: the seller's state over a restart. The signing
-- key is no part of a snapshot.
use remote_subagent_protocol.Prelude.{
  no_or, ℕ, ◌<◌, String, ◌≡◌, refl, sym, ap, ◌∙◌, false, Option, none, some, List, [], ◌∷◌, ◌==◌,
  arith, includes, max, number_or, length, ltb, Bool-cases, inl, inr,
}
use remote_subagent_protocol.Prelude.Dict.{Dict, get, get-put, put_cases}
use remote_subagent_protocol.Prelude.Snapshots.{restore, IsMap, restore-same}
use remote_subagent_protocol.Seller.Task.{Task, State}
use remote_subagent_protocol.Seller.Queue.{
  run_queue, start_if_known, start_task, schedule_process_queue,
}

pub record Snapshot : Type 0 where
  pub tasks : Dict Task
  pub request_index : Dict String
  pub queue : List String
  pub active_task_ids : List String
  pub worker_concurrency : ℕ
  pub seller_id : String
  pub subagent_ids : List String

unfoldable pub serialize_seller_state : State → Snapshot
serialize_seller_state s = record {
  tasks = s.tasks;
  request_index = s.request_index;
  queue = s.queue;
  active_task_ids = s.active_task_ids;
  worker_concurrency = s.worker_concurrency;
  seller_id = s.seller_id;
  subagent_ids = s.subagent_ids;
}

-- No task is active after a restart.
unfoldable pub hydrate_seller_state : State → Option Snapshot → State
hydrate_seller_state s none = s
hydrate_seller_state s (some snapshot) = record s {
  tasks = restore snapshot.tasks;
  request_index = restore snapshot.request_index;
  queue = snapshot.queue;
  active_task_ids = [];
  worker_concurrency =
      max 1
        (number_or (some snapshot.worker_concurrency) (number_or (some s.worker_concurrency) 1));
  seller_id = snapshot.seller_id;
  subagent_ids = snapshot.subagent_ids;
}

kept_workers : (n m : ℕ) → 0 < n → max 1 (number_or (some n) (number_or (some m) 1)) ≡ n
kept_workers n m positive = ground arith

pub restart_restores :
    (fresh s : State)
    → IsMap s.tasks
    → IsMap s.request_index
    → 0 < s.worker_concurrency
    → hydrate_seller_state fresh (some (serialize_seller_state s)) ≡ record s {
      active_task_ids = [];
      private_key = fresh.private_key;
      public_key_pem = fresh.public_key_pem;
    }
unfolding hydrate_seller_state serialize_seller_state
restart_restores fresh s tasks index positive =
    ap (λ m. back m (restore s.request_index) (workers s.worker_concurrency))
      (restore-same s.tasks tasks)
    ∙ ap (λ m. back s.tasks m (workers s.worker_concurrency)) (restore-same s.request_index index)
    ∙ ap (back s.tasks s.request_index)
        (kept_workers s.worker_concurrency fresh.worker_concurrency positive)
  where
    workers : ℕ → ℕ
    workers n = max 1 (number_or (some n) (number_or (some fresh.worker_concurrency) 1))

    back : Dict Task → Dict String → ℕ → State
    back tasks index workers = record s {
      tasks = tasks;
      request_index = index;
      active_task_ids = [];
      worker_concurrency = workers;
      private_key = fresh.private_key;
      public_key_pem = fresh.public_key_pem;
    }

-- Tasks stand under their own ids.
abbrev pub HasOwnIds : Dict Task → Type 0
HasOwnIds tasks = (k : String) (t : Task) → get tasks k ≡ some t → t.task_id ≡ k

start_task-HasOwnIds :
    (now : ℕ) (t : Task) (s : State) → HasOwnIds s.tasks → HasOwnIds (start_task now t s).tasks
unfolding start_task
start_task-HasOwnIds now t s h k u there = elim (put_cases s.tasks t.task_id k _ u there) [
  | inl (same, new) ↦ ap (λ x. x.task_id) (sym new) ∙ same
  | inr (_, old) ↦ h k u old
]

module _ (now : ℕ) (id : String) where
  start-HasOwnIds :
      (o : Option Task) (s : State) → HasOwnIds s.tasks → HasOwnIds (start_if_known now o s).tasks
  unfolding start_if_known
  start-HasOwnIds none s h = h
  start-HasOwnIds (some t) s h = start_task-HasOwnIds now t s h

  start-other :
      (k : String) (o : Option Task) (s : State)
      → get s.tasks k ≡ o
      → HasOwnIds s.tasks
      → (k == id) ≡ false
      → get (start_if_known now o s).tasks id ≡ get s.tasks id
  unfolding start_if_known start_task
  start-other k none s there h other = refl
  start-other k (some t) s there h other =
      get-put s.tasks t.task_id id _ ∙ (rw (h k t there, other) refl)

  -- The scheduler touches only what is queued.
  run_queue-other :
      (workers : ℕ) (q : List String) (s : State)
      → HasOwnIds s.tasks
      → includes q id ≡ false
      → get (run_queue now workers q s).tasks id ≡ get s.tasks id
  unfolding run_queue
  run_queue-other workers [] s h out = refl
  run_queue-other workers (k ∷ rest) s h out =
      let (other, out_of_rest) = no_or (k == id) (includes rest id) out in
      let next =
        run_queue-other workers rest (start_if_known now (get s.tasks k) s)
          (start-HasOwnIds (get s.tasks k) s h) out_of_rest
        ∙ start-other k (get s.tasks k) s refl h other in
      elim (Bool-cases (ltb (length s.active_task_ids) workers)) [
        | inl room ↦
            rw room (elim (Bool-cases (k == "")) [
              | inl empty ↦ rw empty refl
              | inr there ↦ rw there next
            ])
        | inr full ↦ rw full refl
      ]

-- A task that was running when the snapshot was taken, and so was not queued, is not taken up again
-- after the restart: it is active for nobody, and the scheduler leaves it as it is, whatever it
-- starts. It takes maps that are maps, tasks under their own ids and at least one worker.
pub restart_strands_running :
    (fresh s : State) (now : ℕ) (override : Option ℕ) (id : String)
    → IsMap s.tasks
    → IsMap s.request_index
    → 0 < s.worker_concurrency
    → HasOwnIds s.tasks
    → includes s.queue id ≡ false
    → let restarted = hydrate_seller_state fresh (some (serialize_seller_state s)) in
      (restarted.active_task_ids ≡ [])
      × (get (schedule_process_queue now override restarted).tasks id ≡ get s.tasks id)
unfolding schedule_process_queue
restart_strands_running fresh s now override id tasks index positive own out =
    let same = restart_restores fresh s tasks index positive in
    (
      ap (λ r. r.active_task_ids) same,
      ap (λ r. get (schedule_process_queue now override r).tasks id) same
          ∙ run_queue-other now id _ s.queue _ own out,
    )
