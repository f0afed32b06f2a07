-- ===== src/Buyer/Sync/Laws.antt =====
-- The batches of a synchronisation hold every request once, in order; and a synchronisation, with
-- its fallbacks and its exceptions, keeps what has ended.
use mathlib.Core.List.{flatten}
use remote_subagent_protocol.Prelude.{
  ℕ, zero, suc, ◌≤◌, ◌<◌, String, ◌≡◌, refl, ap, ◌∙◌, Bool, true, false, Option, none, some, List,
  [], ◌∷◌, ◌++◌, arith, length, take, drop, length-drop, All, if◌then◌else◌,
}
use remote_subagent_protocol.Prelude.Dict.{Dict, get}
use remote_subagent_protocol.Contracts.{is_terminal}
use remote_subagent_protocol.Transport.Messages.{Event}
use remote_subagent_protocol.Buyer.Request.{Config, Request}
use remote_subagent_protocol.Buyer.Timeouts.{Transition}
use remote_subagent_protocol.Buyer.Client.{Client, BatchItem}
use remote_subagent_protocol.Buyer.Events.{
  apply_platform_events, apply_platform_events-ended, sync_buyer_request_events,
  sync_buyer_request_events-ended,
}
use remote_subagent_protocol.Buyer.Metrics.{
  Report, skipped, posted, threw, evaluate_timeouts_with_metrics,
  evaluate_timeouts_with_metrics-ended,
}
use remote_subagent_protocol.Buyer.Keeps.{
  KeptIn, MayReplace, Kept-report, Keeps, Keeps-refl, Keeps-trans, Keeps-put,
}
use remote_subagent_protocol.Buyer.Sync.{
  Entry, Run, slices, batches, current, after_report, store_synced, sync_item, sync_batch, resume,
  sync_answer, sync_each, sync_or_each, sync_batches, sync_groups, Groups, is_found, after_timeouts,
  check_timeouts, sync_buyer_active_requests, active_groups, find_item,
}

take-append-drop {ℓ} : {A : Type ℓ} (n : ℕ) (xs : List A) → take n xs ++ drop n xs ≡ xs
take-append-drop zero xs = refl
take-append-drop (suc n) [] = refl
take-append-drop (suc n) (x ∷ xs) = rw (take-append-drop n xs)

slices-flatten {ℓ} :
    {A : Type ℓ} (fuel size : ℕ) (xs : List A)
    → length xs ≤ fuel
    → flatten (slices fuel (suc size) xs) ≡ xs
unfolding slices flatten
slices-flatten zero size [] h = refl
slices-flatten (suc fuel) size [] h = refl
slices-flatten zero size (x ∷ xs) h = absurd (omega arith)
slices-flatten (suc fuel) size (x ∷ xs) h =
    ap (λ rest. x ∷ take size xs ++ rest)
      (slices-flatten fuel size (drop size xs) (omega (arith, length-drop size xs)))
    ∙ ap (◌∷◌ x) (take-append-drop size xs)

length-take-le {ℓ} : {A : Type ℓ} (n : ℕ) (xs : List A) → length (take n xs) ≤ n
length-take-le zero xs = omega arith
length-take-le (suc n) [] = omega arith
length-take-le (suc n) (x ∷ xs) = omega (arith, length-take-le n xs)

abbrev pub IsBatch {ℓ} : {A : Type ℓ} → ℕ → List A → Type 0
IsBatch size b = (1 ≤ length b) × (length b ≤ size)

slices-IsBatch {ℓ} :
    {A : Type ℓ} (fuel size : ℕ) (xs : List A)
    → All (IsBatch (suc size)) (slices fuel (suc size) xs)
unfolding slices
slices-IsBatch zero size [] = tt
slices-IsBatch (suc fuel) size [] = tt
slices-IsBatch zero size (x ∷ xs) = tt
slices-IsBatch (suc fuel) size (x ∷ xs) =
    ((omega arith, omega (arith, length-take-le size xs)), slices-IsBatch fuel size (drop size xs))

-- For a positive batch size, the batches put together are the list, so every request is asked for once and in order; no batch
-- is empty, and none holds more than the batch size.
pub batches_cover {ℓ} :
    {A : Type ℓ} (size : ℕ) (xs : List A)
    → 0 < size
    → (flatten (batches size xs) ≡ xs) × All (IsBatch size) (batches size xs)
unfolding batches
batches_cover zero xs h = absurd (omega arith)
batches_cover (suc size) xs h =
    (slices-flatten (length xs) size xs (omega arith), slices-IsBatch (length xs) size xs)

events-MayReplace :
    (now : ℕ) (run : Run) (entry : Entry) (events : List Event)
    → MayReplace run.requests entry.0 (apply_platform_events now (current run entry) events).0
events-MayReplace now run (k, r) events old found ended = rw found (
    let kept = apply_platform_events-ended now old events ended in
    record { status = kept.0; result_package = kept.1 })

after_report-Keeps :
    (k : String) (r' : Request) (report : Report) (run : Run)
    → MayReplace run.requests k r'
    → Keeps run.requests (after_report k r' report run).requests
unfolding after_report
after_report-Keeps k r' skipped run h = Keeps-put run.requests k r' h
after_report-Keeps k r' (posted m) run h = Keeps-put run.requests k r' h
after_report-Keeps k r' (threw m) run h = Keeps-put run.requests k r' h

store_synced-Keeps :
    (client : Client) (k : String) (synced : Request × Bool) (run : Run)
    → MayReplace run.requests k synced.0
    → Keeps run.requests (store_synced client k synced run).requests
unfolding store_synced
store_synced-Keeps client k (r, false) run h = after_report-Keeps k r skipped run h
store_synced-Keeps client k (r, true) run h =
    after_report-Keeps k _ _ run
      (λ old found ended. Kept-report (some client) _ none old r (h old found ended))

if-Keeps :
    (m : Dict Request) (b : Bool) (x y : Run)
    → Keeps m x.requests
    → Keeps m y.requests
    → Keeps m (if b then x else y).requests
if-Keeps m true x y hx hy = hx
if-Keeps m false x y hx hy = hy

module _ (client : Client) (now : ℕ) where
  sync_item-Keeps :
      (entry : Entry) (item : Option BatchItem) (run : Run)
      → Keeps run.requests (sync_item client now entry item run).requests
  unfolding sync_item
  sync_item-Keeps entry none run = Keeps-refl run.requests
  sync_item-Keeps entry (some i) run =
      if-Keeps run.requests (is_found i) _ run
        (store_synced-Keeps client entry.0 _ run (events-MayReplace now run entry i.events))
        (Keeps-refl run.requests)

  sync_batch-Keeps :
      (items : List BatchItem) (entries : List Entry) (run : Run)
      → Keeps run.requests (sync_batch client now items entries run).requests
  unfolding sync_batch
  sync_batch-Keeps items [] run = Keeps-refl run.requests
  sync_batch-Keeps items (entry ∷ rest) run =
      Keeps-trans run.requests _ _
        (if-Keeps run.requests run.stopped run _ (Keeps-refl run.requests)
          (sync_item-Keeps entry (find_item items entry.1.request_id) run))
        (sync_batch-Keeps items rest _)

  sync_answer-Keeps :
      (k : String) (answer : Option (Request × Bool)) (run : Run)
      → ((synced : Request × Bool) → answer ≡ some synced → MayReplace run.requests k synced.0)
      → Keeps run.requests (resume client now (sync_answer client now k answer run)).requests
  unfolding sync_answer resume
  sync_answer-Keeps k none run h = Keeps-refl run.requests
  sync_answer-Keeps k (some synced) run h = store_synced-Keeps client k synced run (h synced refl)

  answer-MayReplace :
      (run : Run) (entry : Entry) (synced : Request × Bool)
      → sync_buyer_request_events now client (current run entry) ≡ some synced
      → MayReplace run.requests entry.0 synced.0
  answer-MayReplace run (k, r) synced e old found ended =
      let kept = sync_buyer_request_events-ended now client old synced (rw found at e) ended in
      record { status = kept.0; result_package = kept.1 }

  sync_each-Keeps :
      (entries : List Entry) (run : Run)
      → Keeps run.requests (sync_each client now entries run).requests
  unfolding sync_each
  sync_each-Keeps [] run = Keeps-refl run.requests
  sync_each-Keeps (entry ∷ rest) run =
      Keeps-trans run.requests _ _ (sync_answer-Keeps entry.0 _ run (answer-MayReplace run entry))
        (sync_each-Keeps rest _)

  sync_or_each-Keeps :
      (batch : List Entry) (answer : Option (List BatchItem)) (run : Run)
      → Keeps run.requests (sync_or_each client now batch answer run).requests
  unfolding sync_or_each
  sync_or_each-Keeps batch none run = sync_each-Keeps batch run
  sync_or_each-Keeps batch (some items) run =
      let first = sync_batch-Keeps items batch run in
      if-Keeps run.requests (sync_batch client now items batch run).stopped _ _
        (Keeps-trans run.requests _ _ (unfold resume in first) (sync_each-Keeps batch _)) first

  sync_batches-Keeps :
      (bs : List (List Entry)) (run : Run)
      → Keeps run.requests (sync_batches client now bs run).requests
  unfolding sync_batches
  sync_batches-Keeps [] run = Keeps-refl run.requests
  sync_batches-Keeps (b ∷ bs) run =
      Keeps-trans run.requests _ _ (sync_or_each-Keeps b _ run) (sync_batches-Keeps bs _)

sync_groups-Keeps :
    (now size : ℕ) (groups : Groups) (run : Run)
    → Keeps run.requests (sync_groups now size groups run).requests
unfolding sync_groups
sync_groups-Keeps now size [] run = Keeps-refl run.requests
sync_groups-Keeps now size ((k, g) ∷ groups) run =
    Keeps-trans run.requests _ _ (sync_batches-Keeps g.client now (batches size g.requests) run)
      (sync_groups-Keeps now size groups _)

after_timeouts-Keeps :
    (k : String) (checked : Request × Option Transition × Report) (run : Run)
    → MayReplace run.requests k checked.0
    → Keeps run.requests (after_timeouts k checked run).requests
unfolding after_timeouts
after_timeouts-Keeps k (r, t, skipped) run h = Keeps-put run.requests k r h
after_timeouts-Keeps k (r, t, posted m) run h = Keeps-put run.requests k r h
after_timeouts-Keeps k (r, t, threw m) run h = Keeps-put run.requests k r h

timeouts-MayReplace :
    (now : ℕ) (config : Config) (client : Option Client) (run : Run) (entry : Entry)
    → MayReplace run.requests entry.0
        (evaluate_timeouts_with_metrics now config client (current run entry)).0
timeouts-MayReplace now config client run (k, r) old found ended =
    rw (found, evaluate_timeouts_with_metrics-ended now config client old ended)
      (record { status = refl; result_package = refl })

check_timeouts-Keeps :
    (now : ℕ) (config : Config) (client_of : Request → Option Client) (entries : Dict Request)
    (run : Run)
    → Keeps run.requests (check_timeouts now config client_of entries run).requests
unfolding check_timeouts
check_timeouts-Keeps now config client_of [] run = Keeps-refl run.requests
check_timeouts-Keeps now config client_of ((k, r) ∷ rest) run =
    Keeps-trans run.requests _ _
      (if-Keeps run.requests run.stopped run _ (Keeps-refl run.requests)
        (after_timeouts-Keeps k _ run (timeouts-MayReplace now config (client_of r) run (k, r))))
      (check_timeouts-Keeps now config client_of rest _)

sync-Keeps :
    (now : ℕ) (config : Config) (client_of : Request → Option Client) (requests : Dict Request)
    → Keeps requests (sync_buyer_active_requests now config client_of requests).requests
unfolding sync_buyer_active_requests
sync-Keeps now config client_of requests =
    Keeps-trans requests _ _ (sync_groups-Keeps now _ (active_groups client_of requests []) _)
      (check_timeouts-Keeps now config client_of requests _)

-- A synchronisation never changes the status or the result of a request that has ended, whatever
-- the platform answers and whichever of its calls fail, and drops no such request.
pub sync_keeps_ended :
    (now : ℕ) (config : Config) (client_of : Request → Option Client) (requests : Dict Request)
    (id : String) (r : Request)
    → get requests id ≡ some r
    → is_terminal r.status ≡ true
    → KeptIn (sync_buyer_active_requests now config client_of requests).requests id r
sync_keeps_ended now config client_of requests id r there ended =
    sync-Keeps now config client_of requests id r there ended
