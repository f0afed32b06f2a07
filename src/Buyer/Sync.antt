-- ===== src/Buyer/Sync.antt =====
-- `syncBuyerActiveRequests`: the history of the active requests is fetched in batches, for each
-- client of its own; then every request's deadlines are looked at.
pub mod Laws
use remote_subagent_protocol.Prelude.{
  ℕ, zero, suc, ◌+◌, String, Bool, true, false, not, Option, none, some, List, [], ◌∷◌, ◌++◌, ◌&&◌,
  ◌||◌, ◌==◌, if◌then◌else◌, map, max, take, drop, length, find_by, is_some, or_default,
}
use remote_subagent_protocol.Prelude.Dict.{Dict, get, put}
use remote_subagent_protocol.Contracts.{is_active}
use remote_subagent_protocol.Transport.Messages.{Event}
use remote_subagent_protocol.Buyer.Request.{Config, Request}
use remote_subagent_protocol.Buyer.Timeouts.{Transition}
use remote_subagent_protocol.Buyer.Client.{Client, Metric, BatchItem}
use remote_subagent_protocol.Buyer.Events.{apply_platform_events, sync_buyer_request_events}
use remote_subagent_protocol.Buyer.Metrics.{
  Report, skipped, posted, threw, report_buyer_metric, evaluate_timeouts_with_metrics,
}

-- A request with its key in the map, by which the shared object is found when it has changed.
abbrev pub Entry : Type 0
Entry = String × Request

pub record Group : Type 0 where
  pub client : Client
  pub requests : List Entry

abbrev pub Groups : Type 0
Groups = Dict Group

-- `activeGroups.get(key) || {...}`, `push` and `set`
join : Client → Entry → Option Group → Group
join client entry none = record { client = client; requests = entry ∷ [] }
join client entry (some g) = record g { requests = g.requests ++ entry ∷ [] }

add_to_group : Option Client → Entry → Groups → Groups
unfolding join
add_to_group none entry groups = groups
add_to_group (some client) (k, r) groups =
    if is_active r.status
    then put groups client.key (join client (k, r) (get groups client.key))
    else groups

unfoldable pub active_groups : (Request → Option Client) → Dict Request → Groups → Groups
unfolding add_to_group
active_groups client_of [] groups = groups
active_groups client_of ((k, r) ∷ rest) groups =
    active_groups client_of rest (add_to_group (client_of r) (k, r) groups)

-- The slices of the loop `index += batchSize`. Each takes at least one, so as much fuel as there
-- are elements is enough.
unfoldable pub slices {ℓ} : {A : Type ℓ} → ℕ → ℕ → List A → List (List A)
slices fuel size [] = []
slices zero size (x ∷ xs) = []
slices (suc fuel) size (x ∷ xs) = take size (x ∷ xs) ∷ slices fuel size (drop size (x ∷ xs))

unfoldable pub batches {ℓ} : {A : Type ℓ} → ℕ → List A → List (List A)
unfolding slices
batches size xs = slices (length xs) size xs

pub record Run : Type 0 where
  pub requests : Dict Request
  pub metrics : List Metric
  pub mutated : Bool
  pub stopped : Bool

-- A request as it stands now.
abbrev pub current : Run → Entry → Request
current run (k, r) = or_default (get run.requests k) r

after_report : String → Request → Report → Run → Run
after_report k r skipped run = record run { requests = put run.requests k r; mutated = true }
after_report k r (posted m) run = record run {
  requests = put run.requests k r;
  metrics = run.metrics ++ m ∷ [];
  mutated = true;
}
after_report k r (threw m) run = record run { requests = put run.requests k r; stopped = true }

-- The events are applied, and an acknowledgement is reported.
store_synced : Client → String → Request × Bool → Run → Run
unfolding after_report
store_synced client k (r, false) run = after_report k r skipped run
store_synced client k (r, true) run =
    let (r', report) = report_buyer_metric (some client) "buyer.request.acked" none r in
    after_report k r' report run

-- One item of an answer; a later item with the same id takes an earlier one's place in the map.
find_item : List BatchItem → String → Option BatchItem
find_item [] id = none
find_item (i ∷ items) id =
    let later = find_item items id in
    if is_some later then later else if i.request_id == id then some i else none

is_found : BatchItem → Bool
is_found i = elim i.found [ some false ↦ false | _ ↦ true ]

module _ (client : Client) (now : ℕ) where
  sync_item : Entry → Option BatchItem → Run → Run
  unfolding store_synced is_found
  sync_item entry none run = run
  sync_item entry (some i) run =
      if is_found i
      then store_synced client entry.0 (apply_platform_events now (current run entry) i.events) run
      else run

  sync_batch : List BatchItem → List Entry → Run → Run
  unfolding sync_item find_item
  sync_batch items [] run = run
  sync_batch items (entry ∷ rest) run =
      let run' = sync_item entry (find_item items entry.1.request_id) run in
      sync_batch items rest (if run.stopped then run else run')

  -- The fallback: one call for each request, whose exception is ignored.
  resume : Run → Run
  resume run = record run { stopped = false }

  sync_answer : String → Option (Request × Bool) → Run → Run
  unfolding store_synced
  sync_answer k none run = run
  sync_answer k (some synced) run = store_synced client k synced run

  sync_each : List Entry → Run → Run
  unfolding resume sync_answer
  sync_each [] run = run
  sync_each (entry ∷ rest) run =
      sync_each rest (
        resume (sync_answer entry.0 (sync_buyer_request_events now client (current run entry)) run))

  -- An exception within the batch makes the fallback go over the whole batch.
  sync_or_each : List Entry → Option (List BatchItem) → Run → Run
  unfolding sync_each sync_batch
  sync_or_each batch none run = sync_each batch run
  sync_or_each batch (some items) run =
      let run' = sync_batch items batch run in
      if run'.stopped then sync_each batch (resume run') else run'

  sync_batches : List (List Entry) → Run → Run
  unfolding sync_or_each
  sync_batches [] run = run
  sync_batches (batch ∷ rest) run = sync_batches rest (
      sync_or_each batch (client.request_events_batch (map (λ entry. entry.1.request_id) batch))
        run)

sync_groups : ℕ → ℕ → Groups → Run → Run
unfolding sync_batches
sync_groups now size [] run = run
sync_groups now size ((k, g) ∷ groups) run =
    sync_groups now size groups (sync_batches g.client now (batches size g.requests) run)

-- The last loop: an exception ends the synchronisation.
after_timeouts : String → Request × Option Transition × Report → Run → Run
after_timeouts k (r, t, skipped) run = record run {
  requests = put run.requests k r;
  mutated = run.mutated || is_some t;
}
after_timeouts k (r, t, posted m) run = record run {
  requests = put run.requests k r;
  metrics = run.metrics ++ m ∷ [];
  mutated = run.mutated || is_some t;
}
after_timeouts k (r, t, threw m) run = record run {
  requests = put run.requests k r;
  stopped = true;
}

check_timeouts : ℕ → Config → (Request → Option Client) → Dict Request → Run → Run
unfolding after_timeouts
check_timeouts now config client_of [] run = run
check_timeouts now config client_of ((k, r) ∷ rest) run =
    let run' =
      after_timeouts k
        (evaluate_timeouts_with_metrics now config (client_of r) (current run (k, r))) run in
    check_timeouts now config client_of rest (if run.stopped then run else run')

-- `client_of` gives for a request the client that stands in the map of clients.
unfoldable pub sync_buyer_active_requests :
    ℕ → Config → (Request → Option Client) → Dict Request → Run
unfolding active_groups sync_groups check_timeouts
sync_buyer_active_requests now config client_of requests =
    check_timeouts now config client_of requests (
      sync_groups now (max 1 config.events_sync_batch_size) (active_groups client_of requests [])
        (record { requests = requests; metrics = []; mutated = false; stopped = false }))
