-- ===== src/Buyer/Events.antt =====
-- `applyPlatformEventsToRequest` and `syncBuyerRequestEvents`.
use remote_subagent_protocol.Prelude.{
  ℕ, String, ◌≡◌, arith, ap, sym, ◌∙◌, Bool, true, false, not, Option, none, some, List, ◌&&◌, ◌==◌,
  if◌then◌else◌, or_else, find_by, last?, is_some,
}
use remote_subagent_protocol.Contracts.{Status, acked, is_terminal}
use remote_subagent_protocol.Transport.Messages.{Event}
use remote_subagent_protocol.Buyer.Request.{Request, mark_updated}
use remote_subagent_protocol.Buyer.Client.{Client}

abbrev pub find_event : String → List Event → Option Event
find_event kind = find_by (λ e. e.event_type == kind)

abbrev pub is_acked : Status → Bool
is_acked acked = true
is_acked _ = false

-- `event?.finished_at || event?.at || null`
abbrev pub finished : Option Event → Option ℕ
finished none = none
finished (some e) = or_else e.finished_at e.at

acknowledge : ℕ → Option Event → Request → Request
unfolding mark_updated
acknowledge now none r = r
acknowledge now (some e) r =
    if not (is_terminal r.status) && not (is_acked r.status)
    then mark_updated now "ACKED" (record r {
      status = acked;
      last_error_code = none;
      acknowledged_at = e.at;
      ack_eta_hint_s = e.eta_hint_s;
    })
    else r

-- The request, and whether there is an event ACKED.
unfoldable pub apply_platform_events : ℕ → Request → List Event → Request × Bool
unfolding acknowledge
apply_platform_events now r events =
    let ack = find_event "ACKED" events in
    (
      acknowledge now ack (record r {
        platform_events = events;
        platform_last_event = last? events;
        platform_completed_at = finished (find_event "COMPLETED" events);
        platform_failed_at = finished (find_event "FAILED" events);
      }),
      is_some ack,
    )

apply_answer : ℕ → Request → Option (List Event) → Option (Request × Bool)
unfolding apply_platform_events
apply_answer now r none = none
apply_answer now r (some events) = some (apply_platform_events now r events)

-- `none` is the client's exception.
unfoldable pub sync_buyer_request_events : ℕ → Client → Request → Option (Request × Bool)
unfolding apply_answer
sync_buyer_request_events now client r = apply_answer now r (client.request_events r.request_id)

-- Events change neither the status nor the result of a request that has ended.
pub apply_platform_events-ended :
    (now : ℕ) (r : Request) (events : List Event)
    → is_terminal r.status ≡ true
    → ((apply_platform_events now r events).0.status ≡ r.status)
      × ((apply_platform_events now r events).0.result_package ≡ r.result_package)
unfolding apply_platform_events
apply_platform_events-ended now r events h = ground arith

apply_answer-ended :
    (now : ℕ) (r : Request) (answer : Option (List Event)) (synced : Request × Bool)
    → apply_answer now r answer ≡ some synced
    → is_terminal r.status ≡ true
    → (synced.0.status ≡ r.status) × (synced.0.result_package ≡ r.result_package)
unfolding apply_answer
apply_answer-ended now r none synced e h = cc
apply_answer-ended now r (some events) synced e h =
    let kept = apply_platform_events-ended now r events h in
    let same : apply_platform_events now r events ≡ synced = cc in
    (
      ap (λ (s : Request × Bool). s.0.status) (sym same) ∙ kept.0,
      ap (λ (s : Request × Bool). s.0.result_package) (sym same) ∙ kept.1,
    )

pub sync_buyer_request_events-ended :
    (now : ℕ) (client : Client) (r : Request) (synced : Request × Bool)
    → sync_buyer_request_events now client r ≡ some synced
    → is_terminal r.status ≡ true
    → (synced.0.status ≡ r.status) × (synced.0.result_package ≡ r.result_package)
sync_buyer_request_events-ended now client r synced e h =
    apply_answer-ended now r (client.request_events r.request_id) synced
      (unfold sync_buyer_request_events in e) h
