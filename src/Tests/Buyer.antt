-- ===== src/Tests/Buyer.antt =====
-- The buyer's laws at concrete requests.
use remote_subagent_protocol.Prelude.{
  ℕ, String, ◌≡◌, ◌≢◌, refl, ◌↔◌, true, false, none, some, List, [], ◌∷◌, eq_iff, arith, All,
}
use mathlib.Core.List.{flatten}
use remote_subagent_protocol.Prelude.Dict.{get}
use remote_subagent_protocol.Json
use remote_subagent_protocol.Json.{Json, Fields, end, field}
use remote_subagent_protocol.Contracts.{timed_out, sent, succeeded, is_terminal, is_active}
use remote_subagent_protocol.Contracts.Canonical.{
  canonicalize, pick_keys, keep_present, signed_keys, AgreeOn,
}
use remote_subagent_protocol.Contracts.Laws.{canonicalize_iff}
use remote_subagent_protocol.Buyer.Request.{Request, pending, continue_wait}
use remote_subagent_protocol.Buyer.Keeps.{KeptIn}
use remote_subagent_protocol.Buyer.Result.{
  apply_result_package, result_context_matches_request, verify_artifact_bindings,
  version_is_supported, verify_result_signature, verifies, bound_or_none, is_empty,
}
use remote_subagent_protocol.Buyer.Result.Laws.{
  Passes, succeeds_iff, success_is_signed, Unforgeable,
}
use remote_subagent_protocol.Buyer.Timeouts.{evaluate_timeouts}
use remote_subagent_protocol.Buyer.Timeouts.Laws.{IsOverdue, times_out_iff}
use remote_subagent_protocol.Buyer.Metrics.{metric_of}
use remote_subagent_protocol.Buyer.Inbox.{poll_buyer_inbox}
use remote_subagent_protocol.Buyer.Inbox.Laws.{poll_keeps_ended}
use remote_subagent_protocol.Buyer.Sync.{batches, sync_buyer_active_requests}
use remote_subagent_protocol.Buyer.Sync.Laws.{IsBatch, batches_cover, sync_keeps_ended}
use remote_subagent_protocol.Buyer.Server.Reply.{Server}
use remote_subagent_protocol.Buyer.Server.Handle.{Call, acks, decides, posts_result, pulls}
use remote_subagent_protocol.Buyer.Server.History.{run, run_keeps_ended}
use remote_subagent_protocol.Buyer.Server.Writes.{decide}
use remote_subagent_protocol.Buyer.Server.Writes.Laws.{stop_reports_ended_as_timed_out}
use remote_subagent_protocol.Tests.Data.{
  crypto, one_signature, config, new_request, ended, ok_package, signed_package, client, server,
  buyer_state,
}

abbrev calls : List (Server × Call)
calls =
    (server, acks "r1")
    ∷ (server, decides "r1" (some false))
    ∷ (server, posts_result "r1" (some ok_package))
    ∷ (server, pulls (some none))
    ∷ []

run_keeps_ended_example : KeptIn (run buyer_state calls).requests "r1" ended
unfolding get is_terminal is_active
run_keeps_ended_example =
    run_keeps_ended buyer_state calls "r1" ended (tt, (tt, (tt, (tt, tt)))) refl refl

succeeds_iff_example :
    ((apply_result_package crypto 5 new_request ok_package []).0.status ≡ succeeded)
    ↔ Passes crypto new_request ok_package []
succeeds_iff_example = succeeds_iff crypto 5 new_request ok_package []

abbrev IsFirst : Fields → Type 0
IsFirst q = Json.get q "request_id" ≡ some (Json.str "r1")

named_first : (m s : String) → one_signature.verify "key" m s ≡ some true → m ≡ "r1"
named_first m s h = ground (arith, eq_iff m "r1")

one_signature-Unforgeable : Unforgeable one_signature "key" IsFirst
unfolding canonicalize keep_present pick_keys Json.get
one_signature-Unforgeable m s h = (field "request_id" (Json.str "r1") end, refl, named_first m s h)

signed_succeeds :
    (apply_result_package one_signature 5 new_request signed_package []).0.status ≡ succeeded
unfolding apply_result_package result_context_matches_request version_is_supported
    verify_result_signature verifies verify_artifact_bindings bound_or_none is_empty canonicalize
    pick_keys keep_present Json.get Json.member
signed_succeeds = refl

success_is_signed_example :
    (q : Fields) × IsFirst q
    × (one_signature.encode (canonicalize signed_package) ≡ one_signature.encode (canonicalize q))
unfolding Json.get
success_is_signed_example =
    success_is_signed one_signature 5 new_request signed_package [] "key" IsFirst refl refl
      one_signature-Unforgeable signed_succeeds

abbrev late : Request
late = record new_request { status = sent; ack_deadline_at = some 120000 }

pending_ne_continue_wait : pending ≢ continue_wait
pending_ne_continue_wait e = cc

times_out_iff_example :
    ((evaluate_timeouts 130000 config late).0.status ≡ timed_out) ↔ IsOverdue 130000 config late
unfolding is_terminal is_active
times_out_iff_example =
    times_out_iff 130000 config late refl (λ e. absurd (pending_ne_continue_wait e))

poll_keeps_ended_example :
    get
      (poll_buyer_inbox crypto
        (λ t. none)
        (λ r. some client)
        "buyer-controller"
        5
        buyer_state.requests
        buyer_state.hub).requests
      "r1"
    ≡ some ended
unfolding get is_terminal is_active
poll_keeps_ended_example =
    poll_keeps_ended crypto (λ t. none) (λ r. some client) "buyer-controller" 5 "r1" ended refl
      buyer_state.requests buyer_state.hub refl

sync_keeps_ended_example :
    KeptIn
      (sync_buyer_active_requests 5 config
        (λ r. some client)
        (("r2", late) ∷ buyer_state.requests)).requests
      "r1"
      ended
unfolding get is_terminal is_active
sync_keeps_ended_example =
    sync_keeps_ended 5 config (λ r. some client) (("r2", late) ∷ buyer_state.requests) "r1" ended
      refl refl

abbrev five : List ℕ
five = 1 ∷ 2 ∷ 3 ∷ 4 ∷ 5 ∷ []

batches_cover_example : (flatten (batches 2 five) ≡ five) × All (IsBatch 2) (batches 2 five)
batches_cover_example = batches_cover 2 five (omega arith)

stop_reports_ended_as_timed_out_example :
    (decide server buyer_state "r1" (some false)).metrics
    ≡ metric_of ended "buyer.request.timed_out" none ∷ []
unfolding get is_terminal is_active
stop_reports_ended_as_timed_out_example =
    stop_reports_ended_as_timed_out server buyer_state "r1" client ended refl refl refl refl refl

abbrev reordered : Fields
reordered = field "status" (Json.str "ok") (field "request_id" (Json.str "r1") end)

canonicalize_iff_example :
    (canonicalize ok_package ≡ canonicalize reordered) ↔ AgreeOn signed_keys ok_package reordered
canonicalize_iff_example = canonicalize_iff ok_package reordered
