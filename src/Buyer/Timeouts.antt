-- ===== src/Buyer/Timeouts.antt =====
-- `evaluateTimeouts` and the handler of a timeout decision.
pub mod Laws
use remote_subagent_protocol.Prelude.{
  ℕ, String, Bool, true, false, not, Option, none, some, ◌&&◌, ◌==◌, if◌then◌else◌, leb, nat_eq,
  is_some,
}
use remote_subagent_protocol.Contracts.{Status, sent, timed_out, is_terminal, is_active}
use remote_subagent_protocol.Buyer.Request.{
  Config, Request, Decision, pending, continue_wait, stop_wait, mark_updated,
}

-- What a change of status reports; a success has no code.
pub record Transition : Type 0 where
  pub status : Status
  pub event_type : String
  pub code : Option String

abbrev pub is_pending : Decision → Bool
is_pending pending = true
is_pending _ = false

abbrev pub is_continue_wait : Decision → Bool
is_continue_wait continue_wait = true
is_continue_wait _ = false

abbrev pub is_sent : Status → Bool
is_sent sent = true
is_sent _ = false

-- `deadline && now >= deadline`; the deadline is a number of milliseconds, and 0 is falsy
abbrev pub has_passed : ℕ → Option ℕ → Bool
has_passed now none = false
has_passed now (some t) = not (nat_eq t 0) && leb t now

time_out : ℕ → String → Request → Request × Option Transition
time_out now code r = (
  record r {
    status = timed_out;
    timed_out_at = some now;
    last_error_code = some code;
    needs_timeout_confirmation = false;
  },
  some (record { status = timed_out; event_type = "buyer.request.timed_out"; code = some code }),
)

ack_is_late : ℕ → Request → Bool
ack_is_late now r =
    is_sent r.status
    && has_passed now r.ack_deadline_at
    && not (is_some r.acknowledged_at)
    && not (is_continue_wait r.timeout_decision)

wants_confirmation : ℕ → Config → Request → Bool
wants_confirmation now config r =
    config.timeout_confirmation_mode == "ask_by_default"
    && leb r.soft_timeout_at now
    && is_pending r.timeout_decision

hard_timeout_is_due : ℕ → Config → Request → Bool
hard_timeout_is_due now config r =
    config.hard_timeout_auto_finalize
    && is_active r.status
    && leb r.hard_timeout_at now
    && not (is_continue_wait r.timeout_decision)

check_hard_timeout : ℕ → Config → Request → Request × Option Transition
unfolding hard_timeout_is_due time_out
check_hard_timeout now config r =
    if hard_timeout_is_due now config r then time_out now "EXEC_TIMEOUT_HARD" r else (r, none)

unfoldable pub evaluate_timeouts : ℕ → Config → Request → Request × Option Transition
unfolding ack_is_late wants_confirmation time_out check_hard_timeout
evaluate_timeouts now config r =
    if is_terminal r.status
    then (r, none)
    else if ack_is_late now r
    then time_out now "DELIVERY_OR_ACCEPTANCE_TIMEOUT" r
    else check_hard_timeout now config (
        if wants_confirmation now config r
        then record r { needs_timeout_confirmation = true }
        else r)

-- The change that POST /controller/requests/:id/timeout-decision makes.
unfoldable pub decide_timeout : ℕ → Bool → Request → Request
unfolding mark_updated
decide_timeout now continue r =
    let decided : Request = record r {
      timeout_decision = if continue then continue_wait else stop_wait;
      needs_timeout_confirmation = false;
    } in
    mark_updated now (if continue then "TIMEOUT_DECISION_CONTINUE" else "TIMEOUT_DECISION_STOP") (
      if not continue && not (is_terminal r.status)
      then record decided {
        status = timed_out;
        last_error_code = some "EXEC_TIMEOUT_MANUAL_STOP";
        timed_out_at = some now;
      }
      else decided)
