-- ===== src/Buyer/Timeouts/Laws.antt =====
-- When a request times out, and when it never does.
use remote_subagent_protocol.Prelude.{
  ℕ, ◌≡◌, ◌≢◌, ◌⊎◌, inl, inr, Bool, true, false, none, arith, ◌≤◌, ◌↔◌,
}
use remote_subagent_protocol.Contracts.{sent, timed_out, is_terminal, is_active}
use remote_subagent_protocol.Buyer.Request.{Config, Request, continue_wait}
use remote_subagent_protocol.Buyer.Timeouts.{evaluate_timeouts, decide_timeout, has_passed}

-- The deadlines that end a request: the acknowledgement's while the request is sent and not
-- acknowledged, and the hard timeout where the configuration finalises by itself.
abbrev pub IsOverdue : ℕ → Config → Request → Type 0
IsOverdue now config r =
    ((r.status ≡ sent) × (has_passed now r.ack_deadline_at ≡ true) × (r.acknowledged_at ≡ none))
    ⊎ ((config.hard_timeout_auto_finalize ≡ true) × (r.hard_timeout_at ≤ now))

IsOverdue-times_out :
    (now : ℕ) (config : Config) (r : Request)
    → is_terminal r.status ≡ false
    → r.timeout_decision ≢ continue_wait
    → IsOverdue now config r
    → (evaluate_timeouts now config r).0.status ≡ timed_out
unfolding evaluate_timeouts is_terminal is_active
IsOverdue-times_out now config r live impatient (inl late) = ground arith
IsOverdue-times_out now config r live impatient (inr exhausted) = ground arith

times_out-IsOverdue :
    (now : ℕ) (config : Config) (r : Request)
    → is_terminal r.status ≡ false
    → (evaluate_timeouts now config r).0.status ≡ timed_out
    → IsOverdue now config r
unfolding evaluate_timeouts is_terminal is_active
times_out-IsOverdue now config r live h = ground arith

-- A request in progress whose buyer has not chosen to wait on times out exactly when it is overdue.
pub times_out_iff :
    (now : ℕ) (config : Config) (r : Request)
    → is_terminal r.status ≡ false
    → r.timeout_decision ≢ continue_wait
    → ((evaluate_timeouts now config r).0.status ≡ timed_out) ↔ IsOverdue now config r
times_out_iff now config r live impatient =
    (times_out-IsOverdue now config r live, IsOverdue-times_out now config r live impatient)

pub evaluate_timeouts-terminal :
    (now : ℕ) (config : Config) (r : Request)
    → is_terminal r.status ≡ true
    → evaluate_timeouts now config r ≡ (r, none)
unfolding evaluate_timeouts
evaluate_timeouts-terminal now config r h = rw h

pub decide_timeout-terminal :
    (now : ℕ) (continue : Bool) (r : Request)
    → is_terminal r.status ≡ true
    → ((decide_timeout now continue r).status ≡ r.status)
      × ((decide_timeout now continue r).result_package ≡ r.result_package)
unfolding decide_timeout
decide_timeout-terminal now continue r h = ground arith
