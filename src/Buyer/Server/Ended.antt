-- ===== src/Buyer/Server/Ended.antt =====
-- What the handlers have in common about requests that have ended.
use remote_subagent_protocol.Prelude.{
  ℕ, String, ◌≡◌, refl, Bool, true, false, Option, some, if◌then◌else◌, subst, Bool-cases, inl, inr,
}
use remote_subagent_protocol.Prelude.Dict.{Dict, get}
use remote_subagent_protocol.Contracts.{is_terminal}
use remote_subagent_protocol.Buyer.Request.{Config, Request}
use remote_subagent_protocol.Buyer.Client.{Client}
use remote_subagent_protocol.Buyer.Metrics.{
  Report, skipped, posted, threw, evaluate_timeouts_with_metrics,
  evaluate_timeouts_with_metrics-ended,
}
use remote_subagent_protocol.Buyer.Keeps.{Kept, Keeps, MayReplace, Keeps-put}
use remote_subagent_protocol.Buyer.Server.Reply.{State, Reply, Outcome, finish}

abbrev pub EndedKept : State → Outcome → Type 0
EndedKept s o = Keeps s.requests o.state.requests

pub finish-Keeps :
    (s : State) (k : String) (reported : Request × Report) (failure : Reply)
    (reply : Request → Reply)
    → MayReplace s.requests k reported.0
    → EndedKept s (finish s k reported failure reply)
unfolding finish
finish-Keeps s k (r, skipped) failure reply h = Keeps-put s.requests k r h
finish-Keeps s k (r, posted m) failure reply h = Keeps-put s.requests k r h
finish-Keeps s k (r, threw m) failure reply h = Keeps-put s.requests k r h

pub if-EndedKept :
    (s : State) (b : Bool) (x y : Outcome)
    → EndedKept s x
    → EndedKept s y
    → EndedKept s (if b then x else y)
if-EndedKept s true x y hx hy = hx
if-EndedKept s false x y hx hy = hy

-- A handler under its test: the branch for a request in progress may write what it likes.
pub if_ended-EndedKept :
    (s : State) (k : String) (r : Request) (x y : Outcome)
    → EndedKept s x
    → (is_terminal r.status ≡ false → EndedKept s y)
    → EndedKept s (if is_terminal r.status then x else y)
if_ended-EndedKept s k r x y hx hy = elim (Bool-cases (is_terminal r.status)) [
  | inl over ↦ rw over hx
  | inr live ↦ rw live (hy live)
]

-- What stands under a key is what a handler has found there.
pub found-MayReplace :
    (m : Dict Request) (k : String) (r r' : Request)
    → get m k ≡ some r
    → (is_terminal r.status ≡ true → Kept r r')
    → MayReplace m k r'
found-MayReplace m k r r' there h old found ended =
    let same : r ≡ old = cc in subst (λ o. Kept o r') same (h (rw same ended))

pub timeouts-Kept :
    (now : ℕ) (config : Config) (client : Option Client) (r : Request)
    → is_terminal r.status ≡ true
    → Kept r (evaluate_timeouts_with_metrics now config client r).0
timeouts-Kept now config client r ended =
    rw (evaluate_timeouts_with_metrics-ended now config client r ended)
      (record { status = refl; result_package = refl })
