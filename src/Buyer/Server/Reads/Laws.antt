-- ===== src/Buyer/Server/Reads/Laws.antt =====
-- Reading keeps what has ended.
use remote_subagent_protocol.Prelude.{
  String, ◌≡◌, refl, Bool, true, false, Option, none, some, [], ◌∷◌, if◌then◌else◌,
}
use remote_subagent_protocol.Prelude.Dict.{Dict, get}
use remote_subagent_protocol.Buyer.Request.{Request}
use remote_subagent_protocol.Buyer.Timeouts.{Transition}
use remote_subagent_protocol.Buyer.Metrics.{Report, skipped, posted, threw}
use remote_subagent_protocol.Buyer.Keeps.{Keeps, MayReplace, Keeps-refl, Keeps-trans, Keeps-put}
use remote_subagent_protocol.Buyer.Server.Reply.{Server, State}
use remote_subagent_protocol.Buyer.Server.Ended.{
  EndedKept, if-EndedKept, found-MayReplace, timeouts-Kept,
}
use remote_subagent_protocol.Buyer.Server.Reads.{
  list_requests, read_request, read_result, read_found, read_checked, result_found, sweep,
  sweep_one, Sweep,
}

read_checked-EndedKept :
    (s : State) (k : String) (checked : Request × Option Transition × Report)
    → MayReplace s.requests k checked.0
    → EndedKept s (read_checked s k checked)
unfolding read_checked
read_checked-EndedKept s k (r, t, skipped) h = Keeps-put s.requests k r h
read_checked-EndedKept s k (r, t, posted m) h = Keeps-put s.requests k r h
read_checked-EndedKept s k (r, t, threw m) h = Keeps-put s.requests k r h

read_found-EndedKept :
    (v : Server) (s : State) (k : String) (o : Option Request)
    → get s.requests k ≡ o
    → EndedKept s (read_found v s k o)
unfolding read_found
read_found-EndedKept v s k none e = Keeps-refl s.requests
read_found-EndedKept v s k (some r) e =
    read_checked-EndedKept s k _
      (found-MayReplace s.requests k r _ e (timeouts-Kept v.now v.config v.client r))

pub read_request-EndedKept :
    (v : Server) (s : State) (k : String) → EndedKept s (read_request v s k)
unfolding read_request
read_request-EndedKept v s k = read_found-EndedKept v s k (get s.requests k) refl

result_found-EndedKept : (s : State) (o : Option Request) → EndedKept s (result_found s o)
unfolding result_found
result_found-EndedKept s none = Keeps-refl s.requests
result_found-EndedKept s (some r) =
    if-EndedKept s _ _ _ (Keeps-refl s.requests) (Keeps-refl s.requests)

pub read_result-EndedKept : (s : State) (k : String) → EndedKept s (read_result s k)
unfolding read_result
read_result-EndedKept s k = result_found-EndedKept s (get s.requests k)

sweep_one-Keeps :
    (k : String) (checked : Request × Option Transition × Report) (w : Sweep)
    → MayReplace w.state.requests k checked.0
    → Keeps w.state.requests (sweep_one k checked w).state.requests
unfolding sweep_one
sweep_one-Keeps k (r, t, skipped) w h = Keeps-put w.state.requests k r h
sweep_one-Keeps k (r, t, posted m) w h = Keeps-put w.state.requests k r h
sweep_one-Keeps k (r, t, threw m) w h = Keeps-put w.state.requests k r h

if-Keeps :
    (m : Dict Request) (b : Bool) (x y : Sweep)
    → Keeps m x.state.requests
    → Keeps m y.state.requests
    → Keeps m (if b then x else y).state.requests
if-Keeps m true x y hx hy = hx
if-Keeps m false x y hx hy = hy

sweep-Keeps :
    (v : Server) (entries : Dict Request) (w : Sweep)
    → Keeps w.state.requests (sweep v entries w).state.requests
unfolding sweep
sweep-Keeps v [] w = Keeps-refl w.state.requests
sweep-Keeps v ((k, r) ∷ rest) w =
    Keeps-trans w.state.requests _ _
      (if-Keeps w.state.requests w.stopped w _ (Keeps-refl w.state.requests) (
        sweep_one-Keeps k _ w
          (λ old found ended. rw found (timeouts-Kept v.now v.config v.client old ended))))
      (sweep-Keeps v rest _)

pub list_requests-EndedKept : (v : Server) (s : State) → EndedKept s (list_requests v s)
unfolding list_requests
list_requests-EndedKept v s = sweep-Keeps v s.requests _
