-- ===== src/Buyer/Server/History.antt =====
-- Histories of calls, each with what the server is given at its time.
use remote_subagent_protocol.Prelude.{◌≡◌, String, true, some, List, [], ◌∷◌}
use remote_subagent_protocol.Prelude.Dict.{get}
use remote_subagent_protocol.Contracts.{is_terminal}
use remote_subagent_protocol.Buyer.Request.{Request}
use remote_subagent_protocol.Buyer.Keeps.{Keeps, KeptIn, Keeps-refl, Keeps-trans}
use remote_subagent_protocol.Buyer.Server.Reply.{Server, State}
use remote_subagent_protocol.Buyer.Server.Handle.{Call, handle}
use remote_subagent_protocol.Buyer.Server.Laws.{IsFresh, handle-Keeps}

unfoldable pub run : State → List (Server × Call) → State
run s [] = s
run s ((v, c) ∷ rest) = run (handle v s c).state rest

-- Each record that is made has an id that is new at its time.
abbrev pub AllFresh : State → List (Server × Call) → Type 0
AllFresh s [] = Unit {0}
AllFresh s ((v, c) ∷ rest) = IsFresh v s c × AllFresh (handle v s c).state rest

run-Keeps :
    (s : State) (calls : List (Server × Call))
    → AllFresh s calls
    → Keeps s.requests (run s calls).requests
unfolding run
run-Keeps s [] fresh = Keeps-refl s.requests
run-Keeps s ((v, c) ∷ rest) fresh =
    Keeps-trans s.requests _ _ (handle-Keeps v s c fresh.0)
      (run-Keeps (handle v s c).state rest fresh.1)

-- Once a request has ended, its status and its result are the same after any history of calls,
-- provided that no record is made a second time under an id in use.
pub run_keeps_ended :
    (s : State) (calls : List (Server × Call)) (id : String) (r : Request)
    → AllFresh s calls
    → get s.requests id ≡ some r
    → is_terminal r.status ≡ true
    → KeptIn (run s calls).requests id r
run_keeps_ended s calls id r fresh there ended = run-Keeps s calls fresh id r there ended
