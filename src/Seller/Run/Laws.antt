-- ===== src/Seller/Run/Laws.antt =====
-- After a run the workers are busy again, and a result is sent once unless its metric fails.
use remote_subagent_protocol.Prelude.{◌≡◌, false, [], ◌∷◌}
use remote_subagent_protocol.Transport.Messages.{Envelope}
use remote_subagent_protocol.Seller.Task.{Task}
use remote_subagent_protocol.Seller.Finalize.{package_of, reported_ok}
use remote_subagent_protocol.Seller.Run.{Finished}

-- Two results went out for the task, and the one that it keeps is an error.
abbrev pub SentTwice : Envelope → Finished → Type 0
SentTwice x done =
    (reported_ok (package_of done.task) ≡ false) × ((y : Envelope) × (done.sent ≡ x ∷ y ∷ []))
