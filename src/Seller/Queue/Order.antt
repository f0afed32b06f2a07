-- ===== src/Seller/Queue/Order.antt =====
-- The queue is first-in-first-out within a priority: sorting after a push only puts the new task
-- behind every task that need not wait for it.
use remote_subagent_protocol.Prelude.{String, ◌≡◌, refl, false, some, List, [], ◌∷◌, if◌then◌else◌}
use mathlib.Core.List.{Perm}
use mathlib.Core.List.Perm
use remote_subagent_protocol.Prelude.Dict.{Dict, get}
use remote_subagent_protocol.Seller.Task.{Task}
use remote_subagent_protocol.Seller.Queue.{before, insert_into, sort_queue}

module _ (tasks : Dict Task) where
  -- No task comes strictly before the one in front of it.
  abbrev pub IsOrdered : List String → Type 0
  IsOrdered [] = Unit {0}
  IsOrdered (x ∷ []) = Unit {0}
  IsOrdered (x ∷ y ∷ l) = (before tasks y x ≡ false) × IsOrdered (y ∷ l)

  abbrev pub AllKnown : List String → Type 0
  AllKnown [] = Unit {0}
  AllKnown (x ∷ l) = ((t : Task) × (get tasks x ≡ some t)) × AllKnown l

  -- The new id goes in front of the first task that it comes strictly before.
  pub place : String → List String → List String
  place x [] = x ∷ []
  place x (y ∷ ys) = let rest = place x ys in if before tasks x y then x ∷ y ∷ ys else y ∷ rest

  ordered-sorted : (l : List String) → IsOrdered l → sort_queue tasks l ≡ l
  unfolding sort_queue insert_into
  ordered-sorted [] h = refl
  ordered-sorted (x ∷ []) h = refl
  ordered-sorted (x ∷ y ∷ l) h = rw (ordered-sorted (y ∷ l) h.1) (rw h.0)
