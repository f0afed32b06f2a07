-- ===== src/Platform/Requests/Events/Laws.antt =====
-- An ending written twice is written once.
use remote_subagent_protocol.Prelude.{
  ℕ, String, ◌≡◌, refl, ap, ◌∙◌, Bool, true, false, Option, none, some, List, [], ◌∷◌, arith,
  eq_refl, Bool-cases, inl, inr, any_by, find_by,
}
use remote_subagent_protocol.Prelude.Dict.{Dict, get, put, get-put}
use remote_subagent_protocol.Transport.Messages.{Event}
use remote_subagent_protocol.Platform.History.{any_by-push_capped}
use remote_subagent_protocol.Platform.Requests.{
  Request, Body, Caller, admin, buyer, seller, conflicts, seller_of, subagent_of,
  append_request_event, bind,
}
use remote_subagent_protocol.Platform.Requests.Laws.{conflicts_self, put-again}
use remote_subagent_protocol.Platform.Requests.Events.{
  matches, type_of, seller_event, written, write_to, store_written, event_bound, event_found,
  event_owned, write_event,
}

found-any :
    (p : Event → Bool) (xs : List Event)
    → any_by p xs ≡ true
    → (e : Event) × (find_by p xs ≡ some e)
found-any p [] h = ground arith
found-any p (x ∷ xs) h = elim (Bool-cases (p x)) [
  | inl here ↦ (x, rw here)
  | inr there ↦ rw there (found-any p xs (rw there at h))
]

seller_event-matches : (now : ℕ) (b : Body) → matches b (seller_event now b) ≡ true
seller_event-matches now b =
    rw (eq_refl (type_of b), eq_refl (seller_of b), eq_refl (subagent_of b))

find-any :
    (p : Event → Bool) (xs : List Event) (e : Event) → find_by p xs ≡ some e → any_by p xs ≡ true
find-any p [] e h = ground arith
find-any p (x ∷ xs) e h = elim (Bool-cases (p x)) [
  | inl here ↦ rw here
  | inr there ↦ rw there (find-any p xs e (rw there at h))
]

written-matches :
    (now limit : ℕ) (b : Body) (r : Request) (o : Option Event)
    → find_by (matches b) r.events ≡ o
    → any_by (matches b) (written now limit b r o).0.events ≡ true
unfolding written append_request_event
written-matches now limit b r (some e) there = find-any (matches b) r.events e there
written-matches now limit b r none there =
    any_by-push_capped (matches b) limit r.events (seller_event now b) (seller_event-matches now b)

written-bound :
    (now limit : ℕ) (b : Body) (r : Request) (o : Option Event)
    → let r' = (written now limit b r o).0 in
      (r'.seller_id ≡ some (seller_of b))
      × (r'.subagent_id ≡ some (subagent_of b))
      × (bind b r' ≡ r')
unfolding written append_request_event
written-bound now limit b r (some e) = (refl, refl, refl)
written-bound now limit b r none = (refl, refl, refl)

written-known :
    (later limit : ℕ) (b : Body) (r : Request)
    → any_by (matches b) r.events ≡ true
    → (write_to later limit b r).0 ≡ bind b r
unfolding write_to written
written-known later limit b r h = let (e, found) = found-any (matches b) r.events h in rw found

write_to-write_to :
    (now later limit : ℕ) (b : Body) (r : Request)
    → let r' = (write_to now limit b r).0 in (write_to later limit b r').0 ≡ r'
unfolding write_to
write_to-write_to now later limit b r =
    let o = find_by (matches b) r.events in
    written-known later limit b (written now limit b r o).0 (written-matches now limit b r o refl)
    ∙ (written-bound now limit b r o).2

write_to-bound :
    (now limit : ℕ) (b : Body) (r : Request)
    → let r' = (write_to now limit b r).0 in
      (r'.seller_id ≡ some (seller_of b)) × (r'.subagent_id ≡ some (subagent_of b))
unfolding write_to
write_to-bound now limit b r =
    let all = written-bound now limit b r (find_by (matches b) r.events) in (all.0, all.1)

fixed-found :
    (later limit : ℕ) (m : Dict Request) (id : String) (b : Body) (r : Request) (o : Option Request)
    → o ≡ some r
    → conflicts r.seller_id (seller_of b) ≡ false
    → conflicts r.subagent_id (subagent_of b) ≡ false
    → (write_to later limit b r).0 ≡ r
    → (event_found later limit m id b o).0 ≡ put m id r
unfolding event_found event_bound store_written
fixed-found later limit m id b r o there s a fixed = rw (there, s, a) (ap (put m id) fixed)

module _ (now later limit : ℕ) (m : Dict Request) (id : String) (b : Body) (k : String) where
  found-again :
      (r : Request)
      → let m' = put m id (write_to now limit b r).0 in
        get (event_found later limit m' id b (get m' id)).0 k ≡ get m' k
  found-again r =
      let r' = (write_to now limit b r).0 in
      let parties = write_to-bound now limit b r in
      let fixed =
        fixed-found later limit (put m id r') id b r' _ (get-put m id id r' ∙ (rw (eq_refl id)))
          (ap (λ o. conflicts o (seller_of b)) parties.0 ∙ conflicts_self (seller_of b))
          (ap (λ o. conflicts o (subagent_of b)) parties.1 ∙ conflicts_self (subagent_of b))
          (write_to-write_to now later limit b r) in
      ap (λ x. get x k) fixed ∙ put-again m id k r'

  bound-again :
      (r : Request) (s a : Bool)
      → get m id ≡ some r
      → conflicts r.seller_id (seller_of b) ≡ s
      → conflicts r.subagent_id (subagent_of b) ≡ a
      → let first = event_bound now limit m id b r s a in
        get (event_found later limit first.0 id b (get first.0 id)).0 k ≡ get first.0 k
  unfolding event_found event_bound store_written
  bound-again r true a there es ea = rw (there, es)
  bound-again r false true there es ea = rw (there, es, ea)
  bound-again r false false there es ea = found-again r

  event_found-again :
      (o : Option Request)
      → get m id ≡ o
      → let first = event_found now limit m id b o in
        get (event_found later limit first.0 id b (get first.0 id)).0 k ≡ get first.0 k
  event_found-again none there = unfold event_found in rw there
  event_found-again (some r) there = unfold event_found in bound-again r _ _ there refl refl

  owned-again :
      (named ending owned : Bool)
      → let first = event_owned now limit m id b named ending owned in
        get (event_owned later limit first.0 id b named ending owned).0 k ≡ get first.0 k
  unfolding event_owned
  owned-again false ending owned = refl
  owned-again true false owned = refl
  owned-again true true false = refl
  owned-again true true true = event_found-again (get m id) refl

-- An event written a second time, by the same caller with the same body at any later time, changes
-- no request, whether the first one was accepted or refused: each ending is written once.
pub write_twice :
    (now later limit : ℕ) (m : Dict Request) (id : String) (caller : Option Caller)
    (body : Option Body) (k : String)
    → let first = write_event now limit m id caller body in
      get (write_event later limit first.0 id caller body).0 k ≡ get first.0 k
unfolding write_event
write_twice now later limit m id none body k = refl
write_twice now later limit m id (some admin) body k = refl
write_twice now later limit m id (some (buyer who)) body k = refl
write_twice now later limit m id (some (seller who subagents)) none k = refl
write_twice now later limit m id (some (seller who subagents)) (some b) k =
    owned-again now later limit m id b k _ _ _
