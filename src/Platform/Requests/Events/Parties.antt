-- ===== src/Platform/Requests/Events/Parties.antt =====
-- No event that a seller writes moves a request to another party.
use remote_subagent_protocol.Prelude.{
  ℕ, String, ◌≡◌, refl, ap, ◌∙◌, Bool, true, false, Option, none, some, ◌==◌, find_by,
}
use remote_subagent_protocol.Prelude.Dict.{Dict, get}
use remote_subagent_protocol.Transport.Messages.{Event}
use remote_subagent_protocol.Platform.Requests.{
  Request, Body, Caller, admin, buyer, seller, conflicts, seller_of, subagent_of,
  append_request_event,
}
use remote_subagent_protocol.Platform.Requests.Parties.{IsBound, put-IsBound, agrees}
use remote_subagent_protocol.Platform.Requests.Events.{
  written, write_to, store_written, event_bound, event_found, event_owned, write_event, matches,
}

written-fields :
    (now limit : ℕ) (b : Body) (r : Request) (o : Option Event)
    → let r' = (written now limit b r o).0 in
      (r'.buyer_id ≡ r.buyer_id)
      × (r'.seller_id ≡ some (seller_of b))
      × (r'.subagent_id ≡ some (subagent_of b))
unfolding written append_request_event
written-fields now limit b r none = (refl, refl, refl)
written-fields now limit b r (some e) = (refl, refl, refl)

module _ (now limit : ℕ) (m : Dict Request) (id k who s a : String) (b : Body)
    (s_named : (s == "") ≡ false) (a_named : (a == "") ≡ false) (h : IsBound m k who s a) where
  event_bound-IsBound :
      (r : Request) (cs ca : Bool)
      → get m id ≡ some r
      → conflicts r.seller_id (seller_of b) ≡ cs
      → conflicts r.subagent_id (subagent_of b) ≡ ca
      → IsBound (event_bound now limit m id b r cs ca).0 k who s a
  unfolding event_bound store_written write_to
  event_bound-IsBound r true ca there es ea = h
  event_bound-IsBound r false true there es ea = h
  event_bound-IsBound r false false there es ea =
      let fields = written-fields now limit b r (find_by (matches b) r.events) in
      put-IsBound m id k who s a r _ h there (λ e. fields.0 ∙ e)
        (λ e. fields.1 ∙ ap some (agrees r.seller_id s (seller_of b) e s_named es))
        (λ e. fields.2 ∙ ap some (agrees r.subagent_id a (subagent_of b) e a_named ea))

  event_found-IsBound :
      (o : Option Request) → get m id ≡ o → IsBound (event_found now limit m id b o).0 k who s a
  unfolding event_found
  event_found-IsBound none there = h
  event_found-IsBound (some r) there = event_bound-IsBound r _ _ there refl refl

  event_owned-IsBound :
      (named ending owned : Bool)
      → IsBound (event_owned now limit m id b named ending owned).0 k who s a
  unfolding event_owned
  event_owned-IsBound false ending owned = h
  event_owned-IsBound true false owned = h
  event_owned-IsBound true true false = h
  event_owned-IsBound true true true = event_found-IsBound (get m id) refl

pub write_event-IsBound :
    (now limit : ℕ) (m : Dict Request) (id k who s a : String) (caller : Option Caller)
    (body : Option Body)
    → (s == "") ≡ false
    → (a == "") ≡ false
    → IsBound m k who s a
    → IsBound (write_event now limit m id caller body).0 k who s a
unfolding write_event
write_event-IsBound now limit m id k who s a none body s_named a_named h = h
write_event-IsBound now limit m id k who s a (some admin) body s_named a_named h = h
write_event-IsBound now limit m id k who s a (some (buyer x)) body s_named a_named h = h
write_event-IsBound now limit m id k who s a (some (seller x l)) none s_named a_named h = h
write_event-IsBound now limit m id k who s a (some (seller x l)) (some b) s_named a_named h =
    event_owned-IsBound now limit m id k who s a b s_named a_named h _ _ _
