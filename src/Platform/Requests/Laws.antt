-- ===== src/Platform/Requests/Laws.antt =====
-- Acknowledging twice is acknowledging once, and no call moves a request to another party.
use remote_subagent_protocol.Prelude.{
  ℕ, String, ◌≡◌, refl, ap, ◌∙◌, Bool, true, false, Option, none, some, arith, eq_refl, Bool-cases,
  inl, inr, any_by,
}
use remote_subagent_protocol.Prelude.Dict.{Dict, get, put, get-put}
use remote_subagent_protocol.Platform.History.{any_by-push_capped}
use remote_subagent_protocol.Platform.Requests.{
  Request, Body, Caller, admin, buyer, seller, conflicts, seller_of, subagent_of, acknowledged,
  append_request_event, is_seller_ack, ack_event, bind, ack_bound, ack_found, ack_owned,
  ack_request,
}

pub conflicts_self : (t : String) → conflicts (some t) t ≡ false
conflicts_self t = rw (eq_refl t) (ground arith)

acknowledged-acked :
    (now limit : ℕ) (b : Body) (r : Request)
    → any_by is_seller_ack (acknowledged now limit b r).events ≡ true
unfolding acknowledged append_request_event
acknowledged-acked now limit b r = elim (Bool-cases (any_by is_seller_ack r.events)) [
  | inl old ↦ rw old old
  | inr new ↦ rw new (any_by-push_capped is_seller_ack limit r.events (ack_event now b) refl)
]

acknowledged-bind :
    (now limit : ℕ) (b : Body) (r : Request)
    → bind b (acknowledged now limit b r) ≡ acknowledged now limit b r
unfolding acknowledged append_request_event
acknowledged-bind now limit b r = elim (Bool-cases (any_by is_seller_ack r.events)) [
  | inl old ↦ rw old
  | inr new ↦ rw new
]

acknowledged-known :
    (later limit : ℕ) (b : Body) (r : Request)
    → any_by is_seller_ack r.events ≡ true
    → acknowledged later limit b r ≡ bind b r
unfolding acknowledged
acknowledged-known later limit b r old = rw old

acknowledged-acknowledged :
    (now later limit : ℕ) (b : Body) (r : Request)
    → acknowledged later limit b (acknowledged now limit b r) ≡ acknowledged now limit b r
acknowledged-acknowledged now later limit b r =
    acknowledged-known later limit b _ (acknowledged-acked now limit b r)
    ∙ acknowledged-bind now limit b r

acknowledged-parties :
    (now limit : ℕ) (b : Body) (r : Request)
    → let r' = acknowledged now limit b r in
      (r'.seller_id ≡ some (seller_of b)) × (r'.subagent_id ≡ some (subagent_of b))
unfolding acknowledged append_request_event
acknowledged-parties now limit b r = ground arith

-- A second write of what stands under the key.
pub put-again :
    (m : Dict Request) (id k : String) (r : Request)
    → get (put (put m id r) id r) k ≡ get (put m id r) k
put-again m id k r = ground (arith, get-put (put m id r) id k r, get-put m id k r)

-- A request that is bound to the parties of the body and acknowledged stays as it is.
fixed-found :
    (later limit : ℕ) (m : Dict Request) (id : String) (b : Body) (r : Request) (o : Option Request)
    → o ≡ some r
    → conflicts r.seller_id (seller_of b) ≡ false
    → conflicts r.subagent_id (subagent_of b) ≡ false
    → acknowledged later limit b r ≡ r
    → (ack_found later limit m id b o).0 ≡ put m id r
unfolding ack_found ack_bound
fixed-found later limit m id b r o there s a fixed = rw (there, s, a) (ap (put m id) fixed)

module _ (now later limit : ℕ) (m : Dict Request) (id : String) (b : Body) (k : String) where
  found-again :
      (r : Request)
      → let m' = put m id (acknowledged now limit b r) in
        get (ack_found later limit m' id b (get m' id)).0 k ≡ get m' k
  found-again r =
      let r' = acknowledged now limit b r in
      let parties = acknowledged-parties now limit b r in
      let fixed =
        fixed-found later limit (put m id r') id b r' _ (get-put m id id r' ∙ (rw (eq_refl id)))
          (ap (λ o. conflicts o (seller_of b)) parties.0 ∙ conflicts_self (seller_of b))
          (ap (λ o. conflicts o (subagent_of b)) parties.1 ∙ conflicts_self (subagent_of b))
          (acknowledged-acknowledged now later limit b r) in
      ap (λ x. get x k) fixed ∙ put-again m id k r'

  bound-again :
      (o : Option Request) (r : Request) (s a : Bool)
      → get m id ≡ o
      → o ≡ some r
      → conflicts r.seller_id (seller_of b) ≡ s
      → conflicts r.subagent_id (subagent_of b) ≡ a
      → let first = ack_bound now limit m id b r s a in
        get (ack_found later limit first.0 id b (get first.0 id)).0 k ≡ get first.0 k
  unfolding ack_found ack_bound
  bound-again o r true a there some_r es ea = rw (there, some_r, es)
  bound-again o r false true there some_r es ea = rw (there, some_r, es, ea)
  bound-again o r false false there some_r es ea = found-again r

  ack_found-again :
      (o : Option Request)
      → get m id ≡ o
      → let first = ack_found now limit m id b o in
        get (ack_found later limit first.0 id b (get first.0 id)).0 k ≡ get first.0 k
  ack_found-again none there = unfold ack_found in rw there
  ack_found-again (some r) there = unfold ack_found in bound-again _ r _ _ there refl refl refl

  owned-again :
      (named owned : Bool)
      → let first = ack_owned now limit m id b named owned in
        get (ack_owned later limit first.0 id b named owned).0 k ≡ get first.0 k
  unfolding ack_owned
  owned-again false owned = refl
  owned-again true false = refl
  owned-again true true = ack_found-again (get m id) refl

-- An acknowledgement made a second time, by the same caller with the same body at any later time,
-- changes no request, whether the first one was accepted or refused: no second event is written.
pub ack_twice :
    (now later limit : ℕ) (m : Dict Request) (id : String) (caller : Option Caller)
    (body : Option Body) (k : String)
    → let first = ack_request now limit m id caller body in
      get (ack_request later limit first.0 id caller body).0 k ≡ get first.0 k
unfolding ack_request
ack_twice now later limit m id none body k = refl
ack_twice now later limit m id (some admin) body k = refl
ack_twice now later limit m id (some (buyer who)) body k = refl
ack_twice now later limit m id (some (seller who subagents)) none k = refl
ack_twice now later limit m id (some (seller who subagents)) (some b) k =
    owned-again now later limit m id b k _ _
