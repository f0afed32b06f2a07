-- ===== src/Platform/Requests/Parties.antt =====
-- No acknowledgement moves a request to another buyer, seller or subagent.
use remote_subagent_protocol.Prelude.{
  ℕ, String, ◌≡◌, refl, ap, ◌∙◌, sym, Bool, true, false, Option, none, some, arith, eq_iff, ◌==◌,
  Bool-cases, inl, inr,
}
use remote_subagent_protocol.Prelude.Dict.{Dict, get, put, get-put}
use remote_subagent_protocol.Platform.Requests.{
  Request, Body, Caller, admin, buyer, seller, conflicts, seller_of, subagent_of, acknowledged,
  append_request_event, ack_bound, ack_found, ack_owned, ack_request,
}

-- A request of these parties stands under the key.
pub record IsBound (m : Dict Request) (k who s a : String) : Type 0 where
  pub entry : Request
  pub found : get m k ≡ some entry
  pub buyer_id : entry.buyer_id ≡ some who
  pub seller_id : entry.seller_id ≡ some s
  pub subagent_id : entry.subagent_id ≡ some a

pub agrees :
    (o : Option String) (s t : String)
    → o ≡ some s
    → (s == "") ≡ false
    → conflicts o t ≡ false
    → t ≡ s
agrees o s t there named free = ground (arith, eq_iff s t)

acknowledged-fields :
    (now limit : ℕ) (b : Body) (r : Request)
    → let r' = acknowledged now limit b r in
      (r'.buyer_id ≡ r.buyer_id)
      × (r'.seller_id ≡ some (seller_of b))
      × (r'.subagent_id ≡ some (subagent_of b))
unfolding acknowledged append_request_event
acknowledged-fields now limit b r = ground arith

-- A request that is stored with the parties it had.
pub put-IsBound :
    (m : Dict Request) (id k who s a : String) (r r' : Request)
    → IsBound m k who s a
    → get m id ≡ some r
    → (r.buyer_id ≡ some who → r'.buyer_id ≡ some who)
    → (r.seller_id ≡ some s → r'.seller_id ≡ some s)
    → (r.subagent_id ≡ some a → r'.subagent_id ≡ some a)
    → IsBound (put m id r') k who s a
put-IsBound m id k who s a r r' h there buyer_stays seller_stays subagent_stays =
    elim (Bool-cases (id == k)) [
      | inl same ↦
          let entry_is : h.entry ≡ r = cc (h.found, there, (eq_iff id k).0 same) in
          record {
            entry = r';
            found = get-put m id k r' ∙ (rw same refl);
            buyer_id = buyer_stays (ap (λ x. x.buyer_id) (sym entry_is) ∙ h.buyer_id);
            seller_id = seller_stays (ap (λ x. x.seller_id) (sym entry_is) ∙ h.seller_id);
            subagent_id = subagent_stays (ap (λ x. x.subagent_id) (sym entry_is) ∙ h.subagent_id);
          }
      | inr other ↦ record {
        entry = h.entry;
        found = get-put m id k r' ∙ (rw other h.found);
        buyer_id = h.buyer_id;
        seller_id = h.seller_id;
        subagent_id = h.subagent_id;
      }
    ]

module _ (now limit : ℕ) (m : Dict Request) (id k who s a : String) (b : Body)
    (s_named : (s == "") ≡ false) (a_named : (a == "") ≡ false) (h : IsBound m k who s a) where
  put-acknowledged-IsBound :
      (r : Request)
      → get m id ≡ some r
      → conflicts r.seller_id (seller_of b) ≡ false
      → conflicts r.subagent_id (subagent_of b) ≡ false
      → IsBound (put m id (acknowledged now limit b r)) k who s a
  put-acknowledged-IsBound r there free_s free_a =
      let fields = acknowledged-fields now limit b r in
      put-IsBound m id k who s a r _ h there (λ e. fields.0 ∙ e)
        (λ e. fields.1 ∙ ap some (agrees r.seller_id s (seller_of b) e s_named free_s))
        (λ e. fields.2 ∙ ap some (agrees r.subagent_id a (subagent_of b) e a_named free_a))

  ack_bound-IsBound :
      (r : Request) (cs ca : Bool)
      → get m id ≡ some r
      → conflicts r.seller_id (seller_of b) ≡ cs
      → conflicts r.subagent_id (subagent_of b) ≡ ca
      → IsBound (ack_bound now limit m id b r cs ca).0 k who s a
  unfolding ack_bound
  ack_bound-IsBound r true ca there es ea = h
  ack_bound-IsBound r false true there es ea = h
  ack_bound-IsBound r false false there es ea = put-acknowledged-IsBound r there es ea

  ack_found-IsBound :
      (o : Option Request) → get m id ≡ o → IsBound (ack_found now limit m id b o).0 k who s a
  unfolding ack_found
  ack_found-IsBound none there = h
  ack_found-IsBound (some r) there = ack_bound-IsBound r _ _ there refl refl

  ack_owned-IsBound :
      (named owned : Bool) → IsBound (ack_owned now limit m id b named owned).0 k who s a
  unfolding ack_owned
  ack_owned-IsBound false owned = h
  ack_owned-IsBound true false = h
  ack_owned-IsBound true true = ack_found-IsBound (get m id) refl

-- A request that has its buyer, seller and subagent, whose ids are not empty, keeps all three through every acknowledgement,
-- of this request or another, by whatever caller and with whatever body.
pub ack_keeps_parties :
    (now limit : ℕ) (m : Dict Request) (id k who s a : String) (caller : Option Caller)
    (body : Option Body)
    → (s == "") ≡ false
    → (a == "") ≡ false
    → IsBound m k who s a
    → IsBound (ack_request now limit m id caller body).0 k who s a
unfolding ack_request
ack_keeps_parties now limit m id k who s a none body s_named a_named h = h
ack_keeps_parties now limit m id k who s a (some admin) body s_named a_named h = h
ack_keeps_parties now limit m id k who s a (some (buyer x)) body s_named a_named h = h
ack_keeps_parties now limit m id k who s a (some (seller x l)) none s_named a_named h = h
ack_keeps_parties now limit m id k who s a (some (seller x l)) (some b) s_named a_named h =
    ack_owned-IsBound now limit m id k who s a b s_named a_named h _ _
