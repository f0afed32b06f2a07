-- ===== src/Platform/Market/Unrotated.antt =====
-- The key that a submission hands out for a seller whose own key was revoked: the seller's account
-- does not learn of it.
use remote_subagent_protocol.Prelude.{
  String, ◌≡◌, refl, sym, ap, ◌∙◌, Bool, true, false, Option, none, some, List, ◌==◌, eq_refl,
  text_or,
}
use remote_subagent_protocol.Prelude.Dict.{get, put, get-put, get-map_values}
use remote_subagent_protocol.Platform.Keys.{
  User, SellerAccount, KeyRecord, seller_key, Accounts, revoke_old, seller_record, rotate_seller,
  rotate_seller_api_key,
}
use remote_subagent_protocol.Platform.Keys.Roles.{grant_scope, role_found, add_user_role}
use remote_subagent_protocol.Platform.Market.{Market, Item, Draw, append_review_event}
use remote_subagent_protocol.Platform.Market.Submit.{Body, Names}
use remote_subagent_protocol.Platform.Market.Submit.Build.{
  auth_user, owner_of, key_of, submitted_seller, has_changed, with_submission, back_to_review,
  submitted_item,
}
use remote_subagent_protocol.Platform.Market.Submit.Accept.{
  store_submission, with_seller_role, with_seller_event, after_submission, accept_submission,
}
use remote_subagent_protocol.Platform.Market.Sound.Submissions.{if-kept, after_submission-sellers}

-- A new role of a user leaves the keys of sellers as they are.
role_found-seller_key :
    (id role key seller owner : String) (scopes subagents : List String) (o : Option User)
    (s : Accounts)
    → get s.api_keys key ≡ some (seller_key seller owner scopes subagents)
    → get (role_found id role o s).0.api_keys key ≡ some (seller_key seller owner scopes subagents)
unfolding role_found grant_scope
role_found-seller_key id role key seller owner scopes subagents none s there = there
role_found-seller_key id role key seller owner scopes subagents (some user) s there =
    get-map_values (grant_scope id role) s.api_keys key _ there

with_seller_role-seller_key :
    (user : Option String) (key seller owner : String) (scopes subagents : List String) (s : Market)
    → get s.accounts.api_keys key ≡ some (seller_key seller owner scopes subagents)
    → get (with_seller_role user s).accounts.api_keys key
      ≡ some (seller_key seller owner scopes subagents)
unfolding with_seller_role add_user_role
with_seller_role-seller_key none key seller owner scopes subagents s there = there
with_seller_role-seller_key (some user) key seller owner scopes subagents s there =
    if-kept (λ m. get m.accounts.api_keys key) (user == "") s _
      (role_found-seller_key user "seller" key seller owner scopes subagents _ s.accounts there
        ∙ sym there)
    ∙ there

after_submission-api_key :
    (d : Draw) (auth : Option KeyRecord) (b : Body) (n : Names) (owner key : String)
    (changed : Bool) (a : SellerAccount) (i : Item) (existing : Option Item) (s : Market)
    → get (after_submission d auth b n owner key changed a i existing s).accounts.api_keys key
      ≡ some (seller_key a.seller_id owner a.scopes a.subagent_ids)
unfolding after_submission store_submission with_seller_event append_review_event
after_submission-api_key d auth b n owner key true a i existing s =
    with_seller_role-seller_key (auth_user auth) key a.seller_id owner a.scopes a.subagent_ids _
      (get-put s.accounts.api_keys key key _ ∙ (rw (eq_refl key) refl))
after_submission-api_key d auth b n owner key false a i existing s =
    with_seller_role-seller_key (auth_user auth) key a.seller_id owner a.scopes a.subagent_ids _
      (get-put s.accounts.api_keys key key _ ∙ (rw (eq_refl key) refl))

-- The rotation of a seller that has no key drops none.
rotate_seller-keyless :
    (fresh id other : String) (s : Accounts) (a : SellerAccount)
    → get s.sellers id ≡ some a
    → a.api_key ≡ none
    → (fresh == other) ≡ false
    → get (rotate_seller_api_key fresh id s).0.api_keys other ≡ get s.api_keys other
unfolding rotate_seller_api_key rotate_seller revoke_old
rotate_seller-keyless fresh id other s a there keyless apart =
    ap (λ o. get (rotate_seller fresh id o s).0.api_keys other) there
    ∙ ap (λ o. get (put (revoke_old o s).api_keys fresh (seller_record a)) other) keyless
    ∙ get-put s.api_keys fresh other (seller_record a)
    ∙ (rw apart refl)

back_to_review-key :
    (changed : Bool) (a : SellerAccount)
    → ((back_to_review changed a).api_key ≡ a.api_key)
      × ((back_to_review changed a).seller_id ≡ a.seller_id)
unfolding back_to_review
back_to_review-key true a = (refl, refl)
back_to_review-key false a = (refl, refl)

-- Where a seller has no key of its own, as after a revocation, an accepted submission for it hands
-- out a fresh key, and that key still works after the seller's key was rotated to another one: the
-- rotation takes nothing away, as the account never learnt of it.
pub submission_key_survives_rotation :
    (d : Draw) (auth : Option KeyRecord) (b : Body) (n : Names) (s : Market) (a : SellerAccount)
    (item : Option Item) (fresh : String)
    → a.seller_id ≡ n.seller_id
    → a.api_key ≡ none
    → (fresh == d.api_key) ≡ false
    → let after = (accept_submission d auth b n (some a) item s).0.accounts in
      let owner = owner_of d b auth (some a) in
      let submitted = submitted_seller d s b n owner (some a) in
      get (rotate_seller_api_key fresh n.seller_id after).0.api_keys d.api_key
      ≡ some (seller_key submitted.seller_id owner submitted.scopes submitted.subagent_ids)
unfolding accept_submission submitted_seller
submission_key_survives_rotation d auth b n s a item fresh own keyless apart =
    let owner = owner_of d b auth (some a) in
    let key = key_of d (some a) in
    let changed = has_changed b n a in
    let submitted = back_to_review changed (with_submission b n a) in
    let i = submitted_item d s b n submitted item in
    let kept = back_to_review-key changed (with_submission b n a) in
    let given : key ≡ d.api_key = ap (λ o. text_or o d.api_key) keyless in
    let after = after_submission d auth b n owner key changed submitted i item s in
    let there : get after.accounts.sellers n.seller_id ≡ some submitted =
      ap (λ m. get m n.seller_id)
        (after_submission-sellers d auth b n owner key changed submitted i item s)
      ∙ ap (λ k. get (put s.accounts.sellers k submitted) n.seller_id) (kept.1 ∙ own)
      ∙ get-put s.accounts.sellers n.seller_id n.seller_id submitted
      ∙ (rw (eq_refl n.seller_id) refl) in
    rotate_seller-keyless fresh n.seller_id d.api_key after.accounts submitted there
      (kept.0 ∙ keyless) apart
    ∙ ap (get after.accounts.api_keys) (sym given)
    ∙ after_submission-api_key d auth b n owner key changed submitted i item s
