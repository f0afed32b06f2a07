-- ===== src/Platform/Market/Sound/Submissions.antt =====
-- Submissions keep the market sound.
use remote_subagent_protocol.Prelude.{
  String, ◌≡◌, refl, sym, ap, ◌∙◌, subst, Bool, true, false, Option, none, some, List, [], ◌∷◌,
  ◌++◌, ◌||◌, ◌==◌, eq_refl, arith, includes, unique, includes-unique, includes-append,
  if◌then◌else◌,
}
use remote_subagent_protocol.Prelude.Dict.{Dict, get, put, get-put}
use remote_subagent_protocol.Platform.Keys.{
  SellerAccount, KeyRecord, admin_key, buyer_key, seller_key,
}
use remote_subagent_protocol.Platform.Market.{Market, Item, Draw, append_review_event}
use remote_subagent_protocol.Platform.Market.Submit.{Body, Names, names_of, Refusal}
use remote_subagent_protocol.Platform.Market.Submit.Build.{
  auth_user, owner_of, key_of, new_seller, submitted_seller, seller_changed, has_changed,
  with_submission, back_to_review, submitted_item,
}
use remote_subagent_protocol.Platform.Market.Submit.Accept.{
  store_submission, with_seller_role, with_seller_event, after_submission, accept_submission,
}
use remote_subagent_protocol.Platform.Market.Submit.Routes.{
  submit_checked, submit_named, submit_catalog_subagent, submit_limited, register_limited,
  post_submission, register_seller,
}
use remote_subagent_protocol.Platform.Market.Sound.{
  MarketIsSound, IsSound, SellerIsSound, IsReviewed, Extends, put_seller-IsSound, put_item-IsSound,
}
use remote_subagent_protocol.Platform.Market.Sound.Keys.{add_user_role-sellers}

pub if-kept :
    {A : Type 0} (f : Market → A) (b : Bool) (s after : Market)
    → f after ≡ f s
    → f (if b then s else after) ≡ f s
if-kept f true s after h = refl
if-kept f false s after h = h

with_seller_role-sellers :
    (user : Option String) (s : Market)
    → (with_seller_role user s).accounts.sellers ≡ s.accounts.sellers
unfolding with_seller_role
with_seller_role-sellers none s = refl
with_seller_role-sellers (some user) s =
    if-kept (λ m. m.accounts.sellers) _ s _ (add_user_role-sellers user "seller" s.accounts)

with_seller_role-catalog :
    (user : Option String) (s : Market) → (with_seller_role user s).catalog ≡ s.catalog
unfolding with_seller_role
with_seller_role-catalog none s = refl
with_seller_role-catalog (some user) s = if-kept (λ m. m.catalog) _ s _ refl

module _ (d : Draw) (auth : Option KeyRecord) (b : Body) (n : Names) where
  pub after_submission-sellers :
      (owner key : String) (changed : Bool) (a : SellerAccount) (i : Item) (existing : Option Item)
      (s : Market)
      → (after_submission d auth b n owner key changed a i existing s).accounts.sellers
        ≡ put s.accounts.sellers a.seller_id a
  unfolding after_submission store_submission with_seller_event append_review_event
  after_submission-sellers owner key true a i existing s =
      with_seller_role-sellers (auth_user auth) _
  after_submission-sellers owner key false a i existing s =
      with_seller_role-sellers (auth_user auth) _

  pub after_submission-catalog :
      (owner key : String) (changed : Bool) (a : SellerAccount) (i : Item) (existing : Option Item)
      (s : Market)
      → (after_submission d auth b n owner key changed a i existing s).catalog
        ≡ put s.catalog i.subagent_id i
  unfolding after_submission store_submission with_seller_event append_review_event
  after_submission-catalog owner key true a i existing s =
      with_seller_role-catalog (auth_user auth) _
  after_submission-catalog owner key false a i existing s =
      with_seller_role-catalog (auth_user auth) _

back_to_review-SellerIsSound :
    (changed : Bool) (a : SellerAccount)
    → (changed ≡ false → IsReviewed a.status a.review_status)
    → SellerIsSound a.seller_id (back_to_review changed a)
unfolding back_to_review
back_to_review-SellerIsSound true a h = record { own_id = refl; reviewed = λ e. absurd (cc e) }
back_to_review-SellerIsSound false a h = record { own_id = refl; reviewed = h refl }

back_to_review-ids :
    (changed : Bool) (a : SellerAccount)
    → ((back_to_review changed a).seller_id ≡ a.seller_id)
      × ((back_to_review changed a).subagent_ids ≡ a.subagent_ids)
unfolding back_to_review
back_to_review-ids true a = (refl, refl)
back_to_review-ids false a = (refl, refl)

listed_after :
    (xs : List String) (x y : String)
    → includes (unique (xs ++ y ∷ [])) x ≡ (includes xs x || (y == x || false))
listed_after xs x y = includes-unique (xs ++ y ∷ []) x ∙ includes-append xs (y ∷ []) x

-- The submitted seller: its id, whether it is sound, and what it lists.
pub record IsSubmitted (sellers : Dict SellerAccount) (n : Names) (a : SellerAccount) : Type 0 where
  pub own_id : a.seller_id ≡ n.seller_id
  pub sound : SellerIsSound n.seller_id a
  pub extends : (c : SellerAccount) → get sellers n.seller_id ≡ some c → Extends c a
  pub listed : includes a.subagent_ids n.subagent_id ≡ true

pub submitted_seller-IsSubmitted :
    (d : Draw) (s : Market) (b : Body) (n : Names) (owner : String) (o : Option SellerAccount)
    → MarketIsSound s
    → get s.accounts.sellers n.seller_id ≡ o
    → IsSubmitted s.accounts.sellers n (submitted_seller d s b n owner o)
unfolding submitted_seller new_seller
submitted_seller-IsSubmitted d s b n owner none h there =
    let fresh = with_submission b n (new_seller d s b n owner) in
    record {
      own_id = (back_to_review-ids true fresh).0;
      sound = back_to_review-SellerIsSound true fresh (λ e. absurd (cc e));
      extends = λ c found. absurd (cc (found, there));
      listed =
          ap (λ xs. includes xs n.subagent_id) (back_to_review-ids true fresh).1
          ∙ (rw (eq_refl n.subagent_id) refl);
    }
submitted_seller-IsSubmitted d s b n owner (some a) h there =
    let own = h.sellers_sound n.seller_id a there in
    let ids = back_to_review-ids (has_changed b n a) (with_submission b n a) in
    let lists : (x : String)
        → includes (submitted_seller d s b n owner (some a)).subagent_ids x
          ≡ (includes a.subagent_ids x || (n.subagent_id == x || false)) =
      λ x. ap (λ xs. includes xs x) ids.1 ∙ listed_after a.subagent_ids x n.subagent_id in
    record {
      own_id = ids.0 ∙ own.own_id;
      sound =
          subst (λ k. SellerIsSound k (back_to_review (has_changed b n a) (with_submission b n a)))
            own.own_id
            (back_to_review-SellerIsSound (has_changed b n a) (with_submission b n a)
              (λ _. own.reviewed));
      extends = λ c found x listed.
          let same : c ≡ a = cc (found, there) in
          lists x ∙ (rw (sym (ap (λ y. includes y.subagent_ids x) same)) (rw listed refl));
      listed = lists n.subagent_id ∙ ground (arith, eq_refl n.subagent_id);
    }

both-IsSound :
    {sellers sellers' : Dict SellerAccount} {catalog catalog' : Dict Item}
    → sellers' ≡ sellers
    → catalog' ≡ catalog
    → IsSound sellers catalog
    → IsSound sellers' catalog'
both-IsSound {sellers} {sellers'} {catalog} {catalog'} same_s same_c h =
    subst (λ x. IsSound x catalog') (sym same_s) (subst (IsSound sellers) (sym same_c) h)

stored-IsSound :
    (sellers : Dict SellerAccount) (catalog : Dict Item) (n : Names) (a : SellerAccount) (i : Item)
    → IsSound sellers catalog
    → IsSubmitted sellers n a
    → i.seller_id ≡ n.seller_id
    → i.subagent_id ≡ n.subagent_id
    → IsReviewed i.status i.review_status
    → IsSound (put sellers n.seller_id a) (put catalog n.subagent_id i)
stored-IsSound sellers catalog n a i h fine own_seller own_id reviewed =
    put_item-IsSound (put sellers n.seller_id a) catalog
      (put_seller-IsSound sellers catalog h n.seller_id a fine.sound fine.extends) n.subagent_id i
      (record {
        own_id = own_id;
        reviewed = reviewed;
        owner = a;
        owned =
            ap (get (put sellers n.seller_id a)) own_seller
            ∙ get-put sellers n.seller_id n.seller_id a
            ∙ (rw (eq_refl n.seller_id) refl);
        listed = fine.listed;
      })

accept_submission-IsSound :
    (d : Draw) (auth : Option KeyRecord) (b : Body) (n : Names) (s : Market)
    (seller : Option SellerAccount) (item : Option Item)
    → MarketIsSound s
    → get s.accounts.sellers n.seller_id ≡ seller
    → MarketIsSound (accept_submission d auth b n seller item s).0
unfolding accept_submission submitted_item
accept_submission-IsSound d auth b n s seller item h there =
    let owner = owner_of d b auth seller in
    let key = key_of d seller in
    let a = submitted_seller d s b n owner seller in
    let i = submitted_item d s b n a item in
    let changed = seller_changed b n seller in
    let fine = submitted_seller-IsSubmitted d s b n owner seller h there in
    both-IsSound
      (after_submission-sellers d auth b n owner key changed a i item s
        ∙ ap (λ k. put s.accounts.sellers k a) fine.own_id)
      (after_submission-catalog d auth b n owner key changed a i item s)
      (stored-IsSound s.accounts.sellers s.catalog n a i h fine refl refl (λ e. absurd (cc e)))

submit_checked-IsSound :
    (d : Draw) (s : Market) (auth : Option KeyRecord) (b : Body) (seller : Option SellerAccount)
    (item : Option Item) (o : Option Refusal)
    → MarketIsSound s
    → get s.accounts.sellers (names_of b).seller_id ≡ seller
    → MarketIsSound (submit_checked d s auth b seller item o).0
unfolding submit_checked
submit_checked-IsSound d s auth b seller item (some (status, error)) h there = h
submit_checked-IsSound d s auth b seller item none h there =
    accept_submission-IsSound d auth b (names_of b) s seller item h there

module _ (d : Draw) (s : Market) (h : MarketIsSound s) where
  submit_named-IsSound :
      (auth : Option KeyRecord) (b : Body) (allow named : Bool)
      → MarketIsSound (submit_named d s auth b allow named).0
  unfolding submit_named
  submit_named-IsSound auth b allow false = h
  submit_named-IsSound auth b allow true = submit_checked-IsSound d s auth b _ _ _ h refl

  submit_limited-IsSound :
      (auth : Option KeyRecord) (within : Bool) (body : Option Body)
      → MarketIsSound (submit_limited d s auth within body).0
  unfolding submit_limited submit_catalog_subagent
  submit_limited-IsSound auth false body = h
  submit_limited-IsSound auth true none = h
  submit_limited-IsSound auth true (some b) = submit_named-IsSound auth b false _

  pub post_submission-IsSound :
      (auth : Option KeyRecord) (within : Bool) (body : Option Body)
      → MarketIsSound (post_submission d s auth within body).0
  unfolding post_submission
  post_submission-IsSound none within body = h
  post_submission-IsSound (some admin_key) within body = h
  post_submission-IsSound (some (buyer_key user scopes)) within body =
      submit_limited-IsSound _ within body
  post_submission-IsSound (some (seller_key id owner scopes subagents)) within body =
      submit_limited-IsSound _ within body

  register_limited-IsSound :
      (auth : Option KeyRecord) (within : Bool) (b : Body)
      → MarketIsSound (register_limited d s auth within b).0
  unfolding register_limited submit_catalog_subagent
  register_limited-IsSound auth false b = h
  register_limited-IsSound auth true b = submit_named-IsSound auth b true _

  pub register_seller-IsSound :
      (auth : Option KeyRecord) (within : Bool) (body : Option Body)
      → MarketIsSound (register_seller d s auth within body).0
  unfolding register_seller
  register_seller-IsSound auth within none = h
  register_seller-IsSound none within (some b) = register_limited-IsSound none within b
  register_seller-IsSound (some admin_key) within (some b) = h
  register_seller-IsSound (some (buyer_key user scopes)) within (some b) =
      register_limited-IsSound _ within b
  register_seller-IsSound (some (seller_key id owner scopes subagents)) within (some b) =
      register_limited-IsSound _ within b
