-- ===== src/Platform/Market/Sound/Keys.antt =====
-- Changes of API keys, roles and users leave the sellers as they were but for their keys.
use remote_subagent_protocol.Prelude.{
  ℕ, String, ◌≡◌, refl, sym, ap, ◌∙◌, Bool, true, false, Option, none, some, ◌==◌, Bool-cases, inl,
  inr, eq_iff, if◌then◌else◌, includes, subst, truthy, or_text, text_or,
}
use remote_subagent_protocol.Prelude.Dict.{Dict, get, put, get-put}
use remote_subagent_protocol.Platform.Keys.{
  User, SellerAccount, KeyRecord, admin_key, buyer_key, seller_key, Accounts, release_user,
  release_seller, release, revoke_found, revoke_api_key, revoke_old, rotate_user,
  rotate_buyer_api_key, rotate_seller, rotate_seller_api_key,
}
use remote_subagent_protocol.Platform.Keys.Roles.{
  Registration, register_as, register_buyer_user, role_found, add_user_role,
}
use remote_subagent_protocol.Platform.Market.{Item}
use remote_subagent_protocol.Platform.Market.Sound.{IsSound, SellerIsSound}

-- A seller without its key.
abbrev pub keyless : Option SellerAccount → Option SellerAccount
keyless none = none
keyless (some a) = some (record a { api_key = none })

abbrev pub SameButKeys : Dict SellerAccount → Dict SellerAccount → Type 0
SameButKeys before after = (k : String) → keyless (get after k) ≡ keyless (get before k)

put-SameButKeys :
    (m : Dict SellerAccount) (id : String) (a : SellerAccount)
    → keyless (some a) ≡ keyless (get m id)
    → SameButKeys m (put m id a)
put-SameButKeys m id a there k = elim (Bool-cases (id == k)) [
  | inl same ↦
      let found : get (put m id a) k ≡ some a = get-put m id k a ∙ (rw same refl) in
      ap keyless found ∙ there ∙ ap (λ x. keyless (get m x)) ((eq_iff id k).0 same)
  | inr other ↦
      let found : get (put m id a) k ≡ get m k = get-put m id k a ∙ (rw other refl) in
      ap keyless found
]

if-SameButKeys :
    (b : Bool) (before after : Accounts)
    → SameButKeys before.sellers after.sellers
    → SameButKeys before.sellers (if b then after else before).sellers
if-SameButKeys true before after h = h
if-SameButKeys false before after h = λ k. refl

release_user-SameButKeys :
    (key id : String) (o : Option User) (s : Accounts)
    → SameButKeys s.sellers (release_user key id o s).sellers
unfolding release_user
release_user-SameButKeys key id none s = λ k. refl
release_user-SameButKeys key id (some user) s = if-SameButKeys _ s _ (λ k. refl)

release_seller-SameButKeys :
    (key id : String) (o : Option SellerAccount) (s : Accounts)
    → get s.sellers id ≡ o
    → SameButKeys s.sellers (release_seller key id o s).sellers
unfolding release_seller
release_seller-SameButKeys key id none s there = λ k. refl
release_seller-SameButKeys key id (some a) s there =
    if-SameButKeys _ s _ (put-SameButKeys s.sellers id _ (ap keyless (sym there)))

release-SameButKeys :
    (key : String) (entry : KeyRecord) (s : Accounts)
    → SameButKeys s.sellers (release key entry s).sellers
unfolding release
release-SameButKeys key admin_key s = λ k. refl
release-SameButKeys key (buyer_key id scopes) s = release_user-SameButKeys key id _ s
release-SameButKeys key (seller_key id owner scopes subagents) s =
    release_seller-SameButKeys key id _ s refl

revoke_found-SameButKeys :
    (key : String) (o : Option KeyRecord) (s : Accounts)
    → SameButKeys s.sellers (revoke_found key o s).sellers
unfolding revoke_found
revoke_found-SameButKeys key none s = λ k. refl
revoke_found-SameButKeys key (some entry) s = release-SameButKeys key entry _

pub revoke_api_key-SameButKeys :
    (key : String) (s : Accounts) → SameButKeys s.sellers (revoke_api_key key s).sellers
unfolding revoke_api_key
revoke_api_key-SameButKeys key s = revoke_found-SameButKeys key _ s

revoke_old-SameButKeys :
    (o : Option String) (s : Accounts) → SameButKeys s.sellers (revoke_old o s).sellers
unfolding revoke_old
revoke_old-SameButKeys none s = λ k. refl
revoke_old-SameButKeys (some key) s = kept (key == "")
  where
    kept : (b : Bool) → SameButKeys s.sellers (if b then s else revoke_api_key key s).sellers
    kept true = λ k. refl
    kept false = revoke_api_key-SameButKeys key s

rotate_user-SameButKeys :
    (fresh id : String) (o : Option User) (s : Accounts)
    → SameButKeys s.sellers (rotate_user fresh id o s).0.sellers
unfolding rotate_user
rotate_user-SameButKeys fresh id none s = λ k. refl
rotate_user-SameButKeys fresh id (some user) s = revoke_old-SameButKeys user.api_key s

pub rotate_buyer_api_key-SameButKeys :
    (fresh id : String) (s : Accounts)
    → SameButKeys s.sellers (rotate_buyer_api_key fresh id s).0.sellers
unfolding rotate_buyer_api_key
rotate_buyer_api_key-SameButKeys fresh id s = rotate_user-SameButKeys fresh id _ s

rotate_seller-SameButKeys :
    (fresh id : String) (o : Option SellerAccount) (s : Accounts)
    → get s.sellers id ≡ o
    → SameButKeys s.sellers (rotate_seller fresh id o s).0.sellers
unfolding rotate_seller
rotate_seller-SameButKeys fresh id none s there k = refl
rotate_seller-SameButKeys fresh id (some a) s there k =
    let revoked = revoke_old-SameButKeys a.api_key s in
    put-SameButKeys (revoke_old a.api_key s).sellers id _ (sym (revoked id ∙ ap keyless there)) k
    ∙ revoked k

pub rotate_seller_api_key-SameButKeys :
    (fresh id : String) (s : Accounts)
    → SameButKeys s.sellers (rotate_seller_api_key fresh id s).0.sellers
unfolding rotate_seller_api_key
rotate_seller_api_key-SameButKeys fresh id s = rotate_seller-SameButKeys fresh id _ s refl

pub register_buyer_user-sellers :
    (now : ℕ) (id key : String) (b : Registration) (s : Accounts)
    → (register_buyer_user now id key b s).0.sellers ≡ s.sellers
unfolding register_buyer_user register_as
register_buyer_user-sellers now id key b s = registered (truthy (or_text b.contact_email b.email))
  where
    registered :
        (named : Bool)
        → (register_as now id key (text_or (or_text b.contact_email b.email) "") named s).0.sellers
          ≡ s.sellers
    registered true = refl
    registered false = refl

pub add_user_role-sellers :
    (id role : String) (s : Accounts) → (add_user_role id role s).0.sellers ≡ s.sellers
unfolding add_user_role role_found
add_user_role-sellers id role s = granted (get s.users id)
  where
    granted : (o : Option User) → (role_found id role o s).0.sellers ≡ s.sellers
    granted none = refl
    granted (some user) = refl

-- A seller found after such a change was there before, but for its key.
keyless-some :
    (o : Option SellerAccount) (b : SellerAccount)
    → keyless (some b) ≡ keyless o
    → (a : SellerAccount) × (o ≡ some a) × (keyless (some b) ≡ keyless (some a))
keyless-some none b e = absurd (cc e)
keyless-some (some a) b e = (a, refl, e)

abbrev without_key : SellerAccount → SellerAccount
without_key a = record a { api_key = none }

same_seller :
    (k : String) (a b : SellerAccount)
    → without_key b ≡ without_key a
    → SellerIsSound k a
    → SellerIsSound k b
same_seller k a b e h =
    let moved : SellerIsSound k (without_key b) =
      subst (SellerIsSound k) (sym e) (record { own_id = h.own_id; reviewed = h.reviewed }) in
    record { own_id = moved.own_id; reviewed = moved.reviewed }

pub SameButKeys-IsSound :
    (before after : Dict SellerAccount) (catalog : Dict Item)
    → SameButKeys before after
    → IsSound before catalog
    → IsSound after catalog
SameButKeys-IsSound before after catalog same h = record {
  sellers_sound = λ k b there.
      let (a, found, e) = keyless-some (get before k) b (ap keyless (sym there) ∙ same k) in
      same_seller k a b (cc e) (h.sellers_sound k a found);
  items_sound = λ k i there.
      let item = h.items_sound k i there in
      let (b, found, e) =
        keyless-some (get after i.seller_id) item.owner
          (sym (same i.seller_id ∙ ap keyless item.owned)) in
      let e' : without_key item.owner ≡ without_key b = cc e in
      record {
        own_id = item.own_id;
        reviewed = item.reviewed;
        owner = b;
        owned = found;
        listed = subst (λ a. includes a.subagent_ids k ≡ true) e' item.listed;
      };
}
