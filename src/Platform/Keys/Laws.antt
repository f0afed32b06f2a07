-- ===== src/Platform/Keys/Laws.antt =====
-- A rotated key is dead, the new one works, and nobody else's key changes.
use remote_subagent_protocol.Prelude.{
  String, ◌≡◌, refl, ap, ◌∙◌, false, Option, none, some, arith, eq_iff, eq_refl, ◌==◌,
  if◌then◌else◌,
}
use remote_subagent_protocol.Prelude.Dict.{Dict, get, put, get-put, get-delete}
use remote_subagent_protocol.Platform.Keys.{
  User, SellerAccount, KeyRecord, admin_key, buyer_key, seller_key, Accounts, release_user,
  release_seller, release, revoke_found, revoke_api_key, revoke_old, buyer_record, rotate_user,
  rotate_buyer_api_key, seller_record, rotate_seller, rotate_seller_api_key,
}

release-api_keys :
    (key : String) (entry : KeyRecord) (s : Accounts) → (release key entry s).api_keys ≡ s.api_keys
unfolding release release_user release_seller
release-api_keys key admin_key s = refl
release-api_keys key (buyer_key id scopes) s = ground arith
release-api_keys key (seller_key id owner scopes subagents) s = ground arith

revoke_found-get :
    (key other : String) (o : Option KeyRecord) (s : Accounts)
    → get s.api_keys key ≡ o
    → get (revoke_found key o s).api_keys other
      ≡ (if key == other then none else get s.api_keys other)
unfolding revoke_found
revoke_found-get key other none s there = ground (arith, eq_iff key other)
revoke_found-get key other (some entry) s there =
    ap (λ m. get m other) (release-api_keys key entry _)
    ∙ ground (arith, get-delete s.api_keys key other)

revoke_old-get :
    (o : Option String) (key other : String) (s : Accounts)
    → o ≡ some key
    → (key == "") ≡ false
    → get (revoke_old o s).api_keys other ≡ (if key == other then none else get s.api_keys other)
unfolding revoke_old revoke_api_key
revoke_old-get o key other s there named =
    rw (there, named) (revoke_found-get key other (get s.api_keys key) s refl)

-- The keys after a rotation of `old` to `fresh`: the old one is gone, the new one has the record,
-- and another one is as it was.
pub record Replaces (before after : Dict KeyRecord) (old fresh other : String) (entry : KeyRecord)
    : Type 0 where
  pub old_gone : get after old ≡ none
  pub fresh_works : get after fresh ≡ some entry
  pub other_stays : get after other ≡ get before other

put-Replaces :
    (s : Accounts) (o : Option String) (old fresh other : String) (entry : KeyRecord)
    → o ≡ some old
    → (old == "") ≡ false
    → (fresh == old) ≡ false
    → (fresh == other) ≡ false
    → (old == other) ≡ false
    → Replaces s.api_keys (put (revoke_old o s).api_keys fresh entry) old fresh other entry
put-Replaces s o old fresh other entry there named fresh_old fresh_other old_other = record {
  old_gone =
      get-put (revoke_old o s).api_keys fresh old entry
      ∙ (rw (fresh_old, revoke_old-get o old old s there named, eq_refl old));
  fresh_works = get-put (revoke_old o s).api_keys fresh fresh entry ∙ (rw (eq_refl fresh));
  other_stays =
      get-put (revoke_old o s).api_keys fresh other entry
      ∙ (rw (fresh_other, revoke_old-get o old other s there named, old_other));
}

-- After a buyer's key is rotated the old key is no key any more, the new one is a key of that user
-- with the user's roles, and every other key is what it was. It takes a user with a key, and a new
-- key that is neither the old one nor the other.
pub rotate_buyer_key :
    (s : Accounts) (id old fresh other : String) (user : User)
    → get s.users id ≡ some user
    → user.api_key ≡ some old
    → (old == "") ≡ false
    → (fresh == old) ≡ false
    → (fresh == other) ≡ false
    → (old == other) ≡ false
    → Replaces s.api_keys
        (rotate_buyer_api_key fresh id s).0.api_keys
        old
        fresh
        other
        (buyer_record user)
unfolding rotate_buyer_api_key rotate_user
rotate_buyer_key s id old fresh other user there has named fresh_old fresh_other apart = rw there (
    put-Replaces s user.api_key old fresh other (buyer_record user) has named fresh_old fresh_other
      apart)

-- After a seller's key is rotated the old key is no key any more, the new one is a key of that
-- seller with its scopes and subagents, and every other key is what it was. It takes a seller with
-- a key, and a new key that is neither the old one nor the other.
pub rotate_seller_key :
    (s : Accounts) (id old fresh other : String) (account : SellerAccount)
    → get s.sellers id ≡ some account
    → account.api_key ≡ some old
    → (old == "") ≡ false
    → (fresh == old) ≡ false
    → (fresh == other) ≡ false
    → (old == other) ≡ false
    → Replaces s.api_keys
        (rotate_seller_api_key fresh id s).0.api_keys
        old
        fresh
        other
        (seller_record account)
unfolding rotate_seller_api_key rotate_seller
rotate_seller_key s id old fresh other account there has named fresh_old fresh_other apart =
    rw there (
      put-Replaces s account.api_key old fresh other (seller_record account) has named fresh_old
        fresh_other apart)
