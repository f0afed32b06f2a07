-- ===== src/Platform/Market/Publish.antt =====
-- Only operators make a subagent public.
pub mod Calls
use remote_subagent_protocol.Prelude.{
  String, ◌≡◌, refl, sym, ap, ◌∙◌, subst, Bool, true, false, Option, none, some, List, ◌==◌, ◌&&◌,
  Bool-cases, inl, inr, arith, eq_iff,
}
use remote_subagent_protocol.Prelude.Dict.{
  Dict, get, put, get-put, put_cases, map_values, get-map_values_from,
}
use remote_subagent_protocol.Platform.Answer.{Answer, ok, failed}
use remote_subagent_protocol.Platform.Keys.{
  SellerAccount, KeyRecord, admin_key, buyer_key, seller_key, Accounts,
}
use remote_subagent_protocol.Platform.Keys.Roles.{Registration, register_buyer_user}
use remote_subagent_protocol.Platform.Market.{Market, Item, Draw}
use remote_subagent_protocol.Platform.Market.Access.{
  is_seller_routable, is_subagent_routable, is_public, is_approved, is_enabled, has_admin_role,
  is_operator_auth, require_operator,
}
use remote_subagent_protocol.Platform.Market.Submit.{Body, Names, names_of, has_names, Refusal}
use remote_subagent_protocol.Platform.Market.Submit.Build.{
  owner_of, key_of, new_seller, submitted_seller, seller_changed, has_changed, with_submission,
  back_to_review, submitted_item,
}
use remote_subagent_protocol.Platform.Market.Submit.Accept.{accept_submission}
use remote_subagent_protocol.Platform.Market.Submit.Routes.{
  submit_checked, submit_named, submit_catalog_subagent, submit_limited, register_limited,
  post_submission, register_seller,
}
use remote_subagent_protocol.Platform.Market.Sound.{MarketIsSound}
use remote_subagent_protocol.Platform.Market.Sound.Submissions.{
  submitted_seller-IsSubmitted, after_submission-sellers, after_submission-catalog,
}

-- No seller, and no item, becomes routable.
pub record NothingOpens (s after : Market) : Type 0 where
  pub sellers_close :
      (id : String)
      → is_seller_routable (get after.accounts.sellers id) ≡ true
      → is_seller_routable (get s.accounts.sellers id) ≡ true
  pub items_close :
      (k : String) (i : Item)
      → get after.catalog k ≡ some i
      → is_subagent_routable i ≡ true
      → (old : Item) × (get s.catalog k ≡ some old)
        × (i.seller_id ≡ old.seller_id)
        × (is_subagent_routable old ≡ true)

and_both : (a b : Bool) → (a && b) ≡ true → (a ≡ true) × (b ≡ true)
and_both true b e = (refl, e)
and_both false b e = absurd (cc e)

both_and : {a b : Bool} → a ≡ true → b ≡ true → (a && b) ≡ true
both_and {a} {b} ea eb = ap (λ x. x && b) ea ∙ eb

public_after :
    (s after : Market) (k : String) (o : Option Item)
    → NothingOpens s after
    → get after.catalog k ≡ o
    → is_public after o ≡ true
    → is_public s (get s.catalog k) ≡ true
unfolding is_public
public_after s after k none h there e = absurd (cc e)
public_after s after k (some i) h there e =
    let (seller_open, item_open) = and_both _ _ e in
    let (old, found, same_seller, old_open) = h.items_close k i there item_open in
    let before =
      ap (λ id. is_seller_routable (get s.accounts.sellers id)) (sym same_seller)
      ∙ h.sellers_close i.seller_id seller_open in
    ap (is_public s) found ∙ both_and before old_open

pub hidden_stays :
    (s after : Market) (k : String)
    → NothingOpens s after
    → is_public s (get s.catalog k) ≡ false
    → is_public after (get after.catalog k) ≡ false
hidden_stays s after k h e = elim (Bool-cases (is_public after (get after.catalog k))) [
  | inl shown ↦ absurd (cc (e, public_after s after k _ h refl shown))
  | inr stays ↦ stays
]

pub same-NothingOpens : (s : Market) → NothingOpens s s
same-NothingOpens s = record {
  sellers_close = λ id e. e;
  items_close = λ k i there e. (i, there, refl, e);
}

pub put_seller-closes :
    (m : Dict SellerAccount) (id : String) (a : SellerAccount)
    → (is_seller_routable (some a) ≡ true → is_seller_routable (get m id) ≡ true)
    → (k : String) → is_seller_routable (get (put m id a) k) ≡ true
    → is_seller_routable (get m k) ≡ true
put_seller-closes m id a closed k e = elim (Bool-cases (id == k)) [
  | inl same ↦
      let found : get (put m id a) k ≡ some a = get-put m id k a ∙ (rw same refl) in
      ap (λ x. is_seller_routable (get m x)) (sym ((eq_iff id k).0 same))
      ∙ closed (ap is_seller_routable (sym found) ∙ e)
  | inr other ↦
      let found : get (put m id a) k ≡ get m k = get-put m id k a ∙ (rw other refl) in
      ap is_seller_routable (sym found) ∙ e
]

-- A submission stores this seller and this item.
stored-NothingOpens :
    (s after : Market) (n : Names) (a : SellerAccount) (i : Item)
    → after.accounts.sellers ≡ put s.accounts.sellers n.seller_id a
    → after.catalog ≡ put s.catalog n.subagent_id i
    → (is_seller_routable (some a) ≡ true
        → is_seller_routable (get s.accounts.sellers n.seller_id) ≡ true)
    → is_subagent_routable i ≡ false
    → NothingOpens s after
stored-NothingOpens s after n a i sellers catalog closed hidden = record {
  sellers_close = λ id e.
      put_seller-closes s.accounts.sellers n.seller_id a closed id
        (ap (λ m. is_seller_routable (get m id)) (sym sellers) ∙ e);
  items_close = λ k i' there e.
      elim (put_cases s.catalog n.subagent_id k i i' (ap (λ m. get m k) (sym catalog) ∙ there)) [
        | inl (same, new) ↦ absurd (cc (e, hidden, ap is_subagent_routable new))
        | inr (_, old) ↦ (i', old, refl, e)
      ];
}

submitted_seller-closes :
    (d : Draw) (s : Market) (b : Body) (n : Names) (owner : String) (o : Option SellerAccount)
    → is_seller_routable (some (submitted_seller d s b n owner o)) ≡ true
    → is_seller_routable o ≡ true
unfolding submitted_seller back_to_review
submitted_seller-closes d s b n owner none e = absurd (cc e)
submitted_seller-closes d s b n owner (some a) e = reviewed (has_changed b n a) e
  where
    reviewed :
        (changed : Bool)
        → is_seller_routable (some (back_to_review changed (with_submission b n a))) ≡ true
        → is_seller_routable (some a) ≡ true
    reviewed true e = absurd (cc e)
    reviewed false e = e

pub accept_submission-NothingOpens :
    (d : Draw) (auth : Option KeyRecord) (b : Body) (n : Names) (s : Market)
    (seller : Option SellerAccount) (item : Option Item)
    → MarketIsSound s
    → get s.accounts.sellers n.seller_id ≡ seller
    → NothingOpens s (accept_submission d auth b n seller item s).0
unfolding accept_submission submitted_item
accept_submission-NothingOpens d auth b n s seller item h there =
    let owner = owner_of d b auth seller in
    let key = key_of d seller in
    let a = submitted_seller d s b n owner seller in
    let i = submitted_item d s b n a item in
    let changed = seller_changed b n seller in
    stored-NothingOpens s (accept_submission d auth b n seller item s).0 n a i
      (after_submission-sellers d auth b n owner key changed a i item s
        ∙ ap (λ k. put s.accounts.sellers k a)
            (submitted_seller-IsSubmitted d s b n owner seller h there).own_id)
      (after_submission-catalog d auth b n owner key changed a i item s)
      (λ e. ap is_seller_routable there ∙ submitted_seller-closes d s b n owner seller e) refl

pub submit_checked-NothingOpens :
    (d : Draw) (s : Market) (auth : Option KeyRecord) (b : Body) (seller : Option SellerAccount)
    (item : Option Item) (o : Option Refusal)
    → MarketIsSound s
    → get s.accounts.sellers (names_of b).seller_id ≡ seller
    → NothingOpens s (submit_checked d s auth b seller item o).0
unfolding submit_checked
submit_checked-NothingOpens d s auth b seller item (some (status, error)) h there =
    same-NothingOpens s
submit_checked-NothingOpens d s auth b seller item none h there =
    accept_submission-NothingOpens d auth b (names_of b) s seller item h there
