-- ===== src/Platform/Market/Sound.antt =====
-- A sound market: accounts and items stand under their own ids, none is enabled that is not
-- approved, and every item's seller is there and lists it. What the steps do to it.
pub mod Reviews
pub mod Submissions
pub mod Keys
pub mod Upkeep
pub mod Calls
use remote_subagent_protocol.Prelude.{
  String, ◌≡◌, refl, sym, ap, ◌∙◌, subst, Bool, true, false, Option, none, some, arith, eq_iff,
  eq_refl, ◌==◌, Bool-cases, ◌⊎◌, inl, inr, includes, List,
}
use remote_subagent_protocol.Prelude.Dict.{
  Dict, get, put, get-put, put_cases, map_values, get-map_values_from,
}
use remote_subagent_protocol.Platform.Keys.{Status, ReviewStatus, SellerAccount}
use remote_subagent_protocol.Platform.Market.{Item, Market}
use remote_subagent_protocol.Platform.Market.Access.{is_enabled, is_approved}

-- Enabled only where approved.
abbrev pub IsReviewed : Status → ReviewStatus → Type 0
IsReviewed status review_status = is_enabled status ≡ true → is_approved review_status ≡ true

pub record SellerIsSound (k : String) (a : SellerAccount) : Type 0 where
  pub own_id : a.seller_id ≡ k
  pub reviewed : IsReviewed a.status a.review_status

pub record ItemIsSound (sellers : Dict SellerAccount) (k : String) (i : Item) : Type 0 where
  pub own_id : i.subagent_id ≡ k
  pub reviewed : IsReviewed i.status i.review_status
  pub owner : SellerAccount
  pub owned : get sellers i.seller_id ≡ some owner
  pub listed : includes owner.subagent_ids k ≡ true

pub record IsSound (sellers : Dict SellerAccount) (catalog : Dict Item) : Type 0 where
  pub sellers_sound : (k : String) (a : SellerAccount) → get sellers k ≡ some a → SellerIsSound k a
  pub items_sound : (k : String) (i : Item) → get catalog k ≡ some i → ItemIsSound sellers k i

-- Every subagent of the one is one of the other.
abbrev pub Extends : SellerAccount → SellerAccount → Type 0
Extends a a' = (x : String) → includes a.subagent_ids x ≡ true → includes a'.subagent_ids x ≡ true

module _ (sellers : Dict SellerAccount) (catalog : Dict Item) (h : IsSound sellers catalog) where
  put_seller-ItemIsSound :
      (id : String) (a' : SellerAccount)
      → ((a : SellerAccount) → get sellers id ≡ some a → Extends a a')
      → (k : String) (i : Item) → ItemIsSound sellers k i
      → ItemIsSound (put sellers id a') k i
  put_seller-ItemIsSound id a' extends k i item = elim (Bool-cases (id == i.seller_id)) [
    | inl same ↦ record {
      own_id = item.own_id;
      reviewed = item.reviewed;
      owner = a';
      owned = get-put sellers id i.seller_id a' ∙ (rw same refl);
      listed =
          extends item.owner (ap (get sellers) ((eq_iff id i.seller_id).0 same) ∙ item.owned) k
            item.listed;
    }
    | inr other ↦ record {
      own_id = item.own_id;
      reviewed = item.reviewed;
      owner = item.owner;
      owned = get-put sellers id i.seller_id a' ∙ (rw other item.owned);
      listed = item.listed;
    }
  ]

  pub put_seller-IsSound :
      (id : String) (a' : SellerAccount)
      → SellerIsSound id a'
      → ((a : SellerAccount) → get sellers id ≡ some a → Extends a a')
      → IsSound (put sellers id a') catalog
  put_seller-IsSound id a' sound extends = record {
    sellers_sound = λ k a there. elim (put_cases sellers id k a' a there) [
      | inl (same, new) ↦ subst (λ x. SellerIsSound x a) same (subst (SellerIsSound id) new sound)
      | inr (_, old) ↦ h.sellers_sound k a old
    ];
    items_sound = λ k i there. put_seller-ItemIsSound id a' extends k i (h.items_sound k i there);
  }

  pub put_item-IsSound :
      (id : String) (i' : Item) → ItemIsSound sellers id i' → IsSound sellers (put catalog id i')
  put_item-IsSound id i' sound = record {
    sellers_sound = h.sellers_sound;
    items_sound = λ k i there. elim (put_cases catalog id k i' i there) [
      | inl (same, new) ↦
          subst (λ x. ItemIsSound sellers x i) same (subst (ItemIsSound sellers id) new sound)
      | inr (_, old) ↦ h.items_sound k i old
    ];
  }

  pub map_values-IsSound :
      (f : Item → Item)
      → ((k : String) (i : Item) → ItemIsSound sellers k i → ItemIsSound sellers k (f i))
      → IsSound sellers (map_values f catalog)
  map_values-IsSound f keeps = record {
    sellers_sound = h.sellers_sound;
    items_sound = λ k i there.
        let (old, found, new) = get-map_values_from f catalog k i there in
        subst (ItemIsSound sellers k) (sym new) (keeps k old (h.items_sound k old found));
  }

  -- A seller, or an item, that changes but for what ties them together.
  pub change_seller-IsSound :
      (id : String) (a a' : SellerAccount)
      → get sellers id ≡ some a
      → a'.seller_id ≡ a.seller_id
      → a'.subagent_ids ≡ a.subagent_ids
      → IsReviewed a'.status a'.review_status
      → IsSound (put sellers id a') catalog
  change_seller-IsSound id a a' there same_id same_list reviewed =
      put_seller-IsSound id a'
        (record { own_id = same_id ∙ (h.sellers_sound id a there).own_id; reviewed = reviewed })
        (λ b found x listed.
          let one : b ≡ a = cc (found, there) in
          cc (same_list, listed, ap (λ y. includes y.subagent_ids x) one))

  pub change_item-IsSound :
      (id : String) (i i' : Item)
      → get catalog id ≡ some i
      → i'.subagent_id ≡ i.subagent_id
      → i'.seller_id ≡ i.seller_id
      → IsReviewed i'.status i'.review_status
      → IsSound sellers (put catalog id i')
  change_item-IsSound id i i' there same_id same_seller reviewed =
      let item = h.items_sound id i there in
      put_item-IsSound id i' (record {
        own_id = same_id ∙ item.own_id;
        reviewed = reviewed;
        owner = item.owner;
        owned = ap (get sellers) same_seller ∙ item.owned;
        listed = item.listed;
      })

-- The market's own sellers and catalog.
abbrev pub MarketIsSound : Market → Type 0
MarketIsSound s = IsSound s.accounts.sellers s.catalog
