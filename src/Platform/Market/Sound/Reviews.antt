-- ===== src/Platform/Market/Sound/Reviews.antt =====
-- Reviews keep the market sound.
use remote_subagent_protocol.Prelude.{String, ◌≡◌, refl, Bool, true, false, Option, none, some}
use remote_subagent_protocol.Prelude.Dict.{get}
use remote_subagent_protocol.Platform.Answer.{Answer, ok, failed}
use remote_subagent_protocol.Platform.Keys.{SellerAccount, KeyRecord}
use remote_subagent_protocol.Platform.Market.{
  Market, Item, Draw, append_audit_event, append_review_event,
}
use remote_subagent_protocol.Platform.Market.Access.{is_approved}
use remote_subagent_protocol.Platform.Market.Review.{
  Verb, approve, reject, disable, enable, Body, enable_seller, seller_found, enable_item,
  answer_item, item_found, seller_read, item_read, review_seller, review_item,
}
use remote_subagent_protocol.Platform.Market.Sound.{
  MarketIsSound, change_seller-IsSound, change_item-IsSound,
}

module _ (d : Draw) (auth : Option KeyRecord) (s : Market) (h : MarketIsSound s) where
  enable_seller-IsSound :
      (id : String) (a : SellerAccount) (b : Bool)
      → get s.accounts.sellers id ≡ some a
      → is_approved a.review_status ≡ b
      → MarketIsSound (enable_seller d auth s id a b).0
  unfolding enable_seller append_audit_event
  enable_seller-IsSound id a false there e = h
  enable_seller-IsSound id a true there e =
      change_seller-IsSound s.accounts.sellers s.catalog h id a _ there refl refl (λ _. e)

  seller_found-IsSound :
      (verb : Verb) (b : Body) (id : String) (o : Option SellerAccount)
      → get s.accounts.sellers id ≡ o
      → MarketIsSound (seller_found d auth s verb b id o).0
  unfolding seller_found append_audit_event append_review_event
  seller_found-IsSound verb b id none there = h
  seller_found-IsSound approve b id (some a) there =
      change_seller-IsSound s.accounts.sellers s.catalog h id a _ there refl refl (λ _. refl)
  seller_found-IsSound reject b id (some a) there =
      change_seller-IsSound s.accounts.sellers s.catalog h id a _ there refl refl
        (λ e. absurd (cc e))
  seller_found-IsSound disable b id (some a) there =
      change_seller-IsSound s.accounts.sellers s.catalog h id a _ there refl refl
        (λ e. absurd (cc e))
  seller_found-IsSound enable b id (some a) there = enable_seller-IsSound id a _ there refl

  seller_read-IsSound :
      (verb : Verb) (id : String) (body : Option Body) (allowed : Answer Unit)
      → MarketIsSound (seller_read d auth s verb id body allowed).0
  unfolding seller_read
  seller_read-IsSound verb id body (failed status error) = h
  seller_read-IsSound verb id none (ok _) = h
  seller_read-IsSound verb id (some b) (ok _) = seller_found-IsSound verb b id _ refl

  pub review_seller-IsSound :
      (verb : Verb) (id : String) (body : Option Body)
      → MarketIsSound (review_seller d auth verb id body s).0
  unfolding review_seller
  review_seller-IsSound verb id body = seller_read-IsSound verb id _ _

  enable_item-IsSound :
      (id : String) (i : Item) (b : Bool)
      → get s.catalog id ≡ some i
      → is_approved i.review_status ≡ b
      → MarketIsSound (enable_item d auth s id i b).0
  unfolding enable_item answer_item append_audit_event
  enable_item-IsSound id i false there e = h
  enable_item-IsSound id i true there e =
      change_item-IsSound s.accounts.sellers s.catalog h id i _ there refl refl (λ _. e)

  item_found-IsSound :
      (verb : Verb) (b : Body) (id : String) (o : Option Item)
      → get s.catalog id ≡ o
      → MarketIsSound (item_found d auth s verb b id o).0
  unfolding item_found answer_item append_audit_event append_review_event
  item_found-IsSound verb b id none there = h
  item_found-IsSound approve b id (some i) there =
      change_item-IsSound s.accounts.sellers s.catalog h id i _ there refl refl (λ _. refl)
  item_found-IsSound reject b id (some i) there =
      change_item-IsSound s.accounts.sellers s.catalog h id i _ there refl refl (λ e. absurd (cc e))
  item_found-IsSound disable b id (some i) there =
      change_item-IsSound s.accounts.sellers s.catalog h id i _ there refl refl (λ e. absurd (cc e))
  item_found-IsSound enable b id (some i) there = enable_item-IsSound id i _ there refl

  item_read-IsSound :
      (verb : Verb) (id : String) (body : Option Body) (allowed : Answer Unit)
      → MarketIsSound (item_read d auth s verb id body allowed).0
  unfolding item_read
  item_read-IsSound verb id body (failed status error) = h
  item_read-IsSound verb id none (ok _) = h
  item_read-IsSound verb id (some b) (ok _) = item_found-IsSound verb b id _ refl

  pub review_item-IsSound :
      (verb : Verb) (id : String) (body : Option Body)
      → MarketIsSound (review_item d auth verb id body s).0
  unfolding review_item
  review_item-IsSound verb id body = item_read-IsSound verb id _ _
