-- ===== src/Platform/Market/Sound/Upkeep.antt =====
-- Heartbeats and rotated signing keys keep the market sound.
use remote_subagent_protocol.Prelude.{
  String, ◌≡◌, refl, sym, ap, ◌∙◌, Bool, true, false, Option, none, some, ◌==◌, if◌then◌else◌,
}
use remote_subagent_protocol.Prelude.Dict.{Dict, get, put}
use remote_subagent_protocol.Platform.Answer.{Answer, ok, failed}
use remote_subagent_protocol.Platform.Keys.{Status, ReviewStatus, SellerAccount, KeyRecord}
use remote_subagent_protocol.Platform.Market.Access.{is_enabled, is_approved}
use remote_subagent_protocol.Platform.Market.{Market, Item, Draw}
use remote_subagent_protocol.Platform.Market.Upkeep.{
  change_own, set_seller_and_items, KeyBody, rotate_named, rotate_found, rotate_seller_signing_key,
  heartbeat_found, heartbeat_read, heartbeat,
}
use remote_subagent_protocol.Platform.Market.Sound.{
  IsReviewed, MarketIsSound, ItemIsSound, change_seller-IsSound, map_values-IsSound,
}

-- What upkeep leaves alone of an item.
abbrev pub KeepsItems : (Item → Item) → Type 0
KeepsItems f =
    (i : Item)
    → ((f i).subagent_id ≡ i.subagent_id)
      × ((f i).seller_id ≡ i.seller_id)
      × ((f i).status ≡ i.status)
      × ((f i).review_status ≡ i.review_status)

pub change_own-KeepsItems :
    (id : String) (f : Item → Item) → KeepsItems f → KeepsItems (change_own id f)
unfolding change_own
change_own-KeepsItems id f keeps i = own (i.seller_id == id)
  where
    own :
        (b : Bool)
        → ((if b then f i else i).subagent_id ≡ i.subagent_id)
          × ((if b then f i else i).seller_id ≡ i.seller_id)
          × ((if b then f i else i).status ≡ i.status)
          × ((if b then f i else i).review_status ≡ i.review_status)
    own true = keeps i
    own false = (refl, refl, refl, refl)

same-IsReviewed :
    {status status' : Status} {review review' : ReviewStatus}
    → status' ≡ status
    → review' ≡ review
    → IsReviewed status review
    → IsReviewed status' review'
same-IsReviewed same_status same_review h e =
    ap is_approved same_review ∙ h (ap is_enabled (sym same_status) ∙ e)

KeepsItems-ItemIsSound :
    (sellers : Dict SellerAccount) (f : Item → Item)
    → KeepsItems f
    → (k : String) (i : Item) → ItemIsSound sellers k i
    → ItemIsSound sellers k (f i)
KeepsItems-ItemIsSound sellers f keeps k i h =
    let (id, seller, status, review) = keeps i in
    record {
      own_id = id ∙ h.own_id;
      reviewed = same-IsReviewed status review h.reviewed;
      owner = h.owner;
      owned = ap (get sellers) seller ∙ h.owned;
      listed = h.listed;
    }

module _ (s : Market) (h : MarketIsSound s) where
  set_seller_and_items-IsSound :
      (id : String) (a a' : SellerAccount) (f : Item → Item)
      → get s.accounts.sellers id ≡ some a
      → a'.seller_id ≡ a.seller_id
      → a'.subagent_ids ≡ a.subagent_ids
      → a'.status ≡ a.status
      → a'.review_status ≡ a.review_status
      → KeepsItems f
      → MarketIsSound (set_seller_and_items id a' f s)
  unfolding set_seller_and_items
  set_seller_and_items-IsSound id a a' f there same_id same_list status review keeps =
      map_values-IsSound (put s.accounts.sellers id a') s.catalog
        (change_seller-IsSound s.accounts.sellers s.catalog h id a a' there same_id same_list
          (same-IsReviewed status review (h.sellers_sound id a there).reviewed))
        (change_own id f)
        (KeepsItems-ItemIsSound (put s.accounts.sellers id a') (change_own id f)
          (change_own-KeepsItems id f keeps))

  heartbeat_found-IsSound :
      (d : Draw) (id : String) (status : Option String) (o : Option SellerAccount)
      → get s.accounts.sellers id ≡ o
      → MarketIsSound (heartbeat_found d id s status o).0
  unfolding heartbeat_found
  heartbeat_found-IsSound d id status none there = h
  heartbeat_found-IsSound d id status (some a) there =
      set_seller_and_items-IsSound id a _ _ there refl refl refl refl
        (λ i. (refl, refl, refl, refl))

  heartbeat_read-IsSound :
      (d : Draw) (id : String) (allowed : Answer Unit) (body : Option (Option String))
      → MarketIsSound (heartbeat_read d id s allowed body).0
  unfolding heartbeat_read
  heartbeat_read-IsSound d id (failed status error) body = h
  heartbeat_read-IsSound d id (ok _) none = h
  heartbeat_read-IsSound d id (ok _) (some status) = heartbeat_found-IsSound d id status _ refl

  pub heartbeat-IsSound :
      (d : Draw) (id : String) (auth : Option KeyRecord) (body : Option (Option String))
      → MarketIsSound (heartbeat d id s auth body).0
  unfolding heartbeat
  heartbeat-IsSound d id auth body = heartbeat_read-IsSound d id _ body

  rotate_named-IsSound :
      (id : String) (b : KeyBody) (a : SellerAccount) (next : String) (named : Bool)
      → get s.accounts.sellers id ≡ some a
      → MarketIsSound (rotate_named id b s a next named).0
  unfolding rotate_named
  rotate_named-IsSound id b a next false there = h
  rotate_named-IsSound id b a next true there =
      set_seller_and_items-IsSound id a _ _ there refl refl refl refl
        (λ i. (refl, refl, refl, refl))

  rotate_found-IsSound :
      (id : String) (b : KeyBody) (o : Option SellerAccount)
      → get s.accounts.sellers id ≡ o
      → MarketIsSound (rotate_found id b s o).0
  unfolding rotate_found
  rotate_found-IsSound id b none there = h
  rotate_found-IsSound id b (some a) there = rotate_named-IsSound id b a _ _ there

  pub rotate_seller_signing_key-IsSound :
      (id : String) (b : KeyBody) → MarketIsSound (rotate_seller_signing_key id b s).0
  unfolding rotate_seller_signing_key
  rotate_seller_signing_key-IsSound id b = rotate_found-IsSound id b _ refl
