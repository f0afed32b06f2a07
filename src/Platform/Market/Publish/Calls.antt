-- ===== src/Platform/Market/Publish/Calls.antt =====
-- No call of anybody but an operator makes a subagent public.
use remote_subagent_protocol.Prelude.{
  ℕ, String, ◌≡◌, refl, sym, ap, ◌∙◌, subst, Bool, true, false, Option, none, some,
}
use remote_subagent_protocol.Prelude.Dict.{get, get-map_values_from}
use remote_subagent_protocol.Contracts.{StructuredError}
use remote_subagent_protocol.Platform.Answer.{Answer, ok, failed}
use remote_subagent_protocol.Platform.Keys.{
  SellerAccount, KeyRecord, admin_key, buyer_key, seller_key,
}
use remote_subagent_protocol.Platform.Keys.Roles.{Registration}
use remote_subagent_protocol.Platform.Market.{Market, Item, Draw}
use remote_subagent_protocol.Platform.Market.Upkeep.{
  change_own, set_seller_and_items, heartbeat_found, heartbeat_read, heartbeat,
}
use remote_subagent_protocol.Platform.Market.Admin.{
  grant_read, grant_role, rotate_buyer_read, rotate_buyer, rotate_seller_read, rotate_seller,
  rotate_signing_read, rotate_signing, revoke_read, revoke, register,
}
use remote_subagent_protocol.Platform.Market.Operations.{
  Route, users_register, sellers_register, catalog_submit, seller_review, subagent_review,
  seller_heartbeat, user_roles, user_key_rotate, seller_key_rotate, signing_key_rotate, key_revoke,
  Call, resolve_auth, serve_route, serve,
}
use remote_subagent_protocol.Platform.Market.Sound.{MarketIsSound}
use remote_subagent_protocol.Platform.Market.Sound.Keys.{register_buyer_user-sellers}
use remote_subagent_protocol.Platform.Market.Sound.Upkeep.{KeepsItems, change_own-KeepsItems}
use remote_subagent_protocol.Platform.Market.Access.{
  is_seller_routable, is_subagent_routable, is_public, is_operator_auth, operator_role,
  require_operator,
}
use remote_subagent_protocol.Platform.Market.Submit.{Body}
use remote_subagent_protocol.Platform.Market.Submit.Routes.{
  submit_named, submit_catalog_subagent, submit_limited, register_limited, post_submission,
  register_seller,
}
use remote_subagent_protocol.Platform.Market.Review.{
  body_read, seller_read, item_read, review_seller, review_item,
}
use remote_subagent_protocol.Platform.Market.Publish.{
  NothingOpens, same-NothingOpens, put_seller-closes, submit_checked-NothingOpens, hidden_stays,
}

module _ (d : Draw) (s : Market) (h : MarketIsSound s) where
  submit_named-NothingOpens :
      (auth : Option KeyRecord) (b : Body) (allow named : Bool)
      → NothingOpens s (submit_named d s auth b allow named).0
  unfolding submit_named
  submit_named-NothingOpens auth b allow false = same-NothingOpens s
  submit_named-NothingOpens auth b allow true = submit_checked-NothingOpens d s auth b _ _ _ h refl

  submit_limited-NothingOpens :
      (auth : Option KeyRecord) (within : Bool) (body : Option Body)
      → NothingOpens s (submit_limited d s auth within body).0
  unfolding submit_limited submit_catalog_subagent
  submit_limited-NothingOpens auth false body = same-NothingOpens s
  submit_limited-NothingOpens auth true none = same-NothingOpens s
  submit_limited-NothingOpens auth true (some b) = submit_named-NothingOpens auth b false _

  post_submission-NothingOpens :
      (auth : Option KeyRecord) (within : Bool) (body : Option Body)
      → NothingOpens s (post_submission d s auth within body).0
  unfolding post_submission
  post_submission-NothingOpens none within body = same-NothingOpens s
  post_submission-NothingOpens (some admin_key) within body = same-NothingOpens s
  post_submission-NothingOpens (some (buyer_key user scopes)) within body =
      submit_limited-NothingOpens _ within body
  post_submission-NothingOpens (some (seller_key id owner scopes subagents)) within body =
      submit_limited-NothingOpens _ within body

  register_limited-NothingOpens :
      (auth : Option KeyRecord) (within : Bool) (b : Body)
      → NothingOpens s (register_limited d s auth within b).0
  unfolding register_limited submit_catalog_subagent
  register_limited-NothingOpens auth false b = same-NothingOpens s
  register_limited-NothingOpens auth true b = submit_named-NothingOpens auth b true _

  register_seller-NothingOpens :
      (auth : Option KeyRecord) (within : Bool) (body : Option Body)
      → NothingOpens s (register_seller d s auth within body).0
  unfolding register_seller
  register_seller-NothingOpens auth within none = same-NothingOpens s
  register_seller-NothingOpens none within (some b) = register_limited-NothingOpens none within b
  register_seller-NothingOpens (some admin_key) within (some b) = same-NothingOpens s
  register_seller-NothingOpens (some (buyer_key user scopes)) within (some b) =
      register_limited-NothingOpens _ within b
  register_seller-NothingOpens (some (seller_key id owner scopes subagents)) within (some b) =
      register_limited-NothingOpens _ within b

  set_seller_and_items-NothingOpens :
      (id : String) (a a' : SellerAccount) (f : Item → Item)
      → get s.accounts.sellers id ≡ some a
      → a'.status ≡ a.status
      → a'.review_status ≡ a.review_status
      → KeepsItems f
      → NothingOpens s (set_seller_and_items id a' f s)
  unfolding set_seller_and_items
  set_seller_and_items-NothingOpens id a a' f there status review keeps = record {
    sellers_close =
        put_seller-closes s.accounts.sellers id a'
          (λ e. ap is_seller_routable there ∙ (rw (sym status, sym review) e));
    items_close = λ k i found e.
        let (old, before, made) = get-map_values_from (change_own id f) s.catalog k i found in
        let (same_id, seller, status, review) = change_own-KeepsItems id f keeps old in
        (
          old,
          before,
          ap (λ x. x.seller_id) made ∙ seller,
          rw (sym status, sym review) (subst (λ x. is_subagent_routable x ≡ true) made e),
        );
  }

  heartbeat_found-NothingOpens :
      (id : String) (status : Option String) (o : Option SellerAccount)
      → get s.accounts.sellers id ≡ o
      → NothingOpens s (heartbeat_found d id s status o).0
  unfolding heartbeat_found
  heartbeat_found-NothingOpens id status none there = same-NothingOpens s
  heartbeat_found-NothingOpens id status (some a) there =
      set_seller_and_items-NothingOpens id a _ _ there refl refl (λ i. (refl, refl, refl, refl))

  heartbeat_read-NothingOpens :
      (id : String) (allowed : Answer Unit) (body : Option (Option String))
      → NothingOpens s (heartbeat_read d id s allowed body).0
  unfolding heartbeat_read
  heartbeat_read-NothingOpens id (failed status error) body = same-NothingOpens s
  heartbeat_read-NothingOpens id (ok _) none = same-NothingOpens s
  heartbeat_read-NothingOpens id (ok _) (some status) =
      heartbeat_found-NothingOpens id status _ refl

-- Who is no operator is refused by every operators' route.
require_operator-fails :
    (s : Market) (auth : Option KeyRecord)
    → is_operator_auth s auth ≡ false
    → (status : ℕ) × (error : StructuredError) × (require_operator s auth ≡ failed status error)
unfolding is_operator_auth require_operator
require_operator-fails s none lacks = (_, _, refl)
require_operator-fails s (some admin_key) lacks = absurd (cc lacks)
require_operator-fails s (some (buyer_key user scopes)) lacks = (_, _, ap operator_role lacks)
require_operator-fails s (some (seller_key id owner scopes subagents)) lacks = (_, _, refl)

register-NothingOpens :
    (d : Draw) (auth : Option KeyRecord) (s : Market) (within : Bool) (b : Option Registration)
    → NothingOpens s (register d auth s within b).0
unfolding register
register-NothingOpens d auth s false b = same-NothingOpens s
register-NothingOpens d auth s true none = same-NothingOpens s
register-NothingOpens d auth s true (some b) = record {
  sellers_close = λ id e.
      ap (λ m. is_seller_routable (get m id))
        (sym (register_buyer_user-sellers d.now d.user_id d.api_key b s.accounts))
      ∙ e;
  items_close = λ k i there e. (i, there, refl, e);
}

module _ (d : Draw) (auth : Option KeyRecord) (s : Market) (h : MarketIsSound s)
    (lacks : is_operator_auth s auth ≡ false) where
  -- An operators' route, given what its guard answers.
  refused-NothingOpens :
      (step : Answer Unit → Market)
      → ((status : ℕ) (error : StructuredError) → step (failed status error) ≡ s)
      → NothingOpens s (step (require_operator s auth))
  refused-NothingOpens step stops =
      let (status, error, fails) = require_operator-fails s auth lacks in
      subst (NothingOpens s) (sym (ap step fails ∙ stops status error)) (same-NothingOpens s)

  serve_route-NothingOpens :
      (within : Bool) (r : Route) → NothingOpens s (serve_route d auth within r s)
  unfolding serve_route grant_role grant_read rotate_buyer rotate_buyer_read rotate_seller
      rotate_seller_read rotate_signing rotate_signing_read revoke revoke_read review_seller
      seller_read review_item item_read heartbeat
  serve_route-NothingOpens within (users_register b) = register-NothingOpens d auth s within b
  serve_route-NothingOpens within (sellers_register b) =
      register_seller-NothingOpens d s h auth within b
  serve_route-NothingOpens within (catalog_submit b) =
      post_submission-NothingOpens d s h auth within b
  serve_route-NothingOpens within (seller_review verb id b) =
      refused-NothingOpens (λ x. (seller_read d auth s verb id (body_read verb b) x).0)
        (λ status error. refl)
  serve_route-NothingOpens within (subagent_review verb id b) =
      refused-NothingOpens (λ x. (item_read d auth s verb id (body_read verb b) x).0)
        (λ status error. refl)
  serve_route-NothingOpens within (seller_heartbeat id b) = heartbeat_read-NothingOpens d s h id _ b
  serve_route-NothingOpens within (user_roles id b) =
      refused-NothingOpens (λ x. (grant_read d auth s id b x).0) (λ status error. refl)
  serve_route-NothingOpens within (user_key_rotate id) =
      refused-NothingOpens (λ x. (rotate_buyer_read d auth s id x).0) (λ status error. refl)
  serve_route-NothingOpens within (seller_key_rotate id) =
      refused-NothingOpens (λ x. (rotate_seller_read d auth s id x).0) (λ status error. refl)
  serve_route-NothingOpens within (signing_key_rotate id b) =
      refused-NothingOpens (λ x. (rotate_signing_read d auth s id b x).0) (λ status error. refl)
  serve_route-NothingOpens within (key_revoke b) =
      refused-NothingOpens (λ x. (revoke_read d auth s b x).0) (λ status error. refl)

-- On a sound market, a call of the platform by anybody but an operator, whatever the route, leaves
-- every subagent hidden that was hidden, and so also one that was not there.
pub only_operators_publish :
    (c : Call) (s : Market) (k : String)
    → MarketIsSound s
    → is_operator_auth s (resolve_auth s c.bearer) ≡ false
    → is_public s (get s.catalog k) ≡ false
    → is_public (serve c s) (get (serve c s).catalog k) ≡ false
unfolding serve
only_operators_publish c s k h lacks hidden =
    hidden_stays s _ k
      (serve_route-NothingOpens c.draw (resolve_auth s c.bearer) s h lacks c.within_limit c.route)
      hidden
