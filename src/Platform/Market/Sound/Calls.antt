-- ===== src/Platform/Market/Sound/Calls.antt =====
-- Every call, and every history of calls, keeps the market sound.
use remote_subagent_protocol.Prelude.{
  String, ◌≡◌, sym, subst, Bool, true, false, Option, none, some, List, [], ◌∷◌,
}
use remote_subagent_protocol.Platform.Answer.{Answer, ok, failed}
use remote_subagent_protocol.Platform.Keys.{
  User, KeyRecord, Accounts, revoke_api_key, rotate_buyer_api_key, rotate_seller_api_key,
}
use remote_subagent_protocol.Platform.Keys.Roles.{Registration, register_buyer_user}
use remote_subagent_protocol.Platform.Market.{Market, Draw, Target, append_audit_event}
use remote_subagent_protocol.Platform.Market.Upkeep.{KeyBody, Rotated, rotate_seller_signing_key}
use remote_subagent_protocol.Platform.Market.Admin.{
  Issued, rotated, RoleBody, granted, grant_named, grant_read, grant_role, rotate_buyer_read,
  rotate_buyer, rotate_seller_read, rotate_seller, signing_rotated, rotate_signing_read,
  rotate_signing, revoke_found, revoke_named, revoke_read, revoke, register,
}
use remote_subagent_protocol.Platform.Market.Operations.{
  Route, users_register, sellers_register, catalog_submit, seller_review, subagent_review,
  seller_heartbeat, user_roles, user_key_rotate, seller_key_rotate, signing_key_rotate, key_revoke,
  Call, resolve_auth, serve_route, serve, serve_all,
}
use remote_subagent_protocol.Platform.Market.Sound.{MarketIsSound, IsSound}
use remote_subagent_protocol.Platform.Market.Sound.Keys.{
  SameButKeys, SameButKeys-IsSound, revoke_api_key-SameButKeys, rotate_buyer_api_key-SameButKeys,
  rotate_seller_api_key-SameButKeys, register_buyer_user-sellers, add_user_role-sellers,
}
use remote_subagent_protocol.Platform.Market.Sound.Upkeep.{
  heartbeat-IsSound, rotate_seller_signing_key-IsSound,
}
use remote_subagent_protocol.Platform.Market.Sound.Reviews.{
  review_seller-IsSound, review_item-IsSound,
}
use remote_subagent_protocol.Platform.Market.Sound.Submissions.{
  post_submission-IsSound, register_seller-IsSound,
}

module _ (d : Draw) (auth : Option KeyRecord) (s : Market) (h : MarketIsSound s) where
  -- Accounts that change but in the keys of sellers.
  same-IsSound :
      (accounts : Accounts)
      → SameButKeys s.accounts.sellers accounts.sellers
      → IsSound accounts.sellers s.catalog
  same-IsSound accounts same =
      SameButKeys-IsSound s.accounts.sellers accounts.sellers s.catalog same h

  equal-IsSound :
      (accounts : Accounts)
      → accounts.sellers ≡ s.accounts.sellers
      → IsSound accounts.sellers s.catalog
  equal-IsSound accounts same = subst (λ x. IsSound x s.catalog) (sym same) h

  register-IsSound :
      (within : Bool) (b : Option Registration) → MarketIsSound (register d auth s within b).0
  unfolding register
  register-IsSound false b = h
  register-IsSound true none = h
  register-IsSound true (some b) =
      equal-IsSound (register_buyer_user d.now d.user_id d.api_key b s.accounts).0
        (register_buyer_user-sellers d.now d.user_id d.api_key b s.accounts)

  granted-IsSound :
      (role : String) (r : Accounts × Option User)
      → r.0.sellers ≡ s.accounts.sellers
      → MarketIsSound (granted d auth s role r).0
  unfolding granted append_audit_event
  granted-IsSound role (accounts, none) same = h
  granted-IsSound role (accounts, some user) same = equal-IsSound accounts same

  grant_named-IsSound :
      (id role : String) (named : Bool) → MarketIsSound (grant_named d auth s id role named).0
  unfolding grant_named
  grant_named-IsSound id role false = h
  grant_named-IsSound id role true =
      granted-IsSound role _ (add_user_role-sellers id role s.accounts)

  grant_read-IsSound :
      (id : String) (b : Option RoleBody) (allowed : Answer Unit)
      → MarketIsSound (grant_read d auth s id b allowed).0
  unfolding grant_read
  grant_read-IsSound id b (failed status error) = h
  grant_read-IsSound id none (ok _) = h
  grant_read-IsSound id (some b) (ok _) = grant_named-IsSound id _ _

  rotated-IsSound :
      (action : String) (target : Target) (missing : Answer Issued) (r : Accounts × Bool)
      → SameButKeys s.accounts.sellers r.0.sellers
      → MarketIsSound (rotated d auth s action target missing r).0
  unfolding append_audit_event
  rotated-IsSound action target missing (accounts, false) same = h
  rotated-IsSound action target missing (accounts, true) same = same-IsSound accounts same

  rotate_buyer_read-IsSound :
      (id : String) (allowed : Answer Unit)
      → MarketIsSound (rotate_buyer_read d auth s id allowed).0
  unfolding rotate_buyer_read
  rotate_buyer_read-IsSound id (failed status error) = h
  rotate_buyer_read-IsSound id (ok _) =
      rotated-IsSound _ _ _ (rotate_buyer_api_key d.api_key id s.accounts)
        (rotate_buyer_api_key-SameButKeys d.api_key id s.accounts)

  rotate_seller_read-IsSound :
      (id : String) (allowed : Answer Unit)
      → MarketIsSound (rotate_seller_read d auth s id allowed).0
  unfolding rotate_seller_read
  rotate_seller_read-IsSound id (failed status error) = h
  rotate_seller_read-IsSound id (ok _) =
      rotated-IsSound _ _ _ (rotate_seller_api_key d.api_key id s.accounts)
        (rotate_seller_api_key-SameButKeys d.api_key id s.accounts)

  signing_rotated-IsSound :
      (r : Market × Option (Answer Rotated))
      → MarketIsSound r.0
      → MarketIsSound (signing_rotated d auth s r).0
  unfolding signing_rotated append_audit_event
  signing_rotated-IsSound (after, none) fine = h
  signing_rotated-IsSound (after, some (failed status error)) fine = h
  signing_rotated-IsSound (after, some (ok r)) fine = fine

  rotate_signing_read-IsSound :
      (id : String) (b : Option KeyBody) (allowed : Answer Unit)
      → MarketIsSound (rotate_signing_read d auth s id b allowed).0
  unfolding rotate_signing_read
  rotate_signing_read-IsSound id b (failed status error) = h
  rotate_signing_read-IsSound id none (ok _) = h
  rotate_signing_read-IsSound id (some b) (ok _) =
      signing_rotated-IsSound (rotate_seller_signing_key id b s)
        (rotate_seller_signing_key-IsSound s h id b)

  revoke_found-IsSound :
      (key : String) (o : Option KeyRecord) → MarketIsSound (revoke_found d auth s key o).0
  unfolding revoke_found append_audit_event
  revoke_found-IsSound key none = h
  revoke_found-IsSound key (some k) =
      same-IsSound (revoke_api_key key s.accounts) (revoke_api_key-SameButKeys key s.accounts)

  revoke_named-IsSound :
      (key : String) (named : Bool) → MarketIsSound (revoke_named d auth s key named).0
  unfolding revoke_named
  revoke_named-IsSound key false = h
  revoke_named-IsSound key true = revoke_found-IsSound key _

  revoke_read-IsSound :
      (b : Option (Option String)) (allowed : Answer Unit)
      → MarketIsSound (revoke_read d auth s b allowed).0
  unfolding revoke_read
  revoke_read-IsSound b (failed status error) = h
  revoke_read-IsSound none (ok _) = h
  revoke_read-IsSound (some key) (ok _) = revoke_named-IsSound _ _

  serve_route-IsSound : (within : Bool) (r : Route) → MarketIsSound (serve_route d auth within r s)
  unfolding serve_route grant_role rotate_buyer rotate_seller rotate_signing revoke
  serve_route-IsSound within (users_register b) = register-IsSound within b
  serve_route-IsSound within (sellers_register b) = register_seller-IsSound d s h auth within b
  serve_route-IsSound within (catalog_submit b) = post_submission-IsSound d s h auth within b
  serve_route-IsSound within (seller_review verb id b) = review_seller-IsSound d auth s h verb id b
  serve_route-IsSound within (subagent_review verb id b) = review_item-IsSound d auth s h verb id b
  serve_route-IsSound within (seller_heartbeat id b) = heartbeat-IsSound s h d id auth b
  serve_route-IsSound within (user_roles id b) = grant_read-IsSound id b _
  serve_route-IsSound within (user_key_rotate id) = rotate_buyer_read-IsSound id _
  serve_route-IsSound within (seller_key_rotate id) = rotate_seller_read-IsSound id _
  serve_route-IsSound within (signing_key_rotate id b) = rotate_signing_read-IsSound id b _
  serve_route-IsSound within (key_revoke b) = revoke_read-IsSound b _

-- Whatever the calls to the platform, in whatever order and by whomever, a sound market stays
-- sound: sellers and subagents stand under their own ids, none is enabled that is not approved, and
-- the seller of every subagent is there and lists it.
pub serve_all_keeps_sound :
    (calls : List Call) (s : Market) → MarketIsSound s → MarketIsSound (serve_all calls s)
unfolding serve_all serve
serve_all_keeps_sound [] s h = h
serve_all_keeps_sound (c ∷ calls) s h =
    serve_all_keeps_sound calls (serve c s)
      (serve_route-IsSound c.draw (resolve_auth s c.bearer) s h c.within_limit c.route)
