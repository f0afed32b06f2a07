-- ===== src/Platform/Market/Operations.antt =====
-- Every call of the platform that changes accounts or catalog, and histories of calls.
use remote_subagent_protocol.Prelude.{String, Bool, Option, List, [], ◌∷◌, and_then}
use remote_subagent_protocol.Prelude.Dict.{get}
use remote_subagent_protocol.Platform.Keys.{KeyRecord}
use remote_subagent_protocol.Platform.Keys.Roles.{Registration}
use remote_subagent_protocol.Platform.Market.{Market, Draw}
use remote_subagent_protocol.Platform.Market.Review.{
  Verb, review_seller, review_item, Body as Review,
}
use remote_subagent_protocol.Platform.Market.Submit.{Body as Submission}
use remote_subagent_protocol.Platform.Market.Submit.Routes.{post_submission, register_seller}
use remote_subagent_protocol.Platform.Market.Upkeep.{KeyBody, heartbeat}
use remote_subagent_protocol.Platform.Market.Admin.{
  RoleBody, grant_role, rotate_buyer, rotate_seller, rotate_signing, revoke, register,
}

-- The routes, with what they read of path and body.
pub data Route : Type 0 where
  users_register : Option Registration → Route
  sellers_register : Option Submission → Route
  catalog_submit : Option Submission → Route
  seller_review : Verb → String → Option Review → Route
  subagent_review : Verb → String → Option Review → Route
  seller_heartbeat : String → Option (Option String) → Route
  user_roles : String → Option RoleBody → Route
  user_key_rotate : String → Route
  seller_key_rotate : String → Route
  signing_key_rotate : String → Option KeyBody → Route
  key_revoke : Option (Option String) → Route

-- A call: the key behind `Bearer` in its header, the rate limiter's verdict, and its draws.
pub record Call : Type 0 where
  pub bearer : Option String
  pub within_limit : Bool
  pub draw : Draw
  pub route : Route

-- `resolveAuth`
unfoldable pub resolve_auth : Market → Option String → Option KeyRecord
resolve_auth s bearer = and_then bearer (λ key. get s.accounts.api_keys key)

unfoldable pub serve_route : Draw → Option KeyRecord → Bool → Route → Market → Market
serve_route d auth within (users_register b) s = (register d auth s within b).0
serve_route d auth within (sellers_register b) s = (register_seller d s auth within b).0
serve_route d auth within (catalog_submit b) s = (post_submission d s auth within b).0
serve_route d auth within (seller_review verb id b) s = (review_seller d auth verb id b s).0
serve_route d auth within (subagent_review verb id b) s = (review_item d auth verb id b s).0
serve_route d auth within (seller_heartbeat id b) s = (heartbeat d id s auth b).0
serve_route d auth within (user_roles id b) s = (grant_role d auth s id b).0
serve_route d auth within (user_key_rotate id) s = (rotate_buyer d auth s id).0
serve_route d auth within (seller_key_rotate id) s = (rotate_seller d auth s id).0
serve_route d auth within (signing_key_rotate id b) s = (rotate_signing d auth s id b).0
serve_route d auth within (key_revoke b) s = (revoke d auth s b).0

unfoldable pub serve : Call → Market → Market
unfolding serve_route
serve c s = serve_route c.draw (resolve_auth s c.bearer) c.within_limit c.route s

unfoldable pub serve_all : List Call → Market → Market
unfolding serve
serve_all [] s = s
serve_all (c ∷ cs) s = serve_all cs (serve c s)
