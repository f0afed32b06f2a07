-- ===== src/Platform/Market/Access.antt =====
-- Who may see and change what in the catalog: `resolveCatalogVisibility`, `canManageSeller`,
-- `canViewCatalogItemDetail`, `requireAuth`, `requireBuyer`, `requireSeller` and `requireOperator`.
use remote_subagent_protocol.Prelude.{
  String, Bool, true, false, not, Option, none, some, ◌==◌, ◌&&◌, ◌||◌, includes, truthy, text_or,
}
use remote_subagent_protocol.Prelude.Dict.{get}
use remote_subagent_protocol.Platform.Answer.{Answer, ok, send_error}
use remote_subagent_protocol.Platform.Keys.{
  User, Status, enabled, disabled, ReviewStatus, approved, SellerAccount, KeyRecord, admin_key,
  buyer_key, seller_key,
}
use remote_subagent_protocol.Platform.Market.{Market, Item}

abbrev pub is_enabled : Status → Bool
is_enabled enabled = true
is_enabled disabled = false

abbrev pub is_approved : ReviewStatus → Bool
is_approved approved = true
is_approved _ = false

-- `isSellerRoutable`, also of a seller that is missing
abbrev pub is_seller_routable : Option SellerAccount → Bool
is_seller_routable none = false
is_seller_routable (some a) = is_approved a.review_status && is_enabled a.status

abbrev pub is_subagent_routable : Item → Bool
is_subagent_routable i = is_approved i.review_status && is_enabled i.status

-- `resolveCatalogVisibility(state, item) === "public"`
unfoldable pub is_public : Market → Option Item → Bool
is_public s none = false
is_public s (some i) =
    is_seller_routable (get s.accounts.sellers i.seller_id) && is_subagent_routable i

-- `(user?.roles || []).includes("admin")`
abbrev pub has_admin_role : Option User → Bool
has_admin_role none = false
has_admin_role (some u) = includes u.roles "admin"

unfoldable pub is_operator_auth : Market → Option KeyRecord → Bool
is_operator_auth s none = false
is_operator_auth s (some admin_key) = true
is_operator_auth s (some (buyer_key user scopes)) = has_admin_role (get s.accounts.users user)
is_operator_auth s (some (seller_key id owner scopes subagents)) = false

abbrev pub can_manage_seller : Option KeyRecord → Option SellerAccount → Bool
can_manage_seller (some (buyer_key user scopes)) (some a) = a.owner_user_id == user
can_manage_seller (some (seller_key id owner scopes subagents)) (some a) = id == a.seller_id
can_manage_seller _ _ = false

-- `auth?.type === "seller" && auth.subagent_ids?.includes(subagentId)`
abbrev pub lists_subagent : Option KeyRecord → String → Bool
lists_subagent (some (seller_key id owner scopes subagents)) subagent_id =
    includes subagents subagent_id
lists_subagent _ _ = false

unfoldable pub can_view_catalog_item_detail : Market → Option KeyRecord → Item → Bool
unfolding is_public is_operator_auth
can_view_catalog_item_detail s auth i =
    is_public s (some i)
    || is_operator_auth s auth
    || can_manage_seller auth (get s.accounts.sellers i.seller_id)
    || lists_subagent auth i.subagent_id

-- `requireOperator`
abbrev pub operator_role : Bool → Answer Unit
operator_role true = ok tt
operator_role false = send_error 403 "AUTH_SCOPE_FORBIDDEN" "caller does not have admin role"

unfoldable pub require_operator : Market → Option KeyRecord → Answer Unit
require_operator s none = send_error 401 "AUTH_UNAUTHORIZED" "API key is missing or invalid"
require_operator s (some admin_key) = ok tt
require_operator s (some (buyer_key user scopes)) =
    operator_role (has_admin_role (get s.accounts.users user))
require_operator s (some (seller_key id owner scopes subagents)) =
    send_error 403 "AUTH_SCOPE_FORBIDDEN" "caller lacks the required scope"

-- `requireAuth`
unfoldable pub require_auth : Option KeyRecord → Answer KeyRecord
require_auth none = send_error 401 "AUTH_UNAUTHORIZED" "API key is missing or invalid"
require_auth (some auth) = ok auth

-- `requireBuyer`, which gives the user
unfoldable pub require_buyer : Option KeyRecord → Answer String
require_buyer none = send_error 401 "AUTH_UNAUTHORIZED" "API key is missing or invalid"
require_buyer (some (buyer_key user scopes)) = ok user
require_buyer (some _) =
    send_error 403 "AUTH_SCOPE_FORBIDDEN" "caller lacks the required buyer scope"

-- Both tests of a seller, of the id and of the subagent.
abbrev pub seller_matches : Bool → Bool → Answer Unit
seller_matches false owned =
    send_error 403 "AUTH_RESOURCE_FORBIDDEN" "seller_id does not match caller identity"
seller_matches true false =
    send_error 403 "AUTH_RESOURCE_FORBIDDEN" "subagent_id is not owned by caller"
seller_matches true true = ok tt

-- `requireSeller`; only what the route names is tested.
unfoldable pub require_seller : Option KeyRecord → Option String → Option String → Answer Unit
require_seller none seller_id subagent_id =
    send_error 401 "AUTH_UNAUTHORIZED" "API key is missing or invalid"
require_seller (some (seller_key id owner scopes subagents)) seller_id subagent_id =
    seller_matches (not (truthy seller_id) || (id == text_or seller_id ""))
      (not (truthy subagent_id) || includes subagents (text_or subagent_id ""))
require_seller (some _) seller_id subagent_id =
    send_error 403 "AUTH_SCOPE_FORBIDDEN" "caller lacks the required seller scope"
