-- ===== src/Platform/Market/Admin.antt =====
-- The operators' routes for roles and keys: POST /v1/admin/users/:id/roles, the rotations of API
-- keys and signing keys, and POST /v1/admin/api-keys/revoke. A body of `none` is no JSON.
use remote_subagent_protocol.Prelude.{
  String, Bool, true, false, Option, none, some, truthy, or_text, text_or,
}
use remote_subagent_protocol.Prelude.Dict.{get}
use remote_subagent_protocol.Platform.Answer.{
  Answer, ok, failed, send_error, not_json, rate_limited,
}
use remote_subagent_protocol.Platform.Keys.{
  User, KeyRecord, admin_key, buyer_key, seller_key, Accounts, revoke_api_key, rotate_buyer_api_key,
  rotate_seller_api_key,
}
use remote_subagent_protocol.Platform.Keys.Roles.{Registration, register_buyer_user, add_user_role}
use remote_subagent_protocol.Platform.Market.{
  Market, Draw, Target, on_user, on_seller, append_audit_event,
}
use remote_subagent_protocol.Platform.Market.Access.{require_operator}
use remote_subagent_protocol.Platform.Market.Upkeep.{KeyBody, Rotated, rotate_seller_signing_key}

abbrev pub set_accounts : Accounts → Market → Market
set_accounts accounts s = record s { accounts = accounts }

-- A key that was made, with the account it belongs to.
pub record Issued : Type 0 where
  pub id : String
  pub api_key : String

pub record RoleBody : Type 0 where
  pub role : Option String
  pub add_role : Option String

pub record Revoked : Type 0 where
  pub type : String
  pub user_id : Option String
  pub seller_id : Option String

abbrev revoked_of : KeyRecord → Revoked
revoked_of admin_key = record { type = "admin"; user_id = none; seller_id = none }
revoked_of (buyer_key user scopes) = record {
  type = "buyer";
  user_id = or_text (some user) none;
  seller_id = none;
}
revoked_of (seller_key id owner scopes subagents) = record {
  type = "seller";
  user_id = none;
  seller_id = or_text (some id) none;
}

abbrev key_target : KeyRecord → Target
key_target k = record {
  type = (revoked_of k).type;
  id = text_or (revoked_of k).user_id (text_or (revoked_of k).seller_id "unknown");
}

module _ (d : Draw) (auth : Option KeyRecord) (s : Market) where
  unfoldable pub granted : String → Accounts × Option User → Market × Answer User
  granted role (accounts, none) = (s, send_error 404 "USER_NOT_FOUND" "no user found with this id")
  granted role (accounts, some user) = (
    append_audit_event d auth "user.role.granted" (on_user user.user_id) (some role)
        (set_accounts accounts s),
    ok user,
  )

  unfoldable pub grant_named : String → String → Bool → Market × Answer User
  unfolding granted
  grant_named id role false = (s, send_error 400 "CONTRACT_INVALID_ROLE_GRANT" "role is required")
  grant_named id role true = granted role (add_user_role id role s.accounts)

  unfoldable pub grant_read : String → Option RoleBody → Answer Unit → Market × Answer User
  unfolding grant_named
  grant_read id body (failed status error) = (s, failed status error)
  grant_read id none (ok _) = (s, not_json)
  grant_read id (some b) (ok _) =
      let role = or_text b.role b.add_role in grant_named id (text_or role "") (truthy role)

  unfoldable pub grant_role : String → Option RoleBody → Market × Answer User
  unfolding grant_read
  grant_role id body = grant_read id body (require_operator s auth)

  -- Both rotations of API keys, of users and of sellers.
  abbrev pub rotated : String → Target → Answer Issued → Accounts × Bool → Market × Answer Issued
  rotated action target missing (accounts, false) = (s, missing)
  rotated action target missing (accounts, true) = (
    append_audit_event d auth action target none (set_accounts accounts s),
    ok (record { id = target.id; api_key = d.api_key }),
  )

  unfoldable pub rotate_buyer_read : String → Answer Unit → Market × Answer Issued
  rotate_buyer_read id (failed status error) = (s, failed status error)
  rotate_buyer_read id (ok _) =
      rotated "user.api_key.rotated" (on_user id)
        (send_error 404 "USER_NOT_FOUND" "no user found with this id")
        (rotate_buyer_api_key d.api_key id s.accounts)

  unfoldable pub rotate_buyer : String → Market × Answer Issued
  unfolding rotate_buyer_read
  rotate_buyer id = rotate_buyer_read id (require_operator s auth)

  unfoldable pub rotate_seller_read : String → Answer Unit → Market × Answer Issued
  rotate_seller_read id (failed status error) = (s, failed status error)
  rotate_seller_read id (ok _) =
      rotated "seller.api_key.rotated" (on_seller id)
        (send_error 404 "SELLER_NOT_FOUND" "no seller found with this id")
        (rotate_seller_api_key d.api_key id s.accounts)

  unfoldable pub rotate_seller : String → Market × Answer Issued
  unfolding rotate_seller_read
  rotate_seller id = rotate_seller_read id (require_operator s auth)

  unfoldable pub signing_rotated : Market × Option (Answer Rotated) → Market × Answer Rotated
  signing_rotated (after, none) =
      (s, send_error 404 "SELLER_NOT_FOUND" "no seller found with this id")
  signing_rotated (after, some (failed status error)) = (s, failed status error)
  signing_rotated (after, some (ok r)) = (
    append_audit_event d auth "seller.signing_key.rotated" (on_seller r.seller_id)
        r.rotation_window_until after,
    ok r,
  )

  unfoldable pub rotate_signing_read :
      String → Option KeyBody → Answer Unit → Market × Answer Rotated
  unfolding signing_rotated
  rotate_signing_read id body (failed status error) = (s, failed status error)
  rotate_signing_read id none (ok _) = (s, not_json)
  rotate_signing_read id (some b) (ok _) = signing_rotated (rotate_seller_signing_key id b s)

  unfoldable pub rotate_signing : String → Option KeyBody → Market × Answer Rotated
  unfolding rotate_signing_read
  rotate_signing id body = rotate_signing_read id body (require_operator s auth)

  unfoldable pub revoke_found : String → Option KeyRecord → Market × Answer Revoked
  revoke_found key none = (s, send_error 404 "AUTH_KEY_NOT_FOUND" "api key was not found")
  revoke_found key (some k) = (
    append_audit_event d auth "api_key.revoked" (key_target k) none
        (set_accounts (revoke_api_key key s.accounts) s),
    ok (revoked_of k),
  )

  unfoldable pub revoke_named : String → Bool → Market × Answer Revoked
  unfolding revoke_found
  revoke_named key false =
      (s, send_error 400 "CONTRACT_INVALID_API_KEY_REVOKE" "api_key is required")
  revoke_named key true = revoke_found key (get s.accounts.api_keys key)

  -- The body is its `api_key`.
  unfoldable pub revoke_read : Option (Option String) → Answer Unit → Market × Answer Revoked
  unfolding revoke_named
  revoke_read body (failed status error) = (s, failed status error)
  revoke_read none (ok _) = (s, not_json)
  revoke_read (some key) (ok _) = revoke_named (text_or key "") (truthy key)

  unfoldable pub revoke : Option (Option String) → Market × Answer Revoked
  unfolding revoke_read
  revoke body = revoke_read body (require_operator s auth)

  abbrev registered : Accounts × Answer User → Market × Answer User
  registered (accounts, answer) = (set_accounts accounts s, answer)

  -- POST /v1/users/register; `within` is the rate limiter's verdict.
  unfoldable pub register : Bool → Option Registration → Market × Answer User
  register false body = (s, rate_limited)
  register true none = (s, not_json)
  register true (some b) = registered (register_buyer_user d.now d.user_id d.api_key b s.accounts)
