-- ===== src/Platform/Keys.antt =====
-- API keys: `revokeApiKey`, `rotateBuyerApiKey` and `rotateSellerApiKey`. Accounts stand in their
-- maps under their own ids.
pub mod Laws
pub mod Roles
use remote_subagent_protocol.Prelude.{
  ℕ, String, Bool, true, false, not, Option, none, some, List, [], ◌∷◌, ◌==◌, truthy, text_or,
  same_text, filter_by, if◌then◌else◌,
}
use remote_subagent_protocol.Prelude.Dict.{Dict, get, put, delete}

pub record User : Type 0 where
  pub user_id : String
  pub contact_email : Option String
  pub api_key : Option String
  pub roles : List String
  pub created_at : ℕ

-- Of sellers and of the subagents in the catalog.
pub data Status : Type 0 where
  enabled : Status
  disabled : Status

pub data ReviewStatus : Type 0 where
  pending : ReviewStatus
  approved : ReviewStatus
  rejected : ReviewStatus

pub record SellerAccount : Type 0 where
  pub seller_id : String
  pub owner_user_id : String
  pub api_key : Option String
  pub scopes : List String
  pub subagent_ids : List String
  pub status : Status
  pub review_status : ReviewStatus
  pub reviewed_at : Option ℕ
  pub reviewed_by : Option String
  pub review_reason : Option String
  pub seller_public_key_pem : Option String
  pub seller_public_keys_pem : List String
  pub signing_key_rotation_window_until : Option String
  pub last_heartbeat_at : ℕ
  pub availability_status : String
  pub contact_email : String
  pub support_email : String

-- The entries of `state.apiKeys`: a user and scopes; a seller, its owner, scopes and subagents.
pub data KeyRecord : Type 0 where
  admin_key : KeyRecord
  buyer_key : String → List String → KeyRecord
  seller_key : String → String → List String → List String → KeyRecord

pub record Accounts : Type 0 where
  pub users : Dict User
  pub sellers : Dict SellerAccount
  pub api_keys : Dict KeyRecord

unfoldable pub release_user : String → String → Option User → Accounts → Accounts
release_user key id none s = s
release_user key id (some user) s =
    if same_text user.api_key (some key)
    then record s { users = put s.users id (record user { api_key = none }) }
    else s

unfoldable pub release_seller : String → String → Option SellerAccount → Accounts → Accounts
release_seller key id none s = s
release_seller key id (some account) s =
    if same_text account.api_key (some key)
    then record s { sellers = put s.sellers id (record account { api_key = none }) }
    else s

-- The account that a deleted key belonged to forgets it.
unfoldable pub release : String → KeyRecord → Accounts → Accounts
unfolding release_user release_seller
release key admin_key s = s
release key (buyer_key id scopes) s = release_user key id (get s.users id) s
release key (seller_key id owner scopes subagents) s = release_seller key id (get s.sellers id) s

unfoldable pub revoke_found : String → Option KeyRecord → Accounts → Accounts
unfolding release
revoke_found key none s = s
revoke_found key (some entry) s = release key entry (record s { api_keys = delete s.api_keys key })

unfoldable pub revoke_api_key : String → Accounts → Accounts
unfolding revoke_found
revoke_api_key key s = revoke_found key (get s.api_keys key) s

-- `if (user.api_key) revokeApiKey(state, user.api_key)`
unfoldable pub revoke_old : Option String → Accounts → Accounts
revoke_old none s = s
revoke_old (some key) s = if key == "" then s else revoke_api_key key s

abbrev pub buyer_record : User → KeyRecord
buyer_record user =
    buyer_key user.user_id ("buyer" ∷ filter_by (λ role. not (role == "buyer")) user.roles)

unfoldable pub rotate_user : String → String → Option User → Accounts → Accounts × Bool
rotate_user fresh id none s = (s, false)
rotate_user fresh id (some user) s =
    let revoked = revoke_old user.api_key s in
    (
      record revoked {
        users = put revoked.users id (record user { api_key = some fresh });
        api_keys = put revoked.api_keys fresh (buyer_record user);
      },
      true,
    )

-- `fresh` is the random key; the Boolean says whether there is such a user.
unfoldable pub rotate_buyer_api_key : String → String → Accounts → Accounts × Bool
unfolding rotate_user
rotate_buyer_api_key fresh id s = rotate_user fresh id (get s.users id) s

abbrev pub seller_record : SellerAccount → KeyRecord
seller_record a = seller_key a.seller_id a.owner_user_id a.scopes a.subagent_ids

unfoldable pub rotate_seller : String → String → Option SellerAccount → Accounts → Accounts × Bool
rotate_seller fresh id none s = (s, false)
rotate_seller fresh id (some account) s =
    let revoked = revoke_old account.api_key s in
    (
      record revoked {
        sellers = put revoked.sellers id (record account { api_key = some fresh });
        api_keys = put revoked.api_keys fresh (seller_record account);
      },
      true,
    )

unfoldable pub rotate_seller_api_key : String → String → Accounts → Accounts × Bool
unfolding rotate_seller
rotate_seller_api_key fresh id s = rotate_seller fresh id (get s.sellers id) s
