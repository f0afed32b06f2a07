-- ===== src/Platform/Keys/Roles.antt =====
-- `registerBuyerUser` and `addUserRole`.
use remote_subagent_protocol.Prelude.{
  ℕ, String, Bool, true, false, Option, none, some, [], ◌∷◌, ◌++◌, ◌==◌, if◌then◌else◌, truthy,
  or_text, text_or, unique,
}
use remote_subagent_protocol.Prelude.Dict.{get, put, map_values}
use remote_subagent_protocol.Contracts.{build_structured_error}
use remote_subagent_protocol.Platform.Answer.{Answer, ok, failed}
use remote_subagent_protocol.Platform.Keys.{
  User, KeyRecord, admin_key, buyer_key, seller_key, Accounts,
}

pub record Registration : Type 0 where
  pub contact_email : Option String
  pub email : Option String

unfoldable pub register_as : ℕ → String → String → String → Bool → Accounts → Accounts × Answer User
register_as now id key email false s = (
  s,
  failed 400 (
      build_structured_error "CONTRACT_INVALID_REGISTER_BODY" "contact_email is required"
        (some false)),
)
register_as now id key email true s =
    let user : User = record {
      user_id = id;
      contact_email = some email;
      api_key = some key;
      roles = "buyer" ∷ [];
      created_at = now;
    } in
    (
      record s {
        users = put s.users id user;
        api_keys = put s.api_keys key (buyer_key id ("buyer" ∷ []));
      },
      ok user,
    )

-- `id` and `key` are random.
unfoldable pub register_buyer_user :
    ℕ → String → String → Registration → Accounts → Accounts × Answer User
unfolding register_as
register_buyer_user now id key b s =
    let email = or_text b.contact_email b.email in
    register_as now id key (text_or email "") (truthy email) s

-- A key of the user gets the role as a scope.
unfoldable pub grant_scope : String → String → KeyRecord → KeyRecord
grant_scope id role admin_key = admin_key
grant_scope id role (buyer_key user scopes) =
    if user == id then buyer_key user (unique (scopes ++ role ∷ [])) else buyer_key user scopes
grant_scope id role (seller_key seller owner scopes subagents) =
    seller_key seller owner scopes subagents

unfoldable pub role_found : String → String → Option User → Accounts → Accounts × Option User
unfolding grant_scope
role_found id role none s = (s, none)
role_found id role (some user) s =
    let granted : User = record user { roles = unique (user.roles ++ role ∷ []) } in
    (
      record s {
        users = put s.users id granted;
        api_keys = map_values (grant_scope id role) s.api_keys;
      },
      some granted,
    )

unfoldable pub add_user_role : String → String → Accounts → Accounts × Option User
unfolding role_found
add_user_role id role s = role_found id role (get s.users id) s
