-- ===== src/Platform/Market/Submit/Routes.antt =====
-- `submitCatalogSubagent` as a whole, and the routes POST /v1/catalog/subagents and
-- POST /v1/sellers/register. A body of `none` is no JSON; `within` is the rate limiter's verdict.
use remote_subagent_protocol.Prelude.{Bool, true, false, Option, none, some}
use remote_subagent_protocol.Prelude.Dict.{get}
use remote_subagent_protocol.Contracts.{build_structured_error}
use remote_subagent_protocol.Platform.Answer.{Answer, failed, send_error, not_json, rate_limited}
use remote_subagent_protocol.Platform.Keys.{SellerAccount, KeyRecord, admin_key}
use remote_subagent_protocol.Platform.Market.{Market, Item, Draw}
use remote_subagent_protocol.Platform.Market.Submit.{
  Body, names_of, has_names, Refusal, submission_refused,
}
use remote_subagent_protocol.Platform.Market.Submit.Accept.{Submitted, accept_submission}

module _ (d : Draw) (s : Market) where
  unfoldable pub submit_checked :
      Option KeyRecord
      → Body
      → Option SellerAccount
      → Option Item
      → Option Refusal
      → Market × Answer Submitted
  submit_checked auth b seller item (some (status, error)) = (s, failed status error)
  submit_checked auth b seller item none = accept_submission d auth b (names_of b) seller item s

  unfoldable pub submit_named : Option KeyRecord → Body → Bool → Bool → Market × Answer Submitted
  unfolding submit_checked
  submit_named auth b allow_unauthenticated false = (
    s,
    failed 400 (
        build_structured_error "CONTRACT_INVALID_SELLER_REGISTER_BODY"
          "seller_id, subagent_id, display_name, and seller_public_key_pem are required"
          (some false)),
  )
  submit_named auth b allow_unauthenticated true =
      let seller = get s.accounts.sellers (names_of b).seller_id in
      let item = get s.catalog (names_of b).subagent_id in
      submit_checked auth b seller item
        (submission_refused s (names_of b) auth allow_unauthenticated seller item)

  unfoldable pub submit_catalog_subagent :
      Option KeyRecord → Body → Bool → Market × Answer Submitted
  unfolding submit_named
  submit_catalog_subagent auth b allow_unauthenticated =
      submit_named auth b allow_unauthenticated (has_names b)

  unfoldable pub submit_limited : Option KeyRecord → Bool → Option Body → Market × Answer Submitted
  unfolding submit_catalog_subagent
  submit_limited auth false body = (s, rate_limited)
  submit_limited auth true none = (s, not_json)
  submit_limited auth true (some b) = submit_catalog_subagent auth b false

  -- POST /v1/catalog/subagents
  unfoldable pub post_submission : Option KeyRecord → Bool → Option Body → Market × Answer Submitted
  unfolding submit_limited
  post_submission none within body =
      (s, send_error 401 "AUTH_UNAUTHORIZED" "API key is missing or invalid")
  post_submission (some admin_key) within body = (
    s,
    send_error 403 "AUTH_SCOPE_FORBIDDEN" "only buyer or seller callers may submit onboarding",
  )
  post_submission auth within body = submit_limited auth within body

  unfoldable pub register_limited : Option KeyRecord → Bool → Body → Market × Answer Submitted
  unfolding submit_catalog_subagent
  register_limited auth false b = (s, rate_limited)
  register_limited auth true b = submit_catalog_subagent auth b true

  -- POST /v1/sellers/register, which reads its body first and takes callers without a key
  unfoldable pub register_seller : Option KeyRecord → Bool → Option Body → Market × Answer Submitted
  unfolding register_limited
  register_seller auth within none = (s, not_json)
  register_seller (some admin_key) within (some b) =
      (s, send_error 403 "AUTH_SCOPE_FORBIDDEN" "only buyer or seller callers may register")
  register_seller auth within (some b) = register_limited auth within b
