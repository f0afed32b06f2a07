-- ===== src/Platform/Delivery/Histories.antt =====
-- The calls of buyers and sellers that concern requests, and histories of such calls.
use remote_subagent_protocol.Prelude.{ℕ, String, Option, none, some, List, [], ◌∷◌}
use remote_subagent_protocol.Json.{Json}
use remote_subagent_protocol.Platform.Keys.{KeyRecord, admin_key, buyer_key, seller_key}
use remote_subagent_protocol.Platform.Market.Operations.{resolve_auth}
use remote_subagent_protocol.Platform.Requests.{
  Caller, admin, buyer, seller, ack_request, Body as SellerBody,
}
use remote_subagent_protocol.Platform.Requests.Events.{write_event}
use remote_subagent_protocol.Platform.Delivery.{
  Platform, set_requests, post_token, Body as TokenBody,
}
use remote_subagent_protocol.Platform.Delivery.Meta.{post_delivery_meta, Body as MetaBody}

abbrev pub caller_of : Option KeyRecord → Option Caller
caller_of none = none
caller_of (some admin_key) = some admin
caller_of (some (buyer_key user scopes)) = some (buyer user)
caller_of (some (seller_key id owner scopes subagents)) = some (seller id subagents)

-- A fresh token id, or a fresh display code, is drawn by the calls of buyers.
pub data Route : Type 0 where
  tokens_task : String → Option TokenBody → Route
  delivery_meta : String → String → Option MetaBody → Route
  request_ack : String → Option SellerBody → Route
  request_event : String → Option SellerBody → Route

pub record Call : Type 0 where
  pub bearer : Option String
  pub now : ℕ
  pub route : Route

module _ (hmac : String → String → String) (encode : Json → String)
    (decode : String → Option Json) where
  unfoldable pub serve_route : ℕ → Option KeyRecord → Route → Platform → Platform
  serve_route now auth (tokens_task jti b) p = (post_token hmac encode decode now jti p auth b).0
  serve_route now auth (delivery_meta id fresh b) p =
      (post_delivery_meta hmac encode decode now fresh p id auth b).0
  serve_route now auth (request_ack id b) p =
      set_requests (ack_request now p.event_history p.requests id (caller_of auth) b).0 p
  serve_route now auth (request_event id b) p =
      set_requests (write_event now p.event_history p.requests id (caller_of auth) b).0 p

  unfoldable pub serve : Call → Platform → Platform
  unfolding serve_route
  serve c p = serve_route c.now (resolve_auth p.market c.bearer) c.route p

  unfoldable pub serve_all : List Call → Platform → Platform
  unfolding serve
  serve_all [] p = p
  serve_all (c ∷ cs) p = serve_all cs (serve c p)
