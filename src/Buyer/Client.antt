-- ===== src/Buyer/Client.antt =====
-- The platform as `createBuyerPlatformClient` gives it to the buyer: a service of its own, hence a
-- parameter. `none` and `false` are answers that the client turns into an exception.
use remote_subagent_protocol.Prelude.{String, Bool, Option, List}
use remote_subagent_protocol.Transport.Messages.{Event, Delivery, DeliveryMeta}

pub record Metric : Type 0 where
  pub source : String
  pub event_type : String
  pub request_id : String
  pub seller_id : Option String
  pub subagent_id : Option String
  pub code : Option String

pub record BatchItem : Type 0 where
  pub request_id : String
  pub found : Option Bool
  pub events : List Event

pub record Client : Type 0 where
  -- `${baseUrl}::${apiKey}`
  pub key : String
  -- postMetricEvent
  pub post_metric : Metric → Bool
  -- getRequestEvents
  pub request_events : String → Option (List Event)
  -- getRequestEventsBatch
  pub request_events_batch : List String → Option (List BatchItem)
  -- issueTaskToken: of request, seller and subagent, the token
  pub issue_task_token : String → String → String → Option String
  -- getDeliveryMeta: of request, seller, subagent, token and result delivery
  pub delivery_meta : String → String → String → String → Option Delivery → Option DeliveryMeta
