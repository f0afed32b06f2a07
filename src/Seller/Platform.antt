-- ===== src/Seller/Platform.antt =====
-- The platform as the seller calls it: a service of its own, hence a parameter.
use remote_subagent_protocol.Prelude.{String, Bool, Option}
use remote_subagent_protocol.Seller.Task.{Task}

pub record Metric : Type 0 where
  pub event_type : String
  pub request_id : Option String
  pub seller_id : String
  pub subagent_id : Option String
  pub code : Option String

-- What introspection says of a token that is not active.
pub record Rejection : Type 0 where
  pub code : Option String
  pub message : Option String

pub data Introspection : Type 0 where
  active : Introspection
  inactive : Rejection → Introspection

-- `false` and `none` are exceptions of the network. A platform that is not configured answers as
-- the functions do that skip it.
pub record Platform : Type 0 where
  pub post_metric : Metric → Bool
  pub introspect_task_token : Option String → Option Introspection
  pub ack_platform : Task → Option Bool
