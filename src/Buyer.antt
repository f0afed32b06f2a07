-- ===== src/Buyer.antt =====
-- packages/buyer-controller-core/src/index.js: the buyer's side of a remote call.
pub mod Request
pub mod Timeouts
pub mod Result
pub mod Client
pub mod Events
pub mod Metrics
pub mod Dispatch
pub mod Keeps
pub mod Inbox
pub mod Sync
pub mod Server
