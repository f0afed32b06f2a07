-- ===== src/Seller.antt =====
-- packages/seller-runtime-core/src/index.js: the seller's side of a remote call.
pub mod Task
pub mod Artifacts
pub mod Result
pub mod Platform
pub mod Finalize
pub mod Guardrails
pub mod Queue
pub mod Inbox
pub mod Run
pub mod Snapshot
pub mod Executors
pub mod Server
