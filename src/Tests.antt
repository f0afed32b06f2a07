-- ===== src/Tests.antt =====
-- Runs at concrete inputs: the laws of the development applied to requests, tasks and messages.
pub mod Data
pub mod Buyer
pub mod Seller
pub mod Transport
pub mod Platform
pub mod Market
pub mod Tokens
