-- ===== src/Platform.antt =====
-- apps/platform-api/src/server.js: the platform between buyers and sellers.
pub mod History
pub mod RateLimit
pub mod Requests
pub mod Keys
pub mod Answer
pub mod Market
pub mod Catalog
pub mod Pages
pub mod Tokens
pub mod Delivery
