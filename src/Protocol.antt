-- ===== src/Protocol.antt =====
-- Buyer and seller together: what one side builds, the other side accepts.
pub mod Artifacts
pub mod RoundTrip
