-- ===== src/Transport.antt =====
-- What moves messages between buyers, sellers and the platform: the in-process hub of
-- packages/transports/local and the HTTP relay of apps/transport-relay.
pub mod Messages
pub mod Mailbox
pub mod Hub
pub mod Relay
