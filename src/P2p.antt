-- ===== src/P2p.antt =====
-- crates/p2p: the messages, the version handshake, and what is recorded of an open connection.
pub mod Message
pub mod Validation
pub mod Handshake
pub mod Connection
pub mod Transport
