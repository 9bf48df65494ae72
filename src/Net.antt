-- ===== src/Net.antt =====
-- The networking half of the node: src/net and the p2p crate.
pub mod Kernel
pub mod Download
pub mod Locator
pub mod Sync
pub mod Peer
pub mod Session
pub mod Swarm
pub mod Socks5
pub mod Proxy
pub mod Manager
pub mod Blocks
