-- ===== src/Node.antt =====
-- The wallet inside the running node: src/ipc/wallet.rs and the threads of src/bin/node.rs.
pub mod Requests
pub mod Events
pub mod Sends
pub mod Reservations
pub mod Addresses
pub mod Start
