-- ===== src/Wallet.antt =====
-- crates/wallet: the silent payments wallet, how it finds its coins, and its file.
pub mod Files
pub mod Scanning
pub mod Coins
pub mod Store
pub mod Keys
pub mod Sending
