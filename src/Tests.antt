-- ===== src/Tests.antt =====
-- Runs of the definitions at concrete inputs, and the theorems at inputs that meet their hypotheses.
mod Toy
mod Network
mod Witnesses
mod Book
mod Sharing
mod Wallet
mod Pings
mod Session
mod Blocks
mod Store
mod Send
mod Files
mod Wizard
mod Wire
mod Node
