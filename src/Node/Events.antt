-- ===== src/Node/Events.antt =====
-- src/bin/node.rs and src/lib.rs: the blocks that the kernel connects and disconnects, the thread
-- that scans them, the thread that broadcasts, and the fatal shutdown. The kernel is a parameter; so
-- is whether a write to the disk succeeds. `none` is a panic.
pub mod Files
pub mod Shutdown
use kernel_node.Prelude.{
  ℕ, ◌+◌, Bool, true, not, Option, none, some, List, ◌∷◌, if◌then◌else◌, nat_eq, [],
}
use kernel_node.Prelude.Reader.{ok, err}
use kernel_node.Wallet.Scanning.{Block, TxOut, SilentPayments}
use kernel_node.Wallet.Coins
use kernel_node.Wallet.Coins.{Wallet}
use kernel_node.Wallet.Sending.{previous_outputs, Payment}
use kernel_node.Wallet.Store.{wallet_to_bytes}

-- `triggered`, and how often the shutdown was signalled.
pub record FatalShutdown : Type 0 where
  pub triggered : Bool
  pub signals : ℕ

unfoldable pub trigger : FatalShutdown → FatalShutdown
trigger f = if not f.triggered then record { triggered = true; signals = f.signals + 1 } else f

pub data ScanEvent : Type 0 where
  connected : Block → ℕ → ScanEvent
  disconnected : Block → ℕ → ScanEvent

-- What the scan thread asks of the kernel: the height of a block's entry in the tree, and the
-- outputs that it spent.
pub record ScanKernel : Type 0 where
  pub get_block_tree_entry : ℕ → Option ℕ
  pub read_spent_outputs : ℕ → Option (List (List TxOut))

module _ (𝓢 : SilentPayments) (to_be_bytes : ℕ → List ℕ) (from_be_bytes : List ℕ → Option ℕ)
    (kernel : ScanKernel) where
  -- The wallet behind its lock, the bytes of its file, the shutdown.
  pub record ScanState : Type 0 where
    pub wallet : Wallet 𝓢
    pub file : List ℕ
    pub fatal : FatalShutdown

  -- `with_block_connected_validation`: nothing is sent while the wallet has no keys.
  unfoldable pub on_connected : Wallet 𝓢 → Block → ℕ → Option ScanEvent
  on_connected w block hash = elim w.keys [ none ↦ none | some keys ↦ some (connected block hash) ]

  -- `with_block_disconnected_validation`
  unfoldable pub on_disconnected : Wallet 𝓢 → Block → ℕ → Option ScanEvent
  on_disconnected w block height = some (disconnected block height)

  -- The wallet is changed and saved; `disk` is whether the write succeeds.
  unfoldable pub save : Bool → ScanState → Wallet 𝓢 → Option ScanState
  save disk st w = elim (wallet_to_bytes to_be_bytes from_be_bytes 𝓢 w) [
    | none ↦ none
    | some (err e) ↦ some (record st { wallet = w; fatal = trigger st.fatal })
    | some (ok bytes) ↦
        if disk
        then some (record st { wallet = w; file = bytes })
        else some (record st { wallet = w; fatal = trigger st.fatal })
  ]

  -- One round of the scan thread. An event that finds no entry or no outputs is passed over.
  unfoldable pub handle_event : Bool → ScanState → ScanEvent → Option ScanState
  handle_event disk st (connected block hash) = elim (kernel.get_block_tree_entry hash) [
    | none ↦ some (record st { fatal = trigger st.fatal })
    | some height ↦ elim (kernel.read_spent_outputs hash) [
      | none ↦ some (record st { fatal = trigger st.fatal })
      | some spent_outputs ↦ elim (Coins.scan_block 𝓢 st.wallet block spent_outputs height) [
        | none ↦ none
        | some (count, w) ↦ save disk st w
      ]
    ]
  ]
  handle_event disk st (disconnected block height) =
      save disk st (Coins.process_disconnect 𝓢 st.wallet block)

  -- The events one after the other, each with the fate of its write.
  unfoldable pub handle_events : ScanState → List (Bool × ScanEvent) → Option ScanState
  handle_events st [] = some st
  handle_events st ((disk, event) ∷ events) = elim (handle_event disk st event) [
    | none ↦ none
    | some st' ↦ handle_events st' events
  ]

-- One round of the broadcast thread: the coins of a transaction that did not get out are free again.
unfoldable pub after_broadcast : (𝓢 : SilentPayments) → Wallet 𝓢 → Payment → Bool → Wallet 𝓢
after_broadcast 𝓢 w tx broadcast =
    if not broadcast then Coins.release_coins 𝓢 w (previous_outputs tx.input) else w
