-- ===== src/Node/Events/Files.antt =====
-- src/bin/node.rs: what the wallet's file holds while the scan thread runs.
use kernel_node.Prelude.{
  ℕ, ◌^◌, ◌<◌, ◌≡◌, inl, inr, Bool, true, false, Option, some, List, arith, length, Bool-cases,
  Option-cases, nat_eq,
}
use kernel_node.Prelude.Reader.{ok, err}
use kernel_node.Prelude.HashMap.{IsTable}
use kernel_node.Wallet.Scanning.{outpoint_eq, SilentPayments}
use kernel_node.Wallet.Coins.{Wallet, from_parts, scan_block, process_disconnect}
use kernel_node.Wallet.Store.{wallet_to_bytes, wallet_from_bytes}
use kernel_node.Wallet.Store.Fields.{HasScalarBytes}
use kernel_node.Wallet.Store.RoundTrip.{AllStorable, wallet_from_bytes-wallet_to_bytes}
use kernel_node.Node.Events.{
  FatalShutdown, trigger, ScanEvent, connected, disconnected, ScanKernel, ScanState, save,
  handle_event,
}

trigger-triggered : (f : FatalShutdown) → (trigger f).triggered ≡ true
unfolding trigger
trigger-triggered f = ground arith

module _ (𝓢 : SilentPayments) (to_be_bytes : ℕ → List ℕ) (from_be_bytes : List ℕ → Option ℕ)
    (kernel : ScanKernel) (order : ℕ) (law : HasScalarBytes order to_be_bytes from_be_bytes) where
  -- The fields of the wallet fit their types, and its coins are taproot's, one for each outpoint.
  pub record IsFit (w : Wallet 𝓢) : Type 0 where
    pub storable : AllStorable order to_be_bytes from_be_bytes law w.utxos
    pub table : IsTable w.utxos
    pub height : w.scan_height < 2 ^ 32
    pub count : length w.utxos < 2 ^ 32

  abbrev pub IsOnFile : ScanState 𝓢 to_be_bytes from_be_bytes kernel → Type 0
  IsOnFile st =
      wallet_from_bytes to_be_bytes from_be_bytes 𝓢 st.file
      ≡ ok (from_parts 𝓢 st.wallet.scan_height st.wallet.network st.wallet.utxos)

  save-wallet :
      (disk : Bool) (st st' : ScanState 𝓢 to_be_bytes from_be_bytes kernel) (w : Wallet 𝓢)
      → save 𝓢 to_be_bytes from_be_bytes kernel disk st w ≡ some st'
      → st'.wallet ≡ w
  unfolding save
  save-wallet disk st st' w e =
      elim (Option-cases (wallet_to_bytes to_be_bytes from_be_bytes 𝓢 w)) [
        | inl panics ↦ absurd (ground (arith, e, panics))
        | inr (err x, failed) ↦ ground (arith, e, failed)
        | inr (ok bytes, written) ↦ elim (Bool-cases disk) [
          | inl fine ↦ ground (arith, e, written, fine)
          | inr full ↦ ground (arith, e, written, full)
        ]
      ]

  save-OnFile :
      (disk : Bool) (st st' : ScanState 𝓢 to_be_bytes from_be_bytes kernel) (w : Wallet 𝓢)
      → save 𝓢 to_be_bytes from_be_bytes kernel disk st w ≡ some st'
      → st'.fatal.triggered ≡ false
      → IsFit st'.wallet
      → IsOnFile st'
  unfolding save
  save-OnFile disk st st' w e calm fit =
      let same = save-wallet disk st st' w e in
      let f : IsFit w = rw same at fit in
      let (bytes, written, read) =
        wallet_from_bytes-wallet_to_bytes order to_be_bytes from_be_bytes law 𝓢 w f.storable f.table
          f.height f.count in
      elim (Bool-cases disk) [
        | inl fine ↦
            let file : st'.file ≡ bytes = ground (arith, e, written, fine) in rw (same, file) read
        | inr full ↦ absurd (ground (arith, e, written, full, calm, trigger-triggered st.fatal))
      ]

  -- Whatever block the kernel connects or disconnects: unless a shutdown was triggered, the file
  -- holds the wallet as it is after the event, all but its keys and reservations. The wallet is fit
  -- to be written.
  pub handle_event-OnFile :
      (disk : Bool) (st st' : ScanState 𝓢 to_be_bytes from_be_bytes kernel) (event : ScanEvent)
      → handle_event 𝓢 to_be_bytes from_be_bytes kernel disk st event ≡ some st'
      → st'.fatal.triggered ≡ false
      → IsFit st'.wallet
      → IsOnFile st'
  unfolding handle_event
  handle_event-OnFile disk st st' (disconnected block height) e calm fit =
      save-OnFile disk st st' (process_disconnect 𝓢 st.wallet block) e calm fit
  handle_event-OnFile disk st st' (connected block hash) e calm fit =
      elim (Option-cases (kernel.get_block_tree_entry hash)) [
        | inl missing ↦ absurd (ground (arith, e, missing, calm, trigger-triggered st.fatal))
        | inr (height, entry) ↦ elim (Option-cases (kernel.read_spent_outputs hash)) [
          | inl unread ↦ absurd (ground (arith, e, entry, unread, calm, trigger-triggered st.fatal))
          | inr (spents, read) ↦ elim (Option-cases (scan_block 𝓢 st.wallet block spents height)) [
            | inl panics ↦ absurd (ground (arith, e, entry, read, panics))
            | inr ((count, w), scanned) ↦
                let saved : save 𝓢 to_be_bytes from_be_bytes kernel disk st w ≡ some st' =
                  rw (entry, read, scanned, handle_event) at e in
                save-OnFile disk st st' w saved calm fit
          ]
        ]
      ]
