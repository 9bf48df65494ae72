-- ===== src/Node/Events/Shutdown.antt =====
-- src/lib.rs and src/bin/node.rs: how often the scan thread signals the shutdown.
use kernel_node.Prelude.{
  refl, ◌||◌, true, false, not, none, ℕ, ◌≡◌, inl, inr, Bool, Option, some, List, ◌∷◌, arith,
  if◌then◌else◌, Bool-cases, Option-cases, nat_eq, [],
}
use kernel_node.Prelude.Reader.{ok, err}
use mathlib.Core.Path.{subst}
use kernel_node.Wallet.Scanning.{SilentPayments}
use kernel_node.Wallet.Coins.{Wallet, scan_block, process_disconnect}
use kernel_node.Wallet.Store.{wallet_to_bytes}
use kernel_node.Node.Events.{
  FatalShutdown, trigger, ScanEvent, connected, disconnected, ScanKernel, ScanState, save,
  handle_event, handle_events,
}

-- The shutdown is triggered, and was signalled once; or it is not, and was not signalled.
abbrev pub IsOnce : Bool → FatalShutdown → Type 0
IsOnce b f = (f.triggered ≡ b) × (f.signals ≡ (if b then 1 else 0))

trigger-Once : (b : Bool) (f : FatalShutdown) → IsOnce b f → IsOnce (b || true) (trigger f)
unfolding trigger
trigger-Once b f (t, s) = ground (arith, t, s)

stays-Once : (b : Bool) (f : FatalShutdown) → IsOnce b f → IsOnce (b || false) f
stays-Once b f (t, s) = ground (arith, t, s)

module _ (𝓢 : SilentPayments) (to_be_bytes : ℕ → List ℕ) (from_be_bytes : List ℕ → Option ℕ)
    (kernel : ScanKernel) where
  -- The wallet cannot be written, or the disk fails.
  unfoldable pub save_failed : Bool → Wallet 𝓢 → Bool
  save_failed disk w = elim (wallet_to_bytes to_be_bytes from_be_bytes 𝓢 w) [
    | none ↦ false
    | some (err e) ↦ true
    | some (ok bytes) ↦ not disk
  ]

  -- What goes wrong with an event: its block is not in the tree, the outputs that the block spent cannot
  -- be read, or the wallet that it leaves is not saved.
  unfoldable pub event_failed : Bool → Wallet 𝓢 → ScanEvent → Bool
  event_failed disk w (disconnected block height) = save_failed disk (process_disconnect 𝓢 w block)
  event_failed disk w (connected block hash) = elim (kernel.get_block_tree_entry hash) [
    | none ↦ true
    | some height ↦ elim (kernel.read_spent_outputs hash) [
      | none ↦ true
      | some spent_outputs ↦ elim (scan_block 𝓢 w block spent_outputs height) [
        | none ↦ false
        | some (count, scanned) ↦ save_failed disk scanned
      ]
    ]
  ]

  -- Something went wrong with one of the events, each with the wallet as the ones before left it.
  unfoldable pub any_failed :
      ScanState 𝓢 to_be_bytes from_be_bytes kernel → List (Bool × ScanEvent) → Bool
  any_failed st [] = false
  any_failed st ((disk, event) ∷ events) =
      event_failed disk st.wallet event
      || (elim (handle_event 𝓢 to_be_bytes from_be_bytes kernel disk st event) [
        | none ↦ false
        | some next ↦ any_failed next events
      ])

  save-Once :
      (b disk : Bool) (st st' : ScanState 𝓢 to_be_bytes from_be_bytes kernel) (w : Wallet 𝓢)
      → IsOnce b st.fatal
      → save 𝓢 to_be_bytes from_be_bytes kernel disk st w ≡ some st'
      → IsOnce (b || save_failed disk w) st'.fatal
  unfolding save save_failed
  save-Once b disk st st' w h e =
      let again = trigger-Once b st.fatal h in
      elim (Option-cases (wallet_to_bytes to_be_bytes from_be_bytes 𝓢 w)) [
        | inl panics ↦ absurd (ground (arith, e, panics))
        | inr (err x, failed) ↦
            let f : st'.fatal ≡ trigger st.fatal = ground (arith, e, failed) in
            rw (failed, save_failed, f) again
        | inr (ok bytes, written) ↦ elim (Bool-cases disk) [
          | inl fine ↦
              let f : st'.fatal ≡ st.fatal = ground (arith, e, written, fine) in
              rw (written, save_failed, fine, f) (stays-Once b st.fatal h)
          | inr full ↦
              let f : st'.fatal ≡ trigger st.fatal = ground (arith, e, written, full) in
              rw (written, save_failed, full, f) again
        ]
      ]

  handle_event-Once :
      (b disk : Bool) (st st' : ScanState 𝓢 to_be_bytes from_be_bytes kernel) (event : ScanEvent)
      → IsOnce b st.fatal
      → handle_event 𝓢 to_be_bytes from_be_bytes kernel disk st event ≡ some st'
      → IsOnce (b || event_failed disk st.wallet event) st'.fatal
  unfolding handle_event event_failed
  handle_event-Once b disk st st' (disconnected block height) h e =
      save-Once b disk st st' (process_disconnect 𝓢 st.wallet block) h e
  handle_event-Once b disk st st' (connected block hash) h e =
      let again = trigger-Once b st.fatal h in
      elim (Option-cases (kernel.get_block_tree_entry hash)) [
        | inl missing ↦
            let f : st'.fatal ≡ trigger st.fatal = ground (arith, e, missing) in
            rw (missing, event_failed, f) again
        | inr (height, entry) ↦ elim (Option-cases (kernel.read_spent_outputs hash)) [
          | inl unread ↦
              let f : st'.fatal ≡ trigger st.fatal = ground (arith, e, entry, unread) in
              rw (entry, event_failed, unread, f) again
          | inr (spents, read) ↦ elim (Option-cases (scan_block 𝓢 st.wallet block spents height)) [
            | inl panics ↦ absurd (ground (arith, e, entry, read, panics))
            | inr ((count, w), scanned) ↦
                rw (entry, event_failed, read, scanned)
                  (save-Once b disk st st' w h (rw (entry, read, scanned, handle_event) at e))
          ]
        ]
      ]

  or_assoc : (a b c : Bool) → ((a || b) || c) ≡ (a || (b || c))
  or_assoc true b c = refl
  or_assoc false b c = refl

  -- However many events there are, from a shutdown that is triggered and was signalled once, or that is
  -- not triggered and was not signalled: it is triggered afterwards, and was signalled once, if it was
  -- triggered before or something went wrong with one of the events, that is, its block was not in the
  -- tree, the outputs that the block spent could not be read, or the wallet was not saved; and it is not
  -- triggered, and was not signalled, else. No event makes the node panic.
  pub handle_events-Once :
      (b : Bool) (st st' : ScanState 𝓢 to_be_bytes from_be_bytes kernel)
      (events : List (Bool × ScanEvent))
      → IsOnce b st.fatal
      → handle_events 𝓢 to_be_bytes from_be_bytes kernel st events ≡ some st'
      → IsOnce (b || any_failed st events) st'.fatal
  unfolding handle_events any_failed
  handle_events-Once b st st' [] h e =
      let same : st'.fatal ≡ st.fatal = ground (arith, e) in rw same (stays-Once b st.fatal h)
  handle_events-Once b st st' ((disk, event) ∷ events) h e =
      elim (Option-cases (handle_event 𝓢 to_be_bytes from_be_bytes kernel disk st event)) [
        | inl panics ↦ absurd (ground (arith, e, panics))
        | inr (next, handled) ↦
            let one = handle_event-Once b disk st next event h handled in
            let rest =
              handle_events-Once (b || event_failed disk st.wallet event) next st' events one
                (rw (handled, handle_events) at e) in
            rw (handled, any_failed)
              (subst (λ x. IsOnce x st'.fatal)
                (or_assoc b (event_failed disk st.wallet event) (any_failed next events)) rest)
      ]
