-- ===== src/Node/Reservations.antt =====
-- The requests of src/ipc/wallet.rs beside the threads of src/bin/node.rs that broadcast and that
-- scan: all orders in which they change the wallet, as a step relation.
pub mod Kept
use kernel_node.Prelude.{ℕ, ◌≡◌, true, false, Option, none, some, List, ◌++◌, arith, nat_eq, []}
use kernel_node.Prelude.Reader.{ok}
use kernel_node.Prelude.HashSet.{contains, contains-extend, contains-delete, contains-append}
use kernel_node.Prelude.HashMap.{IsTable}
use kernel_node.Prelude.Choices.{IsDistinct, AreApart, AreIn, AreIn-absent}
use kernel_node.Wallet.Scanning.{OutPoint, outpoint_eq, Block, TxOut, SilentPayments}
use kernel_node.Wallet.Coins.{Wallet, scan_block, process_disconnect}
use kernel_node.Wallet.Keys.{KeyMaking}
use kernel_node.Wallet.Sending.{previous_outputs, Payment, Spending}
use kernel_node.Wallet.Sending.Free.{IsSpendable}
use kernel_node.Node.Requests.{FloatRates, WalletIpcInterface, send_to_address, import_keys}
use kernel_node.Node.Events.{after_broadcast}

module _ (𝓢 : SilentPayments) (𝓚 : KeyMaking 𝓢) (𝓣 : Spending 𝓢 𝓚) (𝓕 : FloatRates) where
  -- The wallet and the channel, the transaction that the broadcast thread is busy with, and the
  -- outpoints that the transactions which got out have spent.
  pub record Node : Type 0 where
    pub ipc : WalletIpcInterface 𝓢 𝓚 𝓣 𝓕
    pub broadcasting : Option Payment
    pub broadcast : List OutPoint

  abbrev pub outpoints_of : Option Payment → List OutPoint
  outpoints_of none = []
  outpoints_of (some tx) = previous_outputs tx.input

  -- What the transactions that wait, are being broadcast, or got out spend.
  abbrev pub pending : Node → List OutPoint
  pending st =
      outpoints_of st.ipc.broadcast_tx.waiting ++ (outpoints_of st.broadcasting ++ st.broadcast)

  abbrev pub with_wallet : Node → Wallet 𝓢 → Node
  with_wallet st w = record st { ipc = record st.ipc { wallet = w } }

  -- No transaction of another wallet's making is handed in (`broadcast_raw_tx`).
  pub data Step : Node → Node → Type 0 where
    sends :
        (st : Node) (address : List ℕ) (amount : ℕ) (rate ltr : 𝓕.Rate)
        → Step st (record st { ipc = (send_to_address 𝓢 𝓚 𝓣 𝓕 st.ipc address amount rate ltr).0 })
    takes :
        (st : Node) (tx : Payment)
        → st.ipc.broadcast_tx.waiting ≡ some tx
        → st.broadcasting ≡ none
        → Step st (record st {
          ipc = record st.ipc { broadcast_tx = record st.ipc.broadcast_tx { waiting = none } };
          broadcasting = some tx;
        })
    gets_out :
        (st : Node) (tx : Payment)
        → st.broadcasting ≡ some tx
        → Step st (record st {
          ipc = record st.ipc { wallet = after_broadcast 𝓢 st.ipc.wallet tx true };
          broadcasting = none;
          broadcast = previous_outputs tx.input ++ st.broadcast;
        })
    gets_lost :
        (st : Node) (tx : Payment)
        → st.broadcasting ≡ some tx
        → Step st (record st {
          ipc = record st.ipc { wallet = after_broadcast 𝓢 st.ipc.wallet tx false };
          broadcasting = none;
        })
    scans :
        (st : Node) (block : Block) (spents : List (List TxOut)) (height count : ℕ) (w : Wallet 𝓢)
        → scan_block 𝓢 st.ipc.wallet block spents height ≡ some (count, w)
        → Step st (with_wallet st w)
    disconnects :
        (st : Node) (block : Block)
        → Step st (with_wallet st (process_disconnect 𝓢 st.ipc.wallet block))
    imports :
        (st : Node) (scan_bytes spend_bytes : List ℕ) (ipc : WalletIpcInterface 𝓢 𝓚 𝓣 𝓕)
        → import_keys 𝓢 𝓚 𝓣 𝓕 st.ipc scan_bytes spend_bytes ≡ ok ipc
        → Step st (record st { ipc = ipc })

  pub data Reach (start : Node) : Node → Type 0 where
    here : Reach start start
    after : {st st' : Node} → Reach start st → Step st st' → Reach start st'

  pub record IsKept (st : Node) : Type 0 where
    pub table : IsTable st.ipc.wallet.utxos
    pub distinct : IsDistinct (pending st)
    pub held : AreIn (pending st) st.ipc.wallet.reserved
