-- ===== src/Node/Requests.antt =====
-- src/ipc/wallet.rs: the requests to the wallet that come over the socket. The wire format is
-- Cap'n Proto's: a request is its arguments, and a reply its results. A fee rate is a float; what is
-- computed of it is a parameter.
use kernel_node.Prelude.{
  ℕ, ◌%◌, ◌^◌, Bool, not, ◌||◌, Option, none, some, List, if◌then◌else◌, nat_eq,
}
use kernel_node.Prelude.Reader.{Result, ok, err, and_then}
use kernel_node.Wallet.Scanning.{SilentPayments}
use kernel_node.Wallet.Coins
use kernel_node.Wallet.Coins.{Wallet, HistoryEntry}
use kernel_node.Wallet.Keys
use kernel_node.Wallet.Keys.{KeyMaking}
use kernel_node.Wallet.Sending.{SendError, is_user_error, previous_outputs, Payment, Spending}
use kernel_node.Wallet.Sending.Recipients.{parse}
use kernel_node.Wallet.Sending.Build.{build_transaction}

-- `is_finite`, `< 0.0`, and `(rate * 250.0).ceil() as u64`.
pub record FloatRates : Type 1 where
  pub Rate : Type 0
  pub is_finite : Rate → Bool
  pub is_negative : Rate → Bool
  pub sat_per_kwu : Rate → ℕ

-- The channel to the broadcast thread, `sync_channel(1)`: what waits in it, and whether the thread
-- is there to take it.
pub record Channel (A : Type 0) : Type 0 where
  pub waiting : Option A
  pub connected : Bool

unfoldable pub try_send : {A : Type 0} → Channel A → A → Option (Channel A)
try_send c a =
    if not c.connected
    then none
    else (elim c.waiting [ none ↦ some (record c { waiting = some a }) | some b ↦ none ])

pub data Failure : Type 0 where
  bad_fee_rate bad_consolidate_fee_rate broadcast_unavailable no_keys : Failure
  bad_scan_key bad_spend_key bad_key_pair bad_transaction : Failure
  not_built : SendError → Failure

module _ (𝓢 : SilentPayments) (𝓚 : KeyMaking 𝓢) (𝓣 : Spending 𝓢 𝓚) (𝓕 : FloatRates) where
  -- The state behind the lock and the sender.
  pub record WalletIpcInterface : Type 0 where
    pub wallet : Wallet 𝓢
    pub broadcast_tx : Channel Payment

  -- What `send_to_address` answers: the transaction that is on its way, or why there is none.
  pub data SendReply : Type 0 where
    sent : Payment → SendReply
    refused : SendError → SendReply
    failure : Failure → SendReply

  abbrev pub bad_rate : 𝓕.Rate → Bool
  bad_rate rate = not (𝓕.is_finite rate) || 𝓕.is_negative rate

  unfoldable pub submit : WalletIpcInterface → Payment → WalletIpcInterface × SendReply
  submit ipc tx = elim (try_send ipc.broadcast_tx tx) [
    | none ↦ (ipc, failure broadcast_unavailable)
    | some channel ↦ (
      record {
        wallet = Coins.reserve_coins 𝓢 ipc.wallet (previous_outputs tx.input);
        broadcast_tx = channel;
      },
      sent tx,
    )
  ]

  unfoldable pub send_to_address :
      WalletIpcInterface → List ℕ → ℕ → 𝓕.Rate → 𝓕.Rate → WalletIpcInterface × SendReply
  send_to_address ipc address amount rate long_term_rate =
      if bad_rate rate
      then (ipc, failure bad_fee_rate)
      else if bad_rate long_term_rate
      then (ipc, failure bad_consolidate_fee_rate)
      else (elim (and_then (parse 𝓢 𝓚 𝓣 address ipc.wallet.network) (λ recipient.
          build_transaction 𝓢 𝓚 𝓣 ipc.wallet recipient amount (𝓕.sat_per_kwu rate)
            (𝓕.sat_per_kwu long_term_rate))) [
              | ok tx ↦ submit ipc tx
              | err e ↦ if is_user_error e then (ipc, refused e) else (ipc, failure (not_built e))
            ])

  -- `none` is a transaction that does not decode.
  unfoldable pub broadcast_raw_tx :
      WalletIpcInterface → Option Payment → WalletIpcInterface × SendReply
  broadcast_raw_tx ipc none = (ipc, failure bad_transaction)
  broadcast_raw_tx ipc (some tx) = elim (try_send ipc.broadcast_tx tx) [
    | none ↦ (ipc, failure broadcast_unavailable)
    | some channel ↦ (record ipc { broadcast_tx = channel }, sent tx)
  ]

  unfoldable pub import_keys :
      WalletIpcInterface → List ℕ → List ℕ → Result Failure WalletIpcInterface
  import_keys ipc scan_bytes spend_bytes = elim (𝓚.secret_from_slice scan_bytes) [
    | err e ↦ err bad_scan_key
    | ok scan_key ↦ elim (𝓚.xonly_from_slice spend_bytes) [
      | err e ↦ err bad_spend_key
      | ok spend_xonly ↦ elim (Keys.import_keys 𝓢 𝓚 scan_key spend_xonly ipc.wallet) [
        | err e ↦ err bad_key_pair
        | ok imported ↦ ok (record ipc { wallet = imported })
      ]
    ]
  ]

  -- The balance, the height and the number of coins, which is cut to 32 bits.
  unfoldable pub get_balance : WalletIpcInterface → ℕ × ℕ × ℕ
  get_balance ipc =
      (Coins.balance 𝓢 ipc.wallet, ipc.wallet.scan_height, Coins.utxo_count 𝓢 ipc.wallet % 2 ^ 32)

  unfoldable pub get_history : WalletIpcInterface → List HistoryEntry
  get_history ipc = Coins.history 𝓢 ipc.wallet

  unfoldable pub receive : WalletIpcInterface → Result Failure (List ℕ)
  receive ipc = elim (Keys.receive_address 𝓢 𝓚 ipc.wallet) [
    | none ↦ err no_keys
    | some address ↦ ok address
  ]
