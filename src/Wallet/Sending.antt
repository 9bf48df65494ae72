-- ===== src/Wallet/Sending.antt =====
-- crates/wallet/src/silentpayments/sending.rs: the transactions that the wallet builds. The choice of
-- coins is bdk_coin_select's, the cryptography silentpayments' and secp256k1's, addresses and
-- signature hashes rust-bitcoin's: parameters all, and so is the quotient of floats in `cs_feerate`. What only those crates look at (the version, the
-- sequence numbers, the key pair of a signature) stands behind them.
pub mod Recipients
pub mod Selection
pub mod Build
pub mod Free
pub mod Derived
pub mod Assembly
pub mod Payments
use kernel_node.Prelude.{
  ℕ, ◌+◌, ◌-◌, ◌*◌, ◌^◌, min, Bool, true, false, not, ◌&&◌, Option, List, ◌∷◌, ◌++◌, if◌then◌else◌,
  Eq, nat_eq, [],
}
use kernel_node.Prelude.Bytes.{to_le_bytes}
use kernel_node.Prelude.Reader.{Result, ok, err, and_then, ok_or}
use kernel_node.Prelude.HashSet.{contains}
use kernel_node.Prelude.HashMap
use kernel_node.Prelude.HashMap.{HashMap}
use kernel_node.Wallet.Scanning.{OutPoint, outpoint_eq, Coin, TxOut, SilentPayments, is_empty}
use kernel_node.Wallet.Coins.{Wallet, Network, mainnet, testnet, regtest, is_unspent}
use kernel_node.Wallet.Keys.{KeyMaking}

pub data SendError : Type 0 where
  watch_only no_spendable_coins network_mismatch output_derivation : SendError
  dust_amount insufficient_funds : ℕ → ℕ → SendError
  invalid_recipient : List ℕ → SendError
  silent_payments secp sighash : SendError

unfoldable pub is_user_error : SendError → Bool
is_user_error watch_only = true
is_user_error no_spendable_coins = true
is_user_error (dust_amount amount dust) = true
is_user_error (insufficient_funds needed available) = true
is_user_error network_mismatch = true
is_user_error (invalid_recipient e) = true
is_user_error output_derivation = false
is_user_error silent_payments = false
is_user_error secp = false
is_user_error sighash = false

pub data BitcoinNetwork : Type 0 where
  bitcoin testnet3 regtest_chain : BitcoinNetwork

unfoldable pub bitcoin_network : Network → BitcoinNetwork
bitcoin_network mainnet = bitcoin
bitcoin_network testnet = testnet3
bitcoin_network regtest = regtest_chain

-- The tests of `sp.network() != network`.
unfoldable pub same_network : Network → Network → Bool
same_network mainnet mainnet = true
same_network testnet testnet = true
same_network regtest regtest = true
same_network m n = false

pub record SpendableCoin : Type 0 where
  pub outpoint : OutPoint
  pub coin : Coin

pub record Input : Type 0 where
  pub previous_output : OutPoint
  pub witness : List ℕ

pub record Payment : Type 0 where
  pub lock_time : ℕ
  pub input : List Input
  pub output : List TxOut

abbrev pub previous_outputs : List Input → List OutPoint
previous_outputs [] = []
previous_outputs (i ∷ inputs) = i.previous_output ∷ previous_outputs inputs

-- `Target`, `ChangePolicy` as they are made from the request: the fee rate, the weight of the
-- recipient's output and the amount; the dust limit of the change and the two fee rates.
pub record Target (FeeRate : Type 0) : Type 0 where
  pub feerate : FeeRate
  pub weight : ℕ
  pub amount : ℕ

pub record ChangePolicy (FeeRate : Type 0) : Type 0 where
  pub min_value : ℕ
  pub feerate : FeeRate
  pub long_term_feerate : FeeRate

-- What the crates provide. A selection of bdk_coin_select is the set of the indices that are chosen;
-- a drain is the value of the change, if there is any. `taproot_signature` is the witness of an
-- input: its sighash over all outputs that are spent, signed.
pub record Spending (𝓢 : SilentPayments) (𝓚 : KeyMaking 𝓢) : Type 1 where
  pub FeeRate : Type 0
  pub Selection : Type 0
  pub Address : Type 0
  pub Material : Type 0
  pub PartialSecret : Type 0
  pub material_eq : Eq Material
  pub parse_code : List ℕ → Option 𝓚.Code
  pub code_network : 𝓚.Code → Network
  pub parse_address : List ℕ → Result (List ℕ) Address
  pub has_network : Address → BitcoinNetwork → Bool
  pub script_pubkey : Address → List ℕ
  pub minimal_non_dust : List ℕ → ℕ
  pub p2tr_tweaked : ℕ → List ℕ
  pub x_only : 𝓢.SecretKey → ℕ
  pub keyspend_output_weight : ℕ
  pub cs_feerate : ℕ → FeeRate
  pub run_bnb : List ℕ → Target FeeRate → ChangePolicy FeeRate → FeeRate → ℕ → Option Selection
  pub select_until_target_met : List ℕ → Target FeeRate → Result ℕ Selection
  pub drain : List ℕ → Selection → Target FeeRate → ChangePolicy FeeRate → Option ℕ
  pub apply_selection : Selection → List SpendableCoin → List SpendableCoin
  pub shuffle_coins : List SpendableCoin → List SpendableCoin
  pub shuffle_outputs : List TxOut → List TxOut
  pub add_tweak : 𝓢.SecretKey → ℕ → Option 𝓢.SecretKey
  pub material : 𝓚.Code → Material
  pub calculate_partial_secret : List (𝓢.SecretKey × Bool) → List (List ℕ) → Option PartialSecret
  pub generate_recipient_pubkeys :
      List Material → PartialSecret → Option (HashMap Material (List ℕ))
  pub lock_time_from_height : ℕ → Option ℕ
  pub taproot_signature : Payment → ℕ → List TxOut → 𝓢.SecretKey → Option (List ℕ)

abbrev pub max_bnb_rounds : ℕ
max_bnb_rounds = 100000

-- `u64::saturating_add`
abbrev pub saturating_add : ℕ → ℕ → ℕ
saturating_add a b = min (a + b) (2 ^ 64 - 1)

unfoldable pub available_from : ℕ → List SpendableCoin → ℕ
available_from total [] = total
available_from total (c ∷ coins) = available_from (saturating_add total c.coin.value) coins

unfoldable pub output_weight : ℕ → ℕ
output_weight script_len = (8 + 1 + script_len) * 4

abbrev pub coin_values : List SpendableCoin → List ℕ
coin_values [] = []
coin_values (c ∷ coins) = c.coin.value ∷ coin_values coins

-- `utxos.iter().filter(..).map(..)`
unfoldable pub spendable_coins : List OutPoint → HashMap OutPoint Coin → List SpendableCoin
spendable_coins reserved [] = []
spendable_coins reserved ((outpoint, coin) ∷ utxos) =
    let rest = spendable_coins reserved utxos in
    if is_unspent coin && not (contains outpoint reserved)
    then record { outpoint = outpoint; coin = coin } ∷ rest
    else rest

abbrev pub outpoint_bytes : List SpendableCoin → List (List ℕ)
outpoint_bytes [] = []
outpoint_bytes (c ∷ coins) =
    (to_le_bytes 32 c.outpoint.txid ++ to_le_bytes 4 c.outpoint.vout) ∷ outpoint_bytes coins

abbrev pub unsigned_inputs : List SpendableCoin → List Input
unsigned_inputs [] = []
unsigned_inputs (c ∷ coins) =
    record { previous_output = c.outpoint; witness = [] } ∷ unsigned_inputs coins

abbrev pub prevouts : List SpendableCoin → List TxOut
prevouts [] = []
prevouts (c ∷ coins) =
    record { value = c.coin.value; script_pubkey = c.coin.script_pubkey } ∷ prevouts coins

-- The zip with the witnesses, which ends with the shorter list.
unfoldable pub set_witnesses : List Input → List (List ℕ) → List Input
set_witnesses [] witnesses = []
set_witnesses (i ∷ inputs) [] = i ∷ inputs
set_witnesses (i ∷ inputs) (w ∷ witnesses) =
    record { previous_output = i.previous_output; witness = w } ∷ set_witnesses inputs witnesses
