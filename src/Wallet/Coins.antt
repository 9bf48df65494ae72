-- ===== src/Wallet/Coins.antt =====
-- `Wallet` of crates/wallet/src/silentpayments/wallet.rs: the coins, what a block does to them, and
-- what is read off them. Amounts are numbers: no sum of bitcoin's coins leaves 64 bits. `none` is a
-- panic.
pub mod Marks
pub mod Reorg
pub mod Tables
use kernel_node.Prelude.{
  ℕ, ◌+◌, Bool, true, false, Option, none, some, List, ◌∷◌, ◌++◌, length, filter, leb,
  if◌then◌else◌, ◌==◌, nat_eq, [],
}
use kernel_node.Prelude.HashSet
use kernel_node.Prelude.HashSet.{
  contains, insert, delete, remove, extend, contains-insert, contains-delete, contains-extend,
  contains-append,
}
use kernel_node.Prelude.HashMap
use kernel_node.Prelude.HashMap.{HashMap, keys, values}
use kernel_node.Wallet.Scanning.{
  OutPoint, outpoint_eq, Transaction, TxIn, TxOut, Block, Coin, SpentBy, SilentPayments,
  scan_block_inner,
}

pub data Network : Type 0 where
  mainnet testnet regtest : Network

pub record SilentPaymentKeys (𝓢 : SilentPayments) : Type 0 where
  pub receiver : 𝓢.Receiver
  pub scan_key : 𝓢.SecretKey

pub record Wallet (𝓢 : SilentPayments) : Type 0 where
  pub scan_height : ℕ
  pub keys : Option (SilentPaymentKeys 𝓢)
  pub spend_key : Option 𝓢.PublicKey
  pub spend_secret : Option 𝓢.SecretKey
  pub network : Network
  pub utxos : HashMap OutPoint Coin
  pub reserved : List OutPoint

pub data HistoryEntry : Type 0 where
  received spent : OutPoint → ℕ → ℕ → HistoryEntry

-- `for (outpoint, coin) in found { self.utxos.insert(outpoint, coin) }`
unfoldable pub insert_all : List (OutPoint × Coin) → HashMap OutPoint Coin → HashMap OutPoint Coin
insert_all [] utxos = utxos
insert_all ((outpoint, coin) ∷ found) utxos = insert_all found (HashMap.insert outpoint coin utxos)

-- `if let Some(utxo) = self.utxos.get_mut(&prev)`, and the coin is changed.
unfoldable pub change : OutPoint → (Coin → Coin) → HashMap OutPoint Coin → HashMap OutPoint Coin
change o f [] = []
change o f ((p, c) ∷ utxos) =
    let rest = change o f utxos in if o == p then (p, f c) ∷ utxos else (p, c) ∷ rest

abbrev pub mark_spent : ℕ → ℕ → Coin → Coin
mark_spent txid block_height c = record c {
  spent_by = some (record { txid = txid; block_height = block_height });
}

unfoldable pub spend_inputs : ℕ → ℕ → List TxIn → HashMap OutPoint Coin → HashMap OutPoint Coin
spend_inputs txid block_height [] utxos = utxos
spend_inputs txid block_height (input ∷ inputs) utxos =
    spend_inputs txid block_height inputs
      (change input.outpoint (mark_spent txid block_height) utxos)

-- The loop over the transactions of the block, the coinbase included.
unfoldable pub spend_all : ℕ → Block → HashMap OutPoint Coin → HashMap OutPoint Coin
spend_all block_height [] utxos = utxos
spend_all block_height (tx ∷ txs) utxos =
    spend_all block_height txs (spend_inputs tx.txid block_height tx.inputs utxos)

abbrev pub txids : Block → List ℕ
txids [] = []
txids (tx ∷ txs) = tx.txid ∷ txids txs

-- `self.utxos.retain(|outpoint, _| !block_txids.contains(&outpoint.txid))`
unfoldable pub retain_others : List ℕ → HashMap OutPoint Coin → HashMap OutPoint Coin
retain_others ids [] = []
retain_others ids ((o, c) ∷ utxos) =
    let rest = retain_others ids utxos in if contains o.txid ids then rest else (o, c) ∷ rest

-- A coin that a transaction of the block spent is unspent again.
unfoldable pub unspend : List ℕ → Coin → Coin
unspend ids c = elim c.spent_by [
  | none ↦ c
  | some s ↦ if contains s.txid ids then record c { spent_by = none } else c
]

unfoldable pub unspend_all : List ℕ → HashMap OutPoint Coin → HashMap OutPoint Coin
unspend_all ids [] = []
unspend_all ids ((o, c) ∷ utxos) = (o, unspend ids c) ∷ unspend_all ids utxos

abbrev pub is_unspent : Coin → Bool
is_unspent c = elim c.spent_by [ none ↦ true | some s ↦ false ]

unfoldable pub sum_unspent : List Coin → ℕ
sum_unspent [] = 0
sum_unspent (c ∷ coins) =
    let rest = sum_unspent coins in if is_unspent c then c.value + rest else rest

-- The entries of a coin: one, or two once it is spent.
abbrev pub coin_history : OutPoint → Coin → List HistoryEntry
coin_history o c =
    received o c.value c.block_height
    ∷ (elim c.spent_by [ none ↦ [] | some s ↦ spent o c.value s.block_height ∷ [] ])

unfoldable pub unsorted_history : HashMap OutPoint Coin → List HistoryEntry
unsorted_history [] = []
unsorted_history ((o, c) ∷ utxos) = coin_history o c ++ unsorted_history utxos

abbrev pub entry_height : HistoryEntry → ℕ
entry_height (received _ _ h) = h
entry_height (spent _ _ h) = h

-- `sort_by_key`, which is stable: an entry goes before the first that is higher than it.
unfoldable pub insert_entry : HistoryEntry → List HistoryEntry → List HistoryEntry
insert_entry e [] = e ∷ []
insert_entry e (f ∷ entries) =
    let rest = insert_entry e entries in
    if leb (entry_height e) (entry_height f) then e ∷ f ∷ entries else f ∷ rest

unfoldable pub sort_entries : List HistoryEntry → List HistoryEntry
sort_entries [] = []
sort_entries (e ∷ entries) = insert_entry e (sort_entries entries)

module _ (𝓢 : SilentPayments) where
  abbrev pub new : Network → Wallet 𝓢
  new network = record {
    scan_height = 0;
    keys = none;
    spend_key = none;
    spend_secret = none;
    network = network;
    utxos = [];
    reserved = [];
  }

  abbrev pub from_parts : ℕ → Network → HashMap OutPoint Coin → Wallet 𝓢
  from_parts scan_height network utxos = record {
    scan_height = scan_height;
    keys = none;
    spend_key = none;
    spend_secret = none;
    network = network;
    utxos = utxos;
    reserved = [];
  }

  unfoldable pub reserve_coins : Wallet 𝓢 → List OutPoint → Wallet 𝓢
  reserve_coins w outpoints = record w { reserved = HashSet.extend w.reserved outpoints }

  unfoldable pub release_coins : Wallet 𝓢 → List OutPoint → Wallet 𝓢
  release_coins w [] = w
  release_coins w (outpoint ∷ outpoints) =
      release_coins (record w { reserved = (HashSet.remove outpoint w.reserved).1 }) outpoints

  -- The number of coins found, and the wallet after the block.
  unfoldable pub scan_block : Wallet 𝓢 → Block → List (List TxOut) → ℕ → Option (ℕ × Wallet 𝓢)
  scan_block w block spent_outputs block_height = elim w.keys [
    | none ↦ some (0, w)
    | some k ↦ elim (scan_block_inner 𝓢 k.receiver k.scan_key block spent_outputs block_height) [
      | none ↦ none
      | some found ↦ some (
        length found,
        record w {
          utxos = spend_all block_height block (insert_all found w.utxos);
          scan_height = block_height;
        },
      )
    ]
  ]

  unfoldable pub process_disconnect : Wallet 𝓢 → Block → Wallet 𝓢
  process_disconnect w block = record w {
    utxos = unspend_all (txids block) (retain_others (txids block) w.utxos);
  }

  unfoldable pub utxo_count : Wallet 𝓢 → ℕ
  utxo_count w = length (filter is_unspent (values w.utxos))

  unfoldable pub balance : Wallet 𝓢 → ℕ
  balance w = sum_unspent (values w.utxos)

  unfoldable pub history : Wallet 𝓢 → List HistoryEntry
  history w = sort_entries (unsorted_history w.utxos)
