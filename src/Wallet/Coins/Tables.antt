-- ===== src/Wallet/Coins/Tables.antt =====
-- What a block does to the wallet leaves its coins a table, with one coin for each outpoint.
use kernel_node.Prelude.{
  ℕ, ◌≡◌, refl, inl, inr, none, some, List, ◌∷◌, arith, Bool-cases, Option-cases, ◌==◌, nat_eq, [],
}
use kernel_node.Prelude.HashSet.{contains}
use kernel_node.Prelude.HashMap
use kernel_node.Prelude.HashMap.{HashMap, get, IsTable, insert-IsTable}
use kernel_node.Wallet.Scanning.{
  OutPoint, outpoint_eq, Coin, Block, TxIn, TxOut, SilentPayments, scan_block_inner,
}
use kernel_node.Wallet.Coins.{
  Wallet, insert_all, change, mark_spent, spend_inputs, spend_all, retain_others, unspend_all,
  scan_block, process_disconnect, txids,
}

insert_all-IsTable :
    (found : List (OutPoint × Coin)) (utxos : HashMap OutPoint Coin)
    → IsTable utxos
    → IsTable (insert_all found utxos)
unfolding insert_all
insert_all-IsTable [] utxos h = h
insert_all-IsTable ((o, c) ∷ found) utxos h =
    insert_all-IsTable found (HashMap.insert o c utxos) (insert-IsTable o c utxos h)

get-change-none :
    (j o : OutPoint) (f : Coin → Coin) (utxos : HashMap OutPoint Coin)
    → get j utxos ≡ none
    → get j (change o f utxos) ≡ none
unfolding get change
get-change-none j o f [] h = h
get-change-none j o f ((p, c) ∷ utxos) h = ground (arith, get-change-none j o f utxos, h)

change-IsTable :
    (o : OutPoint) (f : Coin → Coin) (utxos : HashMap OutPoint Coin)
    → IsTable utxos
    → IsTable (change o f utxos)
unfolding change
change-IsTable o f [] h = h
change-IsTable o f ((p, c) ∷ utxos) (fresh, h) =
    let rest = change-IsTable o f utxos h in
    let absent = get-change-none p o f utxos fresh in
    elim (Bool-cases (o == p)) [ inl here ↦ rw here (fresh, h) | inr past ↦ rw past (absent, rest) ]

spend_inputs-IsTable :
    (txid height : ℕ) (inputs : List TxIn) (utxos : HashMap OutPoint Coin)
    → IsTable utxos
    → IsTable (spend_inputs txid height inputs utxos)
unfolding spend_inputs
spend_inputs-IsTable txid height [] utxos h = h
spend_inputs-IsTable txid height (i ∷ inputs) utxos h =
    spend_inputs-IsTable txid height inputs _
      (change-IsTable i.outpoint (mark_spent txid height) utxos h)

spend_all-IsTable :
    (height : ℕ) (block : Block) (utxos : HashMap OutPoint Coin)
    → IsTable utxos
    → IsTable (spend_all height block utxos)
unfolding spend_all
spend_all-IsTable height [] utxos h = h
spend_all-IsTable height (tx ∷ txs) utxos h =
    spend_all-IsTable height txs _ (spend_inputs-IsTable tx.txid height tx.inputs utxos h)

get-retain_others-none :
    (j : OutPoint) (ids : List ℕ) (utxos : HashMap OutPoint Coin)
    → get j utxos ≡ none
    → get j (retain_others ids utxos) ≡ none
unfolding get retain_others
get-retain_others-none j ids [] h = h
get-retain_others-none j ids ((p, c) ∷ utxos) h =
    ground (arith, get-retain_others-none j ids utxos, h)

retain_others-IsTable :
    (ids : List ℕ) (utxos : HashMap OutPoint Coin)
    → IsTable utxos
    → IsTable (retain_others ids utxos)
unfolding retain_others
retain_others-IsTable ids [] h = h
retain_others-IsTable ids ((p, c) ∷ utxos) (fresh, h) =
    let rest = retain_others-IsTable ids utxos h in
    let absent = get-retain_others-none p ids utxos fresh in
    elim (Bool-cases (contains p.txid ids)) [
      | inl gone ↦ rw gone rest
      | inr kept ↦ rw kept (absent, rest)
    ]

get-unspend_all-none :
    (j : OutPoint) (ids : List ℕ) (utxos : HashMap OutPoint Coin)
    → get j utxos ≡ none
    → get j (unspend_all ids utxos) ≡ none
unfolding get unspend_all
get-unspend_all-none j ids [] h = h
get-unspend_all-none j ids ((p, c) ∷ utxos) h = ground (arith, get-unspend_all-none j ids utxos, h)

unspend_all-IsTable :
    (ids : List ℕ) (utxos : HashMap OutPoint Coin) → IsTable utxos → IsTable (unspend_all ids utxos)
unfolding unspend_all
unspend_all-IsTable ids [] h = h
unspend_all-IsTable ids ((p, c) ∷ utxos) (fresh, h) =
    (get-unspend_all-none p ids utxos fresh, unspend_all-IsTable ids utxos h)

module _ (𝓢 : SilentPayments) where
  pub process_disconnect-IsTable :
      (w : Wallet 𝓢) (block : Block)
      → IsTable w.utxos
      → IsTable (process_disconnect 𝓢 w block).utxos
  unfolding process_disconnect
  process_disconnect-IsTable w block h =
      unspend_all-IsTable (txids block) _ (retain_others-IsTable (txids block) w.utxos h)

  -- A scan changes the coins and the height; the table and the reservations stand.
  pub scan_block-IsTable :
      (w w' : Wallet 𝓢) (block : Block) (spents : List (List TxOut)) (height count : ℕ)
      → IsTable w.utxos
      → scan_block 𝓢 w block spents height ≡ some (count, w')
      → IsTable w'.utxos × (w'.reserved ≡ w.reserved)
  unfolding scan_block
  scan_block-IsTable w w' block spents height count h e = elim (Option-cases w.keys) [
    | inl no_keys ↦ let same : w' ≡ w = ground (arith, e, no_keys) in rw same (h, refl)
    | inr (k, keys) ↦
        elim (Option-cases (scan_block_inner 𝓢 k.receiver k.scan_key block spents height)) [
          | inl panics ↦ absurd (ground (arith, e, keys, panics))
          | inr (found, scanned) ↦
              let utxos : w'.utxos ≡ spend_all height block (insert_all found w.utxos) =
                ground (arith, e, keys, scanned) in
              let reserved : w'.reserved ≡ w.reserved = ground (arith, e, keys, scanned) in
              (
                rw utxos (spend_all-IsTable height block _ (insert_all-IsTable found w.utxos h)),
                reserved,
              )
        ]
  ]
