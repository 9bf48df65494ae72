-- ===== src/Wallet/Coins/Reorg.antt =====
-- A block that is connected and disconnected again.
use kernel_node.Prelude.{
  ℕ, ◌≡◌, refl, sym, ap, ◌∙◌, ◌⊎◌, inl, inr, true, false, Option, none, some, List, ◌∷◌, ◌++◌,
  arith, get_elem?, Bool-cases, Option-cases, nat_eq, [],
}
use kernel_node.Prelude.HashSet.{contains}
use kernel_node.Wallet.Coins.Marks.{
  on, get-retain_others, get-unspend_all, FoundIn, get-insert_all, spend_all-Undoable, AllNamed,
  AllNamed-txids, spent_in, get-spend_all,
}
use kernel_node.Wallet.Scanning.{
  is_empty, taproot_outputs_from, input_data, scan_transaction, scan_one, scan_loop,
  scan_block_inner,
}
use kernel_node.Prelude.HashMap
use kernel_node.Prelude.HashMap.{HashMap, get-insert}
use kernel_node.Wallet.Scanning.{
  OutPoint, outpoint_eq, Transaction, TxOut, Block, Coin, SilentPayments, scan_block_inner,
  scan_loop, scan_one, found_coins, Match,
}
use kernel_node.Wallet.Coins.{
  Wallet, insert_all, spend_all, txids, retain_others, unspend, unspend_all, scan_block,
  process_disconnect,
}

FoundIn-append :
    (ids : List ℕ) (xs ys : List (OutPoint × Coin))
    → FoundIn ids xs
    → FoundIn ids ys
    → FoundIn ids (xs ++ ys)
FoundIn-append ids [] ys f g = g
FoundIn-append ids ((o, c) ∷ xs) ys (here, f) g = (here, FoundIn-append ids xs ys f g)

-- The same of a result, if there is one.
abbrev IfFound : List ℕ → Option (List (OutPoint × Coin)) → Type 0
IfFound ids none = Unit {0}
IfFound ids (some found) = FoundIn ids found

module _ (𝓢 : SilentPayments) where
  found_coins-IfFound :
      (ids : List ℕ) (tx : Transaction) (h : ℕ) (matches : List (Match 𝓢))
      → contains tx.txid ids ≡ true
      → IfFound ids (found_coins 𝓢 tx h matches)
  unfolding found_coins
  found_coins-IfFound ids tx h [] ours = tt
  found_coins-IfFound ids tx h ((index, tweak, label) ∷ matches) ours =
      let rest = found_coins-IfFound ids tx h matches ours in
      elim (Option-cases (get_elem? tx.outputs index)) [
        | inl gone ↦ rw (gone, IfFound, found_coins) tt
        | inr (out, at) ↦ elim (Option-cases (found_coins 𝓢 tx h matches)) [
          | inl bad ↦ rw (at, bad, IfFound, found_coins) tt
          | inr (found, e) ↦ rw (at, e, IfFound, found_coins) (ours, rw e at rest)
        ]
      ]

  scan_one-IfFound :
      (ids : List ℕ) (receiver : 𝓢.Receiver) (b_scan : 𝓢.SecretKey) (h : ℕ) (tx : Transaction)
      (spent : List TxOut)
      → contains tx.txid ids ≡ true
      → IfFound ids (scan_one 𝓢 receiver b_scan h tx spent)
  unfolding scan_one
  scan_one-IfFound ids receiver b_scan h tx spent ours =
      let outputs = taproot_outputs_from 𝓢 0 tx.outputs in
      elim (Bool-cases (is_empty outputs)) [
        | inl bare ↦ rw bare tt
        | inr some_outputs ↦ elim (Option-cases (input_data 𝓢 tx.inputs spent)) [
          | inl bad ↦ rw (some_outputs, bad) tt
          | inr (inputs, e) ↦
              rw (some_outputs, e)
                (found_coins-IfFound ids tx h (scan_transaction 𝓢 receiver b_scan inputs outputs)
                  ours)
        ]
      ]

  scan_loop-IfFound :
      (ids : List ℕ) (receiver : 𝓢.Receiver) (b_scan : 𝓢.SecretKey) (h : ℕ) (txs : Block)
      (spents : List (List TxOut))
      → AllNamed ids txs
      → IfFound ids (scan_loop 𝓢 receiver b_scan h txs spents)
  unfolding scan_loop
  scan_loop-IfFound ids receiver b_scan h [] spents named = tt
  scan_loop-IfFound ids receiver b_scan h (tx ∷ txs) [] named = tt
  scan_loop-IfFound ids receiver b_scan h (tx ∷ txs) (spent ∷ spents) (ours, named) =
      let first = scan_one-IfFound ids receiver b_scan h tx spent ours in
      let rest = scan_loop-IfFound ids receiver b_scan h txs spents named in
      elim (Option-cases (scan_one 𝓢 receiver b_scan h tx spent)) [
        | inl bad ↦ rw (bad, IfFound, scan_loop) tt
        | inr (found, e) ↦ elim (Option-cases (scan_loop 𝓢 receiver b_scan h txs spents)) [
          | inl bad ↦ rw (e, bad, IfFound, scan_loop) tt
          | inr (more, e') ↦
              rw (e, e', IfFound, scan_loop)
                (FoundIn-append ids found more (rw e at first) (rw e' at rest))
        ]
      ]

  scan_block_inner-IfFound :
      (receiver : 𝓢.Receiver) (b_scan : 𝓢.SecretKey) (h : ℕ) (block : Block)
      (spents : List (List TxOut))
      → IfFound (txids block) (scan_block_inner 𝓢 receiver b_scan block spents h)
  unfolding scan_block_inner
  scan_block_inner-IfFound receiver b_scan h [] spents =
      scan_loop-IfFound [] receiver b_scan h [] spents tt
  scan_block_inner-IfFound receiver b_scan h (tx ∷ txs) spents =
      scan_loop-IfFound (txids (tx ∷ txs)) receiver b_scan h txs spents
        (AllNamed-txids (tx ∷ txs)).1

  -- What a coin must be for a block that is connected and disconnected to leave it: unspent; or spent
  -- elsewhere, and not named by an input of the block.
  abbrev pub IsSettled : Block → OutPoint → Option Coin → Type 0
  IsSettled block o none = Unit {0}
  IsSettled block o (some c) =
      (c.spent_by ≡ none) ⊎ ((unspend (txids block) c ≡ c) × (contains o (spent_in block) ≡ false))

  unspend-unspent : (ids : List ℕ) (c : Coin) → c.spent_by ≡ none → unspend ids c ≡ c
  unfolding unspend
  unspend-unspent ids c e = rw (e, unspend) (ap (λ s. record c { spent_by = s }) e)

  unspend-IsSettled :
      (block : Block) (o : OutPoint) (oc : Option Coin)
      → IsSettled block o oc
      → on (unspend (txids block)) oc ≡ oc
  unspend-IsSettled block o none s = refl
  unspend-IsSettled block o (some c) (inl e) = ap some (unspend-unspent (txids block) c e)
  unspend-IsSettled block o (some c) (inr (same, far)) = ap some same

  spend_all-IsSettled :
      (block : Block) (o : OutPoint) (h : ℕ) (m : HashMap OutPoint Coin)
      → IsSettled block o (HashMap.get o m)
      → on (unspend (txids block)) (HashMap.get o (spend_all h block m)) ≡ HashMap.get o m
  spend_all-IsSettled block o h m s = go (HashMap.get o m) refl s
    where
      go :
          (oc : Option Coin)
          → HashMap.get o m ≡ oc
          → IsSettled block o oc
          → on (unspend (txids block)) (HashMap.get o (spend_all h block m)) ≡ HashMap.get o m
      go none e x =
          spend_all-Undoable o (txids block) h block m (AllNamed-txids block) (rw e tt)
          ∙ unspend-IsSettled block o (HashMap.get o m) s
      go (some c) e (inl free) =
          spend_all-Undoable o (txids block) h block m (AllNamed-txids block) (rw e (rw free tt))
          ∙ unspend-IsSettled block o (HashMap.get o m) s
      go (some c) e (inr (same, far)) =
          ap (on (unspend (txids block))) (get-spend_all o h block m far)
          ∙ unspend-IsSettled block o (HashMap.get o m) s

  disconnected :
      (block : Block) (o : OutPoint) (u m : HashMap OutPoint Coin)
      → (contains o.txid (txids block) ≡ true → HashMap.get o m ≡ none)
      → (contains o.txid (txids block) ≡ false
          → on (unspend (txids block)) (HashMap.get o u) ≡ HashMap.get o m)
      → HashMap.get o (unspend_all (txids block) (retain_others (txids block) u)) ≡ HashMap.get o m
  disconnected block o u m fresh rest =
      rw
        (
          get-unspend_all o (txids block) (retain_others (txids block) u),
          get-retain_others o (txids block) u,
        )
        (elim (Bool-cases (contains o.txid (txids block))) [
          | inl near ↦ rw near (sym (fresh near))
          | inr far ↦ rw far (rest far)
        ])

  scan_block-utxos :
      (w w' : Wallet 𝓢) (block : Block) (spents : List (List TxOut)) (h n : ℕ)
      → scan_block 𝓢 w block spents h ≡ some (n, w')
      → (w'.utxos ≡ w.utxos)
        ⊎ ((found : List (OutPoint × Coin)) × FoundIn (txids block) found
            × (w'.utxos ≡ spend_all h block (insert_all found w.utxos)))
  unfolding scan_block
  scan_block-utxos w w' block spents h n e = elim (Option-cases w.keys) [
    | inl locked ↦ inl (ground arith)
    | inr (k, at) ↦ elim (Option-cases (scan_block_inner 𝓢 k.receiver k.scan_key block spents h)) [
      | inl bad ↦ absurd (ground arith)
      | inr (found, q) ↦ inr (
        found,
        rw q at (scan_block_inner-IfFound k.receiver k.scan_key h block spents),
        ground arith,
      )
    ]
  ]

  -- A block that is connected and then disconnected leaves each outpoint with the coin, or without
  -- one, as before: if the coin there is settled, and the wallet had none of the block's own
  -- transactions.
  pub process_disconnect-scan_block :
      (w w' : Wallet 𝓢) (block : Block) (spents : List (List TxOut)) (h n : ℕ) (o : OutPoint)
      → (contains o.txid (txids block) ≡ true → HashMap.get o w.utxos ≡ none)
      → IsSettled block o (HashMap.get o w.utxos)
      → scan_block 𝓢 w block spents h ≡ some (n, w')
      → HashMap.get o (process_disconnect 𝓢 w' block).utxos ≡ HashMap.get o w.utxos
  unfolding process_disconnect
  process_disconnect-scan_block w w' block spents h n o fresh settled e =
      disconnected block o w'.utxos w.utxos fresh (λ far.
        elim (scan_block-utxos w w' block spents h n e) [
          | inl same ↦ rw same (unspend-IsSettled block o (HashMap.get o w.utxos) settled)
          | inr (found, fi, after) ↦
              let kept = get-insert_all o (txids block) found w.utxos fi far in
              rw after
                (spend_all-IsSettled block o h (insert_all found w.utxos) (rw kept settled) ∙ kept)
        ])
