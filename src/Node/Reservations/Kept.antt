-- ===== src/Node/Reservations/Kept.antt =====
-- The reservations of the wallet through all that src/ipc/wallet.rs and src/bin/node.rs do to it.
use kernel_node.Prelude.{
  ℕ, All, ◌≡◌, refl, inl, inr, false, none, some, List, ◌∷◌, ◌++◌, arith, if◌then◌else◌, nat_eq, [],
}
use kernel_node.Prelude.Reader.{ok, Result-cases}
use kernel_node.Prelude.HashSet
use kernel_node.Prelude.HashSet.{contains, contains-extend, contains-delete}
use kernel_node.Prelude.Choices.{
  IsDistinct, AreApart, AreIn, IsDistinct-append, IsDistinct-right, IsDistinct-drop_middle,
  AreIn-absent, AreIn-self, AreIn-append, AreIn-right, AreIn-drop_middle,
}
use kernel_node.Wallet.Scanning.{OutPoint, outpoint_eq, SilentPayments}
use kernel_node.Wallet.Coins.{Wallet, process_disconnect, reserve_coins, release_coins}
use kernel_node.Wallet.Coins.Tables.{scan_block-IsTable, process_disconnect-IsTable}
use kernel_node.Wallet.Keys
use kernel_node.Wallet.Keys.{KeyMaking}
use kernel_node.Wallet.Sending.{previous_outputs, Payment, Spending}
use kernel_node.Wallet.Sending.Free.{HasSelection, IsSpendable}
use kernel_node.Wallet.Sending.Payments.{build_transaction-Payment}
use kernel_node.Node.Requests.{
  FloatRates, WalletIpcInterface, import_keys, SendReply, sent, failure, refused,
}
use kernel_node.Node.Events.{after_broadcast}
use kernel_node.Node.Sends.{
  IsSent, Outcome, went_out, user_error, other_error, send_to_address-Outcome,
}
use kernel_node.Node.Reservations.{
  Node, outpoints_of, Step, sends, takes, gets_out, gets_lost, scans, disconnects, imports, Reach,
  here, after, IsKept,
}

AreIn-extend :
    (reserved more ws : List OutPoint) → AreIn ws reserved → AreIn ws (HashSet.extend reserved more)
AreIn-extend reserved more [] h = tt
AreIn-extend reserved more (o ∷ ws) (p, h) =
    (ground (arith, contains-extend o reserved more, p), AreIn-extend reserved more ws h)

AreIn-extended :
    (reserved more ws : List OutPoint) → AreIn ws more → AreIn ws (HashSet.extend reserved more)
AreIn-extended reserved more [] h = tt
AreIn-extended reserved more (o ∷ ws) (p, h) =
    (ground (arith, contains-extend o reserved more, p), AreIn-extended reserved more ws h)

contains-release_coins :
    (𝓢 : SilentPayments) (o : OutPoint) (w : Wallet 𝓢) (xs : List OutPoint)
    → contains o (release_coins 𝓢 w xs).reserved
      ≡ (if contains o xs then false else contains o w.reserved)
unfolding contains release_coins HashSet.remove
contains-release_coins 𝓢 o w [] = refl
contains-release_coins 𝓢 o w (x ∷ xs) = ground (
  arith,
  contains-release_coins 𝓢 o (record w { reserved = (HashSet.remove x w.reserved).1 }) xs,
  contains-delete x o w.reserved,
)

utxos-release_coins :
    (𝓢 : SilentPayments) (w : Wallet 𝓢) (xs : List OutPoint)
    → (release_coins 𝓢 w xs).utxos ≡ w.utxos
unfolding release_coins
utxos-release_coins 𝓢 w [] = refl
utxos-release_coins 𝓢 w (x ∷ xs) =
    utxos-release_coins 𝓢 (record w { reserved = (HashSet.remove x w.reserved).1 }) xs

AreIn-release_coins :
    (𝓢 : SilentPayments) (w : Wallet 𝓢) (xs ws : List OutPoint)
    → AreIn ws w.reserved
    → AreApart ws xs
    → AreIn ws (release_coins 𝓢 w xs).reserved
AreIn-release_coins 𝓢 w xs [] h apart = tt
AreIn-release_coins 𝓢 w xs (o ∷ ws) (p, h) (q, apart) =
    (ground (arith, contains-release_coins 𝓢 o w xs, p, q), AreIn-release_coins 𝓢 w xs ws h apart)

module _ (𝓢 : SilentPayments) (𝓚 : KeyMaking 𝓢) (𝓣 : Spending 𝓢 𝓚) (𝓕 : FloatRates) where
  -- All that is spent by what waits or got out is apart from what may be spent.
  pub spendable-apart :
      (w : Wallet 𝓢) (outpoints spent : List OutPoint)
      → AreIn spent w.reserved
      → All (IsSpendable 𝓢 w) outpoints
      → AreApart outpoints spent
  spendable-apart w [] spent held h = tt
  spendable-apart w (o ∷ outpoints) spent held ((c, found, unspent, free), h) =
      (AreIn-absent o spent w.reserved held free, spendable-apart w outpoints spent held h)

  IsSent-Kept :
      (law : HasSelection 𝓢 𝓚 𝓣) (st : Node 𝓢 𝓚 𝓣 𝓕) (ipc : WalletIpcInterface 𝓢 𝓚 𝓣 𝓕) (amount : ℕ)
      (tx : Payment)
      → IsKept 𝓢 𝓚 𝓣 𝓕 st
      → IsSent 𝓢 𝓚 𝓣 𝓕 st.ipc amount tx ipc
      → IsKept 𝓢 𝓚 𝓣 𝓕 (record st { ipc = ipc })
  unfolding reserve_coins
  IsSent-Kept law st ipc amount tx kept s =
      let w = st.ipc.wallet in
      let (secret, _, _, _, _, pays) =
        build_transaction-Payment 𝓢 𝓚 𝓣 law w s.recipient amount s.fee_rate s.long_term_fee_rate tx
          kept.table s.built in
      let spent = previous_outputs tx.input in
      let others = outpoints_of 𝓢 𝓚 𝓣 𝓕 st.broadcasting ++ st.broadcast in
      let distinct : IsDistinct others =
        IsDistinct-right (outpoints_of 𝓢 𝓚 𝓣 𝓕 st.ipc.broadcast_tx.waiting) others kept.distinct in
      let held : AreIn others w.reserved =
        AreIn-right (outpoints_of 𝓢 𝓚 𝓣 𝓕 st.ipc.broadcast_tx.waiting) others w.reserved
          kept.held in
      let apart = spendable-apart w spent others held pays.spendable in
      record {
        table = rw s.reserved kept.table;
        distinct = rw s.waits (IsDistinct-append spent others pays.distinct distinct apart);
        held =
            rw (s.waits, s.reserved)
              (AreIn-append spent others (HashSet.extend w.reserved spent)
                (AreIn-extended w.reserved spent spent (AreIn-self spent))
                (AreIn-extend w.reserved spent others held));
      }

  Outcome-Kept :
      (law : HasSelection 𝓢 𝓚 𝓣) (st : Node 𝓢 𝓚 𝓣 𝓕) (amount : ℕ) (ipc : WalletIpcInterface 𝓢 𝓚 𝓣 𝓕)
      (reply : SendReply 𝓢 𝓚 𝓣 𝓕)
      → IsKept 𝓢 𝓚 𝓣 𝓕 st
      → Outcome 𝓢 𝓚 𝓣 𝓕 st.ipc amount ipc reply
      → IsKept 𝓢 𝓚 𝓣 𝓕 (record st { ipc = ipc })
  Outcome-Kept law st amount ipc (sent tx) kept (went_out s) =
      IsSent-Kept law st ipc amount tx kept s
  Outcome-Kept law st amount _ (refused e) kept (user_error _ u) = kept
  Outcome-Kept law st amount _ (failure f) kept (other_error _) = kept

  gets_lost-Kept :
      (st : Node 𝓢 𝓚 𝓣 𝓕) (tx : Payment)
      → IsKept 𝓢 𝓚 𝓣 𝓕 st
      → st.broadcasting ≡ some tx
      → IsKept 𝓢 𝓚 𝓣 𝓕 (record st {
        ipc = record st.ipc { wallet = after_broadcast 𝓢 st.ipc.wallet tx false };
        broadcasting = none;
      })
  unfolding after_broadcast
  gets_lost-Kept st tx kept busy =
      let w = st.ipc.wallet in
      let waiting = outpoints_of 𝓢 𝓚 𝓣 𝓕 st.ipc.broadcast_tx.waiting in
      let lost = previous_outputs tx.input in
      let d : IsDistinct (waiting ++ (lost ++ st.broadcast)) = rw busy at kept.distinct in
      let i : AreIn (waiting ++ (lost ++ st.broadcast)) w.reserved = rw busy at kept.held in
      let (distinct, apart) = IsDistinct-drop_middle waiting lost st.broadcast d in
      record {
        table = rw (utxos-release_coins 𝓢 w lost) kept.table;
        distinct = distinct;
        held =
            AreIn-release_coins 𝓢 w lost (waiting ++ st.broadcast)
              (AreIn-drop_middle waiting lost st.broadcast w.reserved i) apart;
      }

  import_keys-ok :
      (ipc ipc' : WalletIpcInterface 𝓢 𝓚 𝓣 𝓕) (scan_bytes spend_bytes : List ℕ)
      → import_keys 𝓢 𝓚 𝓣 𝓕 ipc scan_bytes spend_bytes ≡ ok ipc'
      → (ipc'.wallet.utxos ≡ ipc.wallet.utxos)
        × (ipc'.wallet.reserved ≡ ipc.wallet.reserved)
        × (ipc'.broadcast_tx ≡ ipc.broadcast_tx)
  unfolding import_keys Keys.import_keys
  import_keys-ok ipc ipc' scan_bytes spend_bytes e =
      elim (Result-cases (𝓚.secret_from_slice scan_bytes)) [
        | inr (x, bad) ↦ absurd (ground (arith, e, bad))
        | inl (sk, scan) ↦ elim (Result-cases (𝓚.xonly_from_slice spend_bytes)) [
          | inr (x, bad) ↦ absurd (ground (arith, e, scan, bad))
          | inl (pk, spend) ↦
              elim (Result-cases (Keys.build_receiver 𝓢 𝓚 sk (𝓚.even_key pk) ipc.wallet.network)) [
                | inr (x, bad) ↦ absurd (ground (arith, e, scan, spend, bad))
                | inl (r, built) ↦ (
                  ground (arith, e, scan, spend, built),
                  ground (arith, e, scan, spend, built),
                  ground (arith, e, scan, spend, built),
                )
              ]
        ]
      ]

  Step-Kept :
      (law : HasSelection 𝓢 𝓚 𝓣) (st st' : Node 𝓢 𝓚 𝓣 𝓕)
      → IsKept 𝓢 𝓚 𝓣 𝓕 st
      → Step 𝓢 𝓚 𝓣 𝓕 st st'
      → IsKept 𝓢 𝓚 𝓣 𝓕 st'
  unfolding after_broadcast process_disconnect
  Step-Kept law st _ kept (sends _ address amount rate ltr) =
      Outcome-Kept law st amount _ _ kept
        (send_to_address-Outcome 𝓢 𝓚 𝓣 𝓕 st.ipc address amount rate ltr)
  Step-Kept law st _ kept (takes _ tx waits idle) = record {
    table = kept.table;
    distinct = rw (waits, idle) at kept.distinct;
    held = rw (waits, idle) at kept.held;
  }
  Step-Kept law st _ kept (gets_out _ tx busy) = record {
    table = kept.table;
    distinct = rw busy at kept.distinct;
    held = rw busy at kept.held;
  }
  Step-Kept law st _ kept (gets_lost _ tx busy) = gets_lost-Kept st tx kept busy
  Step-Kept law st _ kept (scans _ block spents height count w e) =
      let (table, same) =
        scan_block-IsTable 𝓢 st.ipc.wallet w block spents height count kept.table e in
      record { table = table; distinct = kept.distinct; held = rw same kept.held }
  Step-Kept law st _ kept (disconnects _ block) = record {
    table = process_disconnect-IsTable 𝓢 st.ipc.wallet block kept.table;
    distinct = kept.distinct;
    held = kept.held;
  }
  Step-Kept law st _ kept (imports _ scan_bytes spend_bytes ipc e) =
      let (utxos, reserved, channel) = import_keys-ok st.ipc ipc scan_bytes spend_bytes e in
      record {
        table = rw utxos kept.table;
        distinct = rw channel kept.distinct;
        held = rw (channel, reserved) kept.held;
      }

  -- From a node whose pending transactions share no coin and whose coins are reserved, whatever is
  -- asked, broadcast, scanned, disconnected or imported, in whatever order: no two transactions that
  -- wait, are being broadcast or got out spend the same coin, and each coin that they spend is
  -- reserved still. No raw transaction is handed in.
  pub Reach-Kept :
      (law : HasSelection 𝓢 𝓚 𝓣) (start st : Node 𝓢 𝓚 𝓣 𝓕)
      → IsKept 𝓢 𝓚 𝓣 𝓕 start
      → Reach 𝓢 𝓚 𝓣 𝓕 start st
      → IsKept 𝓢 𝓚 𝓣 𝓕 st
  Reach-Kept law start st kept here = kept
  Reach-Kept law start st' kept (after {st = st} reached step) =
      Step-Kept law st st' (Reach-Kept law start st kept reached) step
