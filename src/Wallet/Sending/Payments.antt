-- ===== src/Wallet/Sending/Payments.antt =====
-- crates/wallet/src/silentpayments/sending.rs: what a transaction that the wallet builds spends and
-- pays.
use kernel_node.Prelude.{
  ℕ, All, ◌+◌, ◌≤◌, ◌≡◌, refl, sym, ap, ◌∙◌, inl, inr, Option, some, List, ◌∷◌, map, arith, length,
  ltb, Bool-cases, Option-cases, nat_eq, [],
}
use kernel_node.Prelude.Reader.{ok, and_then-ok, ok_or-ok, Result-cases, ok_or}
use kernel_node.Prelude.HashMap.{HashMap, IsTable}
use kernel_node.Prelude.Choices.{
  IsDistinct, total, All-sublist, All-perm, total-perm, IsDistinct-sublist, IsDistinct-perm,
}
use kernel_node.Wallet.Scanning.{OutPoint, outpoint_eq, Coin, TxOut, SilentPayments, is_empty}
use kernel_node.Wallet.Coins.{Wallet, SilentPaymentKeys}
use kernel_node.Wallet.Sending.Derived.{payees, PaysTo, IsChange}
use kernel_node.Wallet.Keys.{KeyMaking}
use kernel_node.Wallet.Sending.{
  previous_outputs, SpendableCoin, Payment, Target, ChangePolicy, Spending, coin_values,
  spendable_coins, unsigned_inputs, set_witnesses, watch_only,
}
use kernel_node.Wallet.Sending.Recipients.{Recipient, recipient_dust}
use kernel_node.Wallet.Sending.Selection.{choose, select_coins}
use kernel_node.Wallet.Sending.Build.{build_from_coins, build_transaction, target_of}
use kernel_node.Wallet.Sending.Free.{
  HasSelection, coin_value, coin_outpoint, change_value, output_total, worth, IsSpendable, IsFree,
  spendable_coins-Free, spendable_coins-IsDistinct,
}
use kernel_node.Wallet.Sending.Assembly.{IsAssembled, assemble-Assembled}
use mathlib.Core.List.{Sublistᴰ, Permᴰ}

previous_outputs-set_witnesses :
    (coins : List SpendableCoin) (ws : List (List ℕ))
    → previous_outputs (set_witnesses (unsigned_inputs coins) ws) ≡ map coin_outpoint coins
unfolding set_witnesses
previous_outputs-set_witnesses [] ws = refl
previous_outputs-set_witnesses (c ∷ coins) [] =
    ap (◌∷◌ c.outpoint) (previous_outputs-unsigned coins)
  where
    previous_outputs-unsigned :
        (cs : List SpendableCoin) → previous_outputs (unsigned_inputs cs) ≡ map coin_outpoint cs
    previous_outputs-unsigned [] = refl
    previous_outputs-unsigned (d ∷ cs) = ap (◌∷◌ d.outpoint) (previous_outputs-unsigned cs)
previous_outputs-set_witnesses (c ∷ coins) (w ∷ ws) =
    ap (◌∷◌ c.outpoint) (previous_outputs-set_witnesses coins ws)

worth-coins :
    (reserved : List OutPoint) (utxos : HashMap OutPoint Coin) (coins : List SpendableCoin)
    → All (IsFree reserved utxos) coins
    → worth utxos (map coin_outpoint coins) ≡ total coin_value coins
unfolding worth
worth-coins reserved utxos [] h = refl
worth-coins reserved utxos (c ∷ coins) ((found, _, _), h) =
    rw (found, worth-coins reserved utxos coins h) refl

module _ (𝓢 : SilentPayments) (𝓚 : KeyMaking 𝓢) (𝓣 : Spending 𝓢 𝓚) where
  -- The inputs are different coins that the wallet may spend, the outputs are the recipient's with
  -- the amount and at most one for the change, and they are worth no more than the inputs. What is
  -- paid to a code, the recipient's or the wallet's own `code`, is derived from the coins of the
  -- inputs, in their order.
  pub record IsPayment (w : Wallet 𝓢) (secret : 𝓢.SecretKey) (code : 𝓚.Code)
      (recipient : Recipient 𝓢 𝓚 𝓣) (amount : ℕ) (tx : Payment) : Type 0 where
    pub spendable : All (IsSpendable 𝓢 w) (previous_outputs tx.input)
    pub distinct : IsDistinct (previous_outputs tx.input)
    pub spent : List SpendableCoin
    pub spends : previous_outputs tx.input ≡ map coin_outpoint spent
    pub free : All (IsFree w.reserved w.utxos) spent
    pub change : Option ℕ
    pub script : List ℕ
    pub more : List TxOut
    pub pays_to : PaysTo 𝓢 𝓚 𝓣 secret spent (payees 𝓢 𝓚 𝓣 recipient change code) recipient script
    pub change_to :
        IsChange 𝓢 𝓚 𝓣 secret spent (payees 𝓢 𝓚 𝓣 recipient change code) code change more
    pub outputs : Permᴰ tx.output (record { value = amount; script_pubkey = script } ∷ more)
    pub one_change : length more ≤ 1
    pub covered : output_total tx.output ≤ worth w.utxos (previous_outputs tx.input)

  All-Spendable :
      (w : Wallet 𝓢) (coins : List SpendableCoin)
      → All (IsFree w.reserved w.utxos) coins
      → All (IsSpendable 𝓢 w) (map coin_outpoint coins)
  All-Spendable w [] h = tt
  All-Spendable w (c ∷ coins) ((found, unspent, free), h) =
      ((c.coin, found, unspent, free), All-Spendable w coins h)

  select_coins-ok :
      (law : HasSelection 𝓢 𝓚 𝓣) (coins selected : List SpendableCoin) (change : Option ℕ)
      (t : Target 𝓣.FeeRate) (p : ChangePolicy 𝓣.FeeRate) (f : 𝓣.FeeRate) (rounds : ℕ)
      → select_coins 𝓢 𝓚 𝓣 coins t p f rounds ≡ ok (selected, change)
      → Sublistᴰ selected coins × (t.amount + change_value change ≤ total coin_value selected)
  unfolding select_coins choose
  select_coins-ok law coins selected change t p f rounds e =
      let (s, chosen, g) =
        and_then-ok (choose 𝓢 𝓚 𝓣 coins t p f rounds)
          (λ s. ok (𝓣.apply_selection s coins, 𝓣.drain (coin_values coins) s t p)) e in
      let these : selected ≡ 𝓣.apply_selection s coins = ground (arith, g) in
      let left : change ≡ 𝓣.drain (coin_values coins) s t p = ground (arith, g) in
      rw (these, left)
        (
          law.applied s coins,
          (elim (Option-cases (𝓣.run_bnb (coin_values coins) t p f rounds)) [
            | inr (s', found) ↦
                let same : s' ≡ s = ground (arith, chosen, found) in
                law.bnb_covers coins t p f rounds s (rw (sym same) found)
            | inl failed ↦ elim (Result-cases (𝓣.select_until_target_met (coin_values coins) t)) [
              | inr (m, bad) ↦ absurd (ground (arith, chosen, failed, bad))
              | inl (s', found) ↦
                  let same : s' ≡ s = ground (arith, chosen, failed, found) in
                  law.greedy_covers coins t p s (rw (sym same) found)
            ]
          ]),
        )

  assembled-Payment :
      (law : HasSelection 𝓢 𝓚 𝓣) (w : Wallet 𝓢) (secret : 𝓢.SecretKey) (code : 𝓚.Code)
      (recipient : Recipient 𝓢 𝓚 𝓣) (amount : ℕ) (selected : List SpendableCoin) (change : Option ℕ)
      (tx : Payment)
      → IsTable w.utxos
      → Sublistᴰ selected (spendable_coins w.reserved w.utxos)
      → amount + change_value change ≤ total coin_value selected
      → IsAssembled 𝓢 𝓚 𝓣 secret recipient amount code (𝓣.shuffle_coins selected) change tx
      → IsPayment w secret code recipient amount tx
  assembled-Payment law w secret code recipient amount selected change tx table some_of covers a =
      let shuffled = law.coins_shuffled selected in
      let free = All-perm (IsFree w.reserved w.utxos) shuffled (
        All-sublist (IsFree w.reserved w.utxos) some_of
          (spendable_coins-Free w.reserved w.utxos table)) in
      let same =
        ap previous_outputs a.inputs
        ∙ previous_outputs-set_witnesses (𝓣.shuffle_coins selected) a.witnesses in
      let outs =
        law.outputs_shuffled (record { value = amount; script_pubkey = a.script } ∷ a.more) in
      let value = worth-coins w.reserved w.utxos (𝓣.shuffle_coins selected) free in
      let paid = total-perm (λ (out : TxOut). out.value) outs in
      let in_value = total-perm coin_value shuffled in
      record {
        spendable = rw same (All-Spendable w (𝓣.shuffle_coins selected) free);
        distinct = rw same (
            IsDistinct-perm coin_outpoint shuffled (
              IsDistinct-sublist coin_outpoint some_of
                (spendable_coins-IsDistinct w.reserved w.utxos table)));
        spent = 𝓣.shuffle_coins selected;
        spends = same;
        free = free;
        change = change;
        script = a.script;
        more = a.more;
        pays_to = a.pays_to;
        change_to = a.change_to;
        outputs = rw a.outputs outs;
        one_change = a.one_change;
        covered =
            rw (same, value, a.outputs) (omega (arith, paid, in_value, covers, a.change_total));
      }

  -- Whatever is asked for, a transaction that is built spends different coins that are the wallet's,
  -- unspent and not reserved. It pays the amount, which is no dust, to the recipient: to the script of
  -- the address, or to the first key that is derived for the silent payment's code from the coins it
  -- spends. It has at most one output more, to the first key that is derived so for the wallet's own
  -- change code. Its outputs are worth no more than its inputs. The coins are a table, and are chosen
  -- and shuffled as documented.
  pub build_transaction-Payment :
      (law : HasSelection 𝓢 𝓚 𝓣) (w : Wallet 𝓢) (recipient : Recipient 𝓢 𝓚 𝓣)
      (amount fee_rate long_term_fee_rate : ℕ) (tx : Payment)
      → IsTable w.utxos
      → build_transaction 𝓢 𝓚 𝓣 w recipient amount fee_rate long_term_fee_rate ≡ ok tx
      → (secret : 𝓢.SecretKey) × (keys : SilentPaymentKeys 𝓢) × (w.spend_secret ≡ some secret)
        × (w.keys ≡ some keys)
        × (recipient_dust 𝓢 𝓚 𝓣 secret recipient ≤ amount)
        × IsPayment w secret (𝓚.change_code keys.receiver) recipient amount tx
  unfolding build_transaction build_from_coins target_of
  build_transaction-Payment law w recipient amount fee_rate long_term_fee_rate tx table e =
      let (secret, has_secret, e1) = and_then-ok (ok_or watch_only w.spend_secret) _ e in
      let (keys, has_keys, e2) = and_then-ok (ok_or watch_only w.keys) _ e1 in
      let coins = spendable_coins w.reserved w.utxos in
      elim (Bool-cases (is_empty coins)) [
        | inl none-left ↦ absurd (ground (arith, e2, none-left))
        | inr some_left ↦ elim (Bool-cases (ltb amount (recipient_dust 𝓢 𝓚 𝓣 secret recipient))) [
          | inl dust ↦ absurd (ground (arith, e2, some_left, dust))
          | inr enough ↦
              let e3 = rw (some_left, enough) at e2 in
              let ((selected, change), chosen, e4) = and_then-ok _ _ e3 in
              let (some_of, covers) = select_coins-ok law coins selected change _ _ _ _ chosen in
              (
                secret,
                keys,
                ok_or-ok watch_only w.spend_secret has_secret,
                ok_or-ok watch_only w.keys has_keys,
                ground (arith, enough),
                assembled-Payment law w secret (𝓚.change_code keys.receiver) recipient amount
                    selected change tx table some_of covers
                    (assemble-Assembled 𝓢 𝓚 𝓣 secret recipient amount w.scan_height
                      (𝓚.change_code keys.receiver) (𝓣.shuffle_coins selected) change tx e4),
              )
        ]
      ]
