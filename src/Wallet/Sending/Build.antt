-- ===== src/Wallet/Sending/Build.antt =====
-- crates/wallet/src/silentpayments/sending.rs: the transaction, put together and signed.
use kernel_node.Prelude.{ℕ, Option, none, some, List, ◌∷◌, ltb, if◌then◌else◌, nat_eq}
use kernel_node.Prelude.Reader.{Result, ok, err, and_then, ok_or}
use kernel_node.Wallet.Scanning.{TxOut, SilentPayments, is_empty}
use kernel_node.Wallet.Coins.{Wallet}
use kernel_node.Wallet.Keys.{KeyMaking}
use kernel_node.Wallet.Sending.{
  SendError, watch_only, no_spendable_coins, dust_amount, silent_payments, secp, sighash,
  SpendableCoin, Payment, Target, ChangePolicy, Spending, max_bnb_rounds, spendable_coins,
  unsigned_inputs, prevouts, set_witnesses,
}
use kernel_node.Wallet.Sending.Recipients.{
  Recipient, p2tr_dust, recipient_dust, recipient_weight, recipient_script,
}
use kernel_node.Wallet.Sending.Selection.{select_coins, signing_keys, derive, change_output, sign}

module _ (𝓢 : SilentPayments) (𝓚 : KeyMaking 𝓢) (𝓣 : Spending 𝓢 𝓚) where
  unfoldable pub unsigned_payment : ℕ → List SpendableCoin → List TxOut → Payment
  unsigned_payment tip_height selected output = record {
    lock_time = elim (𝓣.lock_time_from_height tip_height) [ some t ↦ t | none ↦ 0 ];
    input = unsigned_inputs selected;
    output = 𝓣.shuffle_outputs output;
  }

  -- From the selected coins, in the order in which they are spent, to the signed transaction.
  unfoldable pub assemble :
      𝓢.SecretKey
      → Recipient 𝓢 𝓚 𝓣
      → ℕ
      → ℕ
      → 𝓚.Code
      → List SpendableCoin
      → Option ℕ
      → Result SendError Payment
  assemble spend_secret recipient amount tip_height change_address selected change =
      and_then (ok_or secp (signing_keys 𝓢 𝓚 𝓣 spend_secret selected)) (λ keys.
        and_then
          (ok_or silent_payments (derive 𝓢 𝓚 𝓣 recipient change change_address selected keys))
          (λ derived. and_then (recipient_script 𝓢 𝓚 𝓣 derived recipient) (λ script.
            and_then (change_output 𝓢 𝓚 𝓣 derived change_address change) (λ more.
              let tx =
                unsigned_payment tip_height selected
                  (record { value = amount; script_pubkey = script } ∷ more) in
              and_then (ok_or sighash (sign 𝓢 𝓚 𝓣 tx (prevouts selected) 0 keys))
                (λ witnesses. ok (record tx { input = set_witnesses tx.input witnesses }))))))

  unfoldable pub target_of : Recipient 𝓢 𝓚 𝓣 → ℕ → ℕ → Target 𝓣.FeeRate
  target_of recipient amount fee_rate = record {
    feerate = 𝓣.cs_feerate fee_rate;
    weight = recipient_weight 𝓢 𝓚 𝓣 recipient;
    amount = amount;
  }

  unfoldable pub change_policy_of : 𝓢.SecretKey → ℕ → ℕ → ChangePolicy 𝓣.FeeRate
  change_policy_of spend_secret fee_rate long_term_fee_rate = record {
    min_value = p2tr_dust 𝓢 𝓚 𝓣 spend_secret;
    feerate = 𝓣.cs_feerate fee_rate;
    long_term_feerate = 𝓣.cs_feerate long_term_fee_rate;
  }

  unfoldable pub build_from_coins :
      𝓢.SecretKey
      → Recipient 𝓢 𝓚 𝓣
      → ℕ
      → ℕ
      → ℕ
      → ℕ
      → 𝓚.Code
      → List SpendableCoin
      → Result SendError Payment
  build_from_coins spend_secret recipient amount fee_rate long_term_fee_rate tip_height
        change_address coins =
      if is_empty coins
      then err no_spendable_coins
      else if ltb amount (recipient_dust 𝓢 𝓚 𝓣 spend_secret recipient)
      then err (dust_amount amount (recipient_dust 𝓢 𝓚 𝓣 spend_secret recipient))
      else and_then
          (select_coins 𝓢 𝓚 𝓣 coins (target_of recipient amount fee_rate)
            (change_policy_of spend_secret fee_rate long_term_fee_rate)
            (𝓣.cs_feerate long_term_fee_rate) max_bnb_rounds)
          (λ (selected, change).
            assemble spend_secret recipient amount tip_height change_address
              (𝓣.shuffle_coins selected) change)

  -- `Wallet::build_transaction`
  unfoldable pub build_transaction :
      Wallet 𝓢 → Recipient 𝓢 𝓚 𝓣 → ℕ → ℕ → ℕ → Result SendError Payment
  build_transaction w recipient amount fee_rate long_term_fee_rate =
      and_then (ok_or watch_only w.spend_secret) (λ spend_secret.
        and_then (ok_or watch_only w.keys) (λ keys.
          build_from_coins spend_secret recipient amount fee_rate long_term_fee_rate w.scan_height
            (𝓚.change_code keys.receiver) (spendable_coins w.reserved w.utxos)))
