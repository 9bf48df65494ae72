-- ===== src/Wallet/Sending/Selection.antt =====
-- crates/wallet/src/silentpayments/sending.rs: the coins that are spent, and what is computed from them
-- and their keys.
use kernel_node.Prelude.{
  ℕ, ◌+◌, Bool, true, Option, none, some, List, ◌∷◌, ◌++◌, if◌then◌else◌, nat_eq, [],
}
use kernel_node.Prelude.Reader.{Result, ok, err, and_then}
use kernel_node.Wallet.Scanning.{TxOut, SilentPayments, is_empty}
use kernel_node.Wallet.Keys.{KeyMaking}
use kernel_node.Wallet.Sending.{
  SendError, insufficient_funds, SpendableCoin, Payment, Target, ChangePolicy, Spending,
  saturating_add, available_from, coin_values, outpoint_bytes,
}
use kernel_node.Wallet.Sending.Recipients.{
  Recipient, silent_payment, address, Derived, sp_output_script,
}

module _ (𝓢 : SilentPayments) (𝓚 : KeyMaking 𝓢) (𝓣 : Spending 𝓢 𝓚) where
  -- The selection of the branch and bound, or else of the coins by falling value.
  unfoldable pub choose :
      List SpendableCoin
      → Target 𝓣.FeeRate
      → ChangePolicy 𝓣.FeeRate
      → 𝓣.FeeRate
      → ℕ
      → Result SendError 𝓣.Selection
  choose coins target change_policy long_term_feerate rounds =
      elim (𝓣.run_bnb (coin_values coins) target change_policy long_term_feerate rounds) [
        | some selection ↦ ok selection
        | none ↦ elim (𝓣.select_until_target_met (coin_values coins) target) [
          | ok selection ↦ ok selection
          | err missing ↦
              let available = available_from 0 coins in
              err (insufficient_funds (saturating_add available missing) available)
        ]
      ]

  unfoldable pub select_coins :
      List SpendableCoin
      → Target 𝓣.FeeRate
      → ChangePolicy 𝓣.FeeRate
      → 𝓣.FeeRate
      → ℕ
      → Result SendError (List SpendableCoin × Option ℕ)
  select_coins coins target change_policy long_term_feerate rounds =
      and_then (choose coins target change_policy long_term_feerate rounds) (λ selection. ok (
        𝓣.apply_selection selection coins,
        𝓣.drain (coin_values coins) selection target change_policy,
      ))

  unfoldable pub signing_keys : 𝓢.SecretKey → List SpendableCoin → Option (List 𝓢.SecretKey)
  signing_keys spend_secret [] = some []
  signing_keys spend_secret (c ∷ coins) =
      let rest = signing_keys spend_secret coins in
      elim (𝓣.add_tweak spend_secret c.coin.tweak) [
        | none ↦ none
        | some key ↦ elim rest [ none ↦ none | some keys ↦ some (key ∷ keys) ]
      ]

  abbrev pub taproot_keys : List 𝓢.SecretKey → List (𝓢.SecretKey × Bool)
  taproot_keys [] = []
  taproot_keys (key ∷ keys) = (key, true) ∷ taproot_keys keys

  -- Who is paid by a derived key: a silent payment's recipient, and the change.
  unfoldable pub sp_addrs : Recipient 𝓢 𝓚 𝓣 → Option ℕ → 𝓚.Code → List 𝓣.Material
  sp_addrs recipient change change_address =
      (elim recipient [ silent_payment sp ↦ 𝓣.material sp ∷ [] | address a ↦ [] ])
      ++ (elim change [ some value ↦ 𝓣.material change_address ∷ [] | none ↦ [] ])

  unfoldable pub derive :
      Recipient 𝓢 𝓚 𝓣
      → Option ℕ
      → 𝓚.Code
      → List SpendableCoin
      → List 𝓢.SecretKey
      → Option (Derived 𝓢 𝓚 𝓣)
  derive recipient change change_address selected keys =
      let addrs = sp_addrs recipient change change_address in
      if is_empty addrs
      then some []
      else (elim (𝓣.calculate_partial_secret (taproot_keys keys) (outpoint_bytes selected)) [
        | none ↦ none
        | some partial_secret ↦ 𝓣.generate_recipient_pubkeys addrs partial_secret
      ])

  unfoldable pub change_output : Derived 𝓢 𝓚 𝓣 → 𝓚.Code → Option ℕ → Result SendError (List TxOut)
  change_output derived change_address none = ok []
  change_output derived change_address (some value) =
      and_then (sp_output_script 𝓢 𝓚 𝓣 derived change_address)
        (λ script. ok (record { value = value; script_pubkey = script } ∷ []))

  -- The witness of each input, from the index on.
  unfoldable pub sign : Payment → List TxOut → ℕ → List 𝓢.SecretKey → Option (List (List ℕ))
  sign tx spent i [] = some []
  sign tx spent i (key ∷ keys) =
      let rest = sign tx spent (i + 1) keys in
      elim (𝓣.taproot_signature tx i spent key) [
        | none ↦ none
        | some witness ↦ elim rest [ none ↦ none | some ws ↦ some (witness ∷ ws) ]
      ]
