-- ===== src/Wallet/Sending/Recipients.antt =====
-- crates/wallet/src/silentpayments/sending.rs: whom a transaction pays, and what script pays them.
use kernel_node.Prelude.{ℕ, not, none, some, List, ◌∷◌, length, if◌then◌else◌, nat_eq, []}
use kernel_node.Prelude.Reader.{Result, ok, err}
use kernel_node.Prelude.HashMap
use kernel_node.Prelude.HashMap.{HashMap}
use kernel_node.Wallet.Scanning.{SilentPayments}
use kernel_node.Wallet.Coins.{Network}
use kernel_node.Wallet.Keys.{KeyMaking}
use kernel_node.Wallet.Sending.{
  SendError, network_mismatch, output_derivation, invalid_recipient, bitcoin_network, same_network,
  Spending, output_weight,
}

module _ (𝓢 : SilentPayments) (𝓚 : KeyMaking 𝓢) (𝓣 : Spending 𝓢 𝓚) where
  pub data Recipient : Type 0 where
    silent_payment : 𝓚.Code → Recipient
    address : 𝓣.Address → Recipient

  unfoldable pub parse : List ℕ → Network → Result SendError Recipient
  parse s network = elim (𝓣.parse_code s) [
    | some sp ↦
        if not (same_network (𝓣.code_network sp) network)
        then err network_mismatch
        else ok (silent_payment sp)
    | none ↦ elim (𝓣.parse_address s) [
      | err e ↦ err (invalid_recipient e)
      | ok a ↦
          if 𝓣.has_network a (bitcoin_network network) then ok (address a) else err network_mismatch
    ]
  ]

  abbrev pub p2tr_script : ℕ → List ℕ
  p2tr_script output_key = 𝓣.p2tr_tweaked output_key

  abbrev pub p2tr_dust : 𝓢.SecretKey → ℕ
  p2tr_dust spend_secret = 𝓣.minimal_non_dust (p2tr_script (𝓣.x_only spend_secret))

  abbrev pub Derived : Type 0
  Derived = HashMap 𝓣.Material (List ℕ)

  unfoldable pub sp_output_script : Derived → 𝓚.Code → Result SendError (List ℕ)
  sp_output_script derived code = elim (HashMap.get ⦃e = 𝓣.material_eq⦄ (𝓣.material code) derived) [
    | none ↦ err output_derivation
    | some [] ↦ err output_derivation
    | some (xonly ∷ keys) ↦ ok (p2tr_script xonly)
  ]

  unfoldable pub recipient_dust : 𝓢.SecretKey → Recipient → ℕ
  recipient_dust spend_secret (address a) = 𝓣.minimal_non_dust (𝓣.script_pubkey a)
  recipient_dust spend_secret (silent_payment sp) = p2tr_dust spend_secret

  unfoldable pub recipient_weight : Recipient → ℕ
  recipient_weight (address a) = output_weight (length (𝓣.script_pubkey a))
  recipient_weight (silent_payment sp) = 𝓣.keyspend_output_weight

  unfoldable pub recipient_script : Derived → Recipient → Result SendError (List ℕ)
  recipient_script derived (address a) = ok (𝓣.script_pubkey a)
  recipient_script derived (silent_payment sp) = sp_output_script derived sp
