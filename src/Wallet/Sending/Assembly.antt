-- ===== src/Wallet/Sending/Assembly.antt =====
-- crates/wallet/src/silentpayments/sending.rs: what a transaction that is assembled from the selected
-- coins takes in and pays out.
use kernel_node.Prelude.{
  ℕ, ◌≤◌, ◌≡◌, refl, Option, none, some, List, ◌∷◌, arith, length, nat_eq, [],
}
use kernel_node.Prelude.Reader.{ok, and_then-ok, ok_or, ok_or-ok}
use kernel_node.Wallet.Scanning.{outpoint_eq, TxOut, SilentPayments}
use kernel_node.Wallet.Keys.{KeyMaking}
use kernel_node.Wallet.Sending.{
  SpendableCoin, Payment, Spending, unsigned_inputs, set_witnesses, secp, silent_payments, sighash,
  prevouts,
}
use kernel_node.Wallet.Sending.Recipients.{Recipient, Derived, recipient_script, sp_output_script}
use kernel_node.Wallet.Sending.Selection.{change_output, signing_keys, derive, sign}
use kernel_node.Wallet.Sending.Build.{assemble, unsigned_payment}
use kernel_node.Wallet.Sending.Derived.{
  payees, PaysTo, IsChange, recipient_script-PaysTo, change_output-IsChange,
}
use kernel_node.Wallet.Sending.Free.{change_value, output_total}

module _ (𝓢 : SilentPayments) (𝓚 : KeyMaking 𝓢) (𝓣 : Spending 𝓢 𝓚) where
  change_output-ok :
      (derived : Derived 𝓢 𝓚 𝓣) (code : 𝓚.Code) (change : Option ℕ) (more : List TxOut)
      → change_output 𝓢 𝓚 𝓣 derived code change ≡ ok more
      → (length more ≤ 1) × (output_total more ≡ change_value change)
  unfolding change_output
  change_output-ok derived code none more e =
      let empty : more ≡ [] = ground (arith, e) in rw empty (omega arith, refl)
  change_output-ok derived code (some value) more e =
      let (script, _, f) =
        and_then-ok (sp_output_script 𝓢 𝓚 𝓣 derived code)
          (λ script. ok (record { value = value; script_pubkey = script } ∷ [])) e in
      let one : more ≡ record { value = value; script_pubkey = script } ∷ [] = ground (arith, f) in
      rw one (omega arith, omega arith)

  -- What is known of a transaction once it is assembled from the selected coins.
  pub record IsAssembled (secret : 𝓢.SecretKey) (recipient : Recipient 𝓢 𝓚 𝓣) (amount : ℕ)
      (code : 𝓚.Code) (selected : List SpendableCoin) (change : Option ℕ) (tx : Payment)
      : Type 0 where
    pub witnesses : List (List ℕ)
    pub script : List ℕ
    pub more : List TxOut
    pub pays_to : PaysTo 𝓢 𝓚 𝓣 secret selected (payees 𝓢 𝓚 𝓣 recipient change code) recipient script
    pub change_to :
        IsChange 𝓢 𝓚 𝓣 secret selected (payees 𝓢 𝓚 𝓣 recipient change code) code change more
    pub inputs : tx.input ≡ set_witnesses (unsigned_inputs selected) witnesses
    pub outputs :
        tx.output ≡ 𝓣.shuffle_outputs (record { value = amount; script_pubkey = script } ∷ more)
    pub one_change : length more ≤ 1
    pub change_total : output_total more ≡ change_value change

  pub assemble-Assembled :
      (spend_secret : 𝓢.SecretKey) (recipient : Recipient 𝓢 𝓚 𝓣) (amount tip : ℕ) (code : 𝓚.Code)
      (selected : List SpendableCoin) (change : Option ℕ) (tx : Payment)
      → assemble 𝓢 𝓚 𝓣 spend_secret recipient amount tip code selected change ≡ ok tx
      → IsAssembled spend_secret recipient amount code selected change tx
  unfolding assemble unsigned_payment
  assemble-Assembled spend_secret recipient amount tip code selected change tx e =
      let (keys, signed, e1) =
        and_then-ok (ok_or secp (signing_keys 𝓢 𝓚 𝓣 spend_secret selected)) _ e in
      let (derived, found, e2) =
        and_then-ok (ok_or silent_payments (derive 𝓢 𝓚 𝓣 recipient change code selected keys)) _
          e1 in
      let (script, paid, e3) = and_then-ok (recipient_script 𝓢 𝓚 𝓣 derived recipient) _ e2 in
      let (more, changed, e4) = and_then-ok (change_output 𝓢 𝓚 𝓣 derived code change) _ e3 in
      let signs = ok_or-ok secp (signing_keys 𝓢 𝓚 𝓣 spend_secret selected) signed in
      let derives =
        ok_or-ok silent_payments (derive 𝓢 𝓚 𝓣 recipient change code selected keys) found in
      let (one, sum) = change_output-ok derived code change more changed in
      let unsigned =
        unsigned_payment 𝓢 𝓚 𝓣 tip selected
          (record { value = amount; script_pubkey = script } ∷ more) in
      let (ws, _, e5) =
        and_then-ok (ok_or sighash (sign 𝓢 𝓚 𝓣 unsigned (prevouts selected) 0 keys)) _ e4 in
      record {
        witnesses = ws;
        script = script;
        more = more;
        pays_to =
            recipient_script-PaysTo 𝓢 𝓚 𝓣 spend_secret recipient change code selected keys derived
              script signs derives paid;
        change_to =
            change_output-IsChange 𝓢 𝓚 𝓣 spend_secret recipient change code selected keys derived
              more signs derives changed;
        inputs = ground (arith, e5);
        outputs = ground (arith, e5);
        one_change = one;
        change_total = sum;
      }
