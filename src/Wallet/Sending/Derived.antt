-- ===== src/Wallet/Sending/Derived.antt =====
-- crates/wallet/src/silentpayments/sending.rs: to whom a silent payment's output belongs. The scripts
-- are those that the silentpayments crate derives from the coins that are spent.
use kernel_node.Prelude.{
  ℕ, ◌≡◌, refl, sym, ap, ◌∙◌, inl, inr, true, false, Option, none, some, List, [], ◌∷◌, map, arith,
  Option-cases, nat_eq,
}
use kernel_node.Prelude.Reader.{and_then-ok, ok}
use kernel_node.Prelude.HashMap
use kernel_node.Wallet.Scanning.{TxOut, SilentPayments, is_empty}
use kernel_node.Wallet.Keys.{KeyMaking}
use kernel_node.Wallet.Sending.{SpendableCoin, Spending, outpoint_bytes}
use kernel_node.Wallet.Sending.Recipients.{
  recipient_script, Recipient, silent_payment, address, Derived, recipient_script, sp_output_script,
}
use kernel_node.Wallet.Sending.Selection.{
  change_output, signing_keys, taproot_keys, sp_addrs, derive, change_output,
}

module _ (𝓢 : SilentPayments) (𝓚 : KeyMaking 𝓢) (𝓣 : Spending 𝓢 𝓚) where
  -- The keys of the coins: the secret with the tweak of each.
  abbrev pub AreKeys : 𝓢.SecretKey → List SpendableCoin → List 𝓢.SecretKey → Type 0
  AreKeys secret [] [] = Unit
  AreKeys secret [] (k ∷ keys) = ⊥
  AreKeys secret (c ∷ coins) [] = ⊥
  AreKeys secret (c ∷ coins) (k ∷ keys) =
      (𝓣.add_tweak secret c.coin.tweak ≡ some k) × AreKeys secret coins keys

  -- Who gets a derived output: the recipient of a silent payment, and the change.
  abbrev pub payees : Recipient 𝓢 𝓚 𝓣 → Option ℕ → 𝓚.Code → List 𝓣.Material
  payees (silent_payment sp) none code = 𝓣.material sp ∷ []
  payees (silent_payment sp) (some value) code = 𝓣.material sp ∷ 𝓣.material code ∷ []
  payees (address a) none code = []
  payees (address a) (some value) code = 𝓣.material code ∷ []

  -- The script is the taproot output of the first key that is derived for `payee`, among those for all
  -- `codes`, from the keys and the outpoints of the coins.
  pub record IsDerivedFor (secret : 𝓢.SecretKey) (coins : List SpendableCoin)
      (codes : List 𝓣.Material) (payee : 𝓣.Material) (script : List ℕ) : Type 0 where
    pub keys : List 𝓢.SecretKey
    pub partial_secret : 𝓣.PartialSecret
    pub derived : Derived 𝓢 𝓚 𝓣
    pub output_key : ℕ
    pub more_keys : List ℕ
    pub of_coins : AreKeys secret coins keys
    pub shared :
        𝓣.calculate_partial_secret (map (λ k. (k, true)) keys) (outpoint_bytes coins)
        ≡ some partial_secret
    pub generated : 𝓣.generate_recipient_pubkeys codes partial_secret ≡ some derived
    pub first : HashMap.get ⦃e = 𝓣.material_eq⦄ payee derived ≡ some (output_key ∷ more_keys)
    pub taproot : script ≡ 𝓣.p2tr_tweaked output_key

  -- The script pays the recipient: it is that of the address, or the one derived for the code.
  abbrev pub PaysTo :
      𝓢.SecretKey → List SpendableCoin → List 𝓣.Material → Recipient 𝓢 𝓚 𝓣 → List ℕ → Type 0
  PaysTo secret coins codes (address a) script = script ≡ 𝓣.script_pubkey a
  PaysTo secret coins codes (silent_payment sp) script =
      IsDerivedFor secret coins codes (𝓣.material sp) script

  -- The outputs for the change: none, or one of its value that is derived for the wallet's own code.
  abbrev pub IsChange :
      𝓢.SecretKey → List SpendableCoin → List 𝓣.Material → 𝓚.Code → Option ℕ → List TxOut → Type 0
  IsChange secret coins codes code none more = more ≡ []
  IsChange secret coins codes code (some value) more =
      (script : List ℕ) × (more ≡ record { value = value; script_pubkey = script } ∷ [])
      × IsDerivedFor secret coins codes (𝓣.material code) script

  signing_keys-AreKeys :
      (secret : 𝓢.SecretKey) (coins : List SpendableCoin) (keys : List 𝓢.SecretKey)
      → signing_keys 𝓢 𝓚 𝓣 secret coins ≡ some keys
      → AreKeys secret coins keys
  unfolding signing_keys
  signing_keys-AreKeys secret [] keys e =
      let none_left : keys ≡ [] = ground (arith, e) in rw none_left tt
  signing_keys-AreKeys secret (c ∷ coins) keys e =
      elim (Option-cases (𝓣.add_tweak secret c.coin.tweak)) [
        | inl bad ↦ absurd (ground (arith, e, bad))
        | inr (k, tweaked) ↦ elim (Option-cases (signing_keys 𝓢 𝓚 𝓣 secret coins)) [
          | inl bad ↦ absurd (ground (arith, e, tweaked, bad))
          | inr (ks, rest) ↦
              let all : keys ≡ k ∷ ks = ground (arith, e, tweaked, rest) in
              rw all (tweaked, signing_keys-AreKeys secret coins ks rest)
        ]
      ]

  taproot_keys-map : (keys : List 𝓢.SecretKey) → taproot_keys 𝓢 𝓚 𝓣 keys ≡ map (λ k. (k, true)) keys
  taproot_keys-map [] = refl
  taproot_keys-map (k ∷ keys) = ap (◌∷◌ (k, true)) (taproot_keys-map keys)

  sp_addrs-payees :
      (recipient : Recipient 𝓢 𝓚 𝓣) (change : Option ℕ) (code : 𝓚.Code)
      → sp_addrs 𝓢 𝓚 𝓣 recipient change code ≡ payees recipient change code
  unfolding sp_addrs
  sp_addrs-payees (silent_payment sp) none code = refl
  sp_addrs-payees (silent_payment sp) (some value) code = refl
  sp_addrs-payees (address a) none code = refl
  sp_addrs-payees (address a) (some value) code = refl

  sp_output_script-ok :
      (derived : Derived 𝓢 𝓚 𝓣) (code : 𝓚.Code) (script : List ℕ)
      → sp_output_script 𝓢 𝓚 𝓣 derived code ≡ ok script
      → (key : ℕ) × (keys : List ℕ) × (HashMap.get ⦃e = 𝓣.material_eq⦄ (𝓣.material code) derived
          ≡ some (key ∷ keys))
        × (script ≡ 𝓣.p2tr_tweaked key)
  unfolding sp_output_script
  sp_output_script-ok derived code script e =
      elim (Option-cases (HashMap.get ⦃e = 𝓣.material_eq⦄ (𝓣.material code) derived)) [
        | inl missing ↦ absurd (ground (arith, e, missing))
        | inr ([], found) ↦ absurd (ground (arith, e, found))
        | inr (key ∷ keys, found) ↦ (key, keys, found, ground (arith, e, found))
      ]

  derive-some :
      (recipient : Recipient 𝓢 𝓚 𝓣) (change : Option ℕ) (code : 𝓚.Code) (coins : List SpendableCoin)
      (keys : List 𝓢.SecretKey) (derived : Derived 𝓢 𝓚 𝓣)
      → is_empty (payees recipient change code) ≡ false
      → derive 𝓢 𝓚 𝓣 recipient change code coins keys ≡ some derived
      → (p : 𝓣.PartialSecret) × (𝓣.calculate_partial_secret
            (map (λ k. (k, true)) keys)
            (outpoint_bytes coins)
          ≡ some p)
        × (𝓣.generate_recipient_pubkeys (payees recipient change code) p ≡ some derived)
  unfolding derive
  derive-some recipient change code coins keys derived full e =
      let e1 =
        rw (derive, sp_addrs-payees recipient change code, full, taproot_keys-map keys) at e in
      elim (Option-cases
        (𝓣.calculate_partial_secret (map (λ k. (k, true)) keys) (outpoint_bytes coins))) [
          | inl bad ↦ absurd (ground (arith, e1, bad))
          | inr (p, found) ↦ (
            p,
            found,
            ap (λ ms. 𝓣.generate_recipient_pubkeys ms p)
                  (sym (sp_addrs-payees recipient change code))
                ∙ rw found at e1,
          )
        ]

  code_payees :
      (sp : 𝓚.Code) (change : Option ℕ) (code : 𝓚.Code)
      → is_empty (payees (silent_payment sp) change code) ≡ false
  code_payees sp none code = refl
  code_payees sp (some value) code = refl

  change_payees :
      (recipient : Recipient 𝓢 𝓚 𝓣) (value : ℕ) (code : 𝓚.Code)
      → is_empty (payees recipient (some value) code) ≡ false
  change_payees (silent_payment sp) value code = refl
  change_payees (address a) value code = refl

  -- What assembling a transaction has computed before it looks for its scripts.
  module _ (secret : 𝓢.SecretKey) (recipient : Recipient 𝓢 𝓚 𝓣) (change : Option ℕ) (code : 𝓚.Code)
      (coins : List SpendableCoin) (keys : List 𝓢.SecretKey) (derived : Derived 𝓢 𝓚 𝓣)
      (signs : signing_keys 𝓢 𝓚 𝓣 secret coins ≡ some keys)
      (derives : derive 𝓢 𝓚 𝓣 recipient change code coins keys ≡ some derived) where
    derived-For :
        (payee : 𝓚.Code) (script : List ℕ)
        → is_empty (payees recipient change code) ≡ false
        → sp_output_script 𝓢 𝓚 𝓣 derived payee ≡ ok script
        → IsDerivedFor secret coins (payees recipient change code) (𝓣.material payee) script
    derived-For payee script full e =
        let (p, shared, generated) =
          derive-some recipient change code coins keys derived full derives in
        let (key, more, first, taproot) = sp_output_script-ok derived payee script e in
        record {
          keys = keys;
          partial_secret = p;
          derived = derived;
          output_key = key;
          more_keys = more;
          of_coins = signing_keys-AreKeys secret coins keys signs;
          shared = shared;
          generated = generated;
          first = first;
          taproot = taproot;
        }

  pub recipient_script-PaysTo :
      (secret : 𝓢.SecretKey) (recipient : Recipient 𝓢 𝓚 𝓣) (change : Option ℕ) (code : 𝓚.Code)
      (coins : List SpendableCoin) (keys : List 𝓢.SecretKey) (derived : Derived 𝓢 𝓚 𝓣)
      (script : List ℕ)
      → signing_keys 𝓢 𝓚 𝓣 secret coins ≡ some keys
      → derive 𝓢 𝓚 𝓣 recipient change code coins keys ≡ some derived
      → recipient_script 𝓢 𝓚 𝓣 derived recipient ≡ ok script
      → PaysTo secret coins (payees recipient change code) recipient script
  unfolding recipient_script
  recipient_script-PaysTo secret (address a) change code coins keys derived script k d e =
      ground (arith, e)
  recipient_script-PaysTo secret (silent_payment sp) change code coins keys derived script k d e =
      derived-For secret (silent_payment sp) change code coins keys derived k d sp script
        (code_payees sp change code) e

  pub change_output-IsChange :
      (secret : 𝓢.SecretKey) (recipient : Recipient 𝓢 𝓚 𝓣) (change : Option ℕ) (code : 𝓚.Code)
      (coins : List SpendableCoin) (keys : List 𝓢.SecretKey) (derived : Derived 𝓢 𝓚 𝓣)
      (more : List TxOut)
      → signing_keys 𝓢 𝓚 𝓣 secret coins ≡ some keys
      → derive 𝓢 𝓚 𝓣 recipient change code coins keys ≡ some derived
      → change_output 𝓢 𝓚 𝓣 derived code change ≡ ok more
      → IsChange secret coins (payees recipient change code) code change more
  unfolding change_output
  change_output-IsChange secret recipient none code coins keys derived more k d e =
      ground (arith, e)
  change_output-IsChange secret recipient (some value) code coins keys derived more k d e =
      let (script, found, f) =
        and_then-ok (sp_output_script 𝓢 𝓚 𝓣 derived code)
          (λ script. ok (record { value = value; script_pubkey = script } ∷ [])) e in
      (
        script,
        ground (arith, f),
        derived-For secret recipient (some value) code coins keys derived k d code script
            (change_payees recipient value code) found,
      )
