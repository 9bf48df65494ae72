-- ===== src/Wallet/Scanning.antt =====
-- crates/wallet/src/silentpayments/scanning.rs: the coins that a block pays to the wallet. The
-- cryptography is that of the silentpayments and secp256k1 crates and is a parameter; a hash, a key
-- or a scalar is the number that its bytes spell. `none` is a panic.
use kernel_node.Prelude.{
  ℕ, ◌+◌, Bool, true, false, Option, none, some, List, ◌∷◌, ◌++◌, map, ℕ_discrete, get_elem?, drop,
  if◌then◌else◌, Eq, ◌==◌, nat_eq, [],
}
use kernel_node.Prelude.Bytes.{to_le_bytes}

pub record OutPoint : Type 0 where
  pub txid : ℕ
  pub vout : ℕ

unfoldable pub outpoint-discrete : Discrete OutPoint
outpoint-discrete = hlevel ℕ_discrete

instance abbrev pub outpoint_eq : Eq OutPoint
outpoint_eq = record { dec = outpoint-discrete }

pub record TxOut : Type 0 where
  pub value : ℕ
  pub script_pubkey : List ℕ

pub record TxIn : Type 0 where
  pub outpoint : OutPoint
  pub script_sig : Option (List ℕ)
  pub witness_stack : List (List ℕ)

pub record Transaction : Type 0 where
  pub txid : ℕ
  pub inputs : List TxIn
  pub outputs : List TxOut

abbrev pub Block : Type 0
Block = List Transaction

pub record SpentBy : Type 0 where
  pub txid : ℕ
  pub block_height : ℕ

pub record Coin : Type 0 where
  pub value : ℕ
  pub script_pubkey : List ℕ
  pub tweak : ℕ
  pub label : Option ℕ
  pub block_height : ℕ
  pub spent_by : Option SpentBy

pub record InputData : Type 0 where
  pub script_sig : List ℕ
  pub witness : List (List ℕ)
  pub prevout_script : List ℕ
  pub outpoint : List ℕ

-- What the crates provide. `receiver_scan` returns its map of labels in the order of iteration.
pub record SilentPayments : Type 1 where
  pub Receiver : Type 0
  pub SecretKey : Type 0
  pub PublicKey : Type 0
  pub Label : Type 0
  pub TweakData : Type 0
  pub SharedSecret : Type 0
  pub get_pubkey_from_input : List ℕ → List (List ℕ) → List ℕ → Option PublicKey
  pub calculate_tweak_data : List PublicKey → List (List ℕ) → Option TweakData
  pub calculate_ecdh_shared_secret : TweakData → SecretKey → SharedSecret
  pub receiver_scan : Receiver → SharedSecret → List ℕ → Option (List (Option Label × List (ℕ × ℕ)))
  pub label_scalar : Label → ℕ
  pub is_p2tr : List ℕ → Bool
  pub xonly_from_slice : List ℕ → Option ℕ

abbrev pub is_empty {ℓ} : {A : Type ℓ} → List A → Bool
is_empty [] = true
is_empty (x ∷ xs) = false

-- The index of the first taproot output with the key.
unfoldable pub index_of : ℕ → List (ℕ × ℕ) → Option ℕ
index_of pk [] = none
index_of pk ((index, key) ∷ outputs) = if key == pk then some index else index_of pk outputs

module _ (𝓢 : SilentPayments) where
  abbrev pub Match : Type 0
  Match = ℕ × ℕ × Option 𝓢.Label

  unfoldable pub parse_p2tr : List ℕ → Option ℕ
  parse_p2tr script = if 𝓢.is_p2tr script then 𝓢.xonly_from_slice (drop 2 script) else none

  -- The public keys of the inputs that have one, with their outpoints.
  unfoldable pub keyed_inputs : List InputData → List 𝓢.PublicKey × List (List ℕ)
  keyed_inputs [] = ([], [])
  keyed_inputs (input ∷ inputs) =
      let (keys, outpoints) = keyed_inputs inputs in
      elim (𝓢.get_pubkey_from_input input.script_sig input.witness input.prevout_script) [
        | some pk ↦ (pk ∷ keys, input.outpoint ∷ outpoints)
        | none ↦ (keys, outpoints)
      ]

  unfoldable pub label_matches : Option 𝓢.Label → List (ℕ × ℕ) → List (ℕ × ℕ) → List Match
  label_matches label outputs [] = []
  label_matches label outputs ((pk, tweak) ∷ pubkeys) =
      let rest = label_matches label outputs pubkeys in
      elim (index_of pk outputs) [ some index ↦ (index, tweak, label) ∷ rest | none ↦ rest ]

  unfoldable pub all_matches : List (Option 𝓢.Label × List (ℕ × ℕ)) → List (ℕ × ℕ) → List Match
  all_matches [] outputs = []
  all_matches ((label, pubkeys) ∷ found) outputs =
      label_matches label outputs pubkeys ++ all_matches found outputs

  unfoldable pub scan_transaction :
      𝓢.Receiver → 𝓢.SecretKey → List InputData → List (ℕ × ℕ) → List Match
  scan_transaction receiver b_scan inputs taproot_outputs =
      let (keys, outpoints) = keyed_inputs inputs in
      if is_empty keys then [] else (elim (𝓢.calculate_tweak_data keys outpoints) [
        | none ↦ []
        | some tweak_data ↦
            elim (𝓢.receiver_scan receiver (𝓢.calculate_ecdh_shared_secret tweak_data b_scan)
              (map (λ output. output.1) taproot_outputs)) [
                | none ↦ []
                | some found ↦ all_matches found taproot_outputs
              ]
      ])

  -- `enumerate().filter_map(..)`, from the index on.
  unfoldable pub taproot_outputs_from : ℕ → List TxOut → List (ℕ × ℕ)
  taproot_outputs_from i [] = []
  taproot_outputs_from i (out ∷ outputs) =
      let rest = taproot_outputs_from (i + 1) outputs in
      elim (parse_p2tr out.script_pubkey) [ some pk ↦ (i, pk) ∷ rest | none ↦ rest ]

  -- The inputs with the outputs that they spend, which must be there for each of them.
  unfoldable pub input_data : List TxIn → List TxOut → Option (List InputData)
  input_data [] spent = some []
  input_data (input ∷ inputs) [] = none
  input_data (input ∷ inputs) (coin ∷ spent) =
      let rest = input_data inputs spent in
      elim input.script_sig [
        | none ↦ none
        | some script_sig ↦ elim rest [
          | none ↦ none
          | some inputs_data ↦ some (
              record {
                script_sig = script_sig;
                witness = input.witness_stack;
                prevout_script = coin.script_pubkey;
                outpoint = to_le_bytes 32 input.outpoint.txid ++ to_le_bytes 4 input.outpoint.vout;
              }
              ∷ inputs_data)
        ]
      ]

  unfoldable pub found_coins : Transaction → ℕ → List Match → Option (List (OutPoint × Coin))
  found_coins tx block_height [] = some []
  found_coins tx block_height ((index, tweak, label) ∷ matches) =
      let rest = found_coins tx block_height matches in
      elim (get_elem? tx.outputs index) [
        | none ↦ none
        | some out ↦ elim rest [
          | none ↦ none
          | some found ↦ some (
              (
                record { txid = tx.txid; vout = index },
                record {
                  value = out.value;
                  script_pubkey = out.script_pubkey;
                  tweak = tweak;
                  label = elim label [ some l ↦ some (𝓢.label_scalar l) | none ↦ none ];
                  block_height = block_height;
                  spent_by = none;
                },
              )
              ∷ found)
        ]
      ]

  -- One round of the loop of `scan_block_inner`.
  unfoldable pub scan_one :
      𝓢.Receiver → 𝓢.SecretKey → ℕ → Transaction → List TxOut → Option (List (OutPoint × Coin))
  scan_one receiver b_scan block_height tx spent =
      let outputs = taproot_outputs_from 0 tx.outputs in
      if is_empty outputs then some [] else (elim (input_data tx.inputs spent) [
        | none ↦ none
        | some inputs ↦
            found_coins tx block_height (scan_transaction receiver b_scan inputs outputs)
      ])

  -- `transactions().skip(1).zip(spent_outputs.iter())`
  unfoldable pub scan_loop :
      𝓢.Receiver
      → 𝓢.SecretKey
      → ℕ
      → List Transaction
      → List (List TxOut)
      → Option (List (OutPoint × Coin))
  scan_loop receiver b_scan block_height [] spents = some []
  scan_loop receiver b_scan block_height (tx ∷ txs) [] = some []
  scan_loop receiver b_scan block_height (tx ∷ txs) (spent ∷ spents) =
      let rest = scan_loop receiver b_scan block_height txs spents in
      elim (scan_one receiver b_scan block_height tx spent) [
        | none ↦ none
        | some found ↦ elim rest [ none ↦ none | some more ↦ some (found ++ more) ]
      ]

  unfoldable pub scan_block_inner :
      𝓢.Receiver → 𝓢.SecretKey → Block → List (List TxOut) → ℕ → Option (List (OutPoint × Coin))
  scan_block_inner receiver b_scan block spent_outputs block_height =
      scan_loop receiver b_scan block_height (drop 1 block) spent_outputs
