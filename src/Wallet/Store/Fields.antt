-- ===== src/Wallet/Store/Fields.antt =====
-- crates/wallet/src/silentpayments/wallet_store.rs: the fields of a record, one by one.
use kernel_node.Prelude.{
  ℕ, ◌^◌, ◌<◌, ◌≡◌, refl, true, false, not, ◌&&◌, Option, none, some, List, ◌∷◌, ◌++◌, arith,
  ℕ_discrete, length, replicate, ◌==◌, nat_eq, [],
}
use kernel_node.Prelude.Bytes.{
  to_le_bytes, from_le_bytes, length-to_le_bytes, from_le_bytes-to_le_bytes,
}
use kernel_node.Prelude.Slices.{slice, concat, HaveLengths, slice-concat, offset, width, field}
use kernel_node.Prelude.Reader.{ok}
use kernel_node.Wallet.Scanning.{OutPoint, outpoint_eq, Coin, SpentBy}
use kernel_node.Wallet.Store.{
  script_len, spent_flag, encode_spent_by, decode_spent_by, encode_label, decode_label,
  encode_record, decode_record,
}
use mathlib.Core.List.{append_assoc}

-- What secp256k1 says of the bytes of its scalars, the numbers below the order of the group.
pub record HasScalarBytes (order : ℕ) (to_be_bytes : ℕ → List ℕ) (from_be_bytes : List ℕ → Option ℕ)
    : Type 0 where
  pub of_length : (t : ℕ) → length (to_be_bytes t) ≡ 32
  pub from_to : (t : ℕ) → t < order → from_be_bytes (to_be_bytes t) ≡ some t

abbrev pub FitsLabel : ℕ → Option ℕ → Type 0
FitsLabel order none = Unit
FitsLabel order (some label) = label < order

abbrev pub FitsSpentBy : Option SpentBy → Type 0
FitsSpentBy none = Unit
FitsSpentBy (some s) = (s.txid < 2 ^ 256) × (s.block_height < 2 ^ 32)

-- The ranges of the types of the fields; the script is that of a taproot output.
pub record IsStorable (order : ℕ) (outpoint : OutPoint) (coin : Coin) : Type 0 where
  pub txid : outpoint.txid < 2 ^ 256
  pub vout : outpoint.vout < 2 ^ 32
  pub value : coin.value < 2 ^ 64
  pub script : length coin.script_pubkey ≡ script_len
  pub tweak : coin.tweak < order
  pub label : FitsLabel order coin.label
  pub block_height : coin.block_height < 2 ^ 32
  pub spent_by : FitsSpentBy coin.spent_by

abbrev label_tag : Option ℕ → ℕ
label_tag none = 0
label_tag (some label) = 1

abbrev spent_txid : Option SpentBy → List ℕ
spent_txid none = replicate 32 0
spent_txid (some s) = to_le_bytes 32 s.txid

abbrev spent_height : Option SpentBy → List ℕ
spent_height none = replicate 4 0
spent_height (some s) = to_le_bytes 4 s.block_height

length-spent_txid : (s : Option SpentBy) → length (spent_txid s) ≡ 32
length-spent_txid none = refl
length-spent_txid (some s) = length-to_le_bytes 32 s.txid

length-spent_height : (s : Option SpentBy) → length (spent_height s) ≡ 4
length-spent_height none = refl
length-spent_height (some s) = length-to_le_bytes 4 s.block_height

encode_spent_by-fields :
    (s : Option SpentBy) (rest : List ℕ)
    → encode_spent_by s ++ rest ≡ spent_txid s ++ (spent_height s ++ rest)
encode_spent_by-fields none rest = refl
encode_spent_by-fields (some s) rest =
    append_assoc (to_le_bytes 32 s.txid) (to_le_bytes 4 s.block_height) rest

module _ (order : ℕ) (to_be_bytes : ℕ → List ℕ) (from_be_bytes : List ℕ → Option ℕ)
    (law : HasScalarBytes order to_be_bytes from_be_bytes) where
  abbrev label_bytes : Option ℕ → List ℕ
  label_bytes none = replicate 32 0
  label_bytes (some label) = to_be_bytes label

  encode_label-fields :
      (label : Option ℕ) (rest : List ℕ)
      → encode_label to_be_bytes from_be_bytes label ++ rest
        ≡ label_tag label ∷ (label_bytes label ++ rest)
  encode_label-fields none rest = refl
  encode_label-fields (some label) rest = refl

  length-label_bytes : (label : Option ℕ) → length (label_bytes label) ≡ 32
  length-label_bytes none = refl
  length-label_bytes (some label) = law.of_length label

  abbrev pub fields : OutPoint → Coin → List (List ℕ)
  fields outpoint coin =
      (spent_flag coin.spent_by ∷ [])
      ∷ to_le_bytes 32 outpoint.txid
      ∷ to_le_bytes 4 outpoint.vout
      ∷ to_le_bytes 8 coin.value
      ∷ coin.script_pubkey
      ∷ to_be_bytes coin.tweak
      ∷ (label_tag coin.label ∷ [])
      ∷ label_bytes coin.label
      ∷ to_le_bytes 4 coin.block_height
      ∷ spent_txid coin.spent_by
      ∷ spent_height coin.spent_by
      ∷ replicate 8 0
      ∷ []

  abbrev pub lengths : List ℕ
  lengths = 1 ∷ 32 ∷ 4 ∷ 8 ∷ 34 ∷ 32 ∷ 1 ∷ 32 ∷ 4 ∷ 32 ∷ 4 ∷ 8 ∷ []

  pub fields-HaveLengths :
      (o : OutPoint) (c : Coin) → IsStorable order o c → HaveLengths (fields o c) lengths
  fields-HaveLengths o c h = (
    refl,
    (
      length-to_le_bytes 32 o.txid,
      (
        length-to_le_bytes 4 o.vout,
        (
          length-to_le_bytes 8 c.value,
          (
            h.script,
            (
              law.of_length c.tweak,
              (
                refl,
                (
                  length-label_bytes c.label,
                  (
                    length-to_le_bytes 4 c.block_height,
                    (length-spent_txid c.spent_by, (length-spent_height c.spent_by, (refl, _))),
                  ),
                ),
              ),
            ),
          ),
        ),
      ),
    ),
  )

  pub encode_record-fields :
      (o : OutPoint) (c : Coin)
      → IsStorable order o c
      → encode_record to_be_bytes from_be_bytes o c ≡ ok (concat (fields o c))
  unfolding encode_record
  encode_record-fields o c h =
      let checked : (length c.script_pubkey == script_len) ≡ true = ground (arith, h.script) in
      rw checked (
        rw
          (
            encode_spent_by-fields c.spent_by (replicate 8 0),
            encode_label-fields c.label (
                to_le_bytes 4 c.block_height
                ++ (spent_txid c.spent_by ++ (spent_height c.spent_by ++ replicate 8 0))),
          )
          refl)

  one_byte : (b : ℕ) → from_le_bytes (b ∷ []) ≡ b
  unfolding from_le_bytes
  one_byte b = omega arith

  decode_label-fields :
      (label : Option ℕ) (buf : List ℕ)
      → FitsLabel order label
      → slice 112 32 buf ≡ label_bytes label
      → decode_label to_be_bytes from_be_bytes (label_tag label) buf ≡ ok label
  unfolding decode_label ℕ_discrete
  decode_label-fields none buf fits e = refl
  decode_label-fields (some label) buf fits e = rw (e, law.from_to label fits) refl

  decode_spent_by-fields :
      (s : Option SpentBy) (buf : List ℕ)
      → FitsSpentBy s
      → slice 148 32 buf ≡ spent_txid s
      → slice 180 4 buf ≡ spent_height s
      → decode_spent_by (spent_flag s) buf ≡ s
  unfolding decode_spent_by ℕ_discrete
  decode_spent_by-fields none buf fits e e' = refl
  decode_spent_by-fields (some s) buf (p, q) e e' =
      rw
        (e, e', from_le_bytes-to_le_bytes 32 s.txid p, from_le_bytes-to_le_bytes 4 s.block_height q)
        refl

  known_flag : (s : Option SpentBy) → (not (spent_flag s == 0) && not (spent_flag s == 1)) ≡ false
  unfolding ℕ_discrete
  known_flag none = refl
  known_flag (some s) = refl

  field_at :
      (i : ℕ) (o : OutPoint) (c : Coin)
      → IsStorable order o c
      → slice (offset i lengths) (width i lengths) (concat (fields o c)) ≡ field i (fields o c)
  field_at i o c h = slice-concat i (fields o c) lengths (fields-HaveLengths o c h)

  pub decode_record-fields :
      (o : OutPoint) (c : Coin)
      → IsStorable order o c
      → decode_record to_be_bytes from_be_bytes (concat (fields o c)) ≡ ok (o, c)
  unfolding decode_record
  decode_record-fields o c h =
      rw
        (
          field_at 0 o c h,
          one_byte (spent_flag c.spent_by),
          known_flag c.spent_by,
          field_at 5 o c h,
          law.from_to c.tweak h.tweak,
          field_at 6 o c h,
          one_byte (label_tag c.label),
          decode_label-fields c.label (concat (fields o c)) h.label (field_at 7 o c h),
          field_at 1 o c h,
          field_at 2 o c h,
          field_at 3 o c h,
          field_at 4 o c h,
          field_at 8 o c h,
          field_at 0 o c h,
          one_byte (spent_flag c.spent_by),
          decode_spent_by-fields c.spent_by (concat (fields o c)) h.spent_by (field_at 9 o c h)
              (field_at 10 o c h),
          from_le_bytes-to_le_bytes 32 o.txid h.txid,
          from_le_bytes-to_le_bytes 4 o.vout h.vout,
          from_le_bytes-to_le_bytes 8 c.value h.value,
          from_le_bytes-to_le_bytes 4 c.block_height h.block_height,
        )
        refl
