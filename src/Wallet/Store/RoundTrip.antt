-- ===== src/Wallet/Store/RoundTrip.antt =====
-- crates/wallet/src/silentpayments/wallet_store.rs: what is read back from a wallet file.
use kernel_node.Prelude.{
  ℕ, ◌+◌, ◌*◌, ◌^◌, ◌<◌, ◌≡◌, refl, sym, ◌∙◌, true, false, Option, some, List, ◌∷◌, ◌++◌, arith,
  length, length-append, ltb, leb, ◌==◌, nat_eq, [],
}
use kernel_node.Prelude.Bytes.{to_le_bytes, from_le_bytes, from_le_bytes-to_le_bytes}
use kernel_node.Prelude.Slices.{
  slice, byte_at, concat, length-concat, slice-append, same_bytes, same_bytes_self,
}
use kernel_node.Prelude.Reader.{ok}
use kernel_node.Prelude.HashMap
use kernel_node.Prelude.HashMap.{HashMap, IsTable, IsTable-before, insert-absent}
use kernel_node.Wallet.Scanning.{OutPoint, outpoint_eq, Coin, SilentPayments}
use kernel_node.Wallet.Coins.{Wallet, Network, mainnet, testnet, regtest, from_parts, insert_all}
use kernel_node.Wallet.Store.{
  magic, store_version, encode_network, decode_network, encode_records, decode_records,
  wallet_to_bytes, wallet_from_bytes,
}
use kernel_node.Wallet.Store.Fields.{
  HasScalarBytes, IsStorable, fields, lengths, fields-HaveLengths, encode_record-fields,
  decode_record-fields,
}
use mathlib.Core.List.{append_assoc, append-nil}

-- Inserting the entries of a table after those that are there keeps them all, in order.
insert_all-append :
    (found utxos : HashMap OutPoint Coin)
    → IsTable (utxos ++ found)
    → insert_all found utxos ≡ utxos ++ found
unfolding insert_all
insert_all-append [] utxos h = sym (append-nil utxos)
insert_all-append ((o, c) ∷ found) utxos h =
    let split = append_assoc utxos ((o, c) ∷ []) found in
    let rest = insert_all-append found (utxos ++ ((o, c) ∷ [])) (rw split h) in
    rw (insert-absent o c utxos (IsTable-before o c utxos found h)) (rest ∙ split)

module _ (order : ℕ) (to_be_bytes : ℕ → List ℕ) (from_be_bytes : List ℕ → Option ℕ)
    (law : HasScalarBytes order to_be_bytes from_be_bytes) where
  abbrev pub AllStorable : HashMap OutPoint Coin → Type 0
  AllStorable [] = Unit
  AllStorable ((o, c) ∷ utxos) = IsStorable order o c × AllStorable utxos

  record_bytes : HashMap OutPoint Coin → List ℕ
  record_bytes [] = []
  record_bytes ((o, c) ∷ utxos) =
      concat (fields order to_be_bytes from_be_bytes law o c) ++ record_bytes utxos

  encode_records-fields :
      (utxos : HashMap OutPoint Coin)
      → AllStorable utxos
      → encode_records to_be_bytes from_be_bytes utxos ≡ ok (record_bytes utxos)
  unfolding encode_records record_bytes
  encode_records-fields [] h = refl
  encode_records-fields ((o, c) ∷ utxos) (fits, h) =
      rw
        (
          encode_record-fields order to_be_bytes from_be_bytes law o c fits,
          encode_records-fields utxos h,
          encode_records,
        )
        refl

  length-record :
      (o : OutPoint) (c : Coin)
      → IsStorable order o c
      → length (concat (fields order to_be_bytes from_be_bytes law o c)) ≡ 192
  length-record o c h =
      length-concat (fields order to_be_bytes from_be_bytes law o c)
        (lengths order to_be_bytes from_be_bytes law)
        (fields-HaveLengths order to_be_bytes from_be_bytes law o c h)

  length-record_bytes :
      (utxos : HashMap OutPoint Coin)
      → AllStorable utxos
      → length (record_bytes utxos) ≡ length utxos * 192
  unfolding record_bytes
  length-record_bytes [] h = refl
  length-record_bytes ((o, c) ∷ utxos) (fits, h) = omega (
    arith,
    length-append (concat (fields order to_be_bytes from_be_bytes law o c)) (record_bytes utxos),
    length-record o c fits,
    length-record_bytes utxos h,
  )

  decode_records-record_bytes :
      (before : List ℕ) (found utxos : HashMap OutPoint Coin) (off : ℕ)
      → AllStorable found
      → length before ≡ off
      → decode_records to_be_bytes from_be_bytes
          (length found)
          off
          (before ++ record_bytes found)
          utxos
        ≡ ok (insert_all found utxos)
  unfolding decode_records record_bytes insert_all
  decode_records-record_bytes before [] utxos off h e = refl
  decode_records-record_bytes before ((o, c) ∷ found) utxos off (fits, h) e =
      let bytes = concat (fields order to_be_bytes from_be_bytes law o c) in
      let here =
        slice-append off 192 before bytes (record_bytes found) e (length-record o c fits) in
      let past : length (before ++ bytes) ≡ off + 192 =
        omega (arith, length-append before bytes, length-record o c fits) in
      rw
        (
          here,
          decode_record-fields order to_be_bytes from_be_bytes law o c fits,
          decode_records,
          ← append_assoc before bytes (record_bytes found),
        )
        (decode_records-record_bytes (before ++ bytes) found (HashMap.insert o c utxos) (off + 192)
          h past)

abbrev header : ℕ → Network → ℕ → List ℕ
header height network count =
    magic
    ++ ((store_version ∷ encode_network network ∷ [])
        ++ (to_le_bytes 4 height ++ to_le_bytes 4 count))

module _ (height : ℕ) (network : Network) (count : ℕ) (records : List ℕ) where
  abbrev file : List ℕ
  file =
      magic
      ++ ((store_version ∷ encode_network network ∷ [])
          ++ (to_le_bytes 4 height ++ (to_le_bytes 4 count ++ records)))

  file-header : file ≡ header height network count ++ records
  unfolding to_le_bytes
  file-header = refl

  length-header : length (header height network count) ≡ 14
  unfolding to_le_bytes
  length-header = refl

  length-file : length file ≡ 14 + length records
  unfolding to_le_bytes
  length-file = omega arith

  file-height : slice 6 4 file ≡ to_le_bytes 4 height
  unfolding to_le_bytes
  file-height = refl

  file-count : slice 10 4 file ≡ to_le_bytes 4 count
  unfolding to_le_bytes
  file-count = refl

  file-magic : same_bytes (slice 0 4 file) magic ≡ true
  file-magic = same_bytes_self magic

  file-version : (byte_at 4 file == store_version) ≡ true
  unfolding from_le_bytes
  file-version = ground arith

  file-network : decode_network (byte_at 5 file) ≡ ok network
  unfolding from_le_bytes decode_network
  file-network = elim network [
    | mainnet ↦ ground arith
    | testnet ↦ ground arith
    | regtest ↦ ground arith
  ]

-- A wallet whose fields fit their types, with taproot coins, is written, and read back with the same
-- height, network and coins.
pub wallet_from_bytes-wallet_to_bytes :
    (order : ℕ) (to_be_bytes : ℕ → List ℕ) (from_be_bytes : List ℕ → Option ℕ)
    (law : HasScalarBytes order to_be_bytes from_be_bytes) (𝓢 : SilentPayments) (w : Wallet 𝓢)
    → AllStorable order to_be_bytes from_be_bytes law w.utxos
    → IsTable w.utxos
    → w.scan_height < 2 ^ 32
    → length w.utxos < 2 ^ 32
    → (bytes : List ℕ) × (wallet_to_bytes to_be_bytes from_be_bytes 𝓢 w ≡ some (ok bytes))
      × (wallet_from_bytes to_be_bytes from_be_bytes 𝓢 bytes
          ≡ ok (from_parts 𝓢 w.scan_height w.network w.utxos))
unfolding wallet_to_bytes wallet_from_bytes
wallet_from_bytes-wallet_to_bytes order to_be_bytes from_be_bytes law 𝓢 w fits table height count =
    let records = record_bytes order to_be_bytes from_be_bytes law w.utxos in
    let h = w.scan_height in
    let net = w.network in
    let n = length w.utxos in
    let counted : leb (2 ^ 32) n ≡ false = ground arith in
    let size = length-record_bytes order to_be_bytes from_be_bytes law w.utxos fits in
    let whole = length-file h net n records in
    let long : ltb (length (file h net n records)) 14 ≡ false = ground (arith, whole) in
    let exact : (length (file h net n records) == 14 + n * 192) ≡ true =
      ground (arith, whole, size) in
    (
      file h net n records,
      rw (counted, encode_records-fields order to_be_bytes from_be_bytes law w.utxos fits) refl,
      rw
          (
            long,
            file-magic h net n records,
            file-version h net n records,
            file-network h net n records,
            file-count h net n records,
            from_le_bytes-to_le_bytes 4 n count,
            exact,
            file-header h net n records,
            decode_records-record_bytes order to_be_bytes from_be_bytes law (header h net n) w.utxos
                [] 14 fits (length-header h net n records),
            insert_all-append w.utxos [] table,
            file-height h net n records,
            from_le_bytes-to_le_bytes 4 h height,
          )
          refl,
    )
