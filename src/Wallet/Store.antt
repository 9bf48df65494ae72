-- ===== src/Wallet/Store.antt =====
-- crates/wallet/src/silentpayments/wallet_store.rs: the bytes of the wallet file. The bytes of a
-- scalar are secp256k1's, and are parameters; those of a transaction id are its 32 bytes. `none` is
-- a panic.
pub mod Fields
pub mod RoundTrip
use kernel_node.Prelude.{
  ℕ, zero, suc, ◌+◌, ◌*◌, ◌^◌, ◌⊎◌, inl, inr, not, ◌&&◌, Option, none, some, List, ◌∷◌, ◌++◌,
  length, replicate, ltb, leb, if◌then◌else◌, ◌==◌, nat_eq, [],
}
use kernel_node.Prelude.Bytes.{to_le_bytes, from_le_bytes}
use kernel_node.Prelude.Slices.{slice, byte_at, same_bytes}
use kernel_node.Prelude.Reader.{Result, ok, err}
use kernel_node.Prelude.HashMap
use kernel_node.Prelude.HashMap.{HashMap}
use kernel_node.Wallet.Scanning.{OutPoint, outpoint_eq, Coin, SpentBy, SilentPayments}
use kernel_node.Wallet.Coins.{Wallet, Network, mainnet, testnet, regtest, from_parts}

-- "SPWF"
abbrev pub magic : List ℕ
magic = 83 ∷ 80 ∷ 87 ∷ 70 ∷ []

abbrev pub store_version : ℕ
store_version = 1

abbrev pub header_len : ℕ
header_len = 10

abbrev pub count_len : ℕ
count_len = 4

abbrev pub record_len : ℕ
record_len = 192

abbrev pub script_len : ℕ
script_len = 34

-- What the code itself finds wrong with a file.
pub data WalletPersistenceError : Type 0 where
  bad_magic invalid_scalar truncated_file : WalletPersistenceError
  wrong_version unknown_network unknown_spent_flag unknown_label_tag non_p2tr_script :
      ℕ → WalletPersistenceError

abbrev pub Persisted : Type 0 → Type 0
Persisted A = Result WalletPersistenceError A

abbrev pub encode_network : Network → ℕ
encode_network mainnet = 0
encode_network testnet = 1
encode_network regtest = 2

unfoldable pub decode_network : ℕ → Persisted Network
decode_network b =
    if b == 0
    then ok mainnet
    else if b == 1
    then ok testnet
    else if b == 2
    then ok regtest
    else err (unknown_network b)

-- The two fields of a spend, and the flag before the record.
abbrev pub spent_flag : Option SpentBy → ℕ
spent_flag none = 0
spent_flag (some s) = 1

abbrev pub encode_spent_by : Option SpentBy → List ℕ
encode_spent_by none = replicate 36 0
encode_spent_by (some s) = to_le_bytes 32 s.txid ++ to_le_bytes 4 s.block_height

unfoldable pub decode_spent_by : ℕ → List ℕ → Option SpentBy
decode_spent_by flag buf =
    if flag == 1
    then some (record {
      txid = from_le_bytes (slice 148 32 buf);
      block_height = from_le_bytes (slice 180 4 buf);
    })
    else none

module _ (to_be_bytes : ℕ → List ℕ) (from_be_bytes : List ℕ → Option ℕ) where
  abbrev pub encode_label : Option ℕ → List ℕ
  encode_label none = replicate 33 0
  encode_label (some label) = 1 ∷ to_be_bytes label

  unfoldable pub decode_label : ℕ → List ℕ → Persisted (Option ℕ)
  decode_label tag buf =
      if tag == 0
      then ok none
      else if tag == 1
      then (elim (from_be_bytes (slice 112 32 buf)) [
        | none ↦ err invalid_scalar
        | some label ↦ ok (some label)
      ])
      else err (unknown_label_tag tag)

  -- The last eight bytes of a record are zeros.
  unfoldable pub encode_record : OutPoint → Coin → Persisted (List ℕ)
  encode_record outpoint coin =
      if not (length coin.script_pubkey == script_len)
      then err (non_p2tr_script (length coin.script_pubkey))
      else ok (
          (spent_flag coin.spent_by ∷ [])
          ++ (to_le_bytes 32 outpoint.txid
              ++ (to_le_bytes 4 outpoint.vout
                  ++ (to_le_bytes 8 coin.value
                      ++ (coin.script_pubkey
                          ++ (to_be_bytes coin.tweak
                              ++ (encode_label coin.label
                                  ++ (to_le_bytes 4 coin.block_height
                                      ++ (encode_spent_by coin.spent_by ++ replicate 8 0)))))))))

  unfoldable pub decode_record : List ℕ → Persisted (OutPoint × Coin)
  decode_record buf =
      let flag = byte_at 0 buf in
      if not (flag == 0) && not (flag == 1)
      then err (unknown_spent_flag flag)
      else (elim (from_be_bytes (slice 79 32 buf)) [
        | none ↦ err invalid_scalar
        | some tweak ↦ elim (decode_label (byte_at 111 buf) buf) [
          | err e ↦ err e
          | ok label ↦ ok (
            record { txid = from_le_bytes (slice 1 32 buf); vout = from_le_bytes (slice 33 4 buf) },
            record {
              value = from_le_bytes (slice 37 8 buf);
              script_pubkey = slice 45 script_len buf;
              tweak = tweak;
              label = label;
              block_height = from_le_bytes (slice 144 4 buf);
              spent_by = decode_spent_by flag buf;
            },
          )
        ]
      ])

  unfoldable pub encode_records : HashMap OutPoint Coin → Persisted (List ℕ)
  encode_records [] = ok []
  encode_records ((outpoint, coin) ∷ utxos) =
      let rest = encode_records utxos in
      elim (encode_record outpoint coin) [
        | err e ↦ err e
        | ok bytes ↦ elim rest [ err e ↦ err e | ok more ↦ ok (bytes ++ more) ]
      ]

  -- The loop over `coin_count` records from the offset on.
  unfoldable pub decode_records :
      ℕ → ℕ → List ℕ → HashMap OutPoint Coin → Persisted (HashMap OutPoint Coin)
  decode_records zero off bytes utxos = ok utxos
  decode_records (suc count) off bytes utxos = elim (decode_record (slice off record_len bytes)) [
    | err e ↦ err e
    | ok (outpoint, coin) ↦
        decode_records count (off + record_len) bytes (HashMap.insert outpoint coin utxos)
  ]

  module _ (𝓢 : SilentPayments) where
    unfoldable pub wallet_to_bytes : Wallet 𝓢 → Option (Persisted (List ℕ))
    wallet_to_bytes w =
        if leb (2 ^ 32) (length w.utxos) then none else (elim (encode_records w.utxos) [
          | err e ↦ some (err e)
          | ok records ↦ some (
              ok (
                magic
                ++ ((store_version ∷ encode_network w.network ∷ [])
                    ++ (to_le_bytes 4 w.scan_height
                        ++ (to_le_bytes 4 (length w.utxos) ++ records)))))
        ])

    unfoldable pub wallet_from_bytes : List ℕ → Persisted (Wallet 𝓢)
    wallet_from_bytes bytes =
        let coin_count = from_le_bytes (slice 10 4 bytes) in
        if ltb (length bytes) (header_len + count_len)
        then err truncated_file
        else if not (same_bytes (slice 0 4 bytes) magic)
        then err bad_magic
        else if not (byte_at 4 bytes == store_version)
        then err (wrong_version (byte_at 4 bytes))
        else (elim (decode_network (byte_at 5 bytes)) [
          | err e ↦ err e
          | ok network ↦
              if not (length bytes == header_len + count_len + coin_count * record_len)
              then err truncated_file
              else (elim (decode_records coin_count (header_len + count_len) bytes []) [
                | err e ↦ err e
                | ok utxos ↦ ok (from_parts 𝓢 (from_le_bytes (slice 6 4 bytes)) network utxos)
              ])
        ])

    -- `WalletStore::load`, of the bytes of the file: the mismatch of networks is an error of its own.
    unfoldable pub load :
        Network → List ℕ → Result (WalletPersistenceError ⊎ (Network × Network)) (Wallet 𝓢)
    load network bytes = elim (wallet_from_bytes bytes) [
      | err e ↦ err (inl e)
      | ok w ↦
          if encode_network w.network == encode_network network
          then ok w
          else err (inr (w.network, network))
    ]
