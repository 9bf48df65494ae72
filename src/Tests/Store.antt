-- ===== src/Tests/Store.antt =====
-- The wallet file: a wallet with a coin that is spent, written and read back.
use kernel_node.Prelude.{
  ℕ, ◌^◌, ◌≡◌, refl, ap, Option, none, some, List, ◌∷◌, arith, ℕ_discrete, replicate, nat_eq, [],
}
use kernel_node.Prelude.Bytes.{
  to_le_bytes, from_le_bytes, length-to_le_bytes, from_le_bytes-to_le_bytes,
}
use kernel_node.Prelude.Reader.{ok, err}
use kernel_node.Prelude.HashMap
use kernel_node.Prelude.Slices
use kernel_node.Wallet.Scanning.{outpoint-discrete, outpoint_eq, Coin}
use kernel_node.Wallet.Coins.{Wallet, regtest, from_parts}
use kernel_node.Wallet.Store
use kernel_node.Wallet.Store.{
  wallet_to_bytes, wallet_from_bytes, load, encode_record, non_p2tr_script,
}
use kernel_node.Wallet.Store.Fields.{HasScalarBytes}
use kernel_node.Wallet.Store.RoundTrip.{AllStorable, wallet_from_bytes-wallet_to_bytes}
use kernel_node.Tests.Wallet.{generous}

abbrev coin : Coin
coin = record {
  value = 50000;
  script_pubkey = replicate 34 81;
  tweak = 1234567;
  label = some 99;
  block_height = 300;
  spent_by = some (record { txid = 2 ^ 200; block_height = 400 });
}

abbrev pub kept : Wallet generous
kept = from_parts generous 400 regtest ((record { txid = 5; vout = 1 }, coin) ∷ [])

abbrev pub scalar_bytes : ℕ → List ℕ
scalar_bytes = to_le_bytes 32

abbrev pub scalar : List ℕ → Option ℕ
scalar bytes = some (from_le_bytes bytes)

abbrev reload : Option (Store.Persisted (List ℕ)) → Option (Store.Persisted (Wallet generous))
reload (some (ok bytes)) = some (wallet_from_bytes scalar_bytes scalar generous bytes)
reload (some (err e)) = some (err e)
reload none = none

store_run : reload (wallet_to_bytes scalar_bytes scalar generous kept) ≡ some (ok kept)
unfolding wallet_to_bytes wallet_from_bytes Store.encode_records Store.decode_records
    Store.encode_record Store.decode_record Store.decode_spent_by Store.decode_label
    Store.decode_network Slices.same_bytes HashMap.insert to_le_bytes from_le_bytes
    outpoint-discrete ℕ_discrete
store_run = refl

short_script_run :
    encode_record scalar_bytes scalar
      (record { txid = 5; vout = 1 })
      (record coin { script_pubkey = 7 ∷ [] })
    ≡ err (non_p2tr_script 1)
unfolding encode_record ℕ_discrete
short_script_run = refl

pub scalar_law : HasScalarBytes (2 ^ 256) scalar_bytes scalar
scalar_law = record {
  of_length = length-to_le_bytes 32;
  from_to = λ t h. ap some (from_le_bytes-to_le_bytes 32 t h);
}

pub kept-AllStorable : AllStorable (2 ^ 256) scalar_bytes scalar scalar_law kept.utxos
kept-AllStorable = (
  record {
    txid = omega arith;
    vout = omega arith;
    value = omega arith;
    script = refl;
    tweak = omega arith;
    label = omega arith;
    block_height = omega arith;
    spent_by = (omega arith, omega arith);
  },
  tt,
)

pub kept-IsTable : HashMap.IsTable kept.utxos
unfolding HashMap.get
kept-IsTable = (refl, tt)

wallet_from_bytes-wallet_to_bytes_example :
    (bytes : List ℕ) × (wallet_to_bytes scalar_bytes scalar generous kept ≡ some (ok bytes))
    × (wallet_from_bytes scalar_bytes scalar generous bytes
        ≡ ok (from_parts generous 400 regtest kept.utxos))
wallet_from_bytes-wallet_to_bytes_example =
    wallet_from_bytes-wallet_to_bytes (2 ^ 256) scalar_bytes scalar scalar_law generous kept
      kept-AllStorable kept-IsTable (omega arith) (omega arith)
