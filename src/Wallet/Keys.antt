-- ===== src/Wallet/Keys.antt =====
-- The wallet's keys: `SilentPaymentKeysFile` of crates/wallet/src/silentpayments/keys_file.rs, and the
-- import of keys of wallet.rs and mod.rs beside it. Keys and what is computed from them are
-- secp256k1's and silentpayments', and are parameters.

pub mod RoundTrip
use kernel_node.Prelude.{
  ℕ, ◌+◌, Bool, not, Option, none, some, List, ◌∷◌, ◌++◌, length, take, drop, if◌then◌else◌, ◌==◌,
  nat_eq, [],
}
use kernel_node.Prelude.Slices.{slice, byte_at}
use kernel_node.Prelude.Reader.{Result, ok, err}
use kernel_node.Wallet.Scanning.{SilentPayments}
use kernel_node.Wallet.Coins.{Wallet, Network, SilentPaymentKeys}

-- "SPKF"
abbrev pub magic : List ℕ
magic = 83 ∷ 80 ∷ 75 ∷ 70 ∷ []

abbrev pub key_len : ℕ
key_len = 32

abbrev pub tag_len : ℕ
tag_len = 1

abbrev pub file_len : ℕ
file_len = 4 + key_len + tag_len + key_len

-- What the crates provide of keys; `x_only_public_key` tells whether the point's y is odd.
pub record KeyMaking (𝓢 : SilentPayments) : Type 1 where
  pub XOnlyPublicKey : Type 0
  pub Code : Type 0
  pub ReceiverError : Type 0
  pub KeyError : Type 0
  pub secret_bytes : 𝓢.SecretKey → List ℕ
  pub secret_from_slice : List ℕ → Result KeyError 𝓢.SecretKey
  pub xonly_bytes : XOnlyPublicKey → List ℕ
  pub xonly_from_slice : List ℕ → Result KeyError XOnlyPublicKey
  pub x_only_public_key : 𝓢.SecretKey → XOnlyPublicKey × Bool
  pub even_key : XOnlyPublicKey → 𝓢.PublicKey
  pub negate : 𝓢.SecretKey → 𝓢.SecretKey
  pub public_key : 𝓢.SecretKey → 𝓢.PublicKey
  pub label : 𝓢.SecretKey → ℕ → 𝓢.Label
  pub receiver : 𝓢.PublicKey → 𝓢.PublicKey → 𝓢.Label → Network → Result ReceiverError 𝓢.Receiver
  pub receiving_code : 𝓢.Receiver → Code
  pub change_code : 𝓢.Receiver → Code
  pub show_code : Code → List ℕ

unfoldable pub strip_prefix : List ℕ → List ℕ → Option (List ℕ)
strip_prefix [] bytes = some bytes
strip_prefix (p ∷ ps) [] = none
strip_prefix (p ∷ ps) (b ∷ bytes) =
    let rest = strip_prefix ps bytes in if p == b then rest else none

module _ (𝓢 : SilentPayments) (𝓚 : KeyMaking 𝓢) where
  pub data SpendKey : Type 0 where
    secret : 𝓢.SecretKey → SpendKey
    xonly_public : 𝓚.XOnlyPublicKey → SpendKey

  pub record SilentPaymentKeysFile : Type 0 where
    pub scan_key : 𝓢.SecretKey
    pub spend_key : SpendKey

  -- The errors of reading the file itself are the file system's.
  pub data KeysFileError : Type 0 where
    bad_magic : KeysFileError
    wrong_length : ℕ → ℕ → KeysFileError
    unknown_spend_tag : ℕ → KeysFileError
    invalid_key : 𝓚.KeyError → KeysFileError

  unfoldable pub xonly : SpendKey → 𝓚.XOnlyPublicKey
  xonly (secret sk) = (𝓚.x_only_public_key sk).0
  xonly (xonly_public pk) = pk

  unfoldable pub spend_xonly : SilentPaymentKeysFile → 𝓚.XOnlyPublicKey
  spend_xonly file = xonly file.spend_key

  abbrev pub spend_tag : SpendKey → ℕ
  spend_tag (secret sk) = 0
  spend_tag (xonly_public pk) = 1

  abbrev pub spend_bytes : SpendKey → List ℕ
  spend_bytes (secret sk) = 𝓚.secret_bytes sk
  spend_bytes (xonly_public pk) = 𝓚.xonly_bytes pk

  unfoldable pub to_bytes : SilentPaymentKeysFile → List ℕ
  to_bytes file =
      magic
      ++ (𝓚.secret_bytes file.scan_key
          ++ ((spend_tag file.spend_key ∷ []) ++ spend_bytes file.spend_key))

  abbrev pub invalid {ℓ} : {A : Type ℓ} → Result 𝓚.KeyError A → Result KeysFileError A
  invalid (ok a) = ok a
  invalid (err e) = err (invalid_key e)

  unfoldable pub decode_spend_key : ℕ → List ℕ → Result KeysFileError SpendKey
  decode_spend_key tag bytes =
      if tag == 0
      then (elim (𝓚.secret_from_slice bytes) [
        | ok sk ↦ ok (secret sk)
        | err e ↦ err (invalid_key e)
      ])
      else if tag == 1
      then (elim (𝓚.xonly_from_slice bytes) [
        | ok pk ↦ ok (xonly_public pk)
        | err e ↦ err (invalid_key e)
      ])
      else err (unknown_spend_tag tag)

  unfoldable pub from_bytes : List ℕ → Result KeysFileError SilentPaymentKeysFile
  from_bytes bytes =
      if not (length bytes == file_len)
      then err (wrong_length file_len (length bytes))
      else (elim (strip_prefix magic bytes) [
        | none ↦ err bad_magic
        | some body ↦ elim (𝓚.secret_from_slice (take key_len body)) [
          | err e ↦ err (invalid_key e)
          | ok scan_key ↦
              elim (decode_spend_key (byte_at key_len body) (drop (key_len + tag_len) body)) [
                | err e ↦ err e
                | ok spend_key ↦ ok (record { scan_key = scan_key; spend_key = spend_key })
              ]
        ]
      ])

  unfoldable pub build_receiver :
      𝓢.SecretKey → 𝓢.PublicKey → Network → Result 𝓚.ReceiverError 𝓢.Receiver
  build_receiver b_scan b_spend_pub network =
      𝓚.receiver (𝓚.public_key b_scan) b_spend_pub (𝓚.label b_scan 0) network

  unfoldable pub import_keys :
      𝓢.SecretKey → 𝓚.XOnlyPublicKey → Wallet 𝓢 → Result 𝓚.ReceiverError (Wallet 𝓢)
  import_keys scan_key spend_xonly w =
      let spend_pub = 𝓚.even_key spend_xonly in
      elim (build_receiver scan_key spend_pub w.network) [
        | err e ↦ err e
        | ok receiver ↦ ok (record w {
          spend_key = some spend_pub;
          keys = some (record { receiver = receiver; scan_key = scan_key });
        })
      ]

  unfoldable pub import_signing_keys :
      𝓢.SecretKey → 𝓢.SecretKey → Wallet 𝓢 → Result 𝓚.ReceiverError (Wallet 𝓢)
  import_signing_keys scan_key spend_secret w =
      let (spend_xonly, odd) = 𝓚.x_only_public_key spend_secret in
      let normalized = if odd then 𝓚.negate spend_secret else spend_secret in
      elim (import_keys scan_key spend_xonly w) [
        | err e ↦ err e
        | ok imported ↦ ok (record imported { spend_secret = some normalized })
      ]

  unfoldable pub receive_address : Wallet 𝓢 → Option (List ℕ)
  receive_address w = elim w.keys [
    | none ↦ none
    | some k ↦ some (𝓚.show_code (𝓚.receiving_code k.receiver))
  ]
