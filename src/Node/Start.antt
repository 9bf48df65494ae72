-- ===== src/Node/Start.antt =====
-- src/bin/node.rs: what `main` makes of its configuration and of the files, before the threads run.
-- The reading of an address is the standard library's, and a parameter.
pub mod Connect
pub mod Restart
use kernel_node.Prelude.{ℕ, Option, none, some, List, ◌∷◌, ◌++◌, arith, if◌then◌else◌, nat_eq, []}
use kernel_node.Prelude.Reader.{Result, ok, err}
use kernel_node.Prelude.Text.{trim, split}
use kernel_node.Disk.{FilePath, Disk, Io, exists}
use kernel_node.Wallet.Scanning.{SilentPayments}
use kernel_node.Wallet.Coins
use kernel_node.Wallet.Coins.{Wallet}
use kernel_node.Wallet.Keys.{
  KeyMaking, SilentPaymentKeysFile, secret, xonly_public, import_keys, import_signing_keys,
}
use kernel_node.Wallet.Files.{WalletStore, StoreError, load, load_keys}

unfoldable pub join_connect : List ℕ → List ℕ → List ℕ
join_connect peers next = peers ++ b',' ∷ next

module _ {SocketAddr : Type 0} (parse : List ℕ → Option SocketAddr) where
  -- `collect`: the first address that cannot be read is the error.
  unfoldable pub parse_all : List (List ℕ) → Result (List ℕ) (List SocketAddr)
  unfolding trim
  parse_all [] = ok []
  parse_all (text ∷ texts) =
      let rest = parse_all texts in
      elim (parse (trim text)) [
        | none ↦ err text
        | some addr ↦ elim rest [ err e ↦ err e | ok addrs ↦ ok (addr ∷ addrs) ]
      ]

  unfoldable pub parse_connect : Option (List ℕ) → Result (List ℕ) (List SocketAddr)
  unfolding parse_all split
  parse_connect none = ok []
  parse_connect (some text) = let (first, more) = split b',' text in parse_all (first ∷ more)

module _ (𝓢 : SilentPayments) (to_be_bytes : ℕ → List ℕ) (from_be_bytes : List ℕ → Option ℕ) where
  -- The wallet that the node starts with; after an error it exits.
  unfoldable pub initial_wallet : WalletStore → Io StoreError (Wallet 𝓢)
  unfolding exists load
  initial_wallet store d =
      if exists store.path d
      then load 𝓢 to_be_bytes from_be_bytes store d
      else (ok (Coins.new 𝓢 store.network), d)

-- The keys of a file are imported, or the node panics.
unfoldable pub auto_import_keys :
    (𝓢 : SilentPayments) (𝓚 : KeyMaking 𝓢) → FilePath → Wallet 𝓢 → Disk → Option (Wallet 𝓢 × Disk)
unfolding load_keys import_keys import_signing_keys
auto_import_keys 𝓢 𝓚 path w d =
    let (loaded, d') = load_keys 𝓢 𝓚 path d in
    elim loaded [
      | err e ↦ none
      | ok file ↦
          let imported : Result 𝓚.ReceiverError (Wallet 𝓢) = elim file.spend_key [
            | secret spend_secret ↦ import_signing_keys 𝓢 𝓚 file.scan_key spend_secret w
            | xonly_public spend_xonly ↦ import_keys 𝓢 𝓚 file.scan_key spend_xonly w
          ] in
          elim imported [ err e ↦ none | ok w' ↦ some (w', d') ]
    ]
