-- ===== src/Wallet/Files.antt =====
-- The files of the wallet: `WalletStore` and `save_atomic` of wallet_store.rs, and the saving and
-- loading of keys of keys_file.rs, both in crates/wallet/src/silentpayments. `none` is a panic.
pub mod Keeping
use kernel_node.Prelude.{ℕ, ◌⊎◌, inl, inr, Option, none, some, List, ◌∷◌, ◌++◌, arith, nat_eq, []}
use kernel_node.Prelude.Reader.{Result, ok, err}
use kernel_node.Disk.{
  FilePath, FsError, Disk, Io, map_err, replace, exists, read, create_new, write_all, then_io,
  ◌>>=◌,
}
use kernel_node.Wallet.Scanning.{SilentPayments}
use kernel_node.Wallet.Coins.{Wallet, Network}
use kernel_node.Wallet.Store
use kernel_node.Wallet.Store.{WalletPersistenceError, wallet_to_bytes}
use kernel_node.Wallet.Keys.{KeyMaking, SilentPaymentKeysFile, KeysFileError, to_bytes, from_bytes}

-- ".tmp"
abbrev pub tmp_suffix : List ℕ
tmp_suffix = 46 ∷ 116 ∷ 109 ∷ 112 ∷ []

abbrev pub tmp_of : FilePath → FilePath
tmp_of path = record path { file_name = path.file_name ++ tmp_suffix }

unfoldable pub save_atomic : FilePath → List ℕ → Io FsError (Unit {0})
unfolding replace
save_atomic path bytes = replace (tmp_of path) path bytes

pub record WalletStore : Type 0 where
  pub path : FilePath
  pub network : Network

-- `WalletPersistenceError`, with the errors of the file system.
abbrev pub Persistence : Type 0
Persistence = WalletPersistenceError ⊎ FsError

-- `WalletStoreError`
pub data StoreError : Type 0 where
  persistence : Persistence → StoreError
  network_mismatch : Network → Network → StoreError

abbrev pub store_error : (WalletPersistenceError ⊎ (Network × Network)) → StoreError
store_error (inl e) = persistence (inl e)
store_error (inr (file, expected)) = network_mismatch file expected

module _ (𝓢 : SilentPayments) (to_be_bytes : ℕ → List ℕ) (from_be_bytes : List ℕ → Option ℕ) where
  unfoldable pub save :
      WalletStore → Wallet 𝓢 → Disk → Option (Result Persistence (Unit {0}) × Disk)
  unfolding save_atomic
  save store w d = elim (wallet_to_bytes to_be_bytes from_be_bytes 𝓢 w) [
    | none ↦ none
    | some (err e) ↦ some (err (inl e), d)
    | some (ok bytes) ↦ some (map_err inr (save_atomic store.path bytes d))
  ]

  abbrev pub load_bytes : WalletStore → List ℕ → Result StoreError (Wallet 𝓢)
  load_bytes store bytes = elim (Store.load to_be_bytes from_be_bytes 𝓢 store.network bytes) [
    | ok w ↦ ok w
    | err e ↦ err (store_error e)
  ]

  -- `WalletStore::load`
  unfoldable pub load : WalletStore → Io StoreError (Wallet 𝓢)
  unfolding read
  load store d =
      then_io (map_err (λ e. persistence (inr e)) (read store.path d))
        (λ bytes d'. (load_bytes store bytes, d'))

module _ (𝓢 : SilentPayments) (𝓚 : KeyMaking 𝓢) where
  -- `KeysFileError`, with the errors of the file system.
  abbrev pub KeysError : Type 0
  KeysError = KeysFileError 𝓢 𝓚 ⊎ FsError

  -- A file that is there is not written over.
  unfoldable pub save_keys : FilePath → SilentPaymentKeysFile 𝓢 𝓚 → Io FsError (Unit {0})
  unfolding create_new write_all
  save_keys path keys = do _ ← create_new path; write_all path (to_bytes 𝓢 𝓚 keys)

  unfoldable pub load_keys : FilePath → Io KeysError (SilentPaymentKeysFile 𝓢 𝓚)
  unfolding read
  load_keys path d =
      then_io (map_err inr (read path d))
        (λ bytes d'. (elim (from_bytes 𝓢 𝓚 bytes) [ ok keys ↦ ok keys | err e ↦ err (inl e) ], d'))
