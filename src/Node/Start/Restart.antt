-- ===== src/Node/Start/Restart.antt =====
-- src/bin/node.rs: the wallet that the node starts with after a save of the wallet before.
use kernel_node.Prelude.{
  ℕ, ◌^◌, ◌<◌, ◌≡◌, refl, sym, ap, ◌∙◌, ◌≢◌, ◌⊎◌, inl, inr, true, Option, none, some, List, arith,
  length, length-append, Option-cases, ◌==◌, ==-self, nat_eq,
}
use kernel_node.Prelude.Reader.{Result, ok, err}
use kernel_node.Prelude.HashMap
use kernel_node.Prelude.HashMap.{HashMap, IsTable}
use kernel_node.Disk.{
  FilePath, path_eq, File, Disk, calm, replace, exists, read, attempt, failed, FsError, map_err,
}
use kernel_node.Disk.Replacing.{replace-cases}
use kernel_node.Wallet.Scanning.{outpoint_eq, SilentPayments}
use kernel_node.Wallet.Coins
use kernel_node.Wallet.Coins.{Wallet, Network, mainnet, testnet, regtest, from_parts}
use kernel_node.Wallet.Store
use kernel_node.Wallet.Store.{encode_network, wallet_to_bytes, wallet_from_bytes}
use kernel_node.Wallet.Store.Fields.{HasScalarBytes}
use kernel_node.Wallet.Store.RoundTrip.{AllStorable, wallet_from_bytes-wallet_to_bytes}
use kernel_node.Wallet.Files.{
  WalletStore, StoreError, Persistence, tmp_of, tmp_suffix, save_atomic, save, load, load_bytes,
}
use kernel_node.Node.Start.{initial_wallet}

tmp_of-ne : (path : FilePath) → tmp_of path ≢ path
tmp_of-ne path e = absurd (
    omega
      (arith, ap (λ (p : FilePath). length p.file_name) e, length-append path.file_name tmp_suffix))

module _ (𝓢 : SilentPayments) (to_be_bytes : ℕ → List ℕ) (from_be_bytes : List ℕ → Option ℕ) where
  -- What the node starts with, from what is at the path of its wallet.
  abbrev started : WalletStore → Option File → Result StoreError (Wallet 𝓢)
  started store none = ok (Coins.new 𝓢 store.network)
  started store (some file) = load_bytes 𝓢 to_be_bytes from_be_bytes store file.content

  initial_wallet-started :
      (store : WalletStore) (d : Disk)
      → (initial_wallet 𝓢 to_be_bytes from_be_bytes store (calm d)).0
        ≡ started store (HashMap.get store.path d.files)
  unfolding initial_wallet exists load read attempt
  initial_wallet-started store d = elim (Option-cases (HashMap.get store.path d.files)) [
    | inl missing ↦ ground (arith, missing)
    | inr (file, there) ↦ ground (arith, there)
  ]

  load_bytes-own :
      (store : WalletStore) (bytes : List ℕ) (w : Wallet 𝓢)
      → wallet_from_bytes to_be_bytes from_be_bytes 𝓢 bytes ≡ ok w
      → w.network ≡ store.network
      → load_bytes 𝓢 to_be_bytes from_be_bytes store bytes ≡ ok w
  unfolding Store.load
  load_bytes-own store bytes w e same =
      let matches : (encode_network w.network == encode_network store.network) ≡ true =
        rw same (==-self (encode_network store.network)) in
      ground (arith, e, matches)

  save-bytes :
      (store : WalletStore) (w : Wallet 𝓢) (d d' : Disk) (bytes : List ℕ)
      (r : Result FsError (Unit {0}))
      → wallet_to_bytes to_be_bytes from_be_bytes 𝓢 w ≡ some (ok bytes)
      → replace (tmp_of store.path) store.path bytes d ≡ (r, d')
      → save 𝓢 to_be_bytes from_be_bytes store w d ≡ some (map_err inr (r, d'))
  unfolding save save_atomic
  save-bytes store w d d' bytes r written e = ground (arith, written, e)

  -- After a save of the wallet, whatever fails on the way: the node that starts next has the wallet
  -- as it was saved, all but its keys and reservations; or the save reports an error, and the node
  -- starts as it would have before. The wallet is fit to be written, and of the network of its store.
  pub save-Kept :
      (order : ℕ) (law : HasScalarBytes order to_be_bytes from_be_bytes) (store : WalletStore)
      (w : Wallet 𝓢) (d : Disk)
      → AllStorable order to_be_bytes from_be_bytes law w.utxos
      → IsTable w.utxos
      → w.scan_height < 2 ^ 32
      → length w.utxos < 2 ^ 32
      → w.network ≡ store.network
      → (r : Result Persistence (Unit {0})) × (d' : Disk) × (save 𝓢 to_be_bytes from_be_bytes store
            w d
          ≡ some (r, d'))
        × (((r ≡ ok tt)
              × ((initial_wallet 𝓢 to_be_bytes from_be_bytes store (calm d')).0
                  ≡ ok (from_parts 𝓢 w.scan_height w.network w.utxos)))
            ⊎ ((e : Persistence) × (r ≡ err e)
                × ((initial_wallet 𝓢 to_be_bytes from_be_bytes store (calm d')).0
                    ≡ (initial_wallet 𝓢 to_be_bytes from_be_bytes store (calm d)).0)))
  save-Kept order law store w d fits table height count same =
      let (bytes, written, read_back) =
        wallet_from_bytes-wallet_to_bytes order to_be_bytes from_be_bytes law 𝓢 w fits table height
          count in
      let elsewhere : store.path ≢ tmp_of store.path = λ q. tmp_of-ne store.path (sym q) in
      elim (replace-cases (tmp_of store.path) store.path bytes d (tmp_of-ne store.path)) [
        | inl (d', e, replaced) ↦
            let placed : HashMap.get store.path d'.files
                ≡ some (record { content = bytes; synced = true }) =
              ground (arith, replaced store.path elsewhere) in
            (
              ok tt,
              d',
              save-bytes store w d d' bytes (ok tt) written e,
              inl (
                refl,
                initial_wallet-started store d'
                    ∙ ap (started store) placed
                    ∙ load_bytes-own store bytes (from_parts 𝓢 w.scan_height w.network w.utxos)
                        read_back same,
              ),
            )
        | inr (d', e, unchanged) ↦ (
          err (inr failed),
          d',
          save-bytes store w d d' bytes (err failed) written e,
          inr (
            inr failed,
            refl,
            initial_wallet-started store d'
                ∙ ap (started store) (unchanged store.path elsewhere)
                ∙ sym (initial_wallet-started store d),
          ),
        )
      ]
