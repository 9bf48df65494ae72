-- ===== src/Tests/Files.antt =====
-- Runs of the saves to the disk, and of the start of the node.
use kernel_node.Prelude.{
  ℕ, ◌^◌, ◌≡◌, refl, ◌≢◌, ◌⊎◌, true, false, Option, none, some, List, [], ◌∷◌, arith, ℕ_discrete,
  nat_eq,
}
use kernel_node.Prelude.Text.{codes, trim, split}
use kernel_node.Prelude.Text
use kernel_node.AddressBook.Record
use kernel_node.AddressBook.Table.Writes.{record_at}
use kernel_node.AddressBook.Table.Lasting.{IsSound, new-Sound, add_all-Carried}
use kernel_node.AddressBook.File.Restored.{save_table-Restored}
use kernel_node.AddressBook.Table.Sources.{add_all}
use kernel_node.Prelude.Bytes.{from_le_bytes}
use kernel_node.AddressBook.Table.{Table}
use mathlib.Core.Path.{subst}
use kernel_node.Prelude.Reader.{Result, ok, err}
use kernel_node.Prelude.HashMap
use kernel_node.Disk
use kernel_node.Disk.{
  FilePath, path_eq, Disk, FsError, failed, fine, fails_after, calm, replace, already_exists,
}
use kernel_node.Wallet.Coins.{regtest}
use kernel_node.Wallet.Files
use kernel_node.Wallet.Files.{WalletStore, Persistence, save_keys, load_keys, tmp_of}
use kernel_node.Wallet.Files.Keeping.{save_keys-Kept}
use kernel_node.Node.Start
use kernel_node.Node.Start.{initial_wallet, join_connect, parse_connect}
use kernel_node.Node.Start.Restart.{save-Kept}
use kernel_node.AddressBook.Record.{is_serializable}
use kernel_node.AddressBook.Table
use kernel_node.AddressBook.Table.Sources.{add_all}
use kernel_node.AddressBook.RoundTrip.{in_seconds}
use kernel_node.AddressBook.File
use kernel_node.AddressBook.File.{unordered_records}
use kernel_node.AddressBook.File.OnDisk
use kernel_node.AddressBook.File.OnDisk.{save_table, peers_tmp, save_table-Kept}
use kernel_node.Tests.Wallet.{generous}
use kernel_node.Tests.Store.{kept, scalar_bytes, scalar, scalar_law, kept-AllStorable}
use kernel_node.Tests.Send.{toy_keys, toy_keys_law, keys_file}
use kernel_node.Tests.Book.{peer-AddrInRange, peer, hasher, plain, plain-HasConsensus}

abbrev wallet_path : FilePath
wallet_path = record { parent = codes "data"; file_name = codes "wallet.bin" }

abbrev old : Disk.File
old = record { content = 1 ∷ 2 ∷ []; synced = true }

-- A disk that is full once a file has three bytes more.
abbrev full : Disk
full = record { files = (wallet_path, old) ∷ []; verdicts = fine ∷ fails_after 3 ∷ [] }

full_run : replace (tmp_of wallet_path) wallet_path (5 ∷ 6 ∷ 7 ∷ 8 ∷ []) full ≡ (
  err failed,
  record {
    files =
        (wallet_path, old)
        ∷ (tmp_of wallet_path, record { content = 5 ∷ 6 ∷ 7 ∷ []; synced = false })
        ∷ [];
    verdicts = [];
  },
)
unfolding replace Disk.create Disk.write_all Disk.written Disk.attempt HashMap.get HashMap.insert
    Disk.path-discrete ℕ_discrete
full_run = refl

replace_run : replace (tmp_of wallet_path) wallet_path (5 ∷ 6 ∷ []) (calm full) ≡ (
  ok tt,
  record {
    files = (wallet_path, record { content = 5 ∷ 6 ∷ []; synced = true }) ∷ [];
    verdicts = [];
  },
)
unfolding replace Disk.create Disk.write_all Disk.written Disk.sync_data Disk.all_synced Disk.rename
    Disk.renamed Disk.attempt HashMap.get HashMap.insert HashMap.remove Disk.path-discrete
    ℕ_discrete
replace_run = refl

abbrev store : WalletStore
store = record { path = wallet_path; network = regtest }

save-Kept_example :
    (r : Result Persistence (Unit {0})) × (d : Disk) × (Files.save generous scalar_bytes scalar
        store kept full
      ≡ some (r, d))
    × (((r ≡ ok tt) × ((initial_wallet generous scalar_bytes scalar store (calm d)).0 ≡ ok kept))
        ⊎ ((e : Persistence) × (r ≡ err e)
            × ((initial_wallet generous scalar_bytes scalar store (calm d)).0
                ≡ (initial_wallet generous scalar_bytes scalar store (calm full)).0)))
unfolding HashMap.get
save-Kept_example =
    save-Kept generous scalar_bytes scalar (2 ^ 256) scalar_law store kept full kept-AllStorable
      (refl, tt) (omega arith) (omega arith) refl

abbrev keys_path : FilePath
keys_path = record { parent = codes "data"; file_name = codes "keys" }

save_keys-Kept_example :
    (HashMap.get wallet_path (save_keys generous toy_keys keys_path keys_file (calm full)).1.files
      ≡ some old)
    × (((e : FsError) × ((save_keys generous toy_keys keys_path keys_file (calm full)).0 ≡ err e))
        ⊎ (((save_keys generous toy_keys keys_path keys_file (calm full)).0 ≡ ok tt)
            × (HashMap.get keys_path (calm full).files ≡ none)
            × ((load_keys generous toy_keys keys_path
                  (calm (save_keys generous toy_keys keys_path keys_file (calm full)).1)).0
                ≡ ok keys_file)))
unfolding HashMap.get Disk.path-discrete ℕ_discrete
save_keys-Kept_example =
    save_keys-Kept generous toy_keys toy_keys_law keys_path wallet_path old keys_file (calm full)
      refl

abbrev peers_path : FilePath
peers_path = record { parent = codes "data"; file_name = codes "peers.bin" }

peers_path_ne : peers_path.file_name ≢ peers_tmp
peers_path_ne e = ground (arith, e)

-- The peer at its own place.
abbrev home_book : Table
home_book = (none ∷ none ∷ []) ∷ (some peer ∷ none ∷ []) ∷ (none ∷ none ∷ []) ∷ []

home_run : add_all hasher 3 2 2 (Table.new hasher 3 2 2) (peer ∷ []) ≡ home_book
unfolding add_all Table.slot_at Table.bucket_at Table.add Table.derive_bucket from_le_bytes
    Record.destination_id Table.add_to_bucket Table.derive_slot
home_run = refl

home_book-IsSound : IsSound hasher 3 2 2 home_book
home_book-IsSound =
    subst (IsSound hasher 3 2 2) home_run
      (add_all-Carried hasher 3 2 2 (omega arith) (omega arith) (Table.new hasher 3 2 2) (peer ∷ [])
        (new-Sound hasher 3 2 2)).sound

save_table-Restored_example :
    (r : Result FsError (Unit {0})) × (d : Disk) × (save_table plain home_book peers_path full
      ≡ some (r, d))
    × (((r ≡ ok tt)
          × (record_at (OnDisk.load plain hasher 3 2 2 peers_path (calm d)).0 1 0
              ≡ some (in_seconds peer)))
        ⊎ ((r ≡ err failed)
            × ((OnDisk.load plain hasher 3 2 2 peers_path (calm d)).0
                ≡ (OnDisk.load plain hasher 3 2 2 peers_path (calm full)).0)))
unfolding unordered_records File.bucket_records is_serializable Table.slot_at Table.bucket_at
save_table-Restored_example =
    save_table-Restored hasher 3 2 2 plain plain-HasConsensus home_book peers_path full 1 0 peer
      (omega arith) (omega arith) home_book-IsSound
      ((omega arith, refl, omega arith, omega arith, tt, omega arith, peer-AddrInRange), tt)
      (omega arith) peers_path_ne refl refl

abbrev port_of : List ℕ → Option ℕ
port_of (c ∷ []) = some c
port_of text = none

connect_run :
    parse_connect port_of (some (join_connect (codes "1, 2") (codes "3")))
    ≡ ok (b'1' ∷ b'2' ∷ b'3' ∷ [])
unfolding parse_connect join_connect Start.parse_all trim Text.trim_start Text.trim_end split
    ℕ_discrete
connect_run = refl

bad_connect_run : parse_connect port_of (some (codes "1,,2")) ≡ err []
unfolding parse_connect Start.parse_all trim Text.trim_start Text.trim_end split ℕ_discrete
bad_connect_run = refl
