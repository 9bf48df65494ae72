-- ===== src/AddressBook/File/OnDisk.antt =====
-- `AddrTableExt` of src/net/addr.rs, and `flush_peers` of src/net/manager.rs: the address book in its
-- file. The writes of a save are one here, which may fail anywhere within. `none` is a panic.
use kernel_node.Prelude.{
  ℕ, All, ◌^◌, ◌<◌, ◌≡◌, refl, sym, ap, ◌∙◌, ◌≢◌, ◌⊎◌, inl, inr, true, Option, none, some, List,
  ◌∷◌, map, arith, length, Option-cases, nat_eq, [],
}
use kernel_node.Prelude.Reader.{Result, ok, err}
use kernel_node.Prelude.HashMap
use kernel_node.Disk
use kernel_node.Disk.{FilePath, path_eq, FsError, failed, Disk, replace, read, calm, attempt}
use kernel_node.Disk.Replacing.{replace-cases}
use kernel_node.AddressBook.Record.{Hasher, Consensus}
use kernel_node.AddressBook.Table
use kernel_node.AddressBook.Table.{Table}
use kernel_node.AddressBook.Table.Sources.{add_all}
use kernel_node.AddressBook.RoundTrip.{InRange, in_seconds, HasConsensus}
use kernel_node.AddressBook.File
use kernel_node.AddressBook.File.{unordered_records, write_table, read_table}
use kernel_node.AddressBook.File.RoundTrip.{read_table-write_table}
use mathlib.Core.List.{append-nil}

-- "peers.tmp"
abbrev pub peers_tmp : List ℕ
peers_tmp = 112 ∷ 101 ∷ 101 ∷ 114 ∷ 115 ∷ 46 ∷ 116 ∷ 109 ∷ 112 ∷ []

-- `with_file_name("peers.tmp")`
abbrev pub beside : FilePath → FilePath
beside path = record path { file_name = peers_tmp }

unfoldable pub save_table :
    Consensus → Table → FilePath → Disk → Option (Result FsError (Unit {0}) × Disk)
unfolding replace
save_table 𝓒 table path d = elim (write_table 𝓒 table) [
  | none ↦ none
  | some bytes ↦ some (replace (beside path) path bytes d)
]

-- `flush_peers`: a failure is logged only.
unfoldable pub flush_peers : Consensus → Table → FilePath → Disk → Option Disk
unfolding save_table
flush_peers 𝓒 table path d = elim (save_table 𝓒 table path d) [
  | none ↦ none
  | some (r, d') ↦ some d'
]

module _ (𝓒 : Consensus) (𝓗 : Hasher) (B S W : ℕ) where
  unfoldable pub load : FilePath → Disk → Table × Disk
  unfolding read
  load path d =
      let (found, d') = read path d in
      elim found [
        | ok bytes ↦ (File.load 𝓒 𝓗 B S W (some bytes), d')
        | err e ↦ (File.load 𝓒 𝓗 B S W none, d')
      ]

  abbrev loaded : Option Disk.File → Table
  loaded none = File.load 𝓒 𝓗 B S W none
  loaded (some file) = File.load 𝓒 𝓗 B S W (some file.content)

  load-loaded :
      (path : FilePath) (d : Disk) → (load path (calm d)).0 ≡ loaded (HashMap.get path d.files)
  unfolding load read attempt
  load-loaded path d = elim (Option-cases (HashMap.get path d.files)) [
    | inl missing ↦ ground (arith, missing)
    | inr (file, there) ↦ ground (arith, there)
  ]

  load-ok :
      (bytes rest : List ℕ) (table : Table)
      → read_table 𝓒 𝓗 B S W bytes ≡ ok (table, rest)
      → File.load 𝓒 𝓗 B S W (some bytes) ≡ table
  unfolding File.load
  load-ok bytes rest table e = ground (arith, e)

  module _ (law : HasConsensus 𝓒) where
    -- After a save of the address book, whatever fails on the way: the node that starts next has the
    -- records that could be written, their times cut to seconds, added one after the other; or the
    -- save reports an error, and the node has what it would have had before. The fields of the records
    -- are in their ranges, their number in 64 bits, and the file is not the one that is written beside
    -- it.
    pub save_table-Kept :
        (table : Table) (path : FilePath) (d : Disk)
        → All InRange (unordered_records table)
        → length (unordered_records table) < 2 ^ 64
        → path.file_name ≢ peers_tmp
        → (r : Result FsError (Unit {0})) × (d' : Disk) × (save_table 𝓒 table path d ≡ some (r, d'))
          × (((r ≡ ok tt)
                × ((load path (calm d')).0
                    ≡ add_all 𝓗 B S W
                        (Table.new 𝓗 B S W)
                        (map in_seconds (unordered_records table))))
              ⊎ ((r ≡ err failed) × ((load path (calm d')).0 ≡ (load path (calm d)).0)))
    unfolding save_table
    save_table-Kept table path d fits counted apart =
        let (bytes, written, back) = read_table-write_table 𝓒 𝓗 B S W law table [] fits counted in
        let elsewhere : path ≢ beside path = λ q. apart (ap (λ (p : FilePath). p.file_name) q) in
        elim (replace-cases (beside path) path bytes d (λ q. elsewhere (sym q))) [
          | inl (d', e, replaced) ↦
              let placed : HashMap.get path d'.files
                  ≡ some (record { content = bytes; synced = true }) =
                ground (arith, replaced path elsewhere) in
              (
                ok tt,
                d',
                ground (arith, written, e),
                inl (
                  refl,
                  load-loaded path d'
                      ∙ ap loaded placed
                      ∙ load-ok bytes [] _ (rw (append-nil bytes) at back),
                ),
              )
          | inr (d', e, unchanged) ↦ (
            err failed,
            d',
            ground (arith, written, e),
            inr (
              refl,
              load-loaded path d' ∙ ap loaded (unchanged path elsewhere) ∙ sym (load-loaded path d),
            ),
          )
        ]
