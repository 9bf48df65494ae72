-- ===== src/AddressBook/File.antt =====
-- crates/address-book/src/io.rs: the file of the address book, and what src/net/addr.rs makes of one
-- that cannot be read. `none` is a panic; a write to the disk that fails is the file system's affair.
pub mod RoundTrip
pub mod OnDisk
pub mod Sound
pub mod Written
pub mod Restored
use kernel_node.Prelude.{
  ℕ, zero, suc, Option, none, some, List, ◌∷◌, ◌++◌, length, if◌then◌else◌, nat_eq, [],
}
use kernel_node.Prelude.Bytes.{to_le_bytes, from_le_bytes}
use kernel_node.Prelude.Slices.{same_bytes}
use kernel_node.Prelude.Reader
use kernel_node.Prelude.Reader.{
  Result, ok, err, Reader, ◌>>=◌, pure, fail, read_exact, invalid_data, IoError, then_read,
}
use kernel_node.AddressBook.Record.{
  Record, Hasher, Consensus, is_serializable, serialize, deserialize,
}
use kernel_node.AddressBook.Table
use kernel_node.AddressBook.Table.{Table, Bucket, add}

-- "ADBK"
abbrev pub magic : List ℕ
magic = 65 ∷ 68 ∷ 66 ∷ 75 ∷ []

-- The records of a bucket that can be written.
unfoldable pub bucket_records : Bucket → List Record
bucket_records [] = []
bucket_records (none ∷ slots) = bucket_records slots
bucket_records (some r ∷ slots) =
    let rest = bucket_records slots in if is_serializable r then r ∷ rest else rest

unfoldable pub unordered_records : Table → List Record
unordered_records [] = []
unordered_records (bucket ∷ buckets) = bucket_records bucket ++ unordered_records buckets

module _ (𝓒 : Consensus) where
  unfoldable pub write_records : List Record → Option (List ℕ)
  write_records [] = some []
  write_records (r ∷ records) =
      let rest = write_records records in
      elim (serialize 𝓒 r) [
        | none ↦ none
        | some bytes ↦ elim rest [ none ↦ none | some more ↦ some (bytes ++ more) ]
      ]

  -- The number of records is cut to 64 bits.
  unfoldable pub write_table : Table → Option (List ℕ)
  write_table table = elim (write_records (unordered_records table)) [
    | none ↦ none
    | some bytes ↦ some (magic ++ (to_le_bytes 8 (length (unordered_records table)) ++ bytes))
  ]

  module _ (𝓗 : Hasher) (B S W : ℕ) where
    unfoldable pub read_records : ℕ → Table → Reader Table
    read_records zero table = pure table
    read_records (suc size) table = do
      entry ← deserialize 𝓒
      read_records size (add 𝓗 B S W table entry).1

    -- After the magic bytes.
    unfoldable pub read_content : Reader Table
    read_content = do size ← read_exact 8; read_records (from_le_bytes size) (Table.new 𝓗 B S W)

    abbrev pub check_magic : List ℕ → Reader Table
    check_magic found = if same_bytes found magic then read_content else fail invalid_data

    unfoldable pub read_table : Reader Table
    read_table = do found ← read_exact 4; check_magic found

    -- `AddrTableExt::load`, of the bytes of the file, if there is one.
    unfoldable pub load : Option (List ℕ) → Table
    load none = Table.new 𝓗 B S W
    load (some bytes) = elim (read_table bytes) [
      | ok (table, rest) ↦ table
      | err e ↦ Table.new 𝓗 B S W
    ]
