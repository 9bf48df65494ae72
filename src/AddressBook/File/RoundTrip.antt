-- ===== src/AddressBook/File/RoundTrip.antt =====
-- crates/address-book/src/io.rs: the address book read back from its file.
use kernel_node.Prelude.{
  ℕ, All, ◌^◌, ◌<◌, ◌≡◌, refl, sym, ◌∙◌, inl, inr, true, none, some, List, ◌∷◌, ◌++◌, map, length,
  Bool-cases, nat_eq, [],
}
use kernel_node.Prelude.Bytes.{to_le_bytes, length-to_le_bytes, from_le_bytes-to_le_bytes}
use kernel_node.Prelude.Slices.{same_bytes_self}
use kernel_node.Prelude.Reader.{ok, step, step_read}
use kernel_node.AddressBook.Record.{Record, Hasher, Consensus, is_serializable}
use kernel_node.AddressBook.RoundTrip.{HasConsensus, InRange, in_seconds, deserialize-serialize}
use kernel_node.AddressBook.Table
use kernel_node.AddressBook.Table.{Table, Bucket, add}
use kernel_node.AddressBook.Table.Sources.{add_all}
use kernel_node.AddressBook.File.{
  magic, bucket_records, unordered_records, write_records, write_table, read_records, read_content,
  read_table,
}
use mathlib.Core.List.{append_assoc}

abbrev IsSerializable : Record → Type 0
IsSerializable r = is_serializable r ≡ true

bucket_records-Serializable : (bucket : Bucket) → All IsSerializable (bucket_records bucket)
unfolding bucket_records
bucket_records-Serializable [] = tt
bucket_records-Serializable (none ∷ slots) = bucket_records-Serializable slots
bucket_records-Serializable (some r ∷ slots) = elim (Bool-cases (is_serializable r)) [
  | inl known ↦ rw (known, bucket_records) (known, bucket_records-Serializable slots)
  | inr unknown ↦ rw (unknown, bucket_records) (bucket_records-Serializable slots)
]

pub All-append :
    (P : Record → Type 0) (xs ys : List Record) → All P xs → All P ys → All P (xs ++ ys)
All-append P [] ys h k = k
All-append P (x ∷ xs) ys (p, h) k = (p, All-append P xs ys h k)

unordered_records-Serializable : (table : Table) → All IsSerializable (unordered_records table)
unfolding unordered_records
unordered_records-Serializable [] = tt
unordered_records-Serializable (bucket ∷ buckets) =
    All-append IsSerializable (bucket_records bucket) (unordered_records buckets)
      (bucket_records-Serializable bucket) (unordered_records-Serializable buckets)

module _ (𝓒 : Consensus) (𝓗 : Hasher) (B S W : ℕ) (law : HasConsensus 𝓒) where
  read_records-write_records :
      (records : List Record) (table : Table) (rest : List ℕ)
      → All IsSerializable records
      → All InRange records
      → (bytes : List ℕ) × (write_records 𝓒 records ≡ some bytes)
        × (read_records 𝓒 𝓗 B S W (length records) table (bytes ++ rest)
            ≡ ok (add_all 𝓗 B S W table (map in_seconds records), rest))
  unfolding write_records read_records add_all
  read_records-write_records [] table rest known fits = ([], refl, refl)
  read_records-write_records (r ∷ records) table rest (k, known) (f, fits) =
      let (more, written, read) =
        read_records-write_records records (add 𝓗 B S W table (in_seconds r)).1 rest known fits in
      let (bytes, one, back) = deserialize-serialize 𝓒 law r (more ++ rest) k f in
      (
        bytes ++ more,
        rw (one, written, write_records) refl,
        rw (append_assoc bytes more rest) (
            step (λ entry. read_records 𝓒 𝓗 B S W (length records) (add 𝓗 B S W table entry).1) back
            ∙ read),
      )

  -- An address book is written, and is read back as the table to which the records that can be
  -- written, their times cut to seconds, are added one after the other. Their fields are in their
  -- ranges, and the number of records in 64 bits.
  pub read_table-write_table :
      (table : Table) (rest : List ℕ)
      → All InRange (unordered_records table)
      → length (unordered_records table) < 2 ^ 64
      → (bytes : List ℕ) × (write_table 𝓒 table ≡ some bytes)
        × (read_table 𝓒 𝓗 B S W (bytes ++ rest)
            ≡ ok (
              add_all 𝓗 B S W (Table.new 𝓗 B S W) (map in_seconds (unordered_records table)),
              rest,
            ))
  unfolding write_table read_table read_content
  read_table-write_table table rest fits counted =
      let records = unordered_records table in
      let (bytes, written, read) =
        read_records-write_records records (Table.new 𝓗 B S W) rest
          (unordered_records-Serializable table) fits in
      let size = to_le_bytes 8 (length records) in
      let split : size ++ (bytes ++ rest) ≡ (size ++ bytes) ++ rest =
        sym (append_assoc size bytes rest) in
      (
        magic ++ (size ++ bytes),
        rw (written, write_table) refl,
        step_read _ 4 magic ((size ++ bytes) ++ rest) refl
            ∙ rw (same_bytes_self magic, sym split)
                (step_read _ 8 size (bytes ++ rest) (length-to_le_bytes 8 (length records))
                  ∙ rw (from_le_bytes-to_le_bytes 8 (length records) counted) read),
      )
