-- ===== src/AddressBook/File/Sound.antt =====
-- What crates/address-book/src/io.rs and `load` of src/net/addr.rs make of any file: a table whose
-- records stand at their own places.
use kernel_node.Prelude.{ℕ, zero, suc, ◌<◌, inl, inr, Option, none, some, List, Bool-cases, nat_eq}
use kernel_node.Prelude.Reader.{Result, ok, err, read_exact, Result-cases, IoError}
use kernel_node.Prelude.Slices.{same_bytes}
use kernel_node.Prelude.Bytes.{from_le_bytes}
use kernel_node.AddressBook.Record.{Hasher, Consensus, deserialize}
use kernel_node.AddressBook.Table.{Table, add, new}
use kernel_node.AddressBook.Table.Lasting.{IsSound, new-Sound, add-Carried}
use mathlib.Core.Path.{subst}
use kernel_node.AddressBook.File.{read_records, read_content, read_table, load, magic}

module _ (𝓒 : Consensus) (𝓗 : Hasher) (B S W : ℕ) (hB : 0 < B) (hS : 0 < S) where
  -- If a table is read, it is sound.
  abbrev Reads : Result IoError (Table × List ℕ) → Type 0
  Reads (ok (t, rest)) = IsSound 𝓗 B S W t
  Reads (err e) = Unit

  read_records-Sound :
      (size : ℕ) (t : Table) (bytes : List ℕ)
      → IsSound 𝓗 B S W t
      → Reads (read_records 𝓒 𝓗 B S W size t bytes)
  unfolding read_records
  read_records-Sound zero t bytes sound = sound
  read_records-Sound (suc size) t bytes sound = elim (Result-cases (deserialize 𝓒 bytes)) [
    | inl ((r, rest), e) ↦
        rw (read_records, e)
          (read_records-Sound size (add 𝓗 B S W t r).1 rest
            (add-Carried 𝓗 B S W hB hS t r sound).sound)
    | inr (x, e) ↦ rw (read_records, e) tt
  ]

  read_content-Sound : (bytes : List ℕ) → Reads (read_content 𝓒 𝓗 B S W bytes)
  unfolding read_content
  read_content-Sound bytes = elim (Result-cases (read_exact 8 bytes)) [
    | inl ((size, rest), e) ↦
        rw (read_content, e)
          (read_records-Sound (from_le_bytes size) (new 𝓗 B S W) rest (new-Sound 𝓗 B S W))
    | inr (x, e) ↦ rw (read_content, e) tt
  ]

  read_table-Sound : (bytes : List ℕ) → Reads (read_table 𝓒 𝓗 B S W bytes)
  unfolding read_table
  read_table-Sound bytes = elim (Result-cases (read_exact 4 bytes)) [
    | inl ((found, rest), e) ↦
        rw (read_table, e)
          (elim (Bool-cases (same_bytes found magic)) [
            | inl good ↦ rw good (read_content-Sound rest)
            | inr bad ↦ rw bad tt
          ])
    | inr (x, e) ↦ rw (read_table, e) tt
  ]

  pub load-Sound : (bytes : Option (List ℕ)) → IsSound 𝓗 B S W (load 𝓒 𝓗 B S W bytes)
  unfolding load
  load-Sound none = new-Sound 𝓗 B S W
  load-Sound (some bytes) = elim (Result-cases (read_table 𝓒 𝓗 B S W bytes)) [
    | inl ((t, rest), e) ↦ rw (load, e) (subst Reads e (read_table-Sound bytes))
    | inr (x, e) ↦ rw (load, e) (new-Sound 𝓗 B S W)
  ]
