-- ===== src/AddressBook/Table.antt =====
-- `Table` and `Bucket` of crates/address-book/src/lib.rs: `B` buckets of `S` slots. An index out of
-- range, which is a panic of the source, reads an empty slot here. The clock and the hashes of the
-- time, which pick at random, are arguments.
pub mod Sources
pub mod Selection
pub mod Writes
pub mod Places
pub mod Lasting
pub mod Counting
use kernel_node.Prelude.{
  ℕ, zero, suc, ◌+◌, ◌-◌, ◌*◌, ◌/◌, ◌%◌, min, Bool, true, false, Option, none, some, List, ◌∷◌,
  get_elem?, set, replicate, ltb, if◌then◌else◌, ◌==◌, nat_eq, [],
}
use kernel_node.Prelude.Bytes.{from_le_bytes}
use kernel_node.AddressBook.Record.{Record, Hasher, destination_id, one_minute}

abbrev pub Bucket : Type 0
Bucket = List (Option Record)

abbrev pub Table : Type 0
Table = List Bucket

abbrev slot_of : Option (Option Record) → Option Record
slot_of (some slot) = slot
slot_of none = none

-- `self.records[index]`
unfoldable pub slot_at : Bucket → ℕ → Option Record
slot_at bucket index = slot_of (get_elem? bucket index)

-- `self.buckets[index]`
unfoldable pub bucket_at : Table → ℕ → Bucket
bucket_at table index = elim (get_elem? table index) [ some bucket ↦ bucket | none ↦ [] ]

unfoldable pub is_bucket_empty : Bucket → Bool
is_bucket_empty [] = true
is_bucket_empty (none ∷ slots) = is_bucket_empty slots
is_bucket_empty (some r ∷ slots) = false

-- `records.iter().flatten().next()`
unfoldable pub first_record : Bucket → Option Record
first_record [] = none
first_record (none ∷ slots) = first_record slots
first_record (some r ∷ slots) = some r

unfoldable pub is_empty : Table → Bool
is_empty [] = true
is_empty (bucket ∷ buckets) = if is_bucket_empty bucket then is_empty buckets else false

-- How a loop over the slots or the buckets ends. `exhausted` is the fuel's end.
pub data Search : Type 0 where
  found : Record → Search
  ended exhausted : Search

-- The entry may be tried: it never was, or not within the last minute.
abbrev pub is_due : ℕ → Record → Bool
is_due now r = elim r.last_attempt [ none ↦ true | some last ↦ ltb one_minute (now - last) ]

-- What a connection to the peer of `r` does to the entry in its slot.
abbrev pub succeeded : ℕ → ℕ → ℕ → Record → Record
succeeded services attempt connection r = record r {
  last_attempt = some attempt;
  last_connection = some connection;
  failed_attempts = 0;
  services = services;
}

abbrev pub failed : ℕ → Record → Record
failed attempt r = record r {
  last_attempt = some attempt;
  failed_attempts = min 255 (r.failed_attempts + 1);
}

module _ (𝓗 : Hasher) (B S W : ℕ) where
  unfoldable pub derive_bucket : Record → ℕ
  derive_bucket r =
      let salt = from_le_bytes r.source % W in
      let range = salt * (B / W) % B in
      let index = from_le_bytes (destination_id 𝓗 r.addr) % W in (range + index) % B

  unfoldable pub derive_slot : Record → ℕ
  derive_slot r = 𝓗.destination (destination_id 𝓗 r.addr) % S

  abbrev pub new : Table
  new = replicate B (replicate S none)

  unfoldable pub add_to_bucket : Bucket → Record → Option Record × Bucket
  add_to_bucket bucket r = elim (slot_at bucket (derive_slot r)) [
    | some occupied ↦ (some occupied, bucket)
    | none ↦ (none, set bucket (derive_slot r) (some r))
  ]

  -- The entry in the slot of `r`, whichever it is, is changed by `f`.
  unfoldable pub change_slot : (Record → Record) → Bucket → Record → Bucket
  change_slot f bucket r = elim (slot_at bucket (derive_slot r)) [
    | some occupied ↦ set bucket (derive_slot r) (some (f occupied))
    | none ↦ bucket
  ]

  unfoldable pub add : Table → Record → Option Record × Table
  add table r =
      let (conflict, bucket) = add_to_bucket (bucket_at table (derive_bucket r)) r in
      (conflict, set table (derive_bucket r) bucket)

  unfoldable pub remove : Table → Record → Table
  remove table r =
      set table (derive_bucket r) (set (bucket_at table (derive_bucket r)) (derive_slot r) none)

  unfoldable pub successful_connection : Table → Record → ℕ → ℕ → Table
  successful_connection table r attempt connection =
      set table (derive_bucket r) (
        change_slot (succeeded r.services attempt connection) (bucket_at table (derive_bucket r)) r)

  unfoldable pub failed_connection : Table → Record → ℕ → Table
  failed_connection table r attempt =
      set table (derive_bucket r)
        (change_slot (failed attempt) (bucket_at table (derive_bucket r)) r)

  -- `while tmp.ne(&slot_index)`
  unfoldable pub slot_loop : ℕ → Bucket → ℕ → ℕ → ℕ → Search
  slot_loop zero bucket now slot_index tmp = exhausted
  slot_loop (suc fuel) bucket now slot_index tmp =
      let rest = slot_loop fuel bucket now slot_index ((tmp + 1) % S) in
      if tmp == slot_index then ended else (elim (slot_at bucket (tmp % S)) [
        | none ↦ rest
        | some r ↦ if is_due now r then found r else rest
      ])

  -- `slot_hash` is the hash of the time; a round of the loop looks at one slot.
  unfoldable pub random_from_bucket : Bucket → ℕ → ℕ → Option Record
  random_from_bucket bucket slot_hash now =
      let slot_index = slot_hash % S in
      if is_bucket_empty bucket
      then none
      else (elim (slot_loop S bucket now slot_index ((slot_index + 1) % S)) [
        | found r ↦ some r
        | ended ↦ elim (slot_at bucket slot_index) [ some r ↦ some r | none ↦ first_record bucket ]
        | exhausted ↦ none
      ])

  -- `while tmp.ne(&bucket_index)`. Each bucket is looked into once, so the answers of the clock are
  -- functions of its index.
  unfoldable pub bucket_loop : ℕ → Table → (slot_hash now : ℕ → ℕ) → (bucket_index tmp : ℕ) → Search
  bucket_loop zero table slot_hash now bucket_index tmp = exhausted
  bucket_loop (suc fuel) table slot_hash now bucket_index tmp =
      let rest = bucket_loop fuel table slot_hash now bucket_index ((tmp + 1) % B) in
      if tmp == bucket_index
      then ended
      else (elim (random_from_bucket (bucket_at table tmp) (slot_hash tmp) (now tmp)) [
        | some r ↦ found r
        | none ↦ rest
      ])

  unfoldable pub select : Table → ℕ → (slot_hash now : ℕ → ℕ) → Option Record
  select table bucket_hash slot_hash now =
      let bucket_index = bucket_hash % B in
      if is_empty table
      then none
      else if is_bucket_empty (bucket_at table bucket_index)
      then (elim (bucket_loop B table slot_hash now bucket_index ((bucket_index + 1) % B)) [
        | found r ↦ some r
        | ended ↦ none
        | exhausted ↦ none
      ])
      else random_from_bucket (bucket_at table bucket_index) (slot_hash bucket_index)
          (now bucket_index)
