-- ===== src/AddressBook/Table/Places.antt =====
-- The table of crates/address-book/src/lib.rs as what it promises: places that hold a record each,
-- and operations that look at the place of their record alone.
use kernel_node.Prelude.{
  ℕ, ◌<◌, ◌≡◌, refl, sym, ap, ◌∙◌, inl, inr, Bool, true, ◌&&◌, Option, none, some, List, ◌∷◌, arith,
  set, if◌then◌else◌, Bool-cases, Option-cases, ◌==◌, nat_eq, [],
}
use kernel_node.AddressBook.Record.{Record, Hasher}
use native.Mathlib.Nat.{mod-lt}
use kernel_node.AddressBook.Table.{
  successful_connection, failed_connection, Table, bucket_at, add, derive_bucket, succeeded, remove,
  derive_slot, failed, successful_connection, add_to_bucket, failed_connection, change_slot,
}
use kernel_node.AddressBook.Table.Writes.{
  record_at, IsShaped, record_at-written, written-Shaped, record_at-unchanged, unchanged-Shaped,
}

-- What is done to a table: each operation, with the times that it takes from the clock.
pub data Command : Type 0 where
  adds removes : Record → Command
  succeeds : Record → ℕ → ℕ → Command
  fails : Record → ℕ → Command

module _ (𝓗 : Hasher) (B S W : ℕ) where
  unfoldable pub perform : Table → Command → Table
  perform table (adds r) = (add 𝓗 B S W table r).1
  perform table (removes r) = remove 𝓗 B S W table r
  perform table (succeeds r attempt connection) =
      successful_connection 𝓗 B S W table r attempt connection
  perform table (fails r attempt) = failed_connection 𝓗 B S W table r attempt

  unfoldable pub perform_all : Table → List Command → Table
  perform_all table [] = table
  perform_all table (c ∷ commands) = perform_all (perform table c) commands

  abbrev pub is_place_of : Record → ℕ → ℕ → Bool
  is_place_of r b s = b == derive_bucket 𝓗 B S W r && s == derive_slot 𝓗 B S W r

  -- What the operations promise of one place: a record comes into its own place, if that is free, and
  -- never pushes another out; it leaves its place, or the record that stands there changes.
  unfoldable pub promised : ℕ → ℕ → Option Record → Command → Option Record
  promised b s held (adds r) =
      if is_place_of r b s then (elim held [ some o ↦ some o | none ↦ some r ]) else held
  promised b s held (removes r) = if is_place_of r b s then none else held
  promised b s held (succeeds r attempt connection) =
      if is_place_of r b s
      then (elim held [ some o ↦ some (succeeded r.services attempt connection o) | none ↦ none ])
      else held
  promised b s held (fails r attempt) =
      if is_place_of r b s
      then (elim held [ some o ↦ some (failed attempt o) | none ↦ none ])
      else held

  unfoldable pub promised_all : ℕ → ℕ → Option Record → List Command → Option Record
  promised_all b s held [] = held
  promised_all b s held (c ∷ commands) = promised_all b s (promised b s held c) commands

  -- One operation keeps its promise, and the table its shape.
  record Keeps (table after : Table) (b s : ℕ) (c : Command) : Type 0 where
    shape : IsShaped B S after
    place : record_at after b s ≡ promised b s (record_at table b s) c

  derive_bucket-bound : (r : Record) → 0 < B → derive_bucket 𝓗 B S W r < B
  unfolding derive_bucket
  derive_bucket-bound r h = mod-lt _ h

  derive_slot-bound : (r : Record) → 0 < S → derive_slot 𝓗 B S W r < S
  unfolding derive_slot
  derive_slot-bound r h = mod-lt _ h

  module _ (table : Table) (shape : IsShaped B S table) (b s : ℕ) (r : Record)
      (hb : derive_bucket 𝓗 B S W r < B) (hs : derive_slot 𝓗 B S W r < S) where
    at_place :
        is_place_of r b s ≡ true
        → record_at table b s ≡ record_at table (derive_bucket 𝓗 B S W r) (derive_slot 𝓗 B S W r)
    at_place here =
        let e : b ≡ derive_bucket 𝓗 B S W r = ground (arith, here) in
        let f : s ≡ derive_slot 𝓗 B S W r = ground (arith, here) in rw (e, f) refl

    if_written :
        (f : Option Record → Option Record) (v : Option Record)
        → v ≡ f (record_at table (derive_bucket 𝓗 B S W r) (derive_slot 𝓗 B S W r))
        → (if is_place_of r b s then v else record_at table b s)
          ≡ (if is_place_of r b s then f (record_at table b s) else record_at table b s)
    if_written f v e = elim (Bool-cases (is_place_of r b s)) [
      | inl place ↦ rw place (e ∙ ap f (sym (at_place place)))
      | inr away ↦ rw away refl
    ]

    if_unchanged :
        (f : Option Record → Option Record)
        → f (record_at table (derive_bucket 𝓗 B S W r) (derive_slot 𝓗 B S W r))
          ≡ record_at table (derive_bucket 𝓗 B S W r) (derive_slot 𝓗 B S W r)
        → record_at table b s
          ≡ (if is_place_of r b s then f (record_at table b s) else record_at table b s)
    if_unchanged f e = elim (Bool-cases (is_place_of r b s)) [
      | inl place ↦ rw place (at_place place ∙ sym e ∙ ap f (sym (at_place place)))
      | inr away ↦ rw away refl
    ]

    adds-Keeps : Keeps table (add 𝓗 B S W table r).1 b s (adds r)
    unfolding add add_to_bucket promised
    adds-Keeps =
        let db = derive_bucket 𝓗 B S W r in
        let ds = derive_slot 𝓗 B S W r in
        let keep : Option Record → Option Record =
          λ held. elim held [ some o ↦ some o | none ↦ some r ] in
        elim (Option-cases (record_at table db ds)) [
          | inl free ↦
              rw (free, add, add_to_bucket)
                (record {
                  shape = written-Shaped B S table shape db ds (some r) hb;
                  place =
                      record_at-written B S table shape db ds (some r) b s hb hs
                      ∙ if_written keep (some r) (rw free refl);
                })
          | inr (o, taken) ↦
              rw (taken, add, add_to_bucket)
                (record {
                  shape = unchanged-Shaped B S table shape db hb;
                  place =
                      record_at-unchanged B S table shape db b s hb
                      ∙ if_unchanged keep (rw taken refl);
                })
        ]

    removes-Keeps : Keeps table (remove 𝓗 B S W table r) b s (removes r)
    unfolding remove promised
    removes-Keeps = record {
      shape =
          written-Shaped B S table shape (derive_bucket 𝓗 B S W r) (derive_slot 𝓗 B S W r) none hb;
      place =
          record_at-written B S table shape (derive_bucket 𝓗 B S W r) (derive_slot 𝓗 B S W r) none b
            s hb hs;
    }

    abbrev changed : (Record → Record) → Option Record → Option Record
    changed f held = elim held [ some o ↦ some (f o) | none ↦ none ]

    record Changes (f : Record → Record) (after : Table) : Type 0 where
      kept : IsShaped B S after
      place :
          record_at after b s
          ≡ (if is_place_of r b s then changed f (record_at table b s) else record_at table b s)

    change_slot-Changes :
        (f : Record → Record)
        → Changes f (
            set table
              (derive_bucket 𝓗 B S W r)
              (change_slot 𝓗 B S W f (bucket_at table (derive_bucket 𝓗 B S W r)) r))
    unfolding change_slot
    change_slot-Changes f =
        let db = derive_bucket 𝓗 B S W r in
        let ds = derive_slot 𝓗 B S W r in
        elim (Option-cases (record_at table db ds)) [
          | inl free ↦
              rw (free, change_slot)
                (record {
                  kept = unchanged-Shaped B S table shape db hb;
                  place =
                      record_at-unchanged B S table shape db b s hb
                      ∙ if_unchanged (changed f) (rw free refl);
                })
          | inr (o, taken) ↦
              rw (taken, change_slot)
                (record {
                  kept = written-Shaped B S table shape db ds (some (f o)) hb;
                  place =
                      record_at-written B S table shape db ds (some (f o)) b s hb hs
                      ∙ if_written (changed f) (some (f o)) (rw taken refl);
                })
        ]

  perform-Keeps :
      (table : Table) (c : Command) (b s : ℕ)
      → 0 < B
      → 0 < S
      → IsShaped B S table
      → Keeps table (perform table c) b s c
  unfolding perform promised successful_connection failed_connection
  perform-Keeps table (adds r) b s hB hS shape =
      adds-Keeps table shape b s r (derive_bucket-bound r hB) (derive_slot-bound r hS)
  perform-Keeps table (removes r) b s hB hS shape =
      removes-Keeps table shape b s r (derive_bucket-bound r hB) (derive_slot-bound r hS)
  perform-Keeps table (succeeds r attempt connection) b s hB hS shape =
      let done =
        change_slot-Changes table shape b s r (derive_bucket-bound r hB) (derive_slot-bound r hS)
          (succeeded r.services attempt connection) in
      record { shape = done.kept; place = done.place }
  perform-Keeps table (fails r attempt) b s hB hS shape =
      let done =
        change_slot-Changes table shape b s r (derive_bucket-bound r hB) (derive_slot-bound r hS)
          (failed attempt) in
      record { shape = done.kept; place = done.place }

  -- Whatever is done to a table of `B` buckets of `S` slots, in whatever order: each place holds what
  -- the operations promise of it, each by itself, and the table keeps its shape.
  pub perform_all-promised_all :
      (table : Table) (commands : List Command) (b s : ℕ)
      → 0 < B
      → 0 < S
      → IsShaped B S table
      → (record_at (perform_all table commands) b s
          ≡ promised_all b s (record_at table b s) commands)
        × IsShaped B S (perform_all table commands)
  unfolding perform_all promised_all
  perform_all-promised_all table [] b s hB hS shape = (refl, shape)
  perform_all-promised_all table (c ∷ commands) b s hB hS shape =
      let one = perform-Keeps table c b s hB hS shape in
      let (rest, shaped) =
        perform_all-promised_all (perform table c) commands b s hB hS one.shape in
      (rest ∙ ap (λ held. promised_all b s held commands) one.place, shaped)
