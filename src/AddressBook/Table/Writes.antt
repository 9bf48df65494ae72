-- ===== src/AddressBook/Table/Writes.antt =====
-- The table of crates/address-book/src/lib.rs as places, and what a write to one leaves in all.
use kernel_node.Prelude.{
  ℕ, ◌<◌, ◌≡◌, refl, sym, ap, ◌∙◌, inl, inr, ◌&&◌, Option, arith, length, set, length-set,
  get_elem?-set_self, if◌then◌else◌, Bool-cases, ◌==◌, nat_eq,
}
use kernel_node.AddressBook.Record.{Record}
use kernel_node.AddressBook.Table.{Table, Bucket, slot_at, bucket_at}
use kernel_node.AddressBook.Table.Sources.{get_elem?-set_other}

abbrev pub record_at : Table → ℕ → ℕ → Option Record
record_at table b s = slot_at (bucket_at table b) s

pub record IsShaped (B S : ℕ) (table : Table) : Type 0 where
  pub buckets : length table ≡ B
  pub slots : (b : ℕ) → b < B → length (bucket_at table b) ≡ S

slot_at-set :
    (bucket : Bucket) (i j : ℕ) (v : Option Record)
    → i < length bucket
    → slot_at (set bucket i v) j ≡ (if j == i then v else slot_at bucket j)
unfolding slot_at
slot_at-set bucket i j v h = elim (Bool-cases (j == i)) [
  | inl same ↦
      let e : j ≡ i = ground (arith, same) in rw (same, e, get_elem?-set_self bucket i v h) refl
  | inr other ↦ rw (other, get_elem?-set_other bucket i j v (λ e. ground (arith, other, e))) refl
]

bucket_at-set :
    (table : Table) (i j : ℕ) (v : Bucket)
    → i < length table
    → bucket_at (set table i v) j ≡ (if j == i then v else bucket_at table j)
unfolding bucket_at
bucket_at-set table i j v h = elim (Bool-cases (j == i)) [
  | inl same ↦
      let e : j ≡ i = ground (arith, same) in
      rw (same, e, get_elem?-set_self table i v h, bucket_at) refl
  | inr other ↦
      rw (other, get_elem?-set_other table i j v (λ e. ground (arith, other, e)), bucket_at) refl
]

module _ (B S : ℕ) (table : Table) (shape : IsShaped B S table) where
  -- One place is written, or a bucket is put back as it is.
  abbrev pub written : ℕ → ℕ → Option Record → Table
  written b s v = set table b (set (bucket_at table b) s v)

  pub record_at-written :
      (b s : ℕ) (v : Option Record) (c r : ℕ)
      → b < B
      → s < S
      → record_at (written b s v) c r ≡ (if c == b && r == s then v else record_at table c r)
  record_at-written b s v c r hb hs = elim (Bool-cases (c == b)) [
    | inl same ↦
        let e : c ≡ b = ground (arith, same) in
        let placed =
          bucket_at-set table b c (set (bucket_at table b) s v) (omega (arith, shape.buckets)) in
        rw (placed, same)
          (rw e (slot_at-set (bucket_at table b) s r v (omega (arith, shape.slots b hb))))
    | inr other ↦
        let placed =
          bucket_at-set table b c (set (bucket_at table b) s v) (omega (arith, shape.buckets)) in
        rw (placed, other) refl
  ]

  pub written-Shaped : (b s : ℕ) (v : Option Record) → b < B → IsShaped B S (written b s v)
  written-Shaped b s v hb = record {
    buckets = length-set table b (set (bucket_at table b) s v) ∙ shape.buckets;
    slots = λ c hc.
        let placed =
          bucket_at-set table b c (set (bucket_at table b) s v) (omega (arith, shape.buckets)) in
        ground
          (arith, placed, length-set (bucket_at table b) s v, shape.slots b hb, shape.slots c hc);
  }

  pub record_at-unchanged :
      (b c r : ℕ) → b < B → record_at (set table b (bucket_at table b)) c r ≡ record_at table c r
  record_at-unchanged b c r hb =
      let placed = bucket_at-set table b c (bucket_at table b) (omega (arith, shape.buckets)) in
      elim (Bool-cases (c == b)) [
        | inl same ↦
            let e : c ≡ b = ground (arith, same) in
            rw (placed, same) (ap (λ i. record_at table i r) (sym e))
        | inr other ↦ rw (placed, other) refl
      ]

  pub unchanged-Shaped : (b : ℕ) → b < B → IsShaped B S (set table b (bucket_at table b))
  unchanged-Shaped b hb = record {
    buckets = length-set table b (bucket_at table b) ∙ shape.buckets;
    slots = λ c hc.
        let placed = bucket_at-set table b c (bucket_at table b) (omega (arith, shape.buckets)) in
        ground (arith, placed, shape.slots b hb, shape.slots c hc);
  }
