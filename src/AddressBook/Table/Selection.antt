-- ===== src/AddressBook/Table/Selection.antt =====
-- What `select` finds, whatever the clock says.
use kernel_node.Prelude.{
  ℕ, zero, suc, ◌+◌, ◌-◌, ◌%◌, ◌≤◌, ◌<◌, ◌≡◌, refl, sym, ap, ◌∙◌, ◌≢◌, ◌⊎◌, inl, inr, true, false,
  none, some, ◌∷◌, arith, dec_lt, ℕ_discrete, length, leb, if◌then◌else◌, Bool-cases, Option-cases,
  nat_eq, [],
}
use kernel_node.AddressBook.Record.{Record, Hasher}
use kernel_node.AddressBook.Table.{
  Table, Bucket, Search, found, ended, exhausted, slot_at, bucket_at, is_bucket_empty, is_empty,
  first_record, is_due, slot_loop, random_from_bucket, bucket_loop, select,
}
use mathlib.Core.Bool.{false≢true}
use native.Mathlib.Nat.{mod-lt, mod-eq_of_lt, mod_self}

-- How many steps forward lead from `x` to `target`, around a ring of `n`.
around : ℕ → ℕ → ℕ → ℕ
around n target x = if leb x target then target - x else (n - x) + target

next_in_ring :
    (n x : ℕ) → x < n → (((x + 1) % n ≡ x + 1) × (x + 1 < n)) ⊎ (((x + 1) % n ≡ 0) × (x + 1 ≡ n))
next_in_ring n x h = elim (dec_lt (x + 1) n) [
  | yes small ↦ inl (mod-eq_of_lt small, small)
  | no whole ↦
      let last : n ≡ x + 1 = omega arith in
      inr (ap (λ m. (x + 1) % m) last ∙ mod_self (x + 1), sym last)
]

around-next :
    (n target x : ℕ)
    → x < n
    → target < n
    → x ≢ target
    → around n target ((x + 1) % n) + 1 ≡ around n target x
unfolding around
around-next n target x h k other = elim (next_in_ring n x h) [
  | inl (e, small) ↦ rw e (ground arith)
  | inr (e, last) ↦ rw e (ground arith)
]

around_self : (n target x : ℕ) → x < n → target < n → around n target x ≡ 0 → x ≡ target
unfolding around
around_self n target x h k e = ground arith

around-injective :
    (n target x y : ℕ) → x < n → y < n → target < n → around n target x ≡ around n target y → x ≡ y
unfolding around
around-injective n target x y h k l e = ground arith

around-here : (n target x : ℕ) → x ≡ target → around n target x ≡ 0
unfolding around
around-here n target x e = ground arith

around-after : (n target : ℕ) → target < n → around n target ((target + 1) % n) + 1 ≡ n
unfolding around
around-after n target h = elim (next_in_ring n target h) [
  | inl (e, small) ↦ rw e (ground arith)
  | inr (e, last) ↦ rw e (ground arith)
]

around-lt : (n target x : ℕ) → x < n → target < n → around n target x < n
unfolding around
around-lt n target x h k = ground arith

-- The bucket holds the record.
abbrev pub Holds : Bucket → Record → Type 0
Holds bucket r = (i : ℕ) × (slot_at bucket i ≡ some r)

first_record-Holds :
    (bucket : Bucket)
    → is_bucket_empty bucket ≡ false
    → (r : Record) × (first_record bucket ≡ some r) × Holds bucket r
unfolding first_record is_bucket_empty slot_at
first_record-Holds [] e = absurd (false≢true (sym e))
first_record-Holds (none ∷ slots) e =
    let (r, first, at) = first_record-Holds slots e in (r, first, (suc at.0, at.1))
first_record-Holds (some r ∷ slots) e = (r, refl, (0, refl))

module _ (𝓗 : Hasher) (B S W : ℕ) where
  slot_loop-found :
      (fuel : ℕ) (bucket : Bucket) (now slot_index tmp : ℕ) (r : Record)
      → slot_loop 𝓗 B S W fuel bucket now slot_index tmp ≡ found r
      → Holds bucket r
  unfolding slot_loop
  slot_loop-found zero bucket now slot_index tmp r e = absurd cc
  slot_loop-found (suc fuel) bucket now slot_index tmp r e =
      elim (Option-cases (slot_at bucket (tmp % S))) [
        | inl free ↦ ground (arith, slot_loop-found fuel bucket now slot_index ((tmp + 1) % S) r)
        | inr (q, at) ↦ elim (Bool-cases (is_due now q)) [
          | inl due ↦ (tmp % S, ground arith)
          | inr wait ↦ ground (arith, slot_loop-found fuel bucket now slot_index ((tmp + 1) % S) r)
        ]
      ]

  slot_loop-ends :
      (fuel : ℕ) (bucket : Bucket) (now slot_index tmp : ℕ)
      → tmp < S
      → slot_index < S
      → around S slot_index tmp < fuel
      → slot_loop 𝓗 B S W fuel bucket now slot_index tmp ≢ exhausted
  unfolding slot_loop
  slot_loop-ends zero bucket now slot_index tmp h k enough = absurd (omega arith)
  slot_loop-ends (suc fuel) bucket now slot_index tmp h k enough =
      elim (ℕ_discrete tmp slot_index) [
        | yes same ↦ ground arith
        | no other ↦ ground (
          arith,
          around-next S slot_index tmp h k other,
          mod-lt (tmp + 1) {m = S},
          slot_loop-ends fuel bucket now slot_index ((tmp + 1) % S),
        )
      ]

  random_from_bucket-Holds :
      (bucket : Bucket) (slot_hash now : ℕ)
      → 0 < S
      → is_bucket_empty bucket ≡ false
      → (r : Record) × (random_from_bucket 𝓗 B S W bucket slot_hash now ≡ some r) × Holds bucket r
  unfolding random_from_bucket
  random_from_bucket-Holds bucket slot_hash now slots full =
      go (slot_loop 𝓗 B S W S bucket now (slot_hash % S) ((slot_hash % S + 1) % S)) refl
    where
      go :
          (s : Search)
          → slot_loop 𝓗 B S W S bucket now (slot_hash % S) ((slot_hash % S + 1) % S) ≡ s
          → (r : Record) × (random_from_bucket 𝓗 B S W bucket slot_hash now ≡ some r)
            × Holds bucket r
      go (found r) e = (
        r,
        rw (full, e, random_from_bucket) refl,
        slot_loop-found S bucket now (slot_hash % S) ((slot_hash % S + 1) % S) r e,
      )
      go ended e = elim (Option-cases (slot_at bucket (slot_hash % S))) [
        | inr (r, at) ↦ (r, rw (full, e, at, random_from_bucket) refl, (slot_hash % S, at))
        | inl free ↦
            let (r, first, held) = first_record-Holds bucket full in
            (r, rw (full, e, free, first, random_from_bucket) refl, held)
      ]
      go exhausted e = absurd (
          slot_loop-ends S bucket now (slot_hash % S) ((slot_hash % S + 1) % S) (mod-lt _ slots)
            (mod-lt _ slots) (around-lt S (slot_hash % S) _ (mod-lt _ slots) (mod-lt _ slots)) e)

  random_from_bucket-none :
      (bucket : Bucket) (slot_hash now : ℕ)
      → is_bucket_empty bucket ≡ true
      → random_from_bucket 𝓗 B S W bucket slot_hash now ≡ none
  unfolding random_from_bucket
  random_from_bucket-none bucket slot_hash now bare = rw (bare, random_from_bucket) refl

  -- Some bucket of the table holds the record.
  abbrev pub Stored : Table → Record → Type 0
  Stored table r = (b : ℕ) × Holds (bucket_at table b) r

  bucket_loop-finds :
      (fuel : ℕ) (table : Table) (slot_hash now : ℕ → ℕ) (bucket_index tmp j : ℕ)
      → 0 < S
      → tmp < B
      → bucket_index < B
      → j < B
      → j ≢ bucket_index
      → around B bucket_index j ≤ around B bucket_index tmp
      → around B bucket_index tmp < fuel
      → is_bucket_empty (bucket_at table j) ≡ false
      → (r : Record) × (bucket_loop 𝓗 B S W fuel table slot_hash now bucket_index tmp ≡ found r)
        × Stored table r
  unfolding bucket_loop
  bucket_loop-finds zero table slot_hash now bucket_index tmp j s h k l other near enough full =
      absurd (omega arith)
  bucket_loop-finds (suc fuel) table slot_hash now bucket_index tmp j s h k l other near enough
        full =
      let apart = λ (e : tmp ≡ bucket_index).
        other
          (around_self B bucket_index j l k (omega (arith, around-here B bucket_index tmp e))) in
      let closer = around-next B bucket_index tmp h k apart in
      elim (Bool-cases (is_bucket_empty (bucket_at table tmp))) [
        | inr here ↦
            let (r, e, held) =
              random_from_bucket-Holds (bucket_at table tmp) (slot_hash tmp) (now tmp) s here in
            (r, ground arith, (tmp, held))
        | inl bare ↦
            let strict : around B bucket_index j ≢ around B bucket_index tmp =
              λ e. absurd (ground (arith, around-injective B bucket_index j tmp l h k e)) in
            let (r, e, held) =
              bucket_loop-finds fuel table slot_hash now bucket_index ((tmp + 1) % B) j s
                (mod-lt (tmp + 1) {m = B} (omega arith)) k l other (omega (arith, strict, closer))
                (omega (arith, closer)) full in
            (
              r,
              ground
                  (arith, random_from_bucket-none (bucket_at table tmp) (slot_hash tmp) (now tmp)),
              held,
            )
      ]

  full_bucket :
      (table : Table)
      → is_empty table ≡ false
      → (j : ℕ) × (j < length table) × (is_bucket_empty (bucket_at table j) ≡ false)
  unfolding is_empty bucket_at
  full_bucket [] e = absurd (false≢true (sym e))
  full_bucket (bucket ∷ buckets) e = elim (Bool-cases (is_bucket_empty bucket)) [
    | inr full ↦ (0, omega arith, full)
    | inl bare ↦ let (j, h, full) = full_bucket buckets (ground arith) in (suc j, omega arith, full)
  ]

  -- A table of `B` buckets that holds any record yields one of its records, whatever the clock says:
  -- the search through the slots and the buckets finds one, and ends.
  pub select-Stored :
      (table : Table) (bucket_hash : ℕ) (slot_hash now : ℕ → ℕ)
      → 0 < S
      → length table ≡ B
      → is_empty table ≡ false
      → (r : Record) × (select 𝓗 B S W table bucket_hash slot_hash now ≡ some r) × Stored table r
  unfolding select
  select-Stored table bucket_hash slot_hash now s size full =
      let (j, l, here) = full_bucket table full in
      let i = bucket_hash % B in
      let inside : i < B = mod-lt bucket_hash (omega arith) in
      elim (Bool-cases (is_bucket_empty (bucket_at table i))) [
        | inr first ↦
            let (r, e, held) =
              random_from_bucket-Holds (bucket_at table i) (slot_hash i) (now i) s first in
            (r, ground arith, (i, held))
        | inl bare ↦
            let next : (i + 1) % B < B = mod-lt (i + 1) (omega arith) in
            let apart : j ≢ i = λ e. absurd (ground arith) in
            let (r, e, held) =
              bucket_loop-finds B table slot_hash now i ((i + 1) % B) j s next inside (omega arith)
                apart (omega (arith, around-after B i inside, around-lt B i j (omega arith) inside))
                (around-lt B i ((i + 1) % B) next inside) here in
            (r, ground arith, held)
      ]
