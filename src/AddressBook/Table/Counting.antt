-- ===== src/AddressBook/Table/Counting.antt =====
-- `count` of crates/address-book/src/lib.rs, which asks every bucket for a record.
use kernel_node.Prelude.{
  ℕ, zero, suc, ◌≡◌, refl, sym, ap, ◌∙◌, inl, inr, Bool, true, false, none, some, [], ◌∷◌, arith,
  ℕ_discrete, if◌then◌else◌, Bool-cases, Option-cases, Eq, ◌==◌, nat_eq,
}
use kernel_node.AddressBook.Record.{Record, Hasher}
use kernel_node.P2p.Message.{addr-discrete}
use kernel_node.AddressBook.Table.{Table, Bucket, slot_at, bucket_at, derive_slot, derive_bucket}
use kernel_node.AddressBook.Table.Lasting.{IsSound}

unfoldable pub record-discrete : Discrete Record
record-discrete = hlevel (ℕ_discrete, addr-discrete)

instance abbrev pub record_eq : Eq Record
record_eq = record { dec = record-discrete }

module _ (𝓗 : Hasher) (B S W : ℕ) where
  unfoldable pub has_record : Bucket → Record → Bool
  has_record bucket r = elim (slot_at bucket (derive_slot 𝓗 B S W r)) [
    | some cmp ↦ cmp == r
    | none ↦ false
  ]

  unfoldable pub count : Table → Record → ℕ
  count [] r = 0
  count (bucket ∷ buckets) r =
      let rest = count buckets r in if has_record bucket r then suc rest else rest

  count-none :
      (t : Table) (r : Record) → ((b : ℕ) → has_record (bucket_at t b) r ≡ false) → count t r ≡ 0
  unfolding count bucket_at
  count-none [] r h = refl
  count-none (bucket ∷ buckets) r h = rw (count, h 0) (count-none buckets r (λ b. h (suc b)))

  count-one :
      (t : Table) (r : Record) (d : ℕ)
      → ((b : ℕ) → has_record (bucket_at t b) r ≡ true → b ≡ d)
      → count t r ≡ (if has_record (bucket_at t d) r then 1 else 0)
  unfolding count bucket_at has_record slot_at
  count-one [] r d h = refl
  count-one (bucket ∷ buckets) r zero h =
      let others = count-none buckets r (λ b.
        elim (Bool-cases (has_record (bucket_at buckets b) r)) [
          | inl there ↦ absurd (omega (arith, h (suc b) there))
          | inr none_there ↦ none_there
        ]) in
      elim (Bool-cases (has_record bucket r)) [
        | inl here ↦ rw (count, here, others) refl
        | inr not_here ↦ rw (count, not_here, others) refl
      ]
  count-one (bucket ∷ buckets) r (suc d) h =
      let rest = count-one buckets r d (λ b there. omega (arith, h (suc b) there)) in
      elim (Bool-cases (has_record bucket r)) [
        | inl here ↦ absurd (omega (arith, h 0 here))
        | inr not_here ↦ rw (count, not_here) rest
      ]

  has_record-at :
      (bucket : Bucket) (r : Record)
      → has_record bucket r ≡ true
      → slot_at bucket (derive_slot 𝓗 B S W r) ≡ some r
  unfolding has_record
  has_record-at bucket r e = elim (Option-cases (slot_at bucket (derive_slot 𝓗 B S W r))) [
    | inl free ↦ absurd (ground (arith, free, e))
    | inr (cmp, at) ↦ let same : cmp ≡ r = ground (arith, at, e) in at ∙ ap some same
  ]

  -- In a table whose records stand at their own places, a record counts once if its own bucket has
  -- it, and else not at all: the search through the other buckets adds nothing.
  pub count-IsSound :
      (t : Table) (r : Record)
      → IsSound 𝓗 B S W t
      → count t r ≡ (if has_record (bucket_at t (derive_bucket 𝓗 B S W r)) r then 1 else 0)
  count-IsSound t r sound = count-one t r (derive_bucket 𝓗 B S W r) (λ b there.
      sym (sound.home b (derive_slot 𝓗 B S W r) r (has_record-at (bucket_at t b) r there)).0)
