-- ===== src/AddressBook/File/Written.antt =====
-- Which records crates/address-book/src/io.rs writes.
use kernel_node.Prelude.{
  ℕ, All, zero, suc, ◌≡◌, refl, ap, ◌∙◌, ◌⊎◌, inl, inr, true, none, some, List, [], ◌∷◌, ◌++◌,
  Bool-cases, nat_eq,
}
use kernel_node.AddressBook.Record.{Record, is_serializable}
use kernel_node.AddressBook.Table.{Table, Bucket, slot_at, bucket_at}
use kernel_node.AddressBook.Table.Writes.{record_at}
use kernel_node.AddressBook.File.{bucket_records, unordered_records}
use kernel_node.AddressBook.File.RoundTrip.{All-append}
use mathlib.Core.Option.{some-injective}

abbrev pub IsIn : Record → List Record → Type 0
IsIn o [] = ⊥
IsIn o (r ∷ rs) = (r ≡ o) ⊎ IsIn o rs

IsIn-left : (o : Record) (xs ys : List Record) → IsIn o xs → IsIn o (xs ++ ys)
IsIn-left o [] ys h = elim h [ ]
IsIn-left o (x ∷ xs) ys (inl e) = inl e
IsIn-left o (x ∷ xs) ys (inr h) = inr (IsIn-left o xs ys h)

IsIn-right : (o : Record) (xs ys : List Record) → IsIn o ys → IsIn o (xs ++ ys)
IsIn-right o [] ys h = h
IsIn-right o (x ∷ xs) ys h = inr (IsIn-right o xs ys h)

pub All-along {κ μ} :
    (P : Record → Type κ) (Q : Record → Type μ) (xs : List Record)
    → ((x : Record) → P x → Q x)
    → All P xs
    → All Q xs
All-along P Q [] f h = tt
All-along P Q (x ∷ xs) f (p, h) = (f x p, All-along P Q xs f h)

-- What is written is what the table holds and can be written.
bucket_records-IsIn :
    (bucket : Bucket) (s : ℕ) (o : Record)
    → slot_at bucket s ≡ some o
    → is_serializable o ≡ true
    → IsIn o (bucket_records bucket)
unfolding bucket_records slot_at
bucket_records-IsIn [] s o e known = absurd cc
bucket_records-IsIn (none ∷ slots) zero o e known = absurd cc
bucket_records-IsIn (none ∷ slots) (suc s) o e known = bucket_records-IsIn slots s o e known
bucket_records-IsIn (some r ∷ slots) zero o e known =
    let same : r ≡ o = some-injective r o e in
    rw (bucket_records, ap is_serializable same ∙ known) (inl same)
bucket_records-IsIn (some r ∷ slots) (suc s) o e known =
    let later = bucket_records-IsIn slots s o e known in
    elim (Bool-cases (is_serializable r)) [
      | inl writable ↦ rw (bucket_records, writable) (inr later)
      | inr other ↦ rw (bucket_records, other) later
    ]

pub unordered_records-IsIn :
    (t : Table) (b s : ℕ) (o : Record)
    → record_at t b s ≡ some o
    → is_serializable o ≡ true
    → IsIn o (unordered_records t)
unfolding unordered_records bucket_at slot_at
unordered_records-IsIn [] b s o e known = absurd cc
unordered_records-IsIn (bucket ∷ buckets) zero s o e known =
    IsIn-left o (bucket_records bucket) (unordered_records buckets)
      (bucket_records-IsIn bucket s o e known)
unordered_records-IsIn (bucket ∷ buckets) (suc b) s o e known =
    IsIn-right o (bucket_records bucket) (unordered_records buckets)
      (unordered_records-IsIn buckets b s o e known)

bucket_records-Held :
    (bucket : Bucket) → All (λ r. (s : ℕ) × (slot_at bucket s ≡ some r)) (bucket_records bucket)
unfolding bucket_records slot_at
bucket_records-Held [] = tt
bucket_records-Held (none ∷ slots) =
    All-along _ _ (bucket_records slots) (λ r (s, e). (suc s, e)) (bucket_records-Held slots)
bucket_records-Held (some r ∷ slots) =
    let later =
      All-along (λ q. (s : ℕ) × (slot_at slots s ≡ some q))
        (λ q. (s : ℕ) × (slot_at (some r ∷ slots) s ≡ some q)) (bucket_records slots)
        (λ q (s, e). (suc s, e)) (bucket_records-Held slots) in
    elim (Bool-cases (is_serializable r)) [
      | inl writable ↦ rw (bucket_records, writable) ((0, refl), later)
      | inr other ↦ rw (bucket_records, other) later
    ]

-- Some place of the table holds the record.
abbrev pub Held : Table → Record → Type 0
Held t r = (b : ℕ) × (s : ℕ) × (record_at t b s ≡ some r)

pub unordered_records-Held : (t : Table) → All (Held t) (unordered_records t)
unfolding unordered_records bucket_at
unordered_records-Held [] = tt
unordered_records-Held (bucket ∷ buckets) =
    All-append (Held (bucket ∷ buckets)) (bucket_records bucket) (unordered_records buckets)
      (All-along _ _ (bucket_records bucket) (λ r (s, e). (0, s, e)) (bucket_records-Held bucket))
      (All-along _ _ (unordered_records buckets) (λ r (b, s, e). (suc b, s, e))
        (unordered_records-Held buckets))
