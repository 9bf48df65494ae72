-- ===== src/AddressBook/Table/Sources.antt =====
-- What one source of gossip can reach.
use kernel_node.Prelude.{
  ℕ, zero, suc, ◌+◌, ◌*◌, ◌/◌, ◌%◌, ◌≤◌, ◌<◌, ◌≡◌, refl, ap, ◌∙◌, ◌≢◌, ◌⊎◌, inl, inr, true, false,
  List, ◌∷◌, map, arith, ℕ_discrete, length, get_elem?, set, Bool-cases, nat_eq, [],
}
use kernel_node.Prelude.HashSet.{contains}
use kernel_node.Prelude.Bytes.{from_le_bytes}
use kernel_node.AddressBook.Record.{Record, Hasher, destination_id}
use kernel_node.AddressBook.Table.{Table, derive_bucket, add}
use native.Mathlib.Nat.{mod-lt}

pub get_elem?-set_other {ℓ} :
    {A : Type ℓ} (xs : List A) (i j : ℕ) (v : A) → i ≢ j → get_elem? (set xs i v) j ≡ get_elem? xs j
get_elem?-set_other [] i j v other = refl
get_elem?-set_other (x ∷ xs) zero zero v other = absurd (other refl)
get_elem?-set_other (x ∷ xs) zero (suc j) v other = refl
get_elem?-set_other (x ∷ xs) (suc i) zero v other = refl
get_elem?-set_other (x ∷ xs) (suc i) (suc j) v other =
    get_elem?-set_other xs i j v (λ e. other (ap suc e))

module _ (𝓗 : Hasher) (B S W : ℕ) where
  -- The buckets from `range` on, `n` of them, wrapping around.
  window : ℕ → ℕ → List ℕ
  window range zero = []
  window range (suc n) = (range + n) % B ∷ window range n

  length-window : (range n : ℕ) → length (window range n) ≡ n
  unfolding window
  length-window range zero = refl
  length-window range (suc n) = ap suc (length-window range n)

  contains-window : (range n i : ℕ) → i < n → contains ((range + i) % B) (window range n) ≡ true
  unfolding window contains
  contains-window range zero i h = absurd (omega arith)
  contains-window range (suc n) i h = elim (ℕ_discrete i n) [
    | yes same ↦ ground arith
    | no other ↦ ground (arith, contains-window range n i (omega arith))
  ]

  range_of : List ℕ → ℕ
  unfolding from_le_bytes
  range_of source = from_le_bytes source % W * (B / W) % B

  derive_bucket-window :
      (r : Record)
      → 0 < W
      → contains (derive_bucket 𝓗 B S W r) (window (range_of r.source) W) ≡ true
  unfolding derive_bucket range_of
  derive_bucket-window r some_window =
      contains-window (range_of r.source) W (from_le_bytes (destination_id 𝓗 r.addr) % W)
        (mod-lt (from_le_bytes (destination_id 𝓗 r.addr)) some_window)

  -- What is gossiped, one record after the other.
  unfoldable pub add_all : Table → List Record → Table
  add_all table [] = table
  add_all table (r ∷ rs) = add_all (add 𝓗 B S W table r).1 rs

  abbrev pub from_source : List ℕ → Record → Record
  from_source source r = record r { source = source }

  add-other :
      (table : Table) (r : Record) (b : ℕ)
      → derive_bucket 𝓗 B S W r ≢ b
      → get_elem? (add 𝓗 B S W table r).1 b ≡ get_elem? table b
  unfolding add
  add-other table r b other = get_elem?-set_other table (derive_bucket 𝓗 B S W r) b _ other

  outside :
      (source : List ℕ) (rs : List Record) (table : Table) (b : ℕ)
      → 0 < W
      → contains b (window (range_of source) W) ≡ false
      → get_elem? (add_all table (map (from_source source) rs)) b ≡ get_elem? table b
  unfolding add_all
  outside source [] table b some_window far = refl
  outside source (r ∷ rs) table b some_window far =
      outside source rs (add 𝓗 B S W table (from_source source r)).1 b some_window far
      ∙ add-other table (from_source source r) b
          (λ e. ground (arith, derive_bucket-window (from_source source r) some_window))

  -- However many records one source gossips, for whatever peers: there are at most `W` buckets such
  -- that every other bucket of the table stays as it was.
  pub add_all-one_source :
      (source : List ℕ) (rs : List Record) (table : Table)
      → 0 < W
      → (buckets : List ℕ) × (length buckets ≤ W)
        × ((b : ℕ)
            → (contains b buckets ≡ true)
              ⊎ (get_elem? (add_all table (map (from_source source) rs)) b ≡ get_elem? table b))
  add_all-one_source source rs table some_window = (
    window (range_of source) W,
    omega (arith, length-window (range_of source) W),
    λ b. elim (Bool-cases (contains b (window (range_of source) W))) [
      | inl near ↦ inl near
      | inr far ↦ inr (outside source rs table b some_window far)
    ],
  )
