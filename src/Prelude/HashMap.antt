-- ===== src/Prelude/HashMap.antt =====
-- Rust's `HashMap`, as the list of its entries in the order of iteration, which is arbitrary.
use mathlib.Core.Path.{◌≡◌, refl}
use mathlib.Core.Option.{Option, none, some}
use mathlib.Core.Logic.{◌≢◌}
use mathlib.Core.List.{List, [], ◌∷◌, ◌++◌}
use native.Mathlib.Omega.{arith}
use kernel_node.Prelude.Tests.{Eq, ◌==◌, if◌then◌else◌}

abbrev pub HashMap {ℓ κ} : Type ℓ → Type κ → Type (ℓ ⊔ κ)
HashMap K V = List (K × V)

module _ {ℓ κ} {K : Type ℓ} {V : Type κ} where
  abbrev pub keys : HashMap K V → List K
  keys [] = []
  keys ((k, _) ∷ m) = k ∷ keys m

  abbrev pub values : HashMap K V → List V
  values [] = []
  values ((_, v) ∷ m) = v ∷ values m

module _ {ℓ κ} {K : Type ℓ} {V : Type κ} ⦃e : Eq K⦄ where
  unfoldable pub get : K → HashMap K V → Option V
  get k [] = none
  get k ((j, v) ∷ m) = if k == j then some v else get k m

  -- Every entry of the key goes: a real table has at most one.
  unfoldable pub remove : K → HashMap K V → HashMap K V
  remove k [] = []
  remove k ((j, v) ∷ m) = let rest = remove k m in if k == j then rest else (j, v) ∷ rest

  unfoldable pub insert : K → V → HashMap K V → HashMap K V
  insert k v [] = (k, v) ∷ []
  insert k v ((j, w) ∷ m) = if k == j then (k, v) ∷ m else (j, w) ∷ insert k v m

  pub get-insert :
      (k j : K) (v : V) (m : HashMap K V)
      → get j (insert k v m) ≡ (if j == k then some v else get j m)
  unfolding get insert
  get-insert k j v [] = refl
  get-insert k j v ((i, w) ∷ m) = ground (arith, get-insert k j v m)

  pub get-remove :
      (k j : K) (m : HashMap K V) → get j (remove k m) ≡ (if j == k then none else get j m)
  unfolding get remove
  get-remove k j [] = ground arith
  get-remove k j ((i, w) ∷ m) = ground (arith, get-remove k j m)

  -- No two entries have the same key, as in any hash table.
  abbrev pub IsTable : HashMap K V → Type κ
  IsTable [] = Unit
  IsTable ((k, v) ∷ m) = (get k m ≡ none) × IsTable m

  pub insert-absent :
      (k : K) (v : V) (m : HashMap K V) → get k m ≡ none → insert k v m ≡ m ++ ((k, v) ∷ [])
  unfolding get insert
  insert-absent k v [] h = refl
  insert-absent k v ((j, w) ∷ m) h = ground (arith, insert-absent k v m)

  get-append_first : (k : K) (v : V) (m n : HashMap K V) → get k (m ++ ((k, v) ∷ n)) ≢ none
  unfolding get
  get-append_first k v [] n = ground arith
  get-append_first k v ((j, w) ∷ m) n = ground (arith, get-append_first k v m n)

  -- An entry's key is not among the entries before it.
  pub IsTable-before :
      (k : K) (v : V) (m n : HashMap K V) → IsTable (m ++ ((k, v) ∷ n)) → get k m ≡ none
  unfolding get
  IsTable-before k v [] n h = refl
  IsTable-before k v ((j, w) ∷ m) n (fresh, h) =
      ground (arith, IsTable-before k v m n h, get-append_first k v m n)

  pub insert-IsTable : (k : K) (v : V) (m : HashMap K V) → IsTable m → IsTable (insert k v m)
  unfolding get insert
  insert-IsTable k v [] h = (refl, tt)
  insert-IsTable k v ((j, w) ∷ m) (fresh, h) =
      let rest = insert-IsTable k v m h in ground (arith, get-insert k j v m, fresh)
