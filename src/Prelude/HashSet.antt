-- ===== src/Prelude/HashSet.antt =====
-- Rust's `HashSet`, as the list of its elements in the order of iteration, which is arbitrary.
use mathlib.Core.Path.{◌≡◌, refl}
use mathlib.Core.Bool.{Bool, true, false}
use mathlib.Core.List.{List, [], ◌∷◌, ◌++◌}
use native.Mathlib.Omega.{arith}
use kernel_node.Prelude.Tests.{Eq, ◌==◌, if◌then◌else◌}

module _ {ℓ} {A : Type ℓ} ⦃e : Eq A⦄ where
  unfoldable pub contains : A → List A → Bool
  contains a [] = false
  contains a (x ∷ xs) = if a == x then true else contains a xs

  -- `insert` reports whether the element is new.
  unfoldable pub insert : A → List A → Bool × List A
  insert a s = if contains a s then (false, s) else (true, a ∷ s)

  unfoldable pub delete : A → List A → List A
  delete a [] = []
  delete a (x ∷ xs) = let rest = delete a xs in if a == x then rest else x ∷ rest

  -- `remove` reports whether the element was there.
  unfoldable pub remove : A → List A → Bool × List A
  unfolding delete
  remove a s = (contains a s, delete a s)

  -- `HashSet::from_iter`, `extend`
  unfoldable pub extend : List A → List A → List A
  unfolding insert
  extend s [] = s
  extend s (x ∷ xs) = extend (insert x s).1 xs

  pub contains-delete :
      (a b : A) (s : List A) → contains b (delete a s) ≡ (if b == a then false else contains b s)
  unfolding contains delete
  contains-delete a b [] = ground arith
  contains-delete a b (x ∷ xs) = ground (arith, contains-delete a b xs)

  pub contains-insert :
      (a b : A) (s : List A) → contains b (insert a s).1 ≡ (if b == a then true else contains b s)
  unfolding contains insert
  contains-insert a b s = ground arith

  pub contains-extend :
      (b : A) (s xs : List A)
      → contains b (extend s xs) ≡ (if contains b xs then true else contains b s)
  unfolding extend contains
  contains-extend b s [] = refl
  contains-extend b s (x ∷ xs) =
      ground (arith, contains-extend b (insert x s).1 xs, contains-insert x b s)

  pub contains-append :
      (b : A) (xs ys : List A)
      → contains b (xs ++ ys) ≡ (if contains b xs then true else contains b ys)
  unfolding contains
  contains-append b [] ys = refl
  contains-append b (x ∷ xs) ys = ground (arith, contains-append b xs ys)
