-- ===== src/Prelude/Choices.antt =====
-- What a list keeps when some of it is chosen (`Sublistᴰ`), and when it is shuffled (`Permᴰ`).
use kernel_node.Prelude.Tests.{Eq}
use kernel_node.Prelude.Lists.{All}
use kernel_node.Prelude.HashSet.{contains, delete, contains-append, contains-delete}
use Prim.Native.Nat.{ℕ, ◌+◌}
use mathlib.Core.Path.{◌≡◌, refl, ◌∙◌, sym, ap, subst}
use mathlib.Core.Bool.{false, true}
use mathlib.Core.List.{List, [], ◌∷◌, ◌++◌, Sublistᴰ, Permᴰ, map}
use native.Mathlib.Omega.{arith}

module _ {ℓ κ} {A : Type ℓ} (P : A → Type κ) where
  pub All-sublist : {xs ys : List A} → Sublistᴰ xs ys → All P ys → All P xs
  All-sublist Sublistᴰ.slnil h = h
  All-sublist (Sublistᴰ.cons s) (_, h) = All-sublist s h
  All-sublist (Sublistᴰ.cons-cons e s) (p, h) = (subst P (sym e) p, All-sublist s h)

  pub All-perm : {xs ys : List A} → Permᴰ xs ys → All P ys → All P xs
  All-perm Permᴰ.nil h = h
  All-perm (Permᴰ.cons e s) (p, h) = (subst P (sym e) p, All-perm s h)
  All-perm (Permᴰ.swap e f) (p, (q, h)) = (subst P (sym e) q, (subst P (sym f) p, h))
  All-perm (Permᴰ.trans s t) h = All-perm s (All-perm t h)

module _ {ℓ} {A : Type ℓ} (value : A → ℕ) where
  abbrev pub total : List A → ℕ
  total [] = 0
  total (x ∷ xs) = value x + total xs

  pub total-perm : {xs ys : List A} → Permᴰ xs ys → total xs ≡ total ys
  total-perm Permᴰ.nil = refl
  total-perm (Permᴰ.cons e s) = omega (arith, ap value e, total-perm s)
  total-perm (Permᴰ.swap e f) = omega (arith, ap value e, ap value f)
  total-perm (Permᴰ.trans s t) = total-perm s ∙ total-perm t

module _ {ℓ} {A : Type ℓ} ⦃e : Eq A⦄ where
  abbrev pub IsDistinct : List A → Type 0
  IsDistinct [] = Unit
  IsDistinct (x ∷ xs) = (contains x xs ≡ false) × IsDistinct xs

  module _ {κ} {B : Type κ} (key : B → A) where
    contains-sublist :
        (a : A) {xs ys : List B}
        → Sublistᴰ xs ys
        → contains a (map key ys) ≡ false
        → contains a (map key xs) ≡ false
    unfolding contains
    contains-sublist a Sublistᴰ.slnil h = h
    contains-sublist a (Sublistᴰ.cons s) h = ground (arith, contains-sublist a s, h)
    contains-sublist a (Sublistᴰ.cons-cons f s) h =
        ground (arith, ap key f, contains-sublist a s, h)

    pub IsDistinct-sublist :
        {xs ys : List B} → Sublistᴰ xs ys → IsDistinct (map key ys) → IsDistinct (map key xs)
    IsDistinct-sublist Sublistᴰ.slnil h = h
    IsDistinct-sublist (Sublistᴰ.cons s) (_, h) = IsDistinct-sublist s h
    IsDistinct-sublist (Sublistᴰ.cons-cons f s) (p, h) =
        (contains-sublist _ s (rw (ap key f) p), IsDistinct-sublist s h)

    contains-perm :
        (a : A) {xs ys : List B} → Permᴰ xs ys → contains a (map key xs) ≡ contains a (map key ys)
    unfolding contains
    contains-perm a Permᴰ.nil = refl
    contains-perm a (Permᴰ.cons f s) = ground (arith, ap key f, contains-perm a s)
    contains-perm a (Permᴰ.swap f g) = ground (arith, ap key f, ap key g)
    contains-perm a (Permᴰ.trans s t) = contains-perm a s ∙ contains-perm a t

    pub IsDistinct-perm :
        {xs ys : List B} → Permᴰ xs ys → IsDistinct (map key ys) → IsDistinct (map key xs)
    unfolding contains
    IsDistinct-perm Permᴰ.nil h = h
    IsDistinct-perm (Permᴰ.cons f s) (p, h) =
        (contains-perm _ s ∙ rw (ap key f) p, IsDistinct-perm s h)
    IsDistinct-perm (Permᴰ.swap f g) (p, (q, h)) =
        (ground (arith, ap key f, ap key g, p), (ground (arith, ap key f, ap key g, p, q), h))
    IsDistinct-perm (Permᴰ.trans s t) h = IsDistinct-perm s (IsDistinct-perm t h)

  -- The elements of the first list are none of the second's.
  abbrev pub AreApart : List A → List A → Type 0
  AreApart xs ys = All (λ (x : A). contains x ys ≡ false) xs

  pub IsDistinct-append :
      (xs ys : List A) → IsDistinct xs → IsDistinct ys → AreApart xs ys → IsDistinct (xs ++ ys)
  IsDistinct-append [] ys h k apart = k
  IsDistinct-append (x ∷ xs) ys (fresh, h) k (here, apart) =
      (rw (contains-append x xs ys, fresh) here, IsDistinct-append xs ys h k apart)

  pub IsDistinct-right : (xs ys : List A) → IsDistinct (xs ++ ys) → IsDistinct ys
  IsDistinct-right [] ys h = h
  IsDistinct-right (x ∷ xs) ys (_, h) = IsDistinct-right xs ys h

  AreApart-cons :
      (x : A) (xs ys : List A) → contains x ys ≡ false → AreApart ys xs → AreApart ys (x ∷ xs)
  unfolding contains
  AreApart-cons x xs [] h apart = tt
  AreApart-cons x xs (y ∷ ys) h (p, apart) =
      (ground (arith, h, p), AreApart-cons x xs ys (ground (arith, h)) apart)

  AreApart-nil : (ys : List A) → AreApart ys []
  unfolding contains
  AreApart-nil [] = tt
  AreApart-nil (y ∷ ys) = (refl, AreApart-nil ys)

  pub IsDistinct-apart : (xs ys : List A) → IsDistinct (xs ++ ys) → AreApart ys xs
  IsDistinct-apart [] ys h = AreApart-nil ys
  IsDistinct-apart (x ∷ xs) ys (fresh, h) =
      let absent : contains x ys ≡ false = ground (arith, contains-append x xs ys, fresh) in
      AreApart-cons x xs ys absent (IsDistinct-apart xs ys h)

  -- The elements of the first list are all in the second.
  abbrev pub AreIn : List A → List A → Type 0
  AreIn xs ys = All (λ (x : A). contains x ys ≡ true) xs

  pub AreIn-absent :
      (x : A) (xs ys : List A) → AreIn xs ys → contains x ys ≡ false → contains x xs ≡ false
  unfolding contains
  AreIn-absent x [] ys h absent = refl
  AreIn-absent x (y ∷ xs) ys (here, h) absent =
      ground (arith, AreIn-absent x xs ys h absent, here, absent)

  pub AreIn-cons : (x : A) (ws xs : List A) → AreIn ws xs → AreIn ws (x ∷ xs)
  unfolding contains
  AreIn-cons x [] xs h = tt
  AreIn-cons x (w ∷ ws) xs (p, h) = (ground (arith, p), AreIn-cons x ws xs h)

  pub AreIn-self : (xs : List A) → AreIn xs xs
  unfolding contains
  AreIn-self [] = tt
  AreIn-self (x ∷ xs) = (ground arith, AreIn-cons x xs xs (AreIn-self xs))

  pub IsDistinct-drop_middle :
      (xs ys zs : List A)
      → IsDistinct (xs ++ (ys ++ zs))
      → IsDistinct (xs ++ zs) × AreApart (xs ++ zs) ys
  IsDistinct-drop_middle [] ys zs h = (IsDistinct-right ys zs h, IsDistinct-apart ys zs h)
  IsDistinct-drop_middle (x ∷ xs) ys zs (fresh, h) =
      let (distinct, apart) = IsDistinct-drop_middle xs ys zs h in
      let outer = contains-append x xs (ys ++ zs) in
      let inner = contains-append x ys zs in
      let kept = contains-append x xs zs in
      (
        (ground (arith, fresh, outer, inner, kept), distinct),
        (ground (arith, fresh, outer, inner), apart),
      )

  pub AreIn-append : (xs ys zs : List A) → AreIn xs zs → AreIn ys zs → AreIn (xs ++ ys) zs
  AreIn-append [] ys zs h k = k
  AreIn-append (x ∷ xs) ys zs (p, h) k = (p, AreIn-append xs ys zs h k)

  pub AreIn-right : (xs ys zs : List A) → AreIn (xs ++ ys) zs → AreIn ys zs
  AreIn-right [] ys zs h = h
  AreIn-right (x ∷ xs) ys zs (_, h) = AreIn-right xs ys zs h

  pub AreIn-drop_middle : (xs ys zs r : List A) → AreIn (xs ++ (ys ++ zs)) r → AreIn (xs ++ zs) r
  AreIn-drop_middle [] ys zs r h = AreIn-right ys zs r h
  AreIn-drop_middle (x ∷ xs) ys zs r (p, h) = (p, AreIn-drop_middle xs ys zs r h)

  -- A new element between the two parts of a list.
  pub IsDistinct-add_middle :
      (xs ys : List A) (x : A)
      → IsDistinct (xs ++ ys)
      → contains x (xs ++ ys) ≡ false
      → IsDistinct (xs ++ (x ∷ ys))
  unfolding contains
  IsDistinct-add_middle [] ys x h absent = (absent, h)
  IsDistinct-add_middle (y ∷ xs) ys x (fresh, h) absent =
      let before = contains-append y xs (x ∷ ys) in
      let after = contains-append y xs ys in
      (
        ground (arith, fresh, absent, before, after),
        IsDistinct-add_middle xs ys x h (ground (arith, absent)),
      )

  pub AreIn-add_middle :
      (xs ys r : List A) (x : A)
      → AreIn (xs ++ ys) r
      → contains x r ≡ true
      → AreIn (xs ++ (x ∷ ys)) r
  AreIn-add_middle [] ys r x h here = (here, h)
  AreIn-add_middle (y ∷ xs) ys r x (p, h) here = (p, AreIn-add_middle xs ys r x h here)

  pub AreIn-delete :
      (x : A) (ws r : List A) → AreIn ws r → AreApart ws (x ∷ []) → AreIn ws (delete x r)
  unfolding contains
  AreIn-delete x [] r h apart = tt
  AreIn-delete x (w ∷ ws) r (p, h) (q, apart) =
      (ground (arith, contains-delete x w r, p, q), AreIn-delete x ws r h apart)
