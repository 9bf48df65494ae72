-- ===== src/Prelude/Slices.antt =====
-- `bytes[at..at + n]`, and the fields that a buffer is made of.
use kernel_node.Prelude.Tests.{if◌then◌else◌, ◌==◌, nat_eq}
use mathlib.Core.Bool.{Bool, true, false}
use kernel_node.Prelude.Lists.{length, take, drop, length-append}
use kernel_node.Prelude.Bytes.{from_le_bytes}
use Prim.Native.Nat.{ℕ, zero, suc, ◌+◌}
use mathlib.Core.Path.{◌≡◌, refl, ap, ◌∙◌}
use mathlib.Core.List.{List, [], ◌∷◌, ◌++◌}
use native.Mathlib.Omega.{arith}

abbrev pub slice : ℕ → ℕ → List ℕ → List ℕ
slice at n bytes = take n (drop at bytes)

abbrev pub byte_at : ℕ → List ℕ → ℕ
byte_at at bytes = from_le_bytes (slice at 1 bytes)

unfoldable pub same_bytes : List ℕ → List ℕ → Bool
same_bytes [] [] = true
same_bytes (b ∷ bs) (c ∷ cs) = let rest = same_bytes bs cs in if b == c then rest else false
same_bytes bs cs = false

pub same_bytes_self : (bs : List ℕ) → same_bytes bs bs ≡ true
unfolding same_bytes
same_bytes_self [] = refl
same_bytes_self (b ∷ bs) = ground (arith, same_bytes_self bs)

-- A buffer written field by field.
abbrev pub concat : List (List ℕ) → List ℕ
concat [] = []
concat (f ∷ fs) = f ++ concat fs

abbrev pub field : ℕ → List (List ℕ) → List ℕ
field i [] = []
field zero (f ∷ fs) = f
field (suc i) (f ∷ fs) = field i fs

abbrev pub sum : List ℕ → ℕ
sum [] = 0
sum (n ∷ ns) = n + sum ns

-- Of fields with these lengths: where one begins, and how long it is.
abbrev pub offset : ℕ → List ℕ → ℕ
offset i [] = 0
offset zero (n ∷ ns) = 0
offset (suc i) (n ∷ ns) = n + offset i ns

abbrev pub width : ℕ → List ℕ → ℕ
width i [] = 0
width zero (n ∷ ns) = n
width (suc i) (n ∷ ns) = width i ns

abbrev pub HaveLengths : List (List ℕ) → List ℕ → Type 0
HaveLengths [] [] = Unit
HaveLengths (f ∷ fs) (n ∷ ns) = (length f ≡ n) × HaveLengths fs ns
HaveLengths [] (n ∷ ns) = ⊥
HaveLengths (f ∷ fs) [] = ⊥

pub take-append_here : (n : ℕ) (xs ys : List ℕ) → length xs ≡ n → take n (xs ++ ys) ≡ xs
take-append_here zero [] ys e = refl
take-append_here (suc n) [] ys e = absurd (omega arith)
take-append_here zero (x ∷ xs) ys e = absurd (omega arith)
take-append_here (suc n) (x ∷ xs) ys e = ap (◌∷◌ x) (take-append_here n xs ys (omega arith))

pub drop-append_past :
    (at n : ℕ) (xs ys : List ℕ) → length xs + at ≡ n → drop n (xs ++ ys) ≡ drop at ys
drop-append_past at n [] ys e = ap (λ k. drop k ys) (omega arith)
drop-append_past at zero (x ∷ xs) ys e = absurd (omega arith)
drop-append_past at (suc n) (x ∷ xs) ys e = drop-append_past at n xs ys (omega arith)

pub slice-append :
    (at n : ℕ) (xs ys zs : List ℕ)
    → length xs ≡ at
    → length ys ≡ n
    → slice at n (xs ++ (ys ++ zs)) ≡ ys
slice-append at n xs ys zs e f =
    ap (take n) (drop-append_past 0 at xs (ys ++ zs) (omega arith)) ∙ take-append_here n ys zs f

-- The slice from where a field begins, as long as the field, is the field.
pub slice-concat :
    (i : ℕ) (fs : List (List ℕ)) (ns : List ℕ)
    → HaveLengths fs ns
    → slice (offset i ns) (width i ns) (concat fs) ≡ field i fs
slice-concat i [] [] h = refl
slice-concat i [] (n ∷ ns) h = absurd h
slice-concat i (f ∷ fs) [] h = absurd h
slice-concat zero (f ∷ fs) (n ∷ ns) (e, h) = take-append_here n f (concat fs) e
slice-concat (suc i) (f ∷ fs) (n ∷ ns) (e, h) =
    let past : length f + offset i ns ≡ n + offset i ns = omega arith in
    ap (take (width i ns)) (drop-append_past (offset i ns) (n + offset i ns) f (concat fs) past)
    ∙ slice-concat i fs ns h

pub length-concat :
    (fs : List (List ℕ)) (ns : List ℕ) → HaveLengths fs ns → length (concat fs) ≡ sum ns
length-concat [] [] h = refl
length-concat [] (n ∷ ns) h = absurd h
length-concat (f ∷ fs) [] h = absurd h
length-concat (f ∷ fs) (n ∷ ns) (e, h) =
    omega (arith, length-append f (concat fs), length-concat fs ns h)

pub same_bytes-eq : (bs cs : List ℕ) → same_bytes bs cs ≡ true → bs ≡ cs
unfolding same_bytes
same_bytes-eq [] [] e = refl
same_bytes-eq [] (c ∷ cs) e = ground (arith, e)
same_bytes-eq (b ∷ bs) [] e = ground (arith, e)
same_bytes-eq (b ∷ bs) (c ∷ cs) e = ground (arith, e, same_bytes-eq bs cs)
