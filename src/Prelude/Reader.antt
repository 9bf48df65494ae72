-- ===== src/Prelude/Reader.antt =====
-- Rust's `Result` and `std::io::Read` over the bytes that are still to come. What an error leaves of
-- them is not kept: no caller reads on after an error.
use kernel_node.Prelude.Tests.{if◌then◌else◌, ltb}
use kernel_node.Prelude.Lists.{length, take, drop, length-append, take-append, drop-append}
use Prim.Native.Nat.{ℕ}
use mathlib.Core.Path.{◌≡◌, refl, sym, ap}
use mathlib.Core.Logic.{◌⊎◌, inl, inr}
use mathlib.Core.Option.{Option, none, some}
use mathlib.Core.List.{List, ◌++◌}
use native.Mathlib.Omega.{arith}

pub data Result {ℓ κ} (E : Type ℓ) (A : Type κ) : Type (ℓ ⊔ κ) where
  ok : A → Result E A
  err : E → Result E A

-- The kinds of `std::io::Error` that the node's own code meets or makes.
pub data IoError : Type 0 where
  unexpected_eof invalid_data : IoError

abbrev pub Reader {ℓ} : Type ℓ → Type ℓ
Reader A = List ℕ → Result IoError (A × List ℕ)

abbrev pub then_read {ℓ κ} :
    {A : Type ℓ} {B : Type κ}
    → Result IoError (A × List ℕ)
    → (A → Reader B)
    → Result IoError (B × List ℕ)
then_read (ok (a, rest)) f = f a rest
then_read (err e) f = err e

infixl 10 ◌>>=◌
abbrev pub ◌>>=◌ {ℓ κ} : {A : Type ℓ} {B : Type κ} → Reader A → (A → Reader B) → Reader B
(m >>= f) = λ bytes. then_read (m bytes) f

abbrev pub pure {ℓ} : {A : Type ℓ} → A → Reader A
pure a = λ bytes. ok (a, bytes)

abbrev pub fail {ℓ} : {A : Type ℓ} → IoError → Reader A
fail e = λ bytes. err e

unfoldable pub read_exact : ℕ → Reader (List ℕ)
read_exact n bytes =
    if ltb (length bytes) n then err unexpected_eof else ok (take n bytes, drop n bytes)

pub read_exact-append :
    (n : ℕ) (xs ys : List ℕ) → length xs ≡ n → read_exact n (xs ++ ys) ≡ ok (xs, ys)
unfolding read_exact
read_exact-append n xs ys e =
    rw (sym e) (ground (arith, length-append xs ys, take-append xs ys, drop-append xs ys))

-- One statement of a `do` block whose reader succeeds, with what follows it.
pub step {ℓ κ} :
    {A : Type ℓ} {B : Type κ} {m : Result IoError (A × List ℕ)} {a : A} {rest : List ℕ}
    (f : A → Reader B)
    → m ≡ ok (a, rest)
    → then_read m f ≡ f a rest
step f e = ap (λ m. then_read m f) e

pub step_read {κ} :
    {B : Type κ} (f : List ℕ → Reader B) (n : ℕ) (xs ys : List ℕ)
    → length xs ≡ n
    → then_read (read_exact n (xs ++ ys)) f ≡ f xs ys
step_read f n xs ys e = step f (read_exact-append n xs ys e)

pub Result-cases {ℓ κ} :
    {E : Type ℓ} {A : Type κ} (r : Result E A) → ((a : A) × (r ≡ ok a)) ⊎ ((e : E) × (r ≡ err e))
Result-cases (ok a) = inl (a, refl)
Result-cases (err e) = inr (e, refl)

-- Rust's `?`: what follows a result that is no error.
abbrev pub and_then {ℓ κ μ} :
    {E : Type ℓ} {A : Type κ} {B : Type μ} → Result E A → (A → Result E B) → Result E B
and_then (ok a) f = f a
and_then (err e) f = err e

pub and_then-ok {ℓ κ μ} :
    {E : Type ℓ} {A : Type κ} {B : Type μ} (r : Result E A) (f : A → Result E B) {b : B}
    → and_then r f ≡ ok b
    → (a : A) × (r ≡ ok a) × (f a ≡ ok b)
and_then-ok (ok a) f e = (a, refl, e)
and_then-ok (err x) f e = absurd (ground (arith, e))

-- An option whose absence is an error.
abbrev pub ok_or {ℓ κ} : {E : Type ℓ} {A : Type κ} → E → Option A → Result E A
ok_or e none = err e
ok_or e (some a) = ok a

pub ok_or-ok {ℓ κ} :
    {E : Type ℓ} {A : Type κ} (x : E) (o : Option A) {a : A} → ok_or x o ≡ ok a → o ≡ some a
ok_or-ok x none e = absurd (ground (arith, e))
ok_or-ok x (some b) e = ground (arith, e)
