-- ===== src/Prelude/Text.antt =====
-- Texts as lists of the codes of their characters, and what Rust's `str` does with them. Only ASCII
-- counts as white space, letters and digits.
use Prim.Native.Nat.{ℕ, ◌+◌, ◌-◌, ◌*◌, ◌^◌}
use Prim.Native.Char.{code}
use Prim.Native.String.{String}
use mathlib.Core.Bool.{Bool, true, ◌&&◌, ◌||◌}
use mathlib.Core.Option.{Option, none, some}
use mathlib.Core.List.{List, [], ◌∷◌, ◌++◌}
use kernel_node.Prelude.Tests.{if◌then◌else◌, ◌==◌, nat_eq, leb, ltb}

abbrev pub codes : String → List ℕ
codes String.[] = []
codes (String.◌∷◌ c s) = code c ∷ codes s

abbrev pub is_whitespace : ℕ → Bool
is_whitespace c = c == b' ' || (leb 9 c && leb c 13)

abbrev pub is_digit : ℕ → Bool
is_digit c = leb b'0' c && leb c b'9'

abbrev pub is_alphanumeric : ℕ → Bool
is_alphanumeric c = is_digit c || (leb b'a' c && leb c b'z') || (leb b'A' c && leb c b'Z')

abbrev pub to_lowercase : ℕ → ℕ
to_lowercase c = if leb b'A' c && leb c b'Z' then c + 32 else c

unfoldable pub trim_start : List ℕ → List ℕ
trim_start [] = []
trim_start (c ∷ text) = let rest = trim_start text in if is_whitespace c then rest else c ∷ text

unfoldable pub trim_end : List ℕ → List ℕ
trim_end [] = []
trim_end (c ∷ text) = elim (trim_end text) [
  | [] ↦ if is_whitespace c then [] else c ∷ []
  | d ∷ rest ↦ c ∷ d ∷ rest
]

unfoldable pub trim : List ℕ → List ℕ
unfolding trim_start trim_end
trim text = trim_end (trim_start text)

-- `split(mark)`: the first of the pieces between the marks, and the others.
unfoldable pub split : ℕ → List ℕ → List ℕ × List (List ℕ)
split mark [] = ([], [])
split mark (c ∷ text) =
    let (piece, pieces) = split mark text in
    if c == mark then ([], piece ∷ pieces) else (c ∷ piece, pieces)

-- `join(" ")`
unfoldable pub join : ℕ → List (List ℕ) → List ℕ
join mark [] = []
join mark (t ∷ []) = t
join mark (t ∷ u ∷ texts) = t ++ mark ∷ join mark (u ∷ texts)

unfoldable pub all : (ℕ → Bool) → List ℕ → Bool
all test [] = true
all test (c ∷ text) = let rest = all test text in test c && rest

unfoldable pub parse_digits : ℕ → List ℕ → Option ℕ
parse_digits n [] = some n
parse_digits n (c ∷ text) =
    let rest = parse_digits (n * 10 + (c - b'0')) text in if is_digit c then rest else none

-- `parse::<usize>()`, of 64 bits: digits, perhaps after a plus.
unfoldable pub parse_usize : List ℕ → Option ℕ
unfolding parse_digits
parse_usize [] = none
parse_usize (c ∷ text) =
    let digits = if c == b'+' then text else c ∷ text in
    elim digits [
      | [] ↦ none
      | d ∷ more ↦ elim (parse_digits 0 (d ∷ more)) [
        | none ↦ none
        | some n ↦ if ltb n (2 ^ 64) then some n else none
      ]
    ]
