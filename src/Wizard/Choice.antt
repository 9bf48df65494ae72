-- ===== src/Wizard/Choice.antt =====
-- `select` and `fallback_select` of src/bin/wizard.rs: one of the options, by keys or by a line. A read
-- from the terminal gives the bytes of a key; an index out of range is a panic.
pub mod Position
use kernel_node.Prelude.{
  ℕ, ◌+◌, ◌-◌, ◌%◌, min, Bool, not, ◌||◌, Option, none, some, List, ◌∷◌, map, arith, length,
  get_elem?, if◌then◌else◌, ◌==◌, nat_eq, [],
}
use kernel_node.Prelude.Text.{codes, trim, to_lowercase, parse_usize}
use kernel_node.Prelude.Slices.{same_bytes}
use kernel_node.Wizard.{Lines, is_empty}

-- What a key does to the index, or that it ends the choice.
pub data Press : Type 0 where
  move_to : ℕ → Press
  enter ctrl_c : Press

unfoldable pub up : ℕ → ℕ → ℕ
up n idx = if idx == 0 then n - 1 else idx - 1

unfoldable pub down : ℕ → ℕ → ℕ
down n idx = (idx + 1) % n

-- The last two bytes of an arrow key.
unfoldable pub arrow : ℕ → ℕ → ℕ → ℕ → Option ℕ
unfolding up down
arrow n idx second third =
    if not (second == b'[')
    then none
    else if third == b'A'
    then some (up n idx)
    else if third == b'B'
    then some (down n idx)
    else some idx

-- A single key, or the first byte of another.
unfoldable pub letter : ℕ → ℕ → ℕ → Press
unfolding up down
letter n idx key =
    if key == 13 || key == 10
    then enter
    else if key == 3
    then ctrl_c
    else if key == b'k'
    then move_to (up n idx)
    else if key == b'j'
    then move_to (down n idx)
    else move_to idx

unfoldable pub press : ℕ → ℕ → List ℕ → Press
unfolding arrow letter
press n idx [] = move_to idx
press n idx (key ∷ second ∷ third ∷ more) =
    if key == 27
    then (elim (arrow n idx second third) [ some i ↦ move_to i | none ↦ letter n idx key ])
    else letter n idx key
press n idx (key ∷ more) = letter n idx key

-- The loop, as far as keys have been read.
pub data Selected : Type 0 where
  chosen : List ℕ → Selected
  aborted out_of_range : Selected
  waiting : ℕ → Selected

abbrev pub option_at : Lines → ℕ → Selected
option_at options idx = elim (get_elem? options idx) [
  | none ↦ out_of_range
  | some option ↦ chosen option
]

unfoldable pub select_loop : Lines → ℕ → List (List ℕ) → Selected
unfolding press
select_loop options idx [] = waiting idx
select_loop options idx (read ∷ reads) = elim (press (length options) idx read) [
  | move_to i ↦ select_loop options i reads
  | enter ↦ option_at options idx
  | ctrl_c ↦ aborted
]

-- `select` on a terminal in raw mode.
unfoldable pub select : Lines → ℕ → List (List ℕ) → Selected
unfolding select_loop
select options default_idx reads = select_loop options (min default_idx (length options - 1)) reads

abbrev pub eq_ignore_ascii_case : List ℕ → List ℕ → Bool
eq_ignore_ascii_case a b = same_bytes (map to_lowercase a) (map to_lowercase b)

unfoldable pub find_option : List ℕ → Lines → Option (List ℕ)
unfolding same_bytes
find_option answer [] = none
find_option answer (option ∷ options) =
    let rest = find_option answer options in
    if eq_ignore_ascii_case option answer then some option else rest

-- What a line picks: an option by its name, or by its index.
unfoldable pub pick : Lines → List ℕ → Option (List ℕ)
unfolding find_option parse_usize
pick options answer = elim (find_option answer options) [
  | some option ↦ some option
  | none ↦ elim (parse_usize answer) [ none ↦ none | some idx ↦ get_elem? options idx ]
]

unfoldable pub fallback_select : Lines → ℕ → Lines → Selected × Lines
unfolding pick trim
fallback_select options default_idx [] = (option_at options default_idx, [])
fallback_select options default_idx (line ∷ lines) =
    let again = fallback_select options default_idx lines in
    if is_empty (trim line)
    then (option_at options default_idx, lines)
    else (elim (pick options (trim line)) [ some option ↦ (chosen option, lines) | none ↦ again ])
