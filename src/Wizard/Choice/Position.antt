-- ===== src/Wizard/Choice/Position.antt =====
-- src/bin/wizard.rs: which option a choice ends at.
use kernel_node.Prelude.{
  ℕ, ◌+◌, ◌-◌, ◌&&◌, ◌||◌, Option, none, some, List, ◌∷◌, if◌then◌else◌, ◌==◌, nat_eq, [],
}
use kernel_node.Wizard.Choice.{
  Press, move_to, enter, ctrl_c, up, down, Selected, aborted, waiting, option_at,
}

-- What is pressed, whatever the options are.
pub data Key : Type 0 where
  key_up key_down no_move key_enter key_ctrl_c : Key

abbrev pub letter_key : ℕ → Key
letter_key key =
    if key == 13 || key == 10
    then key_enter
    else if key == 3
    then key_ctrl_c
    else if key == b'k'
    then key_up
    else if key == b'j'
    then key_down
    else no_move

-- An escape sequence that is no arrow moves nothing.
unfoldable pub key_of : List ℕ → Key
key_of [] = no_move
key_of (key ∷ second ∷ third ∷ more) =
    if key == 27 && second == b'['
    then (if third == b'A' then key_up else if third == b'B' then key_down else no_move)
    else letter_key key
key_of (key ∷ more) = letter_key key

-- Steps down, a step up being as many as lead around the other way.
unfoldable pub steps : ℕ → List (List ℕ) → ℕ
unfolding key_of
steps n [] = 0
steps n (read ∷ reads) =
    let rest = steps n reads in
    elim (key_of read) [
      | key_up ↦ (n - 1) + rest
      | key_down ↦ 1 + rest
      | no_move ↦ rest
      | key_enter ↦ 0
      | key_ctrl_c ↦ 0
    ]

pub data Ending : Type 0 where
  by_enter by_ctrl_c : Ending

-- The first key that ends the choice.
unfoldable pub ending : List (List ℕ) → Option Ending
unfolding key_of
ending [] = none
ending (read ∷ reads) =
    let rest = ending reads in
    elim (key_of read) [ key_enter ↦ some by_enter | key_ctrl_c ↦ some by_ctrl_c | _ ↦ rest ]

abbrev pub selected : List (List ℕ) → ℕ → Option Ending → Selected
selected options idx none = waiting idx
selected options idx (some by_enter) = option_at options idx
selected options idx (some by_ctrl_c) = aborted

abbrev after : ℕ → ℕ → Key → Press
after n idx key_up = move_to (up n idx)
after n idx key_down = move_to (down n idx)
after n idx no_move = move_to idx
after n idx key_enter = enter
after n idx key_ctrl_c = ctrl_c
