-- ===== src/Net/Locator.antt =====
-- `build_block_locators` of src/net/peer.rs. Heights and steps are i32: no height is negative, and
-- a step that leaves the range is an overflow. `none` is a panic: an overflow, or an ancestor that
-- is not there.
pub mod Heights
pub mod Laws
use kernel_node.Prelude.{
  ℕ, zero, suc, ◌-◌, ◌*◌, ◌^◌, true, false, ◌||◌, Option, none, some, List, ◌∷◌, ◌++◌, length, ltb,
  leb, if◌then◌else◌, ◌==◌, nat_eq, [],
}
use kernel_node.Net.Kernel.{Kernel}
use kernel_node.Net.Download.{BlockHash}

abbrev pub max_locator_hashes : ℕ
max_locator_hashes = 101

abbrev pub i32_limit : ℕ
i32_limit = 2 ^ 31

-- `if locators.len() > 10 { step *= 2; }`
unfoldable pub next_step : ℕ → ℕ → Option ℕ
next_step len step =
    if ltb 10 len then (if ltb (step * 2) i32_limit then some (step * 2) else none) else some step

module _ (𝓚 : Kernel) where
  -- The loop ends after `max_locator_hashes` rounds at the latest, which is the fuel.
  unfoldable pub locator_loop : ℕ → 𝓚.Entry → ℕ → ℕ → List BlockHash → Option (List BlockHash)
  unfolding next_step
  locator_loop zero tip current_height step locators = none
  locator_loop (suc fuel) tip current_height step locators = elim (𝓚.ancestor tip current_height) [
    | none ↦ none
    | some entry ↦
        let locators' = locators ++ 𝓚.block_hash entry ∷ [] in
        elim (current_height == 0 || leb max_locator_hashes (length locators')) [
          | true ↦ some locators'
          | false ↦ elim (next_step (length locators') step) [
            | none ↦ none
            | some step' ↦ locator_loop fuel tip (current_height - step) step' locators'
          ]
        ]
  ]

  unfoldable pub build_block_locators : 𝓚.Entry → Option (List BlockHash)
  unfolding locator_loop
  build_block_locators tip = locator_loop max_locator_hashes tip (𝓚.height tip) 1 []
