-- ===== src/Net/Locator/Heights.antt =====
-- The heights that a locator names.
use kernel_node.Prelude.{
  ℕ, zero, suc, ◌+◌, ◌-◌, ◌*◌, ◌^◌, ◌≤◌, ◌<◌, ◌≡◌, refl, ap, ◌∙◌, ◌⊎◌, inl, inr, true, false, ◌||◌,
  some, List, ◌∷◌, ◌++◌, arith, length, length-append, ltb, leb, if◌then◌else◌, Bool-cases, ◌==◌,
  nat_eq, [],
}
use mathlib.Core.List.{append_assoc}
use kernel_node.Net.Kernel.{Kernel, HasAncestors}
use kernel_node.Net.Download.{BlockHash}
use kernel_node.Net.Locator.{locator_loop, next_step, max_locator_hashes, i32_limit}

unfoldable pub step_after : ℕ → ℕ → ℕ
step_after len step = if ltb 10 len then step * 2 else step

-- The heights that the loop visits with `len` hashes in hand.
unfoldable pub heights : ℕ → ℕ → ℕ → ℕ → List ℕ
heights zero len current step = []
heights (suc fuel) len current step =
    let rest = heights fuel (len + 1) (current - step) (step_after (len + 1) step) in
    current ∷ (if current == 0 || leb max_locator_hashes (len + 1) then [] else rest)

module _ (𝓚 : Kernel) where
  -- The hashes are those of the ancestors of `tip` at the heights.
  abbrev pub Names : 𝓚.Entry → List BlockHash → List ℕ → Type 0
  Names tip [] [] = Unit {0}
  Names tip [] (h ∷ hs) = ⊥
  Names tip (b ∷ bs) [] = ⊥
  Names tip (b ∷ bs) (h ∷ hs) =
      ((a : 𝓚.Entry) × (𝓚.ancestor tip h ≡ some a) × (𝓚.height a ≡ h) × (𝓚.block_hash a ≡ b))
      × Names tip bs hs

  -- What keeps the step within 31 bits: it has not outgrown the distance from the tip.
  abbrev pub InStep : ℕ → ℕ → ℕ → Type 0
  InStep top current step = (1 ≤ step) × ((current ≡ 0) ⊎ (step + current ≤ top + 1))

  loop_stops :
      (fuel : ℕ) (tip a : 𝓚.Entry) (current step n : ℕ) (locators : List BlockHash)
      → 𝓚.ancestor tip current ≡ some a
      → length locators ≡ n
      → (current == 0 || leb max_locator_hashes (n + 1)) ≡ true
      → locator_loop 𝓚 (suc fuel) tip current step locators ≡ some (locators ++ 𝓚.block_hash a ∷ [])
  unfolding locator_loop
  loop_stops fuel tip a current step n locators here len stop =
      rw (here, locator_loop) (ground (arith, length-append locators (𝓚.block_hash a ∷ [])))

  next_step-some : (n step : ℕ) → step * 2 < i32_limit → next_step n step ≡ some (step_after n step)
  unfolding next_step step_after
  next_step-some n step small = ground arith

  loop_goes_on :
      (fuel : ℕ) (tip a : 𝓚.Entry) (current step n : ℕ) (locators : List BlockHash)
      → 𝓚.ancestor tip current ≡ some a
      → length locators ≡ n
      → (current == 0 || leb max_locator_hashes (n + 1)) ≡ false
      → step * 2 < i32_limit
      → locator_loop 𝓚 (suc fuel) tip current step locators
        ≡ locator_loop 𝓚 fuel tip
            (current - step)
            (step_after (n + 1) step)
            (locators ++ 𝓚.block_hash a ∷ [])
  unfolding locator_loop
  loop_goes_on fuel tip a current step n locators here len go small =
      let grown = length-append locators (𝓚.block_hash a ∷ []) ∙ ap (λ (m : ℕ). m + 1) len in
      rw (here, grown, go, grown, next_step-some (n + 1) step small, locator_loop)

  InStep-next :
      (top current step n : ℕ)
      → 1 ≤ current
      → InStep top current step
      → InStep top (current - step) (step_after n step)
  unfolding step_after
  InStep-next top current step n pos (one, safe) = (ground arith, ground arith)

  last_round :
      (n current : ℕ)
      → n + 1 ≡ max_locator_hashes
      → (current == 0 || leb max_locator_hashes (n + 1)) ≡ true
  last_round n current e = ground arith

  pub loop-Names :
      (L : HasAncestors 𝓚) (fuel n : ℕ) (tip : 𝓚.Entry) (current step : ℕ)
      (locators : List BlockHash)
      → length locators ≡ n
      → 𝓚.height tip < 2 ^ 30
      → n + suc fuel ≡ max_locator_hashes
      → current ≤ 𝓚.height tip
      → InStep (𝓚.height tip) current step
      → (hashes : List BlockHash) × (locator_loop 𝓚 (suc fuel) tip current step locators
          ≡ some (locators ++ hashes))
        × Names tip hashes (heights (suc fuel) n current step)
  unfolding heights
  loop-Names L zero n tip current step locators len low room le safe =
      let (a, here, at) = L.ancestor_at tip current le in
      let stop = last_round n current (omega arith) in
      (
        𝓚.block_hash a ∷ [],
        loop_stops zero tip a current step n locators here len stop,
        rw stop ((a, here, at, refl), tt),
      )
  loop-Names L (suc fuel) n tip current step locators len low room le safe =
      let (a, here, at) = L.ancestor_at tip current le in
      let b = 𝓚.block_hash a in
      elim (Bool-cases (current == 0 || leb max_locator_hashes (n + 1))) [
        | inl stop ↦ (
          b ∷ [],
          loop_stops (suc fuel) tip a current step n locators here len stop,
          rw stop ((a, here, at, refl), tt),
        )
        | inr go ↦
            let step' = step_after (n + 1) step in
            let (hashes, e, names) =
              loop-Names L fuel (n + 1) tip (current - step) step' (locators ++ b ∷ [])
                (length-append locators (b ∷ []) ∙ ap (λ (m : ℕ). m + 1) len) low (omega arith)
                (omega arith)
                (InStep-next (𝓚.height tip) current step (n + 1) (ground arith) safe) in
            (
              b ∷ hashes,
              loop_goes_on (suc fuel) tip a current step n locators here len go (ground arith)
                  ∙ e
                  ∙ ap some (append_assoc locators (b ∷ []) hashes),
              rw go ((a, here, at, refl), names),
            )
      ]
