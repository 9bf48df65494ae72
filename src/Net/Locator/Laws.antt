-- ===== src/Net/Locator/Laws.antt =====
-- What a locator names: a descending list of blocks that starts at the tip and ends at genesis.
use kernel_node.Prelude.{
  ℕ, zero, suc, ◌+◌, ◌-◌, ◌*◌, ◌^◌, ◌≤◌, ◌<◌, ◌≡◌, refl, ap, inr, some, List, ◌∷◌, arith, length,
  get_elem?, nat_eq, [],
}
use kernel_node.Net.Kernel.{Kernel, HasAncestors}
use kernel_node.Net.Download.{BlockHash}
use kernel_node.Net.Locator.{build_block_locators, max_locator_hashes}
use kernel_node.Net.Locator.Heights.{Names, heights, step_after, loop-Names}

-- Each height is below the one before it.
abbrev pub Descends : List ℕ → Type 0
Descends [] = Unit {0}
Descends (h ∷ []) = Unit {0}
Descends (h ∷ k ∷ hs) = (k < h) × Descends (k ∷ hs)

abbrev pub EndsIn : ℕ → List ℕ → Type 0
EndsIn z [] = ⊥
EndsIn z (h ∷ []) = h ≡ z
EndsIn z (h ∷ k ∷ hs) = EndsIn z (k ∷ hs)

length-heights-le : (fuel n current step : ℕ) → length (heights fuel n current step) ≤ fuel
unfolding heights
length-heights-le zero n current step = omega arith
length-heights-le (suc fuel) n current step =
    ground (arith, length-heights-le fuel (n + 1) (current - step) (step_after (n + 1) step))

step_after-pos : (n step : ℕ) → 1 ≤ step → 1 ≤ step_after n step
unfolding step_after
step_after-pos n step h = ground arith

heights-Descends : (fuel n current step : ℕ) → 1 ≤ step → Descends (heights fuel n current step)
unfolding heights
heights-Descends zero n current step h = tt
heights-Descends (suc zero) n current step h = ground arith
heights-Descends (suc (suc fuel)) n current step h = ground (
  arith,
  heights-Descends (suc fuel) (n + 1) (current - step) (step_after (n + 1) step)
      (step_after-pos (n + 1) step h),
)

-- How far `fuel` doubling steps lead.
reach : ℕ → ℕ → ℕ
reach zero step = 0
reach (suc fuel) step = step + reach fuel (step * 2)

heights_sparse :
    (fuel n current step : ℕ)
    → 10 ≤ n
    → n + suc fuel ≡ max_locator_hashes
    → current ≤ reach fuel step
    → EndsIn 0 (heights (suc fuel) n current step)
unfolding heights reach step_after
heights_sparse zero n current step from room near = ground arith
heights_sparse (suc fuel) n current step from room near =
    ground (arith, heights_sparse fuel (n + 1) (current - step) (step * 2))

heights_dense :
    (k fuel n current : ℕ)
    → n + k ≡ 10
    → n + suc fuel ≡ max_locator_hashes
    → current ≤ k + reach 90 1
    → EndsIn 0 (heights (suc fuel) n current 1)
unfolding heights step_after
heights_dense zero fuel n current e room near =
    let e90 : fuel ≡ 90 = omega arith in
    heights_sparse fuel n current 1 (omega arith) room (rw e90 (omega arith))
heights_dense (suc k) zero n current e room near = absurd (omega arith)
heights_dense (suc k) (suc fuel) n current e room near =
    ground (arith, heights_dense k fuel (n + 1) (current - 1))

reach-90 : 2 ^ 30 ≤ reach 90 1
unfolding reach
reach-90 = omega arith

-- One below the other while fewer than twelve are named.
heights-get :
    (k fuel n current : ℕ)
    → n + k ≤ 11
    → k < fuel
    → fuel + n ≤ max_locator_hashes
    → k ≤ current
    → get_elem? (heights fuel n current 1) k ≡ some (current - k)
unfolding heights step_after
heights-get zero zero n current a b room c = absurd (omega arith)
heights-get zero (suc fuel) n current a b room c = ap some (omega arith)
heights-get (suc k) zero n current a b room c = absurd (omega arith)
heights-get (suc zero) (suc zero) n current a b room c = absurd (omega arith)
heights-get (suc zero) (suc (suc fuel)) n current a b room c = ground arith
heights-get (suc (suc k)) (suc fuel) n current a b room c =
    ground (arith, heights-get (suc k) fuel (n + 1) (current - 1))

module _ (𝓚 : Kernel) where
  Names-at :
      (tip : 𝓚.Entry) (k n : ℕ) (hashes : List BlockHash) (hs : List ℕ)
      → Names 𝓚 tip hashes hs
      → get_elem? hs k ≡ some n
      → (a : 𝓚.Entry) × (𝓚.ancestor tip n ≡ some a) × (get_elem? hashes k ≡ some (𝓚.block_hash a))
  Names-at tip k n [] [] ok e = absurd (ground arith)
  Names-at tip k n [] (h ∷ hs) ok e = elim ok [ ]
  Names-at tip k n (b ∷ bs) [] ok e = elim ok [ ]
  Names-at tip zero n (b ∷ bs) (h ∷ hs) ((a, up, at, same), ok) e = (a, ground arith, ground arith)
  Names-at tip (suc k) n (b ∷ bs) (h ∷ hs) (_, ok) e = Names-at tip k n bs hs ok e

  -- Below height 2^30 and where the kernel has an ancestor at each height, a locator is built: the
  -- loop neither overflows nor runs on. It names at most 101 blocks, ancestors of the tip at
  -- heights that fall strictly, and the last is genesis.
  pub build_block_locators-total :
      (L : HasAncestors 𝓚) (tip : 𝓚.Entry)
      → 𝓚.height tip < 2 ^ 30
      → (hashes : List BlockHash) × (hs : List ℕ) × (build_block_locators 𝓚 tip ≡ some hashes)
        × Names 𝓚 tip hashes hs
        × (length hs ≤ max_locator_hashes)
        × Descends hs
        × EndsIn 0 hs
  unfolding build_block_locators
  build_block_locators-total L tip low =
      let top = 𝓚.height tip in
      let (hashes, e, names) =
        loop-Names 𝓚 L 100 0 tip top 1 [] refl low refl (omega arith)
          (omega arith, inr (omega arith)) in
      (
        hashes,
        heights 101 0 top 1,
        e,
        names,
        length-heights-le 101 0 top 1,
        heights-Descends 101 0 top 1 (omega arith),
        heights_dense 10 100 0 top refl refl (omega (arith, reach-90)),
      )

  -- Below height 2^30 and where the kernel has an ancestor at each height, the first twelve hashes of
  -- a locator are those of the tip and its eleven nearest ancestors, one height after the other.
  pub build_block_locators-recent :
      (L : HasAncestors 𝓚) (tip : 𝓚.Entry) (hashes : List BlockHash) (k : ℕ)
      → 𝓚.height tip < 2 ^ 30
      → build_block_locators 𝓚 tip ≡ some hashes
      → k ≤ 11
      → k ≤ 𝓚.height tip
      → (a : 𝓚.Entry) × (𝓚.ancestor tip (𝓚.height tip - k) ≡ some a)
        × (get_elem? hashes k ≡ some (𝓚.block_hash a))
  unfolding build_block_locators
  build_block_locators-recent L tip hashes k low built few high =
      let top = 𝓚.height tip in
      let (hashes', e, names) =
        loop-Names 𝓚 L 100 0 tip top 1 [] refl low refl (omega arith)
          (omega arith, inr (omega arith)) in
      let (a, up, at) =
        Names-at tip k (top - k) hashes' (heights 101 0 top 1) names
          (heights-get k 101 0 top (omega arith) (omega arith) (omega arith) high) in
      (a, up, cc)
