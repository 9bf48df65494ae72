-- ===== src/Wallet/Sending/Free.antt =====
-- crates/wallet/src/silentpayments/sending.rs: the coins that are free to be spent, and what the
-- choice of coins is documented to do.
use kernel_node.Prelude.{
  ℕ, All, ◌+◌, ◌≤◌, ◌≡◌, refl, inl, inr, true, false, not, ◌&&◌, Option, none, some, List, ◌∷◌, map,
  arith, Bool-cases, nat_eq, [],
}
use kernel_node.Prelude.Reader.{ok}
use kernel_node.Prelude.HashSet.{contains}
use kernel_node.Prelude.HashMap
use kernel_node.Prelude.HashMap.{HashMap, IsTable}
use kernel_node.Prelude.Choices.{IsDistinct, total}
use kernel_node.Wallet.Scanning.{OutPoint, outpoint_eq, Coin, TxOut, SilentPayments}
use kernel_node.Wallet.Coins.{Wallet, is_unspent}
use kernel_node.Wallet.Keys.{KeyMaking}
use kernel_node.Wallet.Sending.{
  SpendableCoin, Target, ChangePolicy, Spending, coin_values, spendable_coins,
}
use mathlib.Core.List.{Sublistᴰ, Permᴰ}

abbrev pub coin_value : SpendableCoin → ℕ
coin_value c = c.coin.value

abbrev pub coin_outpoint : SpendableCoin → OutPoint
coin_outpoint c = c.outpoint

abbrev pub change_value : Option ℕ → ℕ
change_value none = 0
change_value (some value) = value

-- What bdk_coin_select and rand document: a selection picks some of the coins, in their order, a
-- selection that is found covers the target and the change drained from it, and a shuffle permutes.
pub record HasSelection (𝓢 : SilentPayments) (𝓚 : KeyMaking 𝓢) (𝓣 : Spending 𝓢 𝓚) : Type 0 where
  pub applied :
      (s : 𝓣.Selection) (coins : List SpendableCoin) → Sublistᴰ (𝓣.apply_selection s coins) coins
  pub bnb_covers :
      (coins : List SpendableCoin) (t : Target 𝓣.FeeRate) (p : ChangePolicy 𝓣.FeeRate)
      (f : 𝓣.FeeRate) (rounds : ℕ) (s : 𝓣.Selection)
      → 𝓣.run_bnb (coin_values coins) t p f rounds ≡ some s
      → t.amount + change_value (𝓣.drain (coin_values coins) s t p)
        ≤ total coin_value (𝓣.apply_selection s coins)
  pub greedy_covers :
      (coins : List SpendableCoin) (t : Target 𝓣.FeeRate) (p : ChangePolicy 𝓣.FeeRate)
      (s : 𝓣.Selection)
      → 𝓣.select_until_target_met (coin_values coins) t ≡ ok s
      → t.amount + change_value (𝓣.drain (coin_values coins) s t p)
        ≤ total coin_value (𝓣.apply_selection s coins)
  pub coins_shuffled : (coins : List SpendableCoin) → Permᴰ (𝓣.shuffle_coins coins) coins
  pub outputs_shuffled : (outputs : List TxOut) → Permᴰ (𝓣.shuffle_outputs outputs) outputs

abbrev pub output_total : List TxOut → ℕ
output_total = total (λ out. out.value)

-- What the coins at these outpoints are worth.
unfoldable pub worth : HashMap OutPoint Coin → List OutPoint → ℕ
worth utxos [] = 0
worth utxos (o ∷ outpoints) =
    (elim (HashMap.get o utxos) [ none ↦ 0 | some c ↦ c.value ]) + worth utxos outpoints

module _ (𝓢 : SilentPayments) where
  abbrev pub IsSpendable : Wallet 𝓢 → OutPoint → Type 0
  IsSpendable w o =
      (c : Coin) × (HashMap.get o w.utxos ≡ some c)
      × (is_unspent c ≡ true)
      × (contains o w.reserved ≡ false)

-- A coin of the wallet that may be spent.
abbrev pub IsFree : List OutPoint → HashMap OutPoint Coin → SpendableCoin → Type 0
IsFree reserved utxos c =
    (HashMap.get c.outpoint utxos ≡ some c.coin)
    × (is_unspent c.coin ≡ true)
    × (contains c.outpoint reserved ≡ false)

absent-Free :
    (reserved : List OutPoint) (o : OutPoint) (coin : Coin) (utxos : HashMap OutPoint Coin)
    (coins : List SpendableCoin)
    → HashMap.get o utxos ≡ none
    → All (IsFree reserved utxos) coins
    → All (IsFree reserved ((o, coin) ∷ utxos)) coins
unfolding HashMap.get
absent-Free reserved o coin utxos [] absent h = tt
absent-Free reserved o coin utxos (c ∷ coins) absent ((found, unspent, free), h) = (
  (ground (arith, found, absent), unspent, free),
  absent-Free reserved o coin utxos coins absent h,
)

pub spendable_coins-Free :
    (reserved : List OutPoint) (utxos : HashMap OutPoint Coin)
    → IsTable utxos
    → All (IsFree reserved utxos) (spendable_coins reserved utxos)
unfolding spendable_coins HashMap.get
spendable_coins-Free reserved [] h = tt
spendable_coins-Free reserved ((o, coin) ∷ utxos) (absent, h) =
    let rest = absent-Free reserved o coin utxos _ absent (spendable_coins-Free reserved utxos h) in
    elim (Bool-cases (is_unspent coin && not (contains o reserved))) [
      | inr left ↦ rw left rest
      | inl chosen ↦
          rw chosen ((ground (arith, chosen), ground (arith, chosen), ground (arith, chosen)), rest)
    ]

absent-outpoints :
    (reserved : List OutPoint) (o : OutPoint) (utxos : HashMap OutPoint Coin)
    → HashMap.get o utxos ≡ none
    → contains o (map coin_outpoint (spendable_coins reserved utxos)) ≡ false
unfolding spendable_coins HashMap.get contains
absent-outpoints reserved o [] h = refl
absent-outpoints reserved o ((p, coin) ∷ utxos) h =
    ground (arith, absent-outpoints reserved o utxos, h)

pub spendable_coins-IsDistinct :
    (reserved : List OutPoint) (utxos : HashMap OutPoint Coin)
    → IsTable utxos
    → IsDistinct (map coin_outpoint (spendable_coins reserved utxos))
unfolding spendable_coins
spendable_coins-IsDistinct reserved [] h = tt
spendable_coins-IsDistinct reserved ((o, coin) ∷ utxos) (absent, h) =
    let rest = spendable_coins-IsDistinct reserved utxos h in
    elim (Bool-cases (is_unspent coin && not (contains o reserved))) [
      | inr left ↦ rw left rest
      | inl chosen ↦ rw chosen (absent-outpoints reserved o utxos absent, rest)
    ]
