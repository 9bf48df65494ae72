-- ===== src/Wallet/Coins/Marks.antt =====
-- What the loops of `scan_block` and `process_disconnect` do to one coin.
use kernel_node.Prelude.{
  ℕ, ◌≡◌, refl, sym, ap, ◌∙◌, inl, inr, true, false, Option, none, some, List, ◌∷◌, ◌++◌, arith,
  if◌then◌else◌, Bool-cases, ◌==◌, nat_eq, [],
}
use kernel_node.Prelude.HashSet.{contains, contains-append}
use kernel_node.Wallet.Scanning.{outpoint-discrete}
use kernel_node.Prelude.HashMap
use kernel_node.Prelude.HashMap.{HashMap, get-insert}
use kernel_node.Wallet.Scanning.{OutPoint, outpoint_eq, TxIn, Block, Coin, SpentBy}
use kernel_node.Wallet.Coins.{
  insert_all, change, mark_spent, spend_inputs, spend_all, txids, retain_others, unspend,
  unspend_all,
}

-- The function on the coin, if there is one.
abbrev pub on : (Coin → Coin) → Option Coin → Option Coin
on f none = none
on f (some c) = some (f c)

pub get-change :
    (o p : OutPoint) (f : Coin → Coin) (m : HashMap OutPoint Coin)
    → HashMap.get o (change p f m) ≡ (if o == p then on f (HashMap.get o m) else HashMap.get o m)
unfolding change HashMap.get
get-change o p f [] = ground arith
get-change o p f ((q, c) ∷ m) = ground (arith, get-change o p f m)

pub get-retain_others :
    (o : OutPoint) (ids : List ℕ) (m : HashMap OutPoint Coin)
    → HashMap.get o (retain_others ids m) ≡ (if contains o.txid ids then none else HashMap.get o m)
unfolding retain_others HashMap.get
get-retain_others o ids [] = ground arith
get-retain_others o ids ((q, c) ∷ m) = elim (outpoint-discrete o q) [
  | yes same ↦
      ground (arith, get-retain_others o ids m, ap (λ (x : OutPoint). contains x.txid ids) same)
  | no other ↦ ground (arith, get-retain_others o ids m)
]

pub get-unspend_all :
    (o : OutPoint) (ids : List ℕ) (m : HashMap OutPoint Coin)
    → HashMap.get o (unspend_all ids m) ≡ on (unspend ids) (HashMap.get o m)
unfolding unspend_all HashMap.get
get-unspend_all o ids [] = refl
get-unspend_all o ids ((q, c) ∷ m) = ground (arith, get-unspend_all o ids m)

-- Every outpoint found is of one of the transactions.
abbrev pub FoundIn : List ℕ → List (OutPoint × Coin) → Type 0
FoundIn ids [] = Unit {0}
FoundIn ids ((o, c) ∷ found) = (contains o.txid ids ≡ true) × FoundIn ids found

pub get-insert_all :
    (o : OutPoint) (ids : List ℕ) (found : List (OutPoint × Coin)) (m : HashMap OutPoint Coin)
    → FoundIn ids found
    → contains o.txid ids ≡ false
    → HashMap.get o (insert_all found m) ≡ HashMap.get o m
unfolding insert_all
get-insert_all o ids [] m fi far = refl
get-insert_all o ids ((p, c) ∷ found) m (here, fi) far = elim (outpoint-discrete o p) [
  | yes same ↦ absurd (ground (arith, ap (λ (x : OutPoint). contains x.txid ids) same))
  | no other ↦
      ground (arith, get-insert_all o ids found (HashMap.insert p c m) fi far, get-insert p o c m)
]

-- Not spent, or by one of the transactions.
abbrev pub ByOurs : List ℕ → Option SpentBy → Type 0
ByOurs ids none = Unit {0}
ByOurs ids (some s) = contains s.txid ids ≡ true

abbrev pub Undoable : List ℕ → Option Coin → Type 0
Undoable ids none = Unit {0}
Undoable ids (some c) = ByOurs ids c.spent_by

-- What a disconnect makes of such a coin.
unspend-Undoable :
    (ids : List ℕ) (c : Coin) → ByOurs ids c.spent_by → unspend ids c ≡ record c { spent_by = none }
unfolding unspend
unspend-Undoable ids c fits = go c.spent_by refl fits
  where
    go :
        (s : Option SpentBy)
        → c.spent_by ≡ s
        → ByOurs ids s
        → unspend ids c ≡ record c { spent_by = none }
    go none e ours = rw (e, unspend) (ap (λ x. record c { spent_by = x }) e)
    go (some s) e ours = rw (e, unspend) (rw ours refl)

mark_spent-Undoable :
    (ids : List ℕ) (txid h : ℕ) (oc : Option Coin)
    → contains txid ids ≡ true
    → Undoable ids oc
    → Undoable ids (on (mark_spent txid h) oc)
      × (on (unspend ids) (on (mark_spent txid h) oc) ≡ on (unspend ids) oc)
mark_spent-Undoable ids txid h none ours fits = (tt, refl)
mark_spent-Undoable ids txid h (some c) ours fits = (
  ours,
  ap some (unspend-Undoable ids (mark_spent txid h c) ours ∙ sym (unspend-Undoable ids c fits)),
)

change-Undoable :
    (o p : OutPoint) (ids : List ℕ) (txid h : ℕ) (m : HashMap OutPoint Coin)
    → contains txid ids ≡ true
    → Undoable ids (HashMap.get o m)
    → Undoable ids (HashMap.get o (change p (mark_spent txid h) m))
      × (on (unspend ids) (HashMap.get o (change p (mark_spent txid h) m))
          ≡ on (unspend ids) (HashMap.get o m))
change-Undoable o p ids txid h m ours fits =
    rw (get-change o p (mark_spent txid h) m) (elim (Bool-cases (o == p)) [
      | inl same ↦ rw same (mark_spent-Undoable ids txid h (HashMap.get o m) ours fits)
      | inr other ↦ rw other (fits, refl)
    ])

spend_inputs-Undoable :
    (o : OutPoint) (ids : List ℕ) (txid h : ℕ) (inputs : List TxIn) (m : HashMap OutPoint Coin)
    → contains txid ids ≡ true
    → Undoable ids (HashMap.get o m)
    → Undoable ids (HashMap.get o (spend_inputs txid h inputs m))
      × (on (unspend ids) (HashMap.get o (spend_inputs txid h inputs m))
          ≡ on (unspend ids) (HashMap.get o m))
unfolding spend_inputs
spend_inputs-Undoable o ids txid h [] m ours fits = (fits, refl)
spend_inputs-Undoable o ids txid h (input ∷ inputs) m ours fits =
    let (fits', same) = change-Undoable o input.outpoint ids txid h m ours fits in
    let (fits'', same') =
      spend_inputs-Undoable o ids txid h inputs (change input.outpoint (mark_spent txid h) m) ours
        fits' in
    (fits'', same' ∙ same)

-- All transactions of the second list are named in the first.
abbrev pub AllNamed : List ℕ → Block → Type 0
AllNamed ids [] = Unit {0}
AllNamed ids (tx ∷ txs) = (contains tx.txid ids ≡ true) × AllNamed ids txs

pub spend_all-Undoable :
    (o : OutPoint) (ids : List ℕ) (h : ℕ) (block : Block) (m : HashMap OutPoint Coin)
    → AllNamed ids block
    → Undoable ids (HashMap.get o m)
    → on (unspend ids) (HashMap.get o (spend_all h block m)) ≡ on (unspend ids) (HashMap.get o m)
unfolding spend_all
spend_all-Undoable o ids h [] m named fits = refl
spend_all-Undoable o ids h (tx ∷ txs) m (ours, named) fits =
    let (fits', same) = spend_inputs-Undoable o ids tx.txid h tx.inputs m ours fits in
    spend_all-Undoable o ids h txs (spend_inputs tx.txid h tx.inputs m) named fits' ∙ same

AllNamed-cons :
    (id : ℕ) (ids : List ℕ) (block : Block) → AllNamed ids block → AllNamed (id ∷ ids) block
unfolding contains
AllNamed-cons id ids [] named = tt
AllNamed-cons id ids (tx ∷ txs) (ours, named) = (ground arith, AllNamed-cons id ids txs named)

pub AllNamed-txids : (block : Block) → AllNamed (txids block) block
unfolding contains
AllNamed-txids [] = tt
AllNamed-txids (tx ∷ txs) =
    (ground arith, AllNamed-cons tx.txid (txids txs) txs (AllNamed-txids txs))

-- The outpoints that the inputs name.
unfoldable pub spent_outpoints : List TxIn → List OutPoint
spent_outpoints [] = []
spent_outpoints (input ∷ inputs) = input.outpoint ∷ spent_outpoints inputs

unfoldable pub spent_in : Block → List OutPoint
spent_in [] = []
spent_in (tx ∷ txs) = spent_outpoints tx.inputs ++ spent_in txs

get-spend_inputs :
    (o : OutPoint) (txid h : ℕ) (inputs : List TxIn) (m : HashMap OutPoint Coin)
    → contains o (spent_outpoints inputs) ≡ false
    → HashMap.get o (spend_inputs txid h inputs m) ≡ HashMap.get o m
unfolding spend_inputs spent_outpoints contains
get-spend_inputs o txid h [] m far = refl
get-spend_inputs o txid h (input ∷ inputs) m far = ground (
  arith,
  get-spend_inputs o txid h inputs (change input.outpoint (mark_spent txid h) m),
  get-change o input.outpoint (mark_spent txid h) m,
)

pub get-spend_all :
    (o : OutPoint) (h : ℕ) (block : Block) (m : HashMap OutPoint Coin)
    → contains o (spent_in block) ≡ false
    → HashMap.get o (spend_all h block m) ≡ HashMap.get o m
unfolding spend_all spent_in contains
get-spend_all o h [] m far = refl
get-spend_all o h (tx ∷ txs) m far = ground (
  arith,
  get-spend_all o h txs (spend_inputs tx.txid h tx.inputs m),
  get-spend_inputs o tx.txid h tx.inputs m,
  contains-append o (spent_outpoints tx.inputs) (spent_in txs),
)
