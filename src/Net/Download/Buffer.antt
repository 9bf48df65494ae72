-- ===== src/Net/Download/Buffer.antt =====
-- `take_connectable` of src/net/peer.rs: which buffered block is validated next.
use kernel_node.Prelude.{
  ℕ, zero, suc, ◌≤◌, ◌≡◌, refl, ◌≢◌, ◌⊎◌, inl, inr, Bool, true, false, not, Option, none, some,
  List, ◌∷◌, map, arith, ℕ_discrete, Option-cases, nat_eq, [],
}
use kernel_node.Prelude.HashSet.{contains, contains-extend}
use mathlib.Core.Bool.{false≢true}
use kernel_node.Prelude.HashMap
use kernel_node.Prelude.HashMap.{HashMap, keys, values}
use kernel_node.Net.Download.{
  BlockHash, DownloadState, find, buffered_hashes, buffer_head, take_buffered, take_connectable,
}

module _ (p : BlockHash → Bool) where
  find-contains :
      (xs : List BlockHash) (a : BlockHash)
      → find p xs ≡ some a
      → (p a ≡ true) × (contains a xs ≡ true)
  unfolding find contains
  find-contains [] a e = cc
  find-contains (x ∷ xs) a e = ground (arith, find-contains xs a)

  find-none :
      (xs : List BlockHash) (a : BlockHash) → find p xs ≡ none → contains a xs ≡ true → p a ≡ false
  unfolding find contains
  find-none [] a e h = cc
  find-none (x ∷ xs) a e h = ground (arith, find-none xs a)

module _ {V : Type 0} where
  get_of_key :
      (k : BlockHash) (m : HashMap BlockHash V)
      → contains k (keys m) ≡ true
      → HashMap.get k m ≢ none
  unfolding contains HashMap.get
  get_of_key k [] e = cc
  get_of_key k ((j, v) ∷ m) e = ground (arith, get_of_key k m)

  module _ (hash : V → BlockHash) where
    contains-values :
        (k : BlockHash) (v : V) (m : HashMap BlockHash V)
        → HashMap.get k m ≡ some v
        → contains (hash v) (map hash (values m)) ≡ true
    unfolding contains HashMap.get
    contains-values k v [] e = cc
    contains-values k v ((j, w) ∷ m) e = ground (arith, contains-values k v m)

    -- Blocks stand one above their parents.
    abbrev pub Grows : (BlockHash → ℕ) → HashMap BlockHash V → Type 0
    Grows height [] = Unit {0}
    Grows height ((prev, v) ∷ m) = (height (hash v) ≡ suc (height prev)) × Grows height m

    lower_key :
        (height : BlockHash → ℕ) (b : BlockHash) (m : HashMap BlockHash V)
        → Grows height m
        → contains b (map hash (values m)) ≡ true
        → (k : BlockHash) × (contains k (keys m) ≡ true) × (height b ≡ suc (height k))
    unfolding contains
    lower_key height b [] g e = absurd (false≢true e)
    lower_key height b ((j, w) ∷ m) (g, gs) e = elim (ℕ_discrete b (hash w)) [
      | yes same ↦ (j, ground arith, ground arith)
      | no other ↦ let (k, old, h) = lower_key height b m gs (ground arith) in (k, ground arith, h)
    ]

    no_key_below :
        (height : BlockHash → ℕ) (m : HashMap BlockHash V)
        → Grows height m
        → ((k : BlockHash) → contains k (keys m) ≡ true → contains k (map hash (values m)) ≡ true)
        → (n : ℕ) (k : BlockHash) → contains k (keys m) ≡ true
        → n ≤ height k
    no_key_below height m g closed zero k h = omega arith
    no_key_below height m g closed (suc n) k h =
        let (j, here, e) = lower_key height k m g (closed k h) in
        let below = no_key_below height m g closed n j here in omega arith

module _ {B : Type 0} (hash : B → BlockHash) where
  contains-buffered_hashes :
      (d : DownloadState B) (b : BlockHash)
      → contains b (buffered_hashes hash d) ≡ contains b (map hash (values d.buffer))
  unfolding buffered_hashes contains
  contains-buffered_hashes d b = ground (arith, contains-extend b [] (map hash (values d.buffer)))

  headless_closed :
      (d : DownloadState B) (k : BlockHash)
      → buffer_head hash d ≡ none
      → contains k (keys d.buffer) ≡ true
      → contains k (map hash (values d.buffer)) ≡ true
  unfolding buffer_head
  headless_closed d k e h = ground (
    arith,
    contains-buffered_hashes d k,
    find-none (λ prev. not (contains prev (buffered_hashes hash d))) (keys d.buffer) k,
  )

  buffer_head-ne-none :
      (height : BlockHash → ℕ) (d : DownloadState B)
      → Grows hash height d.buffer
      → d.buffer ≢ []
      → buffer_head hash d ≢ none
  buffer_head-ne-none height d g full e = first d.buffer refl
    where
      first : (m : HashMap BlockHash B) → d.buffer ≡ m → ⊥
      first [] q = full q
      first ((k, v) ∷ m) q =
          absurd (omega (arith, no_low (suc (height k)) k (rw q (unfold contains in ground arith))))
        where
          no_low : (n : ℕ) (k : BlockHash) → contains k (keys d.buffer) ≡ true → n ≤ height k
          no_low = no_key_below hash height d.buffer g (λ j. headless_closed d j e)

  headed :
      (d : DownloadState B) (prev : BlockHash)
      → buffer_head hash d ≡ some prev
      → contains prev (buffered_hashes hash d) ≡ false
  unfolding buffer_head
  headed d prev e =
      ground (
        arith,
        find-contains (λ k. not (contains k (buffered_hashes hash d))) (keys d.buffer) prev e,
      )

  abbrev IsBuffered : DownloadState B → Option BlockHash → Type 0
  IsBuffered d none = Unit {0}
  IsBuffered d (some prev) = HashMap.get prev d.buffer ≢ none

  found-IsBuffered :
      (p : BlockHash → Bool) (d : DownloadState B) → IsBuffered d (find p (keys d.buffer))
  found-IsBuffered p d = go (find p (keys d.buffer)) refl
    where
      go : (o : Option BlockHash) → find p (keys d.buffer) ≡ o → IsBuffered d o
      go none e = tt
      go (some prev) e = get_of_key prev d.buffer (find-contains p (keys d.buffer) prev e).1

  head-IsBuffered : (d : DownloadState B) → IsBuffered d (buffer_head hash d)
  unfolding buffer_head
  head-IsBuffered d = found-IsBuffered (λ k. not (contains k (buffered_hashes hash d))) d

  -- What `take_connectable` hands out was buffered and leaves the buffer, and nothing else changes.
  -- Its parent is on the active chain; or no buffered block has its parent there, the queue is empty,
  -- no block is in flight, and no buffered block is its parent.
  pub take_connectable-some :
      (d : DownloadState B) (is_connected : BlockHash → Bool) (block : B)
      → (take_connectable hash d is_connected).0 ≡ some block
      → (prev : BlockHash) × (HashMap.get prev d.buffer ≡ some block)
        × ((take_connectable hash d is_connected).1
            ≡ record d { buffer = HashMap.remove prev d.buffer })
        × ((is_connected prev ≡ true)
            ⊎ ((d.queue ≡ [])
                × (d.in_flight ≡ [])
                × (find is_connected (keys d.buffer) ≡ none)
                × (contains prev (buffered_hashes hash d) ≡ false)))
  unfolding take_connectable take_buffered
  take_connectable-some d is_connected block e =
      elim (Option-cases (find is_connected (keys d.buffer))) [
        | inr (prev, hit) ↦ (
          prev,
          ground arith,
          ground arith,
          inl (find-contains is_connected (keys d.buffer) prev hit).0,
        )
        | inl missing ↦ elim (Option-cases (buffer_head hash d)) [
          | inl headless ↦ absurd (ground arith)
          | inr (prev, head) ↦ (
            prev,
            ground arith,
            ground arith,
            inr (ground arith, ground arith, missing, headed d prev head),
          )
        ]
      ]

  -- Nothing is handed out only if no buffered block has its parent on the active chain.
  pub take_connectable-none :
      (d : DownloadState B) (is_connected : BlockHash → Bool) (prev : BlockHash)
      → (take_connectable hash d is_connected).0 ≡ none
      → contains prev (keys d.buffer) ≡ true
      → (is_connected prev ≡ false) × ((take_connectable hash d is_connected).1 ≡ d)
  unfolding take_connectable take_buffered
  take_connectable-none d is_connected prev e h = ground (
    arith,
    find-none is_connected (keys d.buffer) prev,
    found-IsBuffered is_connected d,
    head-IsBuffered d,
  )

  -- Once no peer owes a block and none is left to ask for, a buffer that holds blocks yields one,
  -- also if all of it is a competing branch. The blocks stand in a tree: each is one above its parent.
  pub take_connectable_idle :
      (height : BlockHash → ℕ) (d : DownloadState B) (is_connected : BlockHash → Bool)
      → Grows hash height d.buffer
      → d.queue ≡ []
      → d.in_flight ≡ []
      → d.buffer ≢ []
      → (take_connectable hash d is_connected).0 ≢ none
  unfolding take_connectable take_buffered
  take_connectable_idle height d is_connected g no_queue no_flight full = ground (
    arith,
    buffer_head-ne-none height d g full,
    found-IsBuffered is_connected d,
    head-IsBuffered d,
  )

  pub in_flight-take_connectable :
      (d : DownloadState B) (is_connected : BlockHash → Bool)
      → (take_connectable hash d is_connected).1.in_flight ≡ d.in_flight
  unfolding take_connectable take_buffered
  in_flight-take_connectable d is_connected = ground arith
