-- ===== src/Net/Download/Requeue.antt =====
-- `requeue_unreceived` of src/net/peer.rs: the blocks that a lost peer owed.
use kernel_node.Prelude.{
  ℕ, ◌+◌, ◌≤◌, ◌≡◌, refl, sym, ap, ◌∙◌, ◌⊎◌, true, false, List, ◌∷◌, ◌++◌, arith, length,
  length-append, if◌then◌else◌, nat_eq, [],
}
use kernel_node.Net.Download.{
  BlockHash, requeue_loop, claim_loop, requeue_unreceived, claim, DownloadState, is_empty,
  pop_batch,
}
use kernel_node.Prelude.HashSet.{contains, insert, delete, contains-delete}
use kernel_node.Net.Download.Batches.{contains-claim_loop, pop_batch-claims_prefix}

contains-requeue_loop :
    (b : BlockHash) (inventory queue fl : List BlockHash)
    → contains b (requeue_loop inventory queue fl).0
      ≡ (if contains b inventory then true else contains b queue)
unfolding requeue_loop contains
contains-requeue_loop b [] queue fl = refl
contains-requeue_loop b (h ∷ inventory) queue fl =
    ground (arith, contains-requeue_loop b inventory (h ∷ queue) (delete h fl))

contains-requeue_loop_flight :
    (b : BlockHash) (inventory queue fl : List BlockHash)
    → contains b (requeue_loop inventory queue fl).1
      ≡ (if contains b inventory then false else contains b fl)
unfolding requeue_loop contains
contains-requeue_loop_flight b [] queue fl = refl
contains-requeue_loop_flight b (h ∷ inventory) queue fl = ground (
  arith,
  contains-requeue_loop_flight b inventory (h ∷ queue) (delete h fl),
  contains-delete h b fl,
)

-- What the loop puts before the queue.
requeued : List BlockHash → List BlockHash → List BlockHash
requeued [] front = front
requeued (h ∷ inventory) front = requeued inventory (h ∷ front)

requeue_loop-append :
    (inventory front queue fl : List BlockHash)
    → (requeue_loop inventory (front ++ queue) fl).0 ≡ requeued inventory front ++ queue
unfolding requeue_loop requeued
requeue_loop-append [] front queue fl = refl
requeue_loop-append (h ∷ inventory) front queue fl =
    requeue_loop-append inventory (h ∷ front) queue (delete h fl)

length-requeued :
    (inventory front : List BlockHash)
    → length (requeued inventory front) ≡ length inventory + length front
unfolding requeued
length-requeued [] front = omega arith
length-requeued (h ∷ inventory) front = omega (arith, length-requeued inventory (h ∷ front))

contains-requeued :
    (b : BlockHash) (inventory front : List BlockHash)
    → contains b (requeued inventory front)
      ≡ (if contains b inventory then true else contains b front)
unfolding requeued contains
contains-requeued b [] front = refl
contains-requeued b (h ∷ inventory) front =
    ground (arith, contains-requeued b inventory (h ∷ front))

contains_longer_prefix :
    (b : BlockHash) (xs ys ps qs : List BlockHash)
    → xs ++ ys ≡ ps ++ qs
    → length xs ≤ length ps
    → contains b xs ≡ true
    → contains b ps ≡ true
unfolding contains
contains_longer_prefix b [] ys ps qs e l h = cc
contains_longer_prefix b (x ∷ xs) ys [] qs e l h = absurd (omega arith)
contains_longer_prefix b (x ∷ xs) ys (p ∷ ps) qs e l h =
    ground (arith, contains_longer_prefix b xs ys ps qs)

prefix_covers :
    (xs ys ps qs : List BlockHash) (size : ℕ)
    → xs ++ ys ≡ ps ++ qs
    → (qs ≡ []) ⊎ (size ≤ length ps)
    → length xs ≤ size
    → length xs ≤ length ps
prefix_covers xs ys ps qs size e stop fits =
    ground (arith, ap length e, length-append xs ys, length-append ps qs)

length-claim_loop-le : (hs fl : List BlockHash) → length (claim_loop hs fl).0 ≤ length hs
unfolding claim_loop
length-claim_loop-le [] fl = omega arith
length-claim_loop-le (h ∷ hs) fl = ground (arith, length-claim_loop-le hs (insert h fl).1)

is_empty-contains :
    (b : BlockHash) (hs : List BlockHash) → contains b hs ≡ true → is_empty hs ≡ false
unfolding contains
is_empty-contains b [] h = cc
is_empty-contains b (x ∷ hs) h = refl

module _ {B : Type 0} where
  -- Giving an inventory back puts every hash of it in the queue and takes every hash of it out of
  -- flight; other hashes stay as they were, and so does the buffer.
  pub requeue_unreceived_lem :
      (d : DownloadState B) (inventory : List BlockHash)
      → ((b : BlockHash)
          → (contains b (requeue_unreceived d inventory).queue
              ≡ (if contains b inventory then true else contains b d.queue))
            × (contains b (requeue_unreceived d inventory).in_flight
                ≡ (if contains b inventory then false else contains b d.in_flight)))
        × ((requeue_unreceived d inventory).buffer ≡ d.buffer)
  unfolding requeue_unreceived contains
  requeue_unreceived_lem d [] = (λ b. (refl, refl), refl)
  requeue_unreceived_lem d (h ∷ hs) = (
    λ b. (
      contains-requeue_loop b (h ∷ hs) d.queue d.in_flight,
      contains-requeue_loop_flight b (h ∷ hs) d.queue d.in_flight,
    ),
    refl,
  )

  requeue_unreceived-queue :
      (d : DownloadState B) (inventory : List BlockHash)
      → (requeue_unreceived d inventory).queue ≡ requeued inventory [] ++ d.queue
  unfolding requeue_unreceived requeued
  requeue_unreceived-queue d [] = refl
  requeue_unreceived-queue d (h ∷ hs) = requeue_loop-append (h ∷ hs) [] d.queue d.in_flight

  -- A block that a lost peer owed is asked for again with the very next batch, if that batch may be
  -- as large as the inventory given back.
  pub pop_batch-requeue_unreceived :
      (d : DownloadState B) (inventory : List BlockHash) (size : ℕ) (b : BlockHash)
      → length inventory ≤ size
      → contains b inventory ≡ true
      → contains b (pop_batch (requeue_unreceived d inventory) size).0 ≡ true
  unfolding claim
  pop_batch-requeue_unreceived d inventory size b fits owed =
      let d' = requeue_unreceived d inventory in
      let (prefix, split, batch, _, _, _, stop) = pop_batch-claims_prefix d' size in
      let whole = sym (requeue_unreceived-queue d inventory) ∙ split in
      let long =
        prefix_covers (requeued inventory []) d.queue prefix (pop_batch d' size).1.queue size whole
          (ground (arith, length-claim_loop-le prefix d'.in_flight))
          (omega (arith, length-requeued inventory [])) in
      let here =
        contains_longer_prefix b (requeued inventory []) d.queue prefix (pop_batch d' size).1.queue
          whole long (contains-requeued b inventory [] ∙ rw owed) in
      ground
        (arith, (requeue_unreceived_lem d inventory).0 b, contains-claim_loop b prefix d'.in_flight)
