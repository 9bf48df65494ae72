-- ===== src/Net/Download/Batches.antt =====
-- `pop_batch` and `claim` of src/net/peer.rs: which blocks a peer asks for.
use mathlib.Core.List.{append-nil, append_assoc}
use kernel_node.Prelude.{
  ℕ, ◌≤◌, ◌++◌, ◌≡◌, refl, ◌⊎◌, inl, true, false, List, ◌∷◌, arith, length, length-append, ltb,
  if◌then◌else◌, nat_eq, [],
}
use kernel_node.Prelude.HashSet.{contains, insert, contains-insert, contains-append}
use kernel_node.Net.Download.{BlockHash, DownloadState, pop_loop, claim_loop, pop_batch, claim}

-- No hash twice.
abbrev pub Distinct : List BlockHash → Type 0
Distinct [] = Unit {0}
Distinct (h ∷ hs) = (contains h hs ≡ false) × Distinct hs

-- After a claim every hash of it is in flight.
contains-claim_loop_flight :
    (b : BlockHash) (hs fl : List BlockHash)
    → contains b (claim_loop hs fl).1 ≡ (if contains b hs then true else contains b fl)
unfolding claim_loop contains
contains-claim_loop_flight b [] fl = refl
contains-claim_loop_flight b (h ∷ hs) fl =
    ground (arith, contains-claim_loop_flight b hs (insert h fl).1, contains-insert h b fl)

-- What a claim hands out was not in flight before.
pub contains-claim_loop :
    (b : BlockHash) (hs fl : List BlockHash)
    → contains b (claim_loop hs fl).0 ≡ (if contains b fl then false else contains b hs)
unfolding claim_loop contains
contains-claim_loop b [] fl = ground arith
contains-claim_loop b (h ∷ hs) fl =
    ground (arith, contains-claim_loop b hs (insert h fl).1, contains-insert h b fl)

claim_loop-Distinct : (hs fl : List BlockHash) → Distinct (claim_loop hs fl).0
unfolding claim_loop contains
claim_loop-Distinct [] fl = tt
claim_loop-Distinct (h ∷ hs) fl = ground (
  arith,
  claim_loop-Distinct hs (insert h fl).1,
  contains-claim_loop h hs (insert h fl).1,
  contains-insert h h fl,
)

-- The part of the queue that `pop_loop` takes off.
taken : ℕ → List BlockHash → List BlockHash → List BlockHash → List BlockHash
taken size batch [] fl = []
taken size batch (h ∷ queue) fl =
    let (fresh, fl') = insert h fl in
    let batch' = if fresh then batch ++ h ∷ [] else batch in
    if ltb (length batch) size then h ∷ taken size batch' queue fl' else []

taken-append :
    (size : ℕ) (batch queue fl : List BlockHash)
    → queue ≡ taken size batch queue fl ++ (pop_loop size batch queue fl).1
unfolding pop_loop taken
taken-append size batch [] fl = refl
taken-append size batch (h ∷ queue) fl =
    let (fresh, fl') = insert h fl in
    ground (arith, taken-append size (if fresh then batch ++ h ∷ [] else batch) queue fl')

pop_loop-flight :
    (size : ℕ) (batch queue fl : List BlockHash)
    → (pop_loop size batch queue fl).2 ≡ (claim_loop (taken size batch queue fl) fl).1
unfolding pop_loop taken claim_loop
pop_loop-flight size batch [] fl = refl
pop_loop-flight size batch (h ∷ queue) fl =
    let (fresh, fl') = insert h fl in
    ground (arith, pop_loop-flight size (if fresh then batch ++ h ∷ [] else batch) queue fl')

pop_loop-batch :
    (size : ℕ) (batch queue fl : List BlockHash)
    → (pop_loop size batch queue fl).0 ≡ batch ++ (claim_loop (taken size batch queue fl) fl).0
unfolding pop_loop taken claim_loop
pop_loop-batch size batch [] fl = rw append-nil
pop_loop-batch size batch (h ∷ queue) fl =
    let (fresh, fl') = insert h fl in
    let batch' = if fresh then batch ++ h ∷ [] else batch in
    let rest = (claim_loop (taken size batch' queue fl') fl').0 in
    ground (
      arith,
      append-nil batch,
      append_assoc batch (h ∷ []) rest,
      pop_loop-batch size batch' queue fl',
    )

length-pop_loop-le :
    (size : ℕ) (batch queue fl : List BlockHash)
    → length batch ≤ size
    → length (pop_loop size batch queue fl).0 ≤ size
unfolding pop_loop
length-pop_loop-le size batch [] fl h = h
length-pop_loop-le size batch (x ∷ queue) fl h =
    let (fresh, fl') = insert x fl in
    ground (
      arith,
      length-append batch (x ∷ []),
      length-pop_loop-le size (if fresh then batch ++ x ∷ [] else batch) queue fl',
    )

pop_loop_stops :
    (size : ℕ) (batch queue fl : List BlockHash)
    → ((pop_loop size batch queue fl).1 ≡ []) ⊎ (size ≤ length (pop_loop size batch queue fl).0)
unfolding pop_loop
pop_loop_stops size batch [] fl = inl refl
pop_loop_stops size batch (x ∷ queue) fl =
    let (fresh, fl') = insert x fl in
    ground (arith, pop_loop_stops size (if fresh then batch ++ x ∷ [] else batch) queue fl')

module _ {B : Type 0} where
  -- `pop_batch` takes a prefix off the queue and leaves the rest, in order; it claims that prefix,
  -- so the batch is what of it was not in flight; the batch has at most `size` hashes, and fewer
  -- only if the queue ran out; the buffer is untouched.
  pub pop_batch-claims_prefix :
      (d : DownloadState B) (size : ℕ)
      → (prefix : List BlockHash) × (d.queue ≡ prefix ++ (pop_batch d size).1.queue)
        × ((pop_batch d size).0 ≡ (claim d prefix).0)
        × ((pop_batch d size).1.in_flight ≡ (claim d prefix).1.in_flight)
        × ((pop_batch d size).1.buffer ≡ d.buffer)
        × (length (pop_batch d size).0 ≤ size)
        × (((pop_batch d size).1.queue ≡ []) ⊎ (length (pop_batch d size).0 ≡ size))
  unfolding pop_batch claim
  pop_batch-claims_prefix d size = (
    taken size [] d.queue d.in_flight,
    taken-append size [] d.queue d.in_flight,
    pop_loop-batch size [] d.queue d.in_flight,
    pop_loop-flight size [] d.queue d.in_flight,
    refl,
    length-pop_loop-le size [] d.queue d.in_flight (omega arith),
    ground (
      arith,
      pop_loop_stops size [] d.queue d.in_flight,
      length-pop_loop-le size [] d.queue d.in_flight,
    ),
  )

  -- A claim hands out each hash at most once, exactly those of the list that were not in flight,
  -- and marks the whole list as in flight; nothing else changes.
  pub claim_lem :
      (d : DownloadState B) (hashes : List BlockHash)
      → Distinct (claim d hashes).0
        × ((b : BlockHash)
            → (contains b (claim d hashes).0
                ≡ (if contains b d.in_flight then false else contains b hashes))
              × (contains b (claim d hashes).1.in_flight
                  ≡ (if contains b hashes then true else contains b d.in_flight)))
        × ((claim d hashes).1.queue ≡ d.queue)
        × ((claim d hashes).1.buffer ≡ d.buffer)
  unfolding claim
  claim_lem d hashes = (
    claim_loop-Distinct hashes d.in_flight,
    λ b.
        (contains-claim_loop b hashes d.in_flight, contains-claim_loop_flight b hashes d.in_flight),
    refl,
    refl,
  )

  -- A batch goes into flight, and nothing leaves it.
  pub contains-pop_batch :
      (d : DownloadState B) (size : ℕ) (b : BlockHash)
      → contains b (pop_batch d size).1.in_flight
        ≡ (if contains b (pop_batch d size).0 then true else contains b d.in_flight)
  unfolding claim
  contains-pop_batch d size b =
      let (prefix, _, batch, flight, _, _, _) = pop_batch-claims_prefix d size in
      let (_, claims, _, _) = claim_lem d prefix in
      let (handed, marked) = claims b in rw (batch, flight) (ground arith)

  -- A batch holds nothing that was in flight.
  pub pop_batch_fresh :
      (d : DownloadState B) (size : ℕ) (b : BlockHash)
      → contains b (pop_batch d size).0 ≡ true
      → contains b d.in_flight ≡ false
  unfolding claim
  pop_batch_fresh d size b =
      let (prefix, _, batch, _, _, _, _) = pop_batch-claims_prefix d size in
      rw batch (ground (arith, (claim_lem d prefix).1 b))

  -- A batch comes from the queue.
  pub pop_batch_queued :
      (d : DownloadState B) (size : ℕ) (b : BlockHash)
      → contains b (pop_batch d size).0 ≡ true
      → contains b d.queue ≡ true
  unfolding claim
  pop_batch_queued d size b h =
      let (prefix, split, batch, _, _, _, _) = pop_batch-claims_prefix d size in
      rw split (
        ground (
          arith,
          (claim_lem d prefix).1 b,
          rw batch at h,
          contains-append b prefix (pop_batch d size).1.queue,
        ))
