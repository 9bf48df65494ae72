-- ===== src/Net/Download.antt =====
-- `DownloadState` of src/net/peer.rs: the blocks to ask for, the blocks asked for, and the blocks
-- that wait for their parent. A block hash is the number that its 32 bytes spell. The block type is
-- the kernel's, known by `hash` alone.
pub mod Batches
pub mod Requeue
pub mod Buffer
use kernel_node.Prelude.{
  ℕ, ◌++◌, Bool, true, false, not, ◌||◌, Option, none, some, List, ◌∷◌, map, length, ltb,
  if◌then◌else◌, nat_eq, [],
}
use kernel_node.Prelude.HashSet
use kernel_node.Prelude.HashMap
use kernel_node.Prelude.HashMap.{HashMap, keys, values}

abbrev pub BlockHash : Type 0
BlockHash = ℕ

pub record DownloadState (B : Type 0) : Type 0 where
  pub queue : List BlockHash
  pub in_flight : List BlockHash
  pub buffer : HashMap BlockHash B

abbrev pub is_empty {ℓ} : {A : Type ℓ} → List A → Bool
is_empty [] = true
is_empty (x ∷ xs) = false

-- The first element that passes the test.
unfoldable pub find {ℓ} : {A : Type ℓ} → (A → Bool) → List A → Option A
find p [] = none
find p (x ∷ xs) = if p x then some x else find p xs

-- `while batch.len() < batch_size`: the rounds end with the queue at the latest.
unfoldable pub pop_loop :
    ℕ
    → List BlockHash
    → List BlockHash
    → List BlockHash
    → List BlockHash × List BlockHash × List BlockHash
unfolding HashSet.insert
pop_loop batch_size batch [] in_flight = (batch, [], in_flight)
pop_loop batch_size batch (hash ∷ queue) in_flight =
    let (fresh, claimed) = HashSet.insert hash in_flight in
    let batch' = if fresh then batch ++ hash ∷ [] else batch in
    if ltb (length batch) batch_size
    then pop_loop batch_size batch' queue claimed
    else (batch, hash ∷ queue, in_flight)

-- `filter(|hash| self.in_flight.insert(*hash))`
unfoldable pub claim_loop : List BlockHash → List BlockHash → List BlockHash × List BlockHash
unfolding HashSet.insert
claim_loop [] in_flight = ([], in_flight)
claim_loop (hash ∷ hashes) in_flight =
    let (fresh, claimed) = HashSet.insert hash in_flight in
    let (rest, final) = claim_loop hashes claimed in (if fresh then hash ∷ rest else rest, final)

-- The loop of `requeue_unreceived` over the inventory.
unfoldable pub requeue_loop :
    List BlockHash → List BlockHash → List BlockHash → List BlockHash × List BlockHash
unfolding HashSet.remove
requeue_loop [] queue in_flight = (queue, in_flight)
requeue_loop (hash ∷ inventory) queue in_flight =
    requeue_loop inventory (hash ∷ queue) (HashSet.remove hash in_flight).1

module _ {B : Type 0} where
  abbrev pub default : DownloadState B
  default = record { queue = []; in_flight = []; buffer = [] }

  unfoldable pub pop_batch : DownloadState B → ℕ → List BlockHash × DownloadState B
  unfolding pop_loop
  pop_batch d batch_size =
      let (batch, queue, in_flight) = pop_loop batch_size [] d.queue d.in_flight in
      (batch, record d { queue = queue; in_flight = in_flight })

  unfoldable pub claim : DownloadState B → List BlockHash → List BlockHash × DownloadState B
  unfolding claim_loop
  claim d hashes =
      let (claimed, in_flight) = claim_loop hashes d.in_flight in
      (claimed, record d { in_flight = in_flight })

  -- Reports whether the block was in flight.
  unfoldable pub release : DownloadState B → BlockHash → Bool × DownloadState B
  unfolding HashSet.remove
  release d hash =
      let (was, in_flight) = HashSet.remove hash d.in_flight in
      (was, record d { in_flight = in_flight })

  unfoldable pub requeue_unreceived : DownloadState B → List BlockHash → DownloadState B
  unfolding requeue_loop
  requeue_unreceived d inventory =
      if is_empty inventory
      then d
      else let (queue, in_flight) = requeue_loop inventory d.queue d.in_flight in
        record d { queue = queue; in_flight = in_flight }

  unfoldable pub buffer_block : DownloadState B → BlockHash → B → DownloadState B
  unfolding HashMap.insert
  buffer_block d prev_blockhash block = record d {
    buffer = HashMap.insert prev_blockhash block d.buffer;
  }

  -- `buffer.remove(&prev)`
  unfoldable pub take_buffered : DownloadState B → BlockHash → Option B × DownloadState B
  unfolding HashMap.get HashMap.remove
  take_buffered d prev =
      (HashMap.get prev d.buffer, record d { buffer = HashMap.remove prev d.buffer })

module _ {B : Type 0} (hash : B → BlockHash) where
  unfoldable pub buffered_hashes : DownloadState B → List BlockHash
  unfolding HashSet.extend
  buffered_hashes d = HashSet.extend [] (map hash (values d.buffer))

  unfoldable pub buffer_head : DownloadState B → Option BlockHash
  unfolding buffered_hashes find HashSet.contains
  buffer_head d = find (λ prev. not (HashSet.contains prev (buffered_hashes d))) (keys d.buffer)

  unfoldable pub take_connectable :
      DownloadState B → (BlockHash → Bool) → Option B × DownloadState B
  unfolding buffer_head find take_buffered
  take_connectable d is_connected = elim (find is_connected (keys d.buffer)) [
    | some prev ↦ take_buffered d prev
    | none ↦
        if not (is_empty d.queue) || not (is_empty d.in_flight)
        then (none, d)
        else (elim (buffer_head d) [ none ↦ (none, d) | some prev ↦ take_buffered d prev ])
  ]
