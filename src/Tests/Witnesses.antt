-- ===== src/Tests/Witnesses.antt =====
-- The theorems on the network part, at concrete states of the toy kernel.
use kernel_node.Prelude.{
  ℕ, ◌≤◌, ◌≡◌, refl, ◌≢◌, ◌⊎◌, Bool, true, false, not, ◌&&◌, none, some, List, ◌∷◌, ◌++◌, arith,
  ℕ_discrete, length, get_elem?, filter, if◌then◌else◌, ◌==◌, nat_eq, [],
}
use kernel_node.P2p.Message.{headers, block}
use kernel_node.Net.Download
use kernel_node.Net.Download.{find}
use kernel_node.Prelude.HashMap.{keys}
use kernel_node.Net.Locator
use kernel_node.Net.Locator.{build_block_locators, max_locator_hashes}
use kernel_node.Net.Locator.Heights.{Names}
use kernel_node.Net.Locator.Laws.{
  Descends, EndsIn, build_block_locators-total, build_block_locators-recent,
}
use kernel_node.Net.Sync.{populate_download_queue, walk, exhausted}
use kernel_node.Net.Sync.Queue.{fork, above, populate_download_queue-Branch, walk-ne-exhausted}
use kernel_node.Net.Peer.{
  awaiting_headers, awaiting_inv, create_getdata_message, create_getblocks_message,
}
use kernel_node.Net.Peer.Owed.{owed, process_message-in_flight}
use kernel_node.Net.Peer.Requests.{IsFreeToAsk, process_message-requested, process_message-owed}
use kernel_node.Net.Peer.Asking.{requested, witness_blocks}
use kernel_node.Net.Swarm.{Step, Reach, here, next, connect, receive, init}
use kernel_node.Net.Swarm.Owed.{owing, Reach-owing, Reach-take_connectable}
use kernel_node.Net.Download.Batches.{pop_batch-claims_prefix}
use kernel_node.Net.Download.Requeue.{requeue_unreceived_lem, pop_batch-requeue_unreceived}
use kernel_node.Net.Download.Buffer.{take_connectable-some}
use kernel_node.Tests.Network.{headers_run, first_block_run, last_block_run}
use mathlib.Core.List.{reverse}
use kernel_node.Prelude.HashSet.{contains}
use kernel_node.Prelude.HashMap
use kernel_node.Tests.Toy.{toy, toy-HasAncestors, toy-HasParents}
use kernel_node.Tests.Network.{genesis, chain_of_two, source, awaiting, fresh, asked, half, done}
use kernel_node.Net.Download.{
  DownloadState, BlockHash, pop_batch, claim, requeue_unreceived, take_connectable, buffered_hashes,
}

abbrev waiting : DownloadState ℕ
waiting = record { queue = 3 ∷ 4 ∷ 5 ∷ []; in_flight = 4 ∷ []; buffer = (1, 2) ∷ (0, 1) ∷ [] }

pop_batch-claims_prefix_example :
    (prefix : List BlockHash) × (waiting.queue ≡ prefix ++ (pop_batch waiting 1).1.queue)
    × ((pop_batch waiting 1).0 ≡ (claim waiting prefix).0)
    × ((pop_batch waiting 1).1.in_flight ≡ (claim waiting prefix).1.in_flight)
    × ((pop_batch waiting 1).1.buffer ≡ waiting.buffer)
    × (length (pop_batch waiting 1).0 ≤ 1)
    × (((pop_batch waiting 1).1.queue ≡ []) ⊎ (length (pop_batch waiting 1).0 ≡ 1))
pop_batch-claims_prefix_example = pop_batch-claims_prefix waiting 1

requeue_unreceived_lem_example :
    ((b : BlockHash)
      → (contains b (requeue_unreceived waiting (4 ∷ [])).queue
          ≡ (if contains b (4 ∷ []) then true else contains b waiting.queue))
        × (contains b (requeue_unreceived waiting (4 ∷ [])).in_flight
            ≡ (if contains b (4 ∷ []) then false else contains b waiting.in_flight)))
    × ((requeue_unreceived waiting (4 ∷ [])).buffer ≡ waiting.buffer)
requeue_unreceived_lem_example = requeue_unreceived_lem waiting (4 ∷ [])

pop_batch-requeue_unreceived_example :
    contains 4 (pop_batch (requeue_unreceived waiting (4 ∷ [])) 2).0 ≡ true
pop_batch-requeue_unreceived_example =
    pop_batch-requeue_unreceived waiting (4 ∷ []) 2 4 (omega arith)
      (unfold contains ℕ_discrete in refl)

abbrev only_zero : BlockHash → Bool
only_zero h = h == 0

take_connectable-some_example :
    (prev : BlockHash) × (HashMap.get prev waiting.buffer ≡ some 1)
    × ((take_connectable (λ b. b) waiting only_zero).1
        ≡ record waiting { buffer = HashMap.remove prev waiting.buffer })
    × ((only_zero prev ≡ true)
        ⊎ ((waiting.queue ≡ [])
            × (waiting.in_flight ≡ [])
            × (find only_zero (keys waiting.buffer) ≡ none)
            × (contains prev (buffered_hashes (λ b. b) waiting) ≡ false)))
unfolding take_connectable Download.find Download.take_buffered HashMap.get ℕ_discrete
take_connectable-some_example = take_connectable-some (λ b. b) waiting only_zero 1 refl

abbrev nothing_connected : BlockHash → Bool
nothing_connected h = false

build_block_locators-total_example :
    (hashes : List BlockHash) × (hs : List ℕ) × (build_block_locators toy 40 ≡ some hashes)
    × Names toy 40 hashes hs
    × (length hs ≤ max_locator_hashes)
    × Descends hs
    × EndsIn 0 hs
build_block_locators-total_example =
    build_block_locators-total toy toy-HasAncestors 40 (omega arith)

build_block_locators-recent_example :
    (a : ℕ) × (toy.ancestor 2 1 ≡ some a) × (get_elem? (2 ∷ 1 ∷ 0 ∷ []) 1 ≡ some (toy.block_hash a))
unfolding build_block_locators Locator.locator_loop ℕ_discrete
build_block_locators-recent_example =
    build_block_locators-recent toy toy-HasAncestors 2 (2 ∷ 1 ∷ 0 ∷ []) 1 (omega arith) refl
      (omega arith) (omega arith)

populate_download_queue-Branch_example :
    let d' = populate_download_queue toy chain_of_two fresh.node.download in
    (d'.queue
      ≡ filter
          (λ hash.
            not (contains hash (buffered_hashes toy.kernel_hash fresh.node.download))
            && not (contains hash fresh.node.download.in_flight))
          (reverse (2 ∷ 1 ∷ [])))
    × (d'.in_flight ≡ fresh.node.download.in_flight)
    × (d'.buffer ≡ fresh.node.download.buffer)
populate_download_queue-Branch_example =
    populate_download_queue-Branch toy chain_of_two toy-HasParents fresh.node.download 2
      (2 ∷ 1 ∷ []) refl refl (above refl refl (above refl refl (fork refl)))

walk-ne-exhausted_example : walk toy 3 chain_of_two 2 [] ≢ exhausted
walk-ne-exhausted_example = walk-ne-exhausted toy chain_of_two toy-HasParents 3 2 [] (omega arith)

process_message-requested_example :
    (contains 1 (owed (awaiting (2 ∷ 1 ∷ []))) ≡ true)
    × IsFreeToAsk toy 1 (headers (1 ∷ 2 ∷ [])) fresh.node
unfolding requested witness_blocks contains ℕ_discrete
process_message-requested_example =
    process_message-requested toy 1 awaiting_headers (headers (1 ∷ 2 ∷ [])) source fresh.node
      (awaiting (2 ∷ 1 ∷ []), create_getdata_message (1 ∷ 2 ∷ []) ∷ [], asked.node) headers_run refl

process_message-owed_example :
    (contains 1 (requested {H = ℕ} {B = ℕ} []) ≡ true)
    ⊎ (contains 1 (owed (awaiting (2 ∷ 1 ∷ []))) ≡ true)
unfolding contains ℕ_discrete
process_message-owed_example =
    process_message-owed toy 1 (awaiting (2 ∷ 1 ∷ [])) (block 2) source asked.node
      (awaiting (1 ∷ []), [], half.node) first_block_run refl

process_message-in_flight_example :
    (contains 1 (owed (awaiting (1 ∷ []))) ≡ true)
    ⊎ ((contains 1 asked.node.download.in_flight ≡ true)
        × (contains 1 (owed (awaiting (2 ∷ 1 ∷ []))) ≡ false))
unfolding contains ℕ_discrete
process_message-in_flight_example =
    process_message-in_flight toy 1 (awaiting (2 ∷ 1 ∷ [])) (block 2) source asked.node
      (awaiting (1 ∷ []), [], half.node) first_block_run refl

abbrev connects : Step toy (init toy genesis) fresh
connects = connect refl refl

abbrev hears_headers : Step toy fresh asked
hears_headers =
    receive [] [] awaiting_headers (awaiting (2 ∷ 1 ∷ [])) (headers (1 ∷ 2 ∷ [])) source
      (create_getdata_message (1 ∷ 2 ∷ []) ∷ []) refl headers_run refl

abbrev hears_block : Step toy asked half
hears_block =
    receive [] [] (awaiting (2 ∷ 1 ∷ [])) (awaiting (1 ∷ [])) (block 2) source [] refl
      first_block_run refl

abbrev hears_last : Step toy half done
hears_last =
    receive [] [] (awaiting (1 ∷ [])) awaiting_inv (block 1) source
      (create_getblocks_message (0 ∷ []) ∷ []) refl last_block_run refl

Reach-asked : Reach toy (init toy genesis) asked
Reach-asked = next (next here connects) hears_headers

Reach-done : Reach toy (init toy genesis) done
Reach-done = next (next Reach-asked hears_block) hears_last

Reach-owing_example : owing 1 asked.peers ≡ true
unfolding contains ℕ_discrete
Reach-owing_example = Reach-owing toy genesis 1 Reach-asked refl

Reach-take_connectable_example :
    (take_connectable toy.kernel_hash done.node.download nothing_connected).0 ≢ none
Reach-take_connectable_example =
    Reach-take_connectable toy genesis (λ h. h) nothing_connected Reach-done (refl, tt) refl
      (refl, (refl, tt)) (ground arith)
