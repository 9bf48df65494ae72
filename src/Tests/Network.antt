-- ===== src/Tests/Network.antt =====
-- The peers on the toy kernel.
use kernel_node.Prelude.{ℕ, ◌≡◌, refl, some, List, ◌∷◌, ℕ_discrete, filter, nat_eq, []}
use kernel_node.Prelude.HashSet
use kernel_node.Prelude.HashSet.{
  contains, insert, delete, remove, extend, contains-insert, contains-delete, contains-extend,
  contains-append,
}
use kernel_node.Prelude.HashMap
use kernel_node.Prelude.HashMap.{HashMap}
use kernel_node.P2p.Message.{AddrV2, headers, block, ipv4}
use kernel_node.Net.Download
use kernel_node.Net.Download.{
  DownloadState, BlockHash, pop_batch, requeue_unreceived, take_connectable, claim, release,
  buffer_block, buffered_hashes, buffer_head,
}
use kernel_node.Net.Locator.{build_block_locators, locator_loop}
use kernel_node.Net.Sync.{
  populate_download_queue, walk, fill_queue, process_headers, announce, announced_blocks,
}
use kernel_node.Net.Peer.{
  PeerStateMachine, awaiting_headers, awaiting_inv, awaiting_block, NodeState, process_message,
  create_getdata_message, create_getblocks_message, dispatch, on_headers, on_block, on_announcement,
  on_inv, ask_next, ask_headers, receive_block,
}
use kernel_node.Net.Swarm.{Swarm}
use kernel_node.Tests.Toy.{Chain, toy}

abbrev pub genesis : Chain
genesis = record { best = 0; active = 0 }

abbrev pub chain_of_two : Chain
chain_of_two = record { best = 2; active = 0 }

abbrev pub source : AddrV2
source = ipv4 (1 ∷ 2 ∷ 3 ∷ 4 ∷ [])

abbrev pub node : List ℕ → List ℕ → HashMap ℕ ℕ → Chain → NodeState toy
node queue in_flight buffer chainman = record {
  addr_tx = [];
  chainman = chainman;
  download = record { queue = queue; in_flight = in_flight; buffer = buffer };
}

abbrev pub swarm : NodeState toy → List PeerStateMachine → Swarm toy
swarm n ps = record { node = n; peers = ps }

abbrev pub awaiting : List ℕ → PeerStateMachine
awaiting hs = awaiting_block (record { peer_inventory = hs })

abbrev pub fresh : Swarm toy
fresh = swarm (node [] [] [] genesis) (awaiting_headers ∷ [])

abbrev pub asked : Swarm toy
asked = swarm (node [] (2 ∷ 1 ∷ []) [] chain_of_two) (awaiting (2 ∷ 1 ∷ []) ∷ [])

abbrev pub half : Swarm toy
half = swarm (node [] (1 ∷ []) ((1, 2) ∷ []) chain_of_two) (awaiting (1 ∷ []) ∷ [])

abbrev pub done : Swarm toy
done = swarm (node [] [] ((1, 2) ∷ (0, 1) ∷ []) chain_of_two) (awaiting_inv ∷ [])

-- What a run computes with.
machinery : Unit {0}
unfolding process_message dispatch on_headers on_block on_announcement on_inv ask_next ask_headers
    receive_block populate_download_queue walk fill_queue process_headers announce announced_blocks
    pop_batch claim release buffer_block requeue_unreceived take_connectable Download.find
    buffered_hashes buffer_head build_block_locators locator_loop contains HashSet.insert
    HashSet.delete HashSet.extend filter ℕ_discrete HashMap.insert HashMap.get HashMap.remove
machinery = tt

pub headers_run :
    process_message toy awaiting_headers (headers (1 ∷ 2 ∷ [])) source fresh.node
    ≡ some (awaiting (2 ∷ 1 ∷ []), create_getdata_message (1 ∷ 2 ∷ []) ∷ [], asked.node)
unfolding machinery
headers_run = refl

pub first_block_run :
    process_message toy (awaiting (2 ∷ 1 ∷ [])) (block 2) source asked.node
    ≡ some (awaiting (1 ∷ []), [], half.node)
unfolding machinery
first_block_run = refl

pub last_block_run :
    process_message toy (awaiting (1 ∷ [])) (block 1) source half.node
    ≡ some (awaiting_inv, create_getblocks_message (0 ∷ []) ∷ [], done.node)
unfolding machinery
last_block_run = refl
