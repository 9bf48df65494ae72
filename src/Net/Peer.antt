-- ===== src/Net/Peer.antt =====
-- src/net/peer.rs: the state machine that follows one peer, over the state that all peers share.
-- A call of `process_message` is one step: what other threads do between its locks is not modelled.
-- `none` is a panic. The kernel's answers are those of `Kernel`.
pub mod Owed
pub mod Asking
pub mod Requests
use kernel_node.Prelude.{
  ℕ, ◌-◌, Bool, true, false, not, Option, none, some, List, ◌∷◌, ◌++◌, map, length, ltb,
  if◌then◌else◌, ◌==◌, nat_eq, [],
}
use kernel_node.Prelude.HashSet
use kernel_node.Prelude.HashSet.{
  contains, insert, delete, remove, extend, contains-insert, contains-delete, contains-extend,
  contains-append,
}
use kernel_node.P2p.Message.{
  get_headers, get_data, AddrV2, AddrV2Message, Inventory, witness_block, NetworkMessage, block,
  ping, pong, addr_v2, inv, get_data, get_blocks, get_headers, headers,
}
use kernel_node.Net.Kernel.{Kernel}
use kernel_node.Net.Sync.{
  is_on_active_chain, populate_download_queue, process_headers, announce, announced_blocks,
}
use kernel_node.Net.Locator.{build_block_locators}
use kernel_node.Net.Download.{
  requeue_unreceived, BlockHash, DownloadState, is_empty, buffered_hashes, pop_batch, claim,
  release, buffer_block, requeue_unreceived, take_connectable,
}

abbrev pub protocol_version : ℕ
protocol_version = 70015

abbrev pub download_batch_size : ℕ
download_batch_size = 16

-- Instants are in seconds.
abbrev pub peer_stall_timeout : ℕ
peer_stall_timeout = 30

abbrev pub max_headers : ℕ
max_headers = 2000

pub record AwaitingBlock : Type 0 where
  pub peer_inventory : List BlockHash

pub data PeerStateMachine : Type 0 where
  awaiting_headers awaiting_inv : PeerStateMachine
  awaiting_block : AwaitingBlock → PeerStateMachine

-- `addr_tx` is the list of what was sent on it. The kernel's context has no part in this.
pub record NodeState (𝓚 : Kernel) : Type 0 where
  pub addr_tx : List (AddrV2 × List AddrV2Message)
  pub chainman : 𝓚.Chainstate
  pub download : DownloadState 𝓚.KernelBlock

abbrev pub create_getheaders_message : {H B : Type 0} → List BlockHash → NetworkMessage H B
create_getheaders_message hashes =
    get_headers (record { version = protocol_version; locator_hashes = hashes; stop_hash = 0 })

abbrev pub create_getblocks_message : {H B : Type 0} → List BlockHash → NetworkMessage H B
create_getblocks_message hashes =
    get_blocks (record { version = protocol_version; locator_hashes = hashes; stop_hash = 0 })

abbrev pub create_getdata_message : {H B : Type 0} → List BlockHash → NetworkMessage H B
create_getdata_message hashes = get_data (map witness_block hashes)

module _ (𝓚 : Kernel) where
  abbrev pub Message : Type 0
  Message = NetworkMessage 𝓚.Header 𝓚.Block

  -- The next state, what to send, and the shared state after it.
  abbrev pub Reply : Type 0
  Reply = Option (PeerStateMachine × List Message × NodeState 𝓚)

  -- The next batch of the queue is asked for; if there is none, the peer's newest blocks are.
  unfoldable pub ask_next : NodeState 𝓚 → Reply
  ask_next n =
      let (batch, download) = pop_batch n.download download_batch_size in
      let n' = record n { download = download } in
      if not (is_empty batch)
      then some (
        awaiting_block (record { peer_inventory = HashSet.extend [] batch }),
        create_getdata_message batch ∷ [],
        n',
      )
      else (elim (build_block_locators 𝓚 (𝓚.tip n.chainman)) [
        | none ↦ none
        | some locators ↦ some (awaiting_inv, create_getblocks_message locators ∷ [], n')
      ])

  -- `build_block_locators(best_entry().unwrap())`, and the headers from there on are asked for.
  unfoldable pub ask_headers : NodeState 𝓚 → Reply
  ask_headers n = elim (𝓚.best_entry n.chainman) [
    | none ↦ none
    | some best ↦ elim (build_block_locators 𝓚 best) [
      | none ↦ none
      | some locators ↦ some (awaiting_headers, create_getheaders_message locators ∷ [], n)
    ]
  ]

  -- `AwaitingHeaders` on a headers message.
  unfoldable pub on_headers : List 𝓚.Header → NodeState 𝓚 → Reply
  on_headers hs n =
      let chainman = process_headers 𝓚 n.chainman hs in
      let filled = record n {
        chainman = chainman;
        download = populate_download_queue 𝓚 chainman n.download;
      } in
      if not (length hs == max_headers)
      then ask_next filled
      else ask_headers (record n { chainman = chainman })

  -- `AwaitingInv` on a headers message: the peer announces blocks.
  unfoldable pub on_announcement : List 𝓚.Header → NodeState 𝓚 → Reply
  on_announcement hs n =
      let (announced, chainman) = announce 𝓚 n.chainman hs in
      let (claimed, download) = claim n.download announced in
      if is_empty announced
      then ask_headers (record n { chainman = chainman })
      else let n' = record n { chainman = chainman; download = download } in
        if is_empty claimed
        then some (awaiting_inv, [], n')
        else some (
          awaiting_block (record { peer_inventory = HashSet.extend [] claimed }),
          create_getdata_message claimed ∷ [],
          n',
        )

  -- `AwaitingInv` on an inv message.
  unfoldable pub on_inv : List Inventory → NodeState 𝓚 → Reply
  on_inv items n =
      if not (is_empty (announced_blocks items)) then ask_headers n else some (awaiting_inv, [], n)

  -- A block is buffered only if some peer was asked for it.
  unfoldable pub receive_block : 𝓚.Block → NodeState 𝓚 → NodeState 𝓚
  receive_block b n =
      let (was_requested, released) = release n.download (𝓚.hash b) in
      record n {
        download =
            if was_requested
            then buffer_block released (𝓚.prev_blockhash b) (𝓚.convert b)
            else released;
      }

  -- `AwaitingBlock` on a block.
  unfoldable pub on_block : 𝓚.Block → AwaitingBlock → NodeState 𝓚 → Reply
  on_block b block_state n =
      let (_, inventory) = HashSet.remove (𝓚.hash b) block_state.peer_inventory in
      if is_empty inventory
      then ask_next (receive_block b n)
      else some (awaiting_block (record { peer_inventory = inventory }), [], receive_block b n)

  unfoldable pub dispatch : PeerStateMachine → Message → NodeState 𝓚 → Reply
  dispatch awaiting_headers (headers hs) n = on_headers hs n
  dispatch awaiting_inv (headers hs) n = on_announcement hs n
  dispatch awaiting_inv (inv items) n = on_inv items n
  dispatch (awaiting_block block_state) (block b) n = on_block b block_state n
  dispatch state message n = some (state, [], n)

  -- Pings and addresses are served in every state.
  unfoldable pub process_message : PeerStateMachine → Message → AddrV2 → NodeState 𝓚 → Reply
  process_message state (ping nonce) source n = some (state, pong nonce ∷ [], n)
  process_message state (addr_v2 payload) source n =
      some (state, [], record n { addr_tx = n.addr_tx ++ (source, payload) ∷ [] })
  process_message state message source n = dispatch state message n

  -- What is done with the download state when the peer is lost.
  unfoldable pub release_in_flight :
      PeerStateMachine → DownloadState 𝓚.KernelBlock → DownloadState 𝓚.KernelBlock
  release_in_flight (awaiting_block state) d = requeue_unreceived d state.peer_inventory
  release_in_flight state d = d

  -- `delivers_requested_block`
  unfoldable pub delivers_requested_block : PeerStateMachine → Message → Bool
  delivers_requested_block (awaiting_block awaiting) (block b) =
      contains (𝓚.hash b) awaiting.peer_inventory
  delivers_requested_block state message = false

  -- `matches!(message, GetHeaders(_) | GetData(_))` for any of the messages.
  unfoldable pub any_request : List Message → Bool
  any_request [] = false
  any_request (get_headers m ∷ messages) = true
  any_request (get_data items ∷ messages) = true
  any_request (message ∷ messages) = any_request messages

-- `elapsed` since the last progress, at the time `now`.
unfoldable pub stalled : PeerStateMachine → ℕ → ℕ → Bool
stalled awaiting_inv last_progress now = false
stalled state last_progress now = ltb peer_stall_timeout (now - last_progress)
