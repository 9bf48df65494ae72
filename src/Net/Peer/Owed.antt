-- ===== src/Net/Peer/Owed.antt =====
-- What each peer owes. `Accounts` is the local half: whatever is in flight after a message was in
-- flight before it and owed by another peer, or is owed by the peer now.
use kernel_node.Prelude.{
  ◌≡◌, refl, ◌++◌, ◌∷◌, ◌⊎◌, true, false, some, Option, List, arith, nat_eq, [],
}
use kernel_node.Prelude.HashSet.{contains, contains-extend, contains-delete, delete}
use kernel_node.P2p.Message.{
  NetworkMessage, Inventory, AddrV2, headers, inv, block, ping, pong, addr_v2,
}
use kernel_node.Prelude.HashSet
use kernel_node.Net.Sync.Queue.{in_flight-populate}
use kernel_node.Net.Sync.{populate_download_queue, process_headers, announce}
use kernel_node.Net.Kernel.{Kernel}
use kernel_node.Net.Download.{BlockHash, pop_batch, release, claim, buffer_block}
use kernel_node.Net.Download.Batches.{contains-pop_batch, claim_lem}
use kernel_node.Net.Peer.{
  Message, dispatch, process_message, PeerStateMachine, awaiting_headers, awaiting_inv,
  awaiting_block, NodeState, ask_next, ask_headers, download_batch_size, on_headers,
  on_announcement, on_inv, on_block, receive_block, AwaitingBlock,
}

abbrev pub owed : PeerStateMachine → List BlockHash
owed awaiting_headers = []
owed awaiting_inv = []
owed (awaiting_block b) = b.peer_inventory

module _ (𝓚 : Kernel) where
  abbrev pub Outcome : Type 0
  Outcome = PeerStateMachine × List (NetworkMessage 𝓚.Header 𝓚.Block) × NodeState 𝓚

  -- For one hash.
  abbrev pub Accounts : BlockHash → List BlockHash → NodeState 𝓚 → Outcome → Type 0
  Accounts h before n r =
      contains h r.2.download.in_flight ≡ true
      → (contains h (owed r.0) ≡ true)
        ⊎ ((contains h n.download.in_flight ≡ true) × (contains h before ≡ false))

  ask_next-Accounts :
      (h : BlockHash) (n : NodeState 𝓚) (r : Outcome) → ask_next 𝓚 n ≡ some r → Accounts h [] n r
  unfolding ask_next contains
  ask_next-Accounts h n r e = λ q. ground (
    arith,
    contains-pop_batch n.download download_batch_size h,
    contains-extend h [] (pop_batch n.download download_batch_size).0,
  )

  ask_headers-same : (n : NodeState 𝓚) (r : Outcome) → ask_headers 𝓚 n ≡ some r → r.2 ≡ n
  unfolding ask_headers
  ask_headers-same n r e = ground arith

  on_headers-Accounts :
      (h : BlockHash) (hs : List 𝓚.Header) (n : NodeState 𝓚) (r : Outcome)
      → on_headers 𝓚 hs n ≡ some r
      → Accounts h [] n r
  unfolding on_headers contains
  on_headers-Accounts h hs n r e = λ q.
      let chainman = process_headers 𝓚 n.chainman hs in
      let filled = record n {
        chainman = chainman;
        download = populate_download_queue 𝓚 chainman n.download;
      } in
      ground (
        arith,
        in_flight-populate 𝓚 chainman n.download,
        ask_next-Accounts h filled r,
        ask_headers-same (record n { chainman = chainman }) r,
      )

  on_announcement-Accounts :
      (h : BlockHash) (hs : List 𝓚.Header) (n : NodeState 𝓚) (r : Outcome)
      → on_announcement 𝓚 hs n ≡ some r
      → Accounts h [] n r
  unfolding on_announcement contains
  on_announcement-Accounts h hs n r e = λ q.
      let (announced, chainman) = announce 𝓚 n.chainman hs in
      let claimed = (claim n.download announced).0 in
      ground (
        arith,
        ask_headers-same (record n { chainman = chainman }) r,
        (claim_lem n.download announced).1 h,
        contains-extend h [] claimed,
      )

  on_inv-same :
      (items : List Inventory) (n : NodeState 𝓚) (r : Outcome) → on_inv 𝓚 items n ≡ some r → r.2 ≡ n
  unfolding on_inv
  on_inv-same items n r e = ground (arith, ask_headers-same n r)

  pub in_flight-receive_block :
      (b : 𝓚.Block) (n : NodeState 𝓚)
      → (receive_block 𝓚 b n).download.in_flight ≡ delete (𝓚.hash b) n.download.in_flight
  unfolding receive_block release HashSet.remove buffer_block
  in_flight-receive_block b n = ground arith

  on_block-Accounts :
      (h : BlockHash) (b : 𝓚.Block) (s : AwaitingBlock) (n : NodeState 𝓚) (r : Outcome)
      → on_block 𝓚 b s n ≡ some r
      → Accounts h s.peer_inventory n r
  unfolding on_block contains HashSet.remove
  on_block-Accounts h b s n r e = λ q. ground (
    arith,
    contains-delete (𝓚.hash b) h s.peer_inventory,
    contains-delete (𝓚.hash b) h n.download.in_flight,
    in_flight-receive_block b n,
    ask_next-Accounts h (receive_block 𝓚 b n) r,
  )

  unchanged-Accounts :
      (h : BlockHash) (state : PeerStateMachine) (messages : List (Message 𝓚)) (n m : NodeState 𝓚)
      (r : Outcome)
      → m.download ≡ n.download
      → ◌≡◌ {A = Option Outcome} (some (state, messages, m)) (some r)
      → Accounts h (owed state) n r
  unchanged-Accounts h state messages n m r e k = ground arith

  dispatch-Accounts :
      (h : BlockHash) (state : PeerStateMachine) (message : Message 𝓚) (n : NodeState 𝓚)
      (r : Outcome)
      → dispatch 𝓚 state message n ≡ some r
      → Accounts h (owed state) n r
  unfolding dispatch
  dispatch-Accounts h awaiting_headers (headers hs) n r e = on_headers-Accounts h hs n r e
  dispatch-Accounts h awaiting_inv (headers hs) n r e = on_announcement-Accounts h hs n r e
  dispatch-Accounts h awaiting_inv (inv items) n r e =
      unfold contains in ground (arith, on_inv-same items n r e)
  dispatch-Accounts h (awaiting_block s) (block b) n r e = on_block-Accounts h b s n r e
  dispatch-Accounts h state message n r e = unchanged-Accounts h state [] n n r refl e

  pub process_message-Accounts :
      (h : BlockHash) (state : PeerStateMachine) (message : Message 𝓚) (source : AddrV2)
      (n : NodeState 𝓚) (r : Outcome)
      → process_message 𝓚 state message source n ≡ some r
      → Accounts h (owed state) n r
  unfolding process_message
  process_message-Accounts h state (ping nonce) source n r e =
      unchanged-Accounts h state (pong nonce ∷ []) n n r refl e
  process_message-Accounts h state (addr_v2 payload) source n r e =
      unchanged-Accounts h state [] n (record n { addr_tx = n.addr_tx ++ (source, payload) ∷ [] }) r
        refl e
  process_message-Accounts h state message source n r e = dispatch-Accounts h state message n r e

  -- Whatever message a peer sends in whatever state: a block that is in flight afterwards is owed by
  -- that peer then, or was in flight before and not owed by it.
  pub process_message-in_flight :
      (h : BlockHash) (state : PeerStateMachine) (message : Message 𝓚) (source : AddrV2)
      (n : NodeState 𝓚) (r : Outcome)
      → process_message 𝓚 state message source n ≡ some r
      → contains h r.2.download.in_flight ≡ true
      → (contains h (owed r.0) ≡ true)
        ⊎ ((contains h n.download.in_flight ≡ true) × (contains h (owed state) ≡ false))
  process_message-in_flight h state message source n r e q =
      process_message-Accounts h state message source n r e q
