-- ===== src/Net/Session/Stalling.antt =====
-- A peer that does not deliver.
use kernel_node.Prelude.{
  ℕ, ◌+◌, ◌<◌, ◌≡◌, refl, Bool, true, false, Option, none, some, List, ◌∷◌, arith, if◌then◌else◌,
  nat_eq, [],
}
use kernel_node.Prelude.HashSet
use kernel_node.Prelude.HashSet.{
  contains, insert, delete, remove, extend, contains-insert, contains-delete, contains-extend,
  contains-append,
}
use kernel_node.P2p.Message.{AddrV2, block, ping, addr_v2}
use kernel_node.Net.Kernel.{Kernel}
use kernel_node.Net.Download.{BlockHash, is_empty}
use kernel_node.Net.Peer.{
  awaiting_block, NodeState, Message, process_message, dispatch, on_block, receive_block,
  delivers_requested_block, any_request, stalled,
}
use kernel_node.Net.Session.{BitcoinPeer, receive_and_process_message, is_stalled}

delete_absent :
    (h : BlockHash) (hs : List BlockHash) → contains h hs ≡ false → HashSet.delete h hs ≡ hs
unfolding HashSet.delete contains
delete_absent h [] far = refl
delete_absent h (x ∷ hs) far = ground (arith, delete_absent h hs)

module _ (𝓚 : Kernel) where
  -- A peer that owes blocks and sends something else: it owes the same blocks afterwards, and is asked
  -- for nothing.
  process_message-idle :
      (inventory : List BlockHash) (message : Message 𝓚) (source : AddrV2) (n : NodeState 𝓚)
      → is_empty inventory ≡ false
      → delivers_requested_block 𝓚 (awaiting_block (record { peer_inventory = inventory })) message
        ≡ false
      → (n' : NodeState 𝓚) × (messages : List (Message 𝓚)) × (process_message 𝓚
            (awaiting_block (record { peer_inventory = inventory }))
            message
            source
            n
          ≡ some (awaiting_block (record { peer_inventory = inventory }), messages, n'))
        × (any_request 𝓚 messages ≡ false)
  unfolding HashSet.remove on_block process_message dispatch delivers_requested_block any_request
  process_message-idle inventory (ping nonce) source n owes idle = (n, _, refl, refl)
  process_message-idle inventory (addr_v2 payload) source n owes idle = (_, _, refl, refl)
  process_message-idle inventory (block b) source n owes idle =
      (receive_block 𝓚 b n, [], rw (delete_absent (𝓚.hash b) inventory idle, owes) refl, refl)
  process_message-idle inventory message source n owes idle = (n, [], refl, refl)

  abbrev pub waiting_peer : List BlockHash → ℕ → AddrV2 → BitcoinPeer
  waiting_peer inventory last_progress addr = record {
    state_machine = awaiting_block (record { peer_inventory = inventory });
    last_progress = last_progress;
    addr = addr;
  }

  -- The messages of a peer, each with its time.
  unfoldable pub run :
      BitcoinPeer → List (Message 𝓚 × ℕ) → NodeState 𝓚 → Option (BitcoinPeer × NodeState 𝓚)
  run peer [] n = some (peer, n)
  run peer ((message, now) ∷ messages) n = elim (receive_and_process_message 𝓚 peer message now n) [
    | none ↦ none
    | some (peer', _, n') ↦ run peer' messages n'
  ]

  -- None of the messages is a block of the inventory.
  unfoldable pub delivers_none : List BlockHash → List (Message 𝓚 × ℕ) → Bool
  delivers_none inventory [] = true
  delivers_none inventory ((message, _) ∷ messages) =
      if delivers_requested_block 𝓚 (awaiting_block (record { peer_inventory = inventory })) message
      then false
      else delivers_none inventory messages

  receive-waiting_peer :
      (inventory : List BlockHash) (last_progress now : ℕ) (addr : AddrV2) (message : Message 𝓚)
      (n : NodeState 𝓚)
      → is_empty inventory ≡ false
      → delivers_requested_block 𝓚 (awaiting_block (record { peer_inventory = inventory })) message
        ≡ false
      → (n' : NodeState 𝓚) × (sent : List (Message 𝓚)) × (receive_and_process_message 𝓚
            (waiting_peer inventory last_progress addr)
            message
            now
            n
          ≡ some (waiting_peer inventory last_progress addr, sent, n'))
  unfolding receive_and_process_message
  receive-waiting_peer inventory last_progress now addr message n owes here =
      let (n', sent, e, quiet) = process_message-idle inventory message addr n owes here in
      (n', sent, rw (e, here, quiet, receive_and_process_message) refl)

  run-waiting_peer :
      (inventory : List BlockHash) (last_progress : ℕ) (addr : AddrV2)
      (messages : List (Message 𝓚 × ℕ)) (n : NodeState 𝓚)
      → is_empty inventory ≡ false
      → delivers_none inventory messages ≡ true
      → (n' : NodeState 𝓚) × (run (waiting_peer inventory last_progress addr) messages n
          ≡ some (waiting_peer inventory last_progress addr, n'))
  unfolding run delivers_none
  run-waiting_peer inventory last_progress addr [] n owes idle = (n, refl)
  run-waiting_peer inventory last_progress addr ((message, now) ∷ messages) n owes idle =
      let (n', sent, e) =
        receive-waiting_peer inventory last_progress now addr message n owes (ground arith) in
      let (n'', rest) =
        run-waiting_peer inventory last_progress addr messages n' owes (ground arith) in
      (n'', rw (e, run) rest)

  -- A peer that owes blocks cannot keep its place by sending other things: as long as it delivers none
  -- of the blocks it owes, it owes the same ones, its last progress stays where it was, and it counts
  -- as stalled once more than 30 seconds have passed since then.
  pub run-is_stalled :
      (inventory : List BlockHash) (last_progress now : ℕ) (addr : AddrV2)
      (messages : List (Message 𝓚 × ℕ)) (n : NodeState 𝓚)
      → is_empty inventory ≡ false
      → delivers_none inventory messages ≡ true
      → last_progress + 30 < now
      → (peer : BitcoinPeer) × (n' : NodeState 𝓚) × (run
            (waiting_peer inventory last_progress addr)
            messages
            n
          ≡ some (peer, n'))
        × (peer ≡ waiting_peer inventory last_progress addr)
        × (is_stalled peer now ≡ true)
  unfolding is_stalled stalled
  run-is_stalled inventory last_progress now addr messages n owes idle late =
      let (n', e) = run-waiting_peer inventory last_progress addr messages n owes idle in
      (waiting_peer inventory last_progress addr, n', e, refl, ground arith)
