-- ===== src/Net/Swarm.antt =====
-- All peers of the node at once: the threads of src/net/manager.rs over the state that they share,
-- interleaved one message at a time, with the thread that validates blocks.
pub mod Owed
use kernel_node.Prelude.{◌≡◌, Bool, some, List, ◌∷◌, ◌++◌, nat_eq, []}
use kernel_node.Prelude.HashSet
use kernel_node.Prelude.HashSet.{
  contains, insert, delete, remove, extend, contains-insert, contains-delete, contains-extend,
  contains-append,
}
use kernel_node.P2p.Message.{AddrV2}
use kernel_node.Net.Kernel.{Kernel}
use kernel_node.Net.Download.{BlockHash, take_connectable, default}
use kernel_node.Net.Peer.{
  PeerStateMachine, awaiting_headers, NodeState, Message, process_message, release_in_flight,
}

-- The connected peers, in any order.
pub record Swarm (𝓚 : Kernel) : Type 0 where
  pub node : NodeState 𝓚
  pub peers : List PeerStateMachine

module _ (𝓚 : Kernel) where
  -- A peer connects; a peer's message is processed; a peer's thread ends, for whatever reason; the
  -- validation thread takes a block and the kernel's state changes.
  pub data Step (s t : Swarm 𝓚) : Type 0 where
    connect : t.peers ≡ awaiting_headers ∷ s.peers → t.node ≡ s.node → Step s t
    receive :
        (before after : List PeerStateMachine) (p p' : PeerStateMachine) (message : Message 𝓚)
        (source : AddrV2) (sent : List (Message 𝓚))
        → s.peers ≡ before ++ p ∷ after
        → process_message 𝓚 p message source s.node ≡ some (p', sent, t.node)
        → t.peers ≡ before ++ p' ∷ after
        → Step s t
    disconnect :
        (before after : List PeerStateMachine) (p : PeerStateMachine)
        → s.peers ≡ before ++ p ∷ after
        → t.peers ≡ before ++ after
        → t.node ≡ record (s.node) { download = release_in_flight 𝓚 p s.node.download }
        → Step s t
    validate :
        (is_connected : BlockHash → Bool) (chainman : 𝓚.Chainstate)
        → t.peers ≡ s.peers
        → t.node ≡ record (s.node) {
          chainman = chainman;
          download = (take_connectable 𝓚.kernel_hash s.node.download is_connected).1;
        }
        → Step s t

  pub data Reach (s : Swarm 𝓚) : Swarm 𝓚 → Type 0 where
    here : Reach s s
    next : {t u : Swarm 𝓚} → Reach s t → Step t u → Reach s u

  -- The node as it starts, on whatever chain state the kernel has loaded.
  abbrev pub init : 𝓚.Chainstate → Swarm 𝓚
  init chainman = record {
    node = record { addr_tx = []; chainman = chainman; download = default };
    peers = [];
  }
