-- ===== src/Tests/Session.antt =====
-- The theorem on a peer that does not deliver, on the toy kernel.
use kernel_node.Prelude.{◌≡◌, refl, true, some, ◌∷◌, arith, ℕ_discrete, nat_eq, []}
use kernel_node.Prelude.HashSet.{contains}
use kernel_node.P2p.Message.{ping, block, headers}
use kernel_node.Tests.Toy.{toy}
use kernel_node.Tests.Network.{source, asked}
use kernel_node.Net.Peer.{NodeState}
use kernel_node.Net.Peer
use kernel_node.Net.Session.{BitcoinPeer, is_stalled}
use kernel_node.Net.Session.Stalling
use kernel_node.Net.Session.Stalling.{waiting_peer, delivers_none, run-is_stalled}

run-is_stalled_example :
    (peer : BitcoinPeer) × (n' : NodeState toy) × (Stalling.run toy
        (waiting_peer toy (2 ∷ 1 ∷ []) 100 source)
        ((ping 5, 110) ∷ (block 9, 120) ∷ (headers [], 125) ∷ [])
        asked.node
      ≡ some (peer, n'))
    × (peer ≡ waiting_peer toy (2 ∷ 1 ∷ []) 100 source)
    × (is_stalled peer 131 ≡ true)
unfolding delivers_none Peer.delivers_requested_block contains ℕ_discrete
run-is_stalled_example =
    run-is_stalled toy (2 ∷ 1 ∷ []) 100 131 source
      ((ping 5, 110) ∷ (block 9, 120) ∷ (headers [], 125) ∷ []) asked.node refl refl (omega arith)
