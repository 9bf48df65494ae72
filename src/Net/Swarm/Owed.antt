-- ===== src/Net/Swarm/Owed.antt =====
-- No block is forgotten in flight.
use kernel_node.Prelude.{
  ℕ, ◌≡◌, refl, ◌≢◌, Bool, true, false, none, List, ◌∷◌, ◌++◌, arith, if◌then◌else◌, nat_eq, [],
}
use kernel_node.Prelude.HashSet.{contains}
use mathlib.Core.Bool.{false≢true}
use mathlib.Core.Option.{none}
use mathlib.Core.Logic.{◌≢◌}
use kernel_node.Prelude.{ℕ}
use kernel_node.Net.Kernel.{Kernel}
use kernel_node.Net.Download.{BlockHash, DownloadState, take_connectable}
use kernel_node.Net.Download.Requeue.{requeue_unreceived_lem}
use kernel_node.Net.Download.Buffer.{Grows, take_connectable_idle, in_flight-take_connectable}
use kernel_node.Net.Peer.{
  PeerStateMachine, awaiting_headers, awaiting_inv, awaiting_block, release_in_flight,
}
use kernel_node.Net.Peer.Owed.{owed, process_message-Accounts}
use kernel_node.Net.Swarm.{
  Swarm, Step, connect, receive, disconnect, validate, Reach, here, next, init,
}

-- Some peer owes the block.
unfoldable pub owing : BlockHash → List PeerStateMachine → Bool
owing h [] = false
owing h (p ∷ ps) = if contains h (owed p) then true else owing h ps

owing-append :
    (h : BlockHash) (ps qs : List PeerStateMachine)
    → owing h (ps ++ qs) ≡ (if owing h ps then true else owing h qs)
unfolding owing
owing-append h [] qs = refl
owing-append h (p ∷ ps) qs = ground (arith, owing-append h ps qs)

module _ (𝓚 : Kernel) where
  -- Every block in flight is owed by a connected peer.
  abbrev pub IsOwed : Swarm 𝓚 → Type 0
  IsOwed s = (h : BlockHash) → contains h s.node.download.in_flight ≡ true → owing h s.peers ≡ true

  release-Accounts :
      (h : BlockHash) (p : PeerStateMachine) (d : DownloadState 𝓚.KernelBlock)
      → contains h (release_in_flight 𝓚 p d).in_flight ≡ true
      → (contains h d.in_flight ≡ true) × (contains h (owed p) ≡ false)
  unfolding release_in_flight contains
  release-Accounts h awaiting_headers d e = (e, refl)
  release-Accounts h awaiting_inv d e = (e, refl)
  release-Accounts h (awaiting_block a) d e =
      ground (arith, (requeue_unreceived_lem d a.peer_inventory).0 h)

  Step-IsOwed : {s t : Swarm 𝓚} → Step 𝓚 s t → IsOwed s → IsOwed t
  unfolding owing
  Step-IsOwed {s} {t} (connect ps same) v h q = ground (arith, v h)
  Step-IsOwed {s} {t} (receive before after p p' message source sent was e is) v h q = ground (
    arith,
    v h,
    process_message-Accounts 𝓚 h p message source s.node (p', sent, t.node) e q,
    owing-append h before (p ∷ after),
    owing-append h before (p' ∷ after),
  )
  Step-IsOwed {s} {t} (disconnect before after p was is node) v h q = ground (
    arith,
    v h,
    release-Accounts h p s.node.download,
    owing-append h before (p ∷ after),
    owing-append h before after,
  )
  Step-IsOwed {s} {t} (validate is_connected chainman same node) v h q =
      ground (arith, v h, in_flight-take_connectable 𝓚.kernel_hash s.node.download is_connected)

  pub Reach-IsOwed :
      (chainman : 𝓚.Chainstate) {s : Swarm 𝓚} → Reach 𝓚 (init 𝓚 chainman) s → IsOwed s
  unfolding contains
  Reach-IsOwed chainman here = nothing_in_flight
    where
      nothing_in_flight : IsOwed (init 𝓚 chainman)
      nothing_in_flight h q = absurd (false≢true q)
  Reach-IsOwed chainman (next r st) = Step-IsOwed st (Reach-IsOwed chainman r)

  -- From the start, however the peers come, go and send, and however the kernel answers: every block
  -- in flight is owed by a peer that is still connected.
  pub Reach-owing :
      (chainman : 𝓚.Chainstate) {s : Swarm 𝓚} (h : BlockHash)
      → Reach 𝓚 (init 𝓚 chainman) s
      → contains h s.node.download.in_flight ≡ true
      → owing h s.peers ≡ true
  Reach-owing chainman h r q = Reach-IsOwed chainman r h q

  -- No peer is asked for a block.
  abbrev pub NoneAsked : List PeerStateMachine → Type 0
  NoneAsked [] = Unit {0}
  NoneAsked (p ∷ ps) = (owed p ≡ []) × NoneAsked ps

  owing-NoneAsked : (h : BlockHash) (ps : List PeerStateMachine) → NoneAsked ps → owing h ps ≡ false
  unfolding owing contains
  owing-NoneAsked h [] free = refl
  owing-NoneAsked h (p ∷ ps) (free, rest) = ground (arith, owing-NoneAsked h ps rest)

  empty_of_none : (hs : List BlockHash) → ((h : BlockHash) → contains h hs ≡ true → ⊥) → hs ≡ []
  unfolding contains
  empty_of_none [] none_in = refl
  empty_of_none (h ∷ hs) none_in = absurd (none_in h (ground arith))

  -- The node does not get stuck on what it holds: in every state that it can reach in which the queue
  -- is empty and no connected peer owes a block, a buffer that holds blocks yields one to validate,
  -- also if none of them has its parent on the active chain. The blocks stand in a tree.
  pub Reach-take_connectable :
      (chainman : 𝓚.Chainstate) (height : BlockHash → ℕ) {s : Swarm 𝓚}
      (is_connected : BlockHash → Bool)
      → Reach 𝓚 (init 𝓚 chainman) s
      → NoneAsked s.peers
      → s.node.download.queue ≡ []
      → Grows 𝓚.kernel_hash height s.node.download.buffer
      → s.node.download.buffer ≢ []
      → (take_connectable 𝓚.kernel_hash s.node.download is_connected).0 ≢ none
  Reach-take_connectable chainman height {s} is_connected r free no_queue g full =
      take_connectable_idle 𝓚.kernel_hash height s.node.download is_connected g no_queue
        (empty_of_none s.node.download.in_flight
          (λ h q. ground (arith, Reach-IsOwed chainman r h q, owing-NoneAsked h s.peers free)))
        full
