-- ===== src/Net/Blocks.antt =====
-- The block thread of src/bin/node.rs, and `wait_for_connectable` of src/net/peer.rs. What the other
-- threads do while this one waits is a function of the state; the clock is read once in a round and
-- counts seconds. What the kernel makes of a block is a parameter.
pub mod Drained
use kernel_node.Prelude.{ℕ, ◌-◌, ◌*◌, Option, none, some, List, ◌∷◌, ltb, if◌then◌else◌, nat_eq, []}
use kernel_node.Net.Kernel.{Kernel}
use kernel_node.Net.Download.{BlockHash}
use kernel_node.Net.Download
use kernel_node.Net.Sync.{is_on_active_chain}
use kernel_node.Net.Peer.{NodeState}

abbrev pub stale_block_duration : ℕ
stale_block_duration = 60 * 20

module _ (𝓚 : Kernel) (process_block : 𝓚.Chainstate → 𝓚.KernelBlock → 𝓚.Chainstate) where
  -- The shared state, and when the thread last had a block or gave up on one.
  pub record BlockThread : Type 0 where
    pub node : NodeState 𝓚
    pub last_block : ℕ

  -- What is around a round: the other threads during the wait, and the time.
  pub record Round : Type 0 where
    pub waiting : NodeState 𝓚 → NodeState 𝓚
    pub now : ℕ

  -- What a round does: it has a block validated, it drops the peers, or it does nothing.
  pub data RoundOutcome : Type 0 where
    validated : 𝓚.KernelBlock → RoundOutcome
    dropped_peers idle : RoundOutcome

  -- `NodeState::take_connectable`
  unfoldable pub take_from_node : NodeState 𝓚 → Option 𝓚.KernelBlock × NodeState 𝓚
  unfolding Download.take_connectable is_on_active_chain
  take_from_node node =
      let (block, download) =
        Download.take_connectable 𝓚.kernel_hash node.download
          (is_on_active_chain 𝓚 node.chainman) in
      (block, record node { download = download })

  unfoldable pub wait_for_connectable :
      (NodeState 𝓚 → NodeState 𝓚) → NodeState 𝓚 → Option 𝓚.KernelBlock × NodeState 𝓚
  unfolding take_from_node
  wait_for_connectable waiting node =
      let (first, taken) = take_from_node node in
      elim first [ some block ↦ (some block, taken) | none ↦ take_from_node (waiting taken) ]

  -- One round of the loop.
  unfoldable pub block_round : BlockThread → Round → RoundOutcome × BlockThread
  unfolding wait_for_connectable
  block_round t r =
      let (found, node) = wait_for_connectable r.waiting t.node in
      elim found [
        | some block ↦ (
          validated block,
          record {
            node = record node { chainman = process_block node.chainman block };
            last_block = r.now;
          },
        )
        | none ↦
            if ltb stale_block_duration (r.now - t.last_block)
            then (dropped_peers, record { node = node; last_block = r.now })
            else (idle, record { node = node; last_block = t.last_block })
      ]

  -- The rounds until the thread is told to stop.
  unfoldable pub block_rounds : BlockThread → List Round → List RoundOutcome × BlockThread
  unfolding block_round
  block_rounds t [] = ([], t)
  block_rounds t (r ∷ rounds) =
      let (outcome, t') = block_round t r in
      let (outcomes, end) = block_rounds t' rounds in (outcome ∷ outcomes, end)
