-- ===== src/Tests/Blocks.antt =====
-- Runs of the block thread of src/bin/node.rs.
use kernel_node.Prelude.{
  ℕ, ◌+◌, ◌≡◌, refl, some, List, ◌∷◌, map, ℕ_discrete, if◌then◌else◌, ◌==◌, nat_eq, [],
}
use kernel_node.Prelude.HashMap
use kernel_node.Prelude.HashMap.{values}
use kernel_node.Prelude.HashSet
use kernel_node.Prelude.HashSet.{contains}
use kernel_node.Net.Download
use kernel_node.Net.Download.{take_connectable, buffer_head, buffered_hashes, take_buffered}
use kernel_node.Net.Sync.{is_on_active_chain}
use kernel_node.Net.Blocks.{
  BlockThread, Round, validated, idle, dropped_peers, take_from_node, wait_for_connectable,
  block_round, block_rounds,
}
use kernel_node.Net.Blocks.Drained.{IsWaiting, block_rounds-Drained}
use kernel_node.Tests.Toy.{Chain, toy}
use kernel_node.Tests.Network.{done, fresh}
use mathlib.Core.List.{Permᴰ}

-- The kernel takes the block on top of its chain.
abbrev extend_chain : Chain → ℕ → Chain
extend_chain c b = if b == c.active + 1 then record { best = c.best; active = b } else c

abbrev thread : BlockThread toy extend_chain
thread = record { node = done.node; last_block = 0 }

abbrev at : ℕ → Round toy extend_chain
at now = record { waiting = λ node. node; now = now }

-- The second block is not taken before the first is on the active chain; then nothing is left, and
-- after more than twenty minutes the peers are dropped, once.
thread_run :
    (block_rounds toy extend_chain thread (at 1 ∷ at 2 ∷ at 1202 ∷ at 1203 ∷ at 1204 ∷ [])).0
    ≡ validated 1 ∷ validated 2 ∷ idle ∷ dropped_peers ∷ idle ∷ []
unfolding block_rounds block_round wait_for_connectable take_from_node take_connectable buffer_head
    buffered_hashes take_buffered Download.find HashMap.get HashMap.remove ℕ_discrete
    is_on_active_chain contains HashSet.extend HashSet.insert
thread_run = refl

-- What arrives during the wait is taken.
wait_run : (wait_for_connectable toy extend_chain (λ _. done.node) fresh.node).0 ≡ some 1
unfolding wait_for_connectable take_from_node take_connectable buffer_head buffered_hashes
    take_buffered Download.find HashMap.get HashMap.remove ℕ_discrete is_on_active_chain contains
    HashSet.extend HashSet.insert
wait_run = refl

done-IsWaiting : IsWaiting toy extend_chain (λ h. h) done.node.download
unfolding HashMap.get ℕ_discrete
done-IsWaiting = record {
  no_queue = refl;
  no_flight = refl;
  table = (refl, (refl, tt));
  grows = (refl, (refl, tt));
}

block_rounds-Drained_example :
    (blocks : List ℕ) × ((block_rounds toy extend_chain thread (at 1 ∷ at 2 ∷ [])).0
      ≡ map validated blocks)
    × Permᴰ blocks (values done.node.download.buffer)
    × ((block_rounds toy extend_chain thread (at 1 ∷ at 2 ∷ [])).1.node.download.buffer ≡ [])
block_rounds-Drained_example =
    block_rounds-Drained toy extend_chain (λ h. h) (at 1 ∷ at 2 ∷ []) thread done-IsWaiting refl
