-- ===== src/Net/Kernel.antt =====
-- What the node takes from libbitcoinkernel and from the block and header types: the block tree,
-- the active chain, and the hashes. None of it is the node's code, so all of it is a parameter.
use kernel_node.Prelude.{ℕ, suc, ◌≤◌, ◌≡◌, Bool, Option, some}

pub record Kernel : Type 1 where
  -- the state of the `ChainstateManager`, a `BlockTreeEntry`, a header, a block off the wire, and
  -- a block as the kernel holds it
  pub Chainstate : Type 0
  pub Entry : Type 0
  pub Header : Type 0
  pub Block : Type 0
  pub KernelBlock : Type 0
  -- `process_block_header(..)` is `Ok(Valid)`, and the state after it
  pub process_block_header : Chainstate → Header → Bool × Chainstate
  pub best_entry : Chainstate → Option Entry
  -- `active_chain().tip()`, `active_chain().contains(..)`
  pub tip : Chainstate → Entry
  pub on_active_chain : Chainstate → Entry → Bool
  pub get_block_tree_entry : Chainstate → ℕ → Option Entry
  pub height : Entry → ℕ
  pub block_hash : Entry → ℕ
  pub prev : Entry → Option Entry
  pub ancestor : Entry → ℕ → Option Entry
  pub header_hash : Header → ℕ
  pub hash : Block → ℕ
  pub prev_blockhash : Block → ℕ
  -- `block.convert()`, `block.hash()`
  pub convert : Block → KernelBlock
  pub kernel_hash : KernelBlock → ℕ

-- An entry has an ancestor at each height up to its own, and is the one at its own height.
pub record HasAncestors (𝓚 : Kernel) : Type 0 where
  pub ancestor_at :
      (e : 𝓚.Entry) (h : ℕ)
      → h ≤ 𝓚.height e
      → (a : 𝓚.Entry) × (𝓚.ancestor e h ≡ some a) × (𝓚.height a ≡ h)
  pub ancestor_self : (e : 𝓚.Entry) → 𝓚.ancestor e (𝓚.height e) ≡ some e

-- The parent of an entry is one lower.
pub record HasParents (𝓚 : Kernel) : Type 0 where
  pub height-prev : (e p : 𝓚.Entry) → 𝓚.prev e ≡ some p → 𝓚.height e ≡ suc (𝓚.height p)
