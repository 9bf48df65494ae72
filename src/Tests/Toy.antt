-- ===== src/Tests/Toy.antt =====
-- A kernel to run the node on: one chain of blocks, each known by its height, which is its hash too.
use kernel_node.Prelude.{
  ℕ, zero, suc, ◌+◌, ◌-◌, ◌≡◌, refl, true, false, Option, none, some, arith, leb, if◌then◌else◌,
  ◌==◌, nat_eq,
}
use kernel_node.Net.Kernel.{Kernel, HasAncestors, HasParents}

-- The highest header and the highest validated block.
pub record Chain : Type 0 where
  pub best : ℕ
  pub active : ℕ

abbrev below : ℕ → ℕ → Option ℕ
below limit h = if leb h limit then some h else none

abbrev parent : ℕ → Option ℕ
parent zero = none
parent (suc n) = some n

abbrev pub toy : Kernel
toy = record {
  Chainstate = Chain;
  Entry = ℕ;
  Header = ℕ;
  Block = ℕ;
  KernelBlock = ℕ;
  process_block_header =
      λ c h. if h == c.best + 1 then (true, record { best = h; active = c.active }) else (false, c);
  best_entry = λ c. some c.best;
  tip = λ c. c.active;
  on_active_chain = λ c e. leb e c.active;
  get_block_tree_entry = λ c h. below c.best h;
  height = λ e. e;
  block_hash = λ e. e;
  prev = parent;
  ancestor = below;
  header_hash = λ h. h;
  hash = λ b. b;
  prev_blockhash = λ b. b - 1;
  convert = λ b. b;
  kernel_hash = λ b. b;
}

pub toy-HasAncestors : HasAncestors toy
toy-HasAncestors = record {
  ancestor_at = λ e h le. (h, ground arith, refl);
  ancestor_self = λ e. ground arith;
}

parent-suc : (e p : ℕ) → parent e ≡ some p → e ≡ suc p
parent-suc zero p q = cc
parent-suc (suc e) p q = ground arith

pub toy-HasParents : HasParents toy
toy-HasParents = record { height-prev = parent-suc }
