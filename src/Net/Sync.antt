-- ===== src/Net/Sync.antt =====
-- src/net/peer.rs: how the node follows the block tree. The walk that fills the download queue, and
-- the loops that hand headers to the kernel.
pub mod Queue
use kernel_node.Prelude.{
  ℕ, zero, suc, Bool, true, false, not, ◌&&◌, none, some, List, ◌∷◌, ◌++◌, filter, if◌then◌else◌,
  nat_eq, [],
}
use kernel_node.Prelude.HashSet
use kernel_node.Prelude.HashSet.{
  contains, insert, delete, remove, extend, contains-insert, contains-delete, contains-extend,
  contains-append,
}
use mathlib.Core.List.{reverse}
use kernel_node.P2p.Message.{Inventory, block}
use kernel_node.Net.Kernel.{Kernel}
use kernel_node.Net.Download.{BlockHash, DownloadState, is_empty, buffered_hashes}

-- How the walk from the best entry down to the active chain ends. `exhausted` is the fuel's end.
pub data Walk : Type 0 where
  forked : List BlockHash → Walk
  detached exhausted : Walk

-- `filter_map` on `Inventory::Block`
unfoldable pub announced_blocks : List Inventory → List BlockHash
announced_blocks [] = []
announced_blocks (block hash ∷ items) = hash ∷ announced_blocks items
announced_blocks (item ∷ items) = announced_blocks items

module _ (𝓚 : Kernel) where
  unfoldable pub is_on_active_chain : 𝓚.Chainstate → BlockHash → Bool
  is_on_active_chain chainman hash = elim (𝓚.get_block_tree_entry chainman hash) [
    | some entry ↦ 𝓚.on_active_chain chainman entry
    | none ↦ false
  ]

  unfoldable pub walk : ℕ → 𝓚.Chainstate → 𝓚.Entry → List BlockHash → Walk
  walk zero chainman current hashes = exhausted
  walk (suc fuel) chainman current hashes = elim (𝓚.on_active_chain chainman current) [
    | true ↦ forked hashes
    | false ↦ elim (𝓚.prev current) [
      | some prev ↦ walk fuel chainman prev (hashes ++ 𝓚.block_hash current ∷ [])
      | none ↦ detached
    ]
  ]

  -- What is done with the hashes of the walk, which come tip first.
  unfoldable pub fill_queue :
      List BlockHash → DownloadState 𝓚.KernelBlock → DownloadState 𝓚.KernelBlock
  unfolding buffered_hashes HashSet.contains filter
  fill_queue hashes d =
      if is_empty hashes
      then d
      else if not (is_empty d.queue)
      then d
      else let buffered = buffered_hashes 𝓚.kernel_hash d in
        let queued =
          filter (λ hash. not (contains hash buffered) && not (contains hash d.in_flight))
            (reverse hashes) in
        if is_empty queued then d else record d { queue = queued }

  unfoldable pub populate_download_queue :
      𝓚.Chainstate → DownloadState 𝓚.KernelBlock → DownloadState 𝓚.KernelBlock
  unfolding walk fill_queue
  populate_download_queue chainman d =
      if not (is_empty d.queue) then d else (elim (𝓚.best_entry chainman) [
        | none ↦ d
        | some best ↦ elim (walk (suc (𝓚.height best)) chainman best []) [
          | forked hashes ↦ fill_queue hashes d
          | _ ↦ d
        ]
      ])

  -- The loop over the headers stops at the first that the kernel does not accept.
  unfoldable pub process_headers : 𝓚.Chainstate → List 𝓚.Header → 𝓚.Chainstate
  process_headers chainman [] = chainman
  process_headers chainman (header ∷ rest) =
      let (valid, next) = 𝓚.process_block_header chainman header in
      elim valid [ true ↦ process_headers next rest | false ↦ next ]

  -- The same loop, with the hashes of the headers that were accepted.
  unfoldable pub announce : 𝓚.Chainstate → List 𝓚.Header → List BlockHash × 𝓚.Chainstate
  announce chainman [] = ([], chainman)
  announce chainman (header ∷ rest) =
      let (valid, next) = 𝓚.process_block_header chainman header in
      elim valid [
        | true ↦ let (hashes, final) = announce next rest in (𝓚.header_hash header ∷ hashes, final)
        | false ↦ ([], next)
      ]
