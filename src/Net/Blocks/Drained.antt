-- ===== src/Net/Blocks/Drained.antt =====
-- The block thread of src/bin/node.rs on a node that has all that it asked for.
use kernel_node.Prelude.{
  ℕ, suc, ◌≡◌, refl, sym, ap, ◌∙◌, ◌≢◌, inl, inr, none, some, List, ◌∷◌, map, arith, ℕ_discrete,
  length, Option-cases, nat_eq, [],
}
use kernel_node.Prelude.HashMap
use kernel_node.Prelude.HashMap.{HashMap, IsTable, values}
use kernel_node.Net.Kernel.{Kernel}
use kernel_node.Net.Download.{BlockHash, DownloadState, take_connectable}
use kernel_node.Net.Download.Buffer.{Grows, take_connectable_idle, take_connectable-some}
use kernel_node.Net.Sync.{is_on_active_chain}
use kernel_node.Net.Blocks.{
  BlockThread, Round, RoundOutcome, validated, take_from_node, wait_for_connectable, block_round,
  block_rounds,
}
use mathlib.Core.List.Permᴰ
use mathlib.Core.List.{Permᴰ}

module _ {V : Type 0} where
  remove-absent :
      (k : BlockHash) (m : HashMap BlockHash V) → HashMap.get k m ≡ none → HashMap.remove k m ≡ m
  unfolding HashMap.get HashMap.remove
  remove-absent k [] e = refl
  remove-absent k ((j, w) ∷ m) e = ground (arith, e, remove-absent k m)

  -- One entry goes, and no other.
  values-remove :
      (k : BlockHash) (v : V) (m : HashMap BlockHash V)
      → IsTable m
      → HashMap.get k m ≡ some v
      → Permᴰ (v ∷ values (HashMap.remove k m)) (values m)
  unfolding HashMap.get HashMap.remove
  values-remove k v [] table e = absurd (ground (arith, e))
  values-remove k v ((j, w) ∷ m) (fresh, table) e = elim (ℕ_discrete k j) [
    | yes same ↦
        let gone : HashMap.remove k ((j, w) ∷ m) ≡ m =
          ground (arith, same, fresh, remove-absent k m) in
        let at : v ≡ w = ground (arith, same, e) in rw gone (Permᴰ.cons at (Permᴰ.refl (values m)))
    | no other ↦
        let kept : HashMap.remove k ((j, w) ∷ m) ≡ (j, w) ∷ HashMap.remove k m =
          ground (arith, other) in
        let found : HashMap.get k m ≡ some v = ground (arith, other, e) in
        rw kept
          (Permᴰ.trans (Permᴰ.swap refl refl) (Permᴰ.cons refl (values-remove k v m table found)))
  ]

  remove-IsTable :
      (k : BlockHash) (m : HashMap BlockHash V) → IsTable m → IsTable (HashMap.remove k m)
  unfolding HashMap.get HashMap.remove
  remove-IsTable k [] table = tt
  remove-IsTable k ((j, w) ∷ m) (fresh, table) =
      let rest = remove-IsTable k m table in ground (arith, rest, HashMap.get-remove k j m, fresh)

  remove-Grows :
      (hash : V → BlockHash) (height : BlockHash → ℕ) (k : BlockHash) (m : HashMap BlockHash V)
      → Grows hash height m
      → Grows hash height (HashMap.remove k m)
  unfolding HashMap.remove
  remove-Grows hash height k [] g = tt
  remove-Grows hash height k ((j, w) ∷ m) (g, gs) =
      let rest = remove-Grows hash height k m gs in ground (arith, rest, g)

  length-zero : (m : HashMap BlockHash V) → length m ≡ 0 → m ≡ []
  length-zero [] e = refl
  length-zero (x ∷ m) e = absurd (omega (arith, e))

  length-values : (m : HashMap BlockHash V) → length (values m) ≡ length m
  length-values [] = refl
  length-values ((_, v) ∷ m) = ap suc (length-values m)

  length-perm : {xs ys : List V} → Permᴰ xs ys → length xs ≡ length ys
  length-perm Permᴰ.nil = refl
  length-perm (Permᴰ.cons e s) = ap suc (length-perm s)
  length-perm (Permᴰ.swap e f) = refl
  length-perm (Permᴰ.trans s t) = length-perm s ∙ length-perm t

  one_fewer :
      (v : V) (m n : HashMap BlockHash V)
      → Permᴰ (v ∷ values m) (values n)
      → suc (length m) ≡ length n
  one_fewer v m n s = omega (arith, length-perm s, length-values m, length-values n)

module _ (𝓚 : Kernel) (process_block : 𝓚.Chainstate → 𝓚.KernelBlock → 𝓚.Chainstate) where
  -- Nothing is asked for or to be asked for, and the buffer is a table of blocks of a tree.
  pub record IsWaiting (height : BlockHash → ℕ) (d : DownloadState 𝓚.KernelBlock) : Type 0 where
    pub no_queue : d.queue ≡ []
    pub no_flight : d.in_flight ≡ []
    pub table : IsTable d.buffer
    pub grows : Grows 𝓚.kernel_hash height d.buffer

  -- A round on such a state takes one of the blocks.
  pub record IsProgress (height : BlockHash → ℕ) (t t' : BlockThread 𝓚 process_block)
      (outcome : RoundOutcome 𝓚 process_block) : Type 0 where
    pub block : 𝓚.KernelBlock
    pub outcome_is : outcome ≡ validated block
    pub still : IsWaiting height t'.node.download
    pub left : Permᴰ (block ∷ values t'.node.download.buffer) (values t.node.download.buffer)

  block_round-Progress :
      (height : BlockHash → ℕ) (t : BlockThread 𝓚 process_block) (r : Round 𝓚 process_block)
      → IsWaiting height t.node.download
      → t.node.download.buffer ≢ []
      → IsProgress height t (block_round 𝓚 process_block t r).1 (block_round 𝓚 process_block t r).0
  unfolding block_round wait_for_connectable take_from_node
  block_round-Progress height t r h full =
      let d = t.node.download in
      let connected = is_on_active_chain 𝓚 t.node.chainman in
      elim (Option-cases (take_connectable 𝓚.kernel_hash d connected).0) [
        | inl nothing ↦ absurd (
            take_connectable_idle 𝓚.kernel_hash height d connected h.grows h.no_queue h.no_flight
              full nothing)
        | inr (block, taken) ↦
            let (prev, stored, after, _) =
              take_connectable-some 𝓚.kernel_hash d connected block taken in
            let run : block_round 𝓚 process_block t r ≡ (
              validated block,
              record {
                node = record (t.node) {
                  chainman = process_block t.node.chainman block;
                  download = record d { buffer = HashMap.remove prev d.buffer };
                };
                last_block = r.now;
              },
            ) =
              ground (arith, taken, after) in
            rw run (record {
              block = block;
              outcome_is = refl;
              still = record {
                no_queue = h.no_queue;
                no_flight = h.no_flight;
                table = remove-IsTable prev d.buffer h.table;
                grows = remove-Grows 𝓚.kernel_hash height prev d.buffer h.grows;
              };
              left = values-remove prev block d.buffer h.table stored;
            })
      ]

  -- Once no peer owes a block and none is to be asked for, and as long as nothing else changes the
  -- node: in as many rounds as there are buffered blocks, each round has one validated, all of them
  -- are, and the buffer is empty afterwards, whatever the kernel makes of them. The blocks stand in a
  -- tree, and no two have the same parent.
  pub block_rounds-Drained :
      (height : BlockHash → ℕ) (rounds : List (Round 𝓚 process_block))
      (t : BlockThread 𝓚 process_block)
      → IsWaiting height t.node.download
      → length rounds ≡ length t.node.download.buffer
      → (blocks : List 𝓚.KernelBlock) × ((block_rounds 𝓚 process_block t rounds).0
          ≡ map validated blocks)
        × Permᴰ blocks (values t.node.download.buffer)
        × ((block_rounds 𝓚 process_block t rounds).1.node.download.buffer ≡ [])
  unfolding block_rounds
  block_rounds-Drained height [] t h same =
      let empty = length-zero t.node.download.buffer (sym same) in
      ([], refl, rw empty Permᴰ.nil, empty)
  block_rounds-Drained height (r ∷ rounds) t h same =
      let p =
        block_round-Progress height t r h
          (λ empty. absurd (omega (arith, ap length empty, same))) in
      let fewer = one_fewer p.block _ _ p.left in
      let (blocks, outcomes, all, empty) =
        block_rounds-Drained height rounds (block_round 𝓚 process_block t r).1 p.still
          (omega (arith, fewer, same)) in
      (
        p.block ∷ blocks,
        rw (p.outcome_is, outcomes) refl,
        Permᴰ.trans (Permᴰ.cons refl all) p.left,
        empty,
      )
