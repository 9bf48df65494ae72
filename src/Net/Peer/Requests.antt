-- ===== src/Net/Peer/Requests.antt =====
-- What a peer is asked for, and what of it was in flight.
use kernel_node.Prelude.{
  Bool, ◌≡◌, ◌⊎◌, inl, inr, true, false, not, some, arith, Bool-cases, ◌==◌, nat_eq,
}
use kernel_node.Prelude.HashSet
use kernel_node.Prelude.HashSet.{
  contains, insert, delete, remove, extend, contains-insert, contains-delete, contains-extend,
  contains-append,
}
use mathlib.Core.List.{append-nil}
use kernel_node.Net.Peer.{receive_block, dispatch, process_message, PeerStateMachine, AddrV2}
use kernel_node.Net.Download.{release, buffer_block}
use kernel_node.Prelude.HashSet.{delete, contains-delete}
use kernel_node.P2p.Message.{block}
use kernel_node.Net.Peer.{on_block, dispatch, process_message, AwaitingBlock, Message}
use mathlib.Core.Option.{some-injective}
use kernel_node.Net.Kernel.{Kernel}
use kernel_node.Net.Download.{BlockHash, is_empty, pop_batch}
use kernel_node.Net.Download.Batches.{pop_batch_queued}
use kernel_node.Net.Peer.{awaiting_block, NodeState, ask_next, download_batch_size}
use kernel_node.Net.Peer.Owed.{owed, Outcome}
use kernel_node.Net.Peer.Asking.{
  witness_blocks-map, requested, still_in_flight, process_message-Asks,
}

module _ (𝓚 : Kernel) where
  -- What is asked for when a block has come in was in the queue.
  ask_next-queued :
      (h : BlockHash) (n : NodeState 𝓚) (r : Outcome 𝓚)
      → ask_next 𝓚 n ≡ some r
      → contains h (requested r.1) ≡ true
      → contains h n.download.queue ≡ true
  unfolding ask_next requested contains
  ask_next-queued h n r e =
      let (batch, download) = pop_batch n.download download_batch_size in
      elim (Bool-cases (not (is_empty batch))) [
        | inl full ↦ rw (← some-injective _ _ (rw full at e)) (
            rw (witness_blocks-map, append-nil) (pop_batch_queued n.download download_batch_size h))
        | inr nothing ↦ λ q. absurd (ground arith)
      ]

  queue-receive_block :
      (b : 𝓚.Block) (n : NodeState 𝓚) → (receive_block 𝓚 b n).download.queue ≡ n.download.queue
  unfolding receive_block release buffer_block
  queue-receive_block b n = ground arith

  on_block-queued :
      (h : BlockHash) (b : 𝓚.Block) (s : AwaitingBlock) (n : NodeState 𝓚) (r : Outcome 𝓚)
      → on_block 𝓚 b s n ≡ some r
      → contains h (requested r.1) ≡ true
      → contains h n.download.queue ≡ true
  unfolding on_block HashSet.remove requested contains
  on_block-queued h b s n r e q =
      elim (Bool-cases (is_empty (delete (𝓚.hash b) s.peer_inventory))) [
        | inl done ↦
            rw (queue-receive_block b n) at
              (ask_next-queued h (receive_block 𝓚 b n) r (rw done at e) q)
        | inr more ↦ absurd (ground arith)
      ]

  -- The message delivers the block.
  abbrev pub delivers : Message 𝓚 → BlockHash → Bool
  delivers (block b) h = 𝓚.hash b == h
  delivers message h = false

  -- A block that is asked for was in flight with nobody, or it has just come in and was queued.
  abbrev pub IsFreeToAsk : BlockHash → Message 𝓚 → NodeState 𝓚 → Type 0
  IsFreeToAsk h message n =
      (contains h n.download.in_flight ≡ false)
      ⊎ ((delivers message h ≡ true) × (contains h n.download.queue ≡ true))

  asked-IsFreeToAsk :
      (h : BlockHash) (state : PeerStateMachine) (message : Message 𝓚) (source : AddrV2)
      (n : NodeState 𝓚) (r : Outcome 𝓚)
      → process_message 𝓚 state message source n ≡ some r
      → contains h (requested r.1) ≡ true
      → contains h (still_in_flight 𝓚 message n.download.in_flight) ≡ false
      → IsFreeToAsk h message n
  unfolding process_message dispatch requested contains
  asked-IsFreeToAsk h (awaiting_block s) (block b) source n r e q c =
      elim (Bool-cases (𝓚.hash b == h)) [
        | inl same ↦ inr (same, on_block-queued h b s n r e q)
        | inr other ↦
            inl (ground (arith, contains-delete (𝓚.hash b) h n.download.in_flight, c, other))
      ]
  asked-IsFreeToAsk h state (block b) source n r e q c = absurd (ground arith)
  asked-IsFreeToAsk h state message source n r e q c = inl c

  -- Whatever message a peer sends in whatever state: a block that it is then asked for it owes from
  -- then on; and when the message came in, the block was in flight with nobody, or it was in the queue
  -- and is the block that the message delivers.
  pub process_message-requested :
      (h : BlockHash) (state : PeerStateMachine) (message : Message 𝓚) (source : AddrV2)
      (n : NodeState 𝓚) (r : Outcome 𝓚)
      → process_message 𝓚 state message source n ≡ some r
      → contains h (requested r.1) ≡ true
      → (contains h (owed r.0) ≡ true) × IsFreeToAsk h message n
  process_message-requested h state message source n r e q =
      let (a, b, c) = process_message-Asks 𝓚 h state message source n r e in
      (a q, asked-IsFreeToAsk h state message source n r e q (c q))

  -- Whatever message a peer sends in whatever state: a block that it owes afterwards it was asked for
  -- now, or owed already.
  pub process_message-owed :
      (h : BlockHash) (state : PeerStateMachine) (message : Message 𝓚) (source : AddrV2)
      (n : NodeState 𝓚) (r : Outcome 𝓚)
      → process_message 𝓚 state message source n ≡ some r
      → contains h (owed r.0) ≡ true
      → (contains h (requested r.1) ≡ true) ⊎ (contains h (owed state) ≡ true)
  process_message-owed h state message source n r e q =
      let (a, b, c) = process_message-Asks 𝓚 h state message source n r e in b q
