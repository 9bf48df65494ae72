-- ===== src/Net/Peer/Asking.antt =====
-- What a peer is asked for, and what it owes from then on.
use kernel_node.Prelude.{
  ◌≡◌, refl, ap, ◌⊎◌, inl, inr, true, false, not, some, List, ◌∷◌, ◌++◌, map, arith, length,
  Bool-cases, ◌==◌, nat_eq, [],
}
use kernel_node.Prelude.HashSet
use kernel_node.Prelude.HashSet.{
  contains, insert, delete, remove, extend, contains-insert, contains-delete, contains-extend,
  contains-append,
}
use kernel_node.P2p.Message.{Inventory, witness_block, NetworkMessage, get_data}
use mathlib.Core.List.{append-nil}
use kernel_node.Net.Peer.{awaiting_inv, awaiting_headers}
use kernel_node.Net.Peer.{receive_block, dispatch, process_message, PeerStateMachine, AddrV2}
use kernel_node.Net.Sync.{announced_blocks, announce}
use kernel_node.Net.Download.{claim}
use kernel_node.Prelude.HashSet.{delete, contains-delete}
use kernel_node.Net.Download.Batches.{claim_lem}
use kernel_node.P2p.Message.{block, headers, inv, ping, addr_v2}
use kernel_node.Net.Peer.{
  on_announcement, on_inv, on_block, dispatch, process_message, AwaitingBlock, Message,
}
use mathlib.Core.Option.{some-injective}
use kernel_node.Net.Peer.{max_headers}
use kernel_node.Net.Kernel.{Kernel}
use kernel_node.Net.Sync.{populate_download_queue, process_headers}
use kernel_node.Net.Sync.Queue.{in_flight-populate}
use kernel_node.Net.Download.{BlockHash, is_empty, pop_batch}
use kernel_node.Net.Download.Batches.{pop_batch_fresh}
use kernel_node.Net.Peer.{
  awaiting_block, NodeState, ask_next, ask_headers, on_headers, download_batch_size,
  create_getdata_message,
}
use kernel_node.Net.Peer.Owed.{owed, Outcome, in_flight-receive_block}

unfoldable pub witness_blocks : List Inventory → List BlockHash
witness_blocks [] = []
witness_blocks (witness_block h ∷ items) = h ∷ witness_blocks items
witness_blocks (item ∷ items) = witness_blocks items

pub witness_blocks-map : (hs : List BlockHash) → witness_blocks (map witness_block hs) ≡ hs
unfolding witness_blocks
witness_blocks-map [] = refl
witness_blocks-map (h ∷ hs) = ap (◌∷◌ h) (witness_blocks-map hs)

-- The blocks that the messages ask for.
unfoldable pub requested : {H B : Type 0} → List (NetworkMessage H B) → List BlockHash
requested [] = []
requested (get_data items ∷ messages) = witness_blocks items ++ requested messages
requested (message ∷ messages) = requested messages

module _ (𝓚 : Kernel) where
  -- For one hash: it is asked for only if it is owed from then on; it is owed only if it is asked for
  -- or was owed; and it is asked for only if it is not in `flight`.
  abbrev pub Asks : BlockHash → List BlockHash → List BlockHash → Outcome 𝓚 → Type 0
  Asks h before flight r =
      (contains h (requested r.1) ≡ true → contains h (owed r.0) ≡ true)
      × (contains h (owed r.0) ≡ true
          → (contains h (requested r.1) ≡ true) ⊎ (contains h before ≡ true))
      × (contains h (requested r.1) ≡ true → contains h flight ≡ false)

  ask_batch-Asks :
      (h : BlockHash) (batch flight : List BlockHash) (n : NodeState 𝓚)
      → (contains h batch ≡ true → contains h flight ≡ false)
      → Asks h [] flight (
        awaiting_block (record { peer_inventory = HashSet.extend [] batch }),
        create_getdata_message batch ∷ [],
        n,
      )
  unfolding requested contains
  ask_batch-Asks h batch flight n fresh =
      rw (witness_blocks-map, append-nil)
        (
          ground (arith, contains-extend h [] batch),
          ground (arith, contains-extend h [] batch),
          fresh,
        )

  -- Nothing is asked for, and nothing is owed that was not owed before.
  quiet-Asks :
      (h : BlockHash) (before flight : List BlockHash) (r : Outcome 𝓚)
      → requested r.1 ≡ []
      → (contains h (owed r.0) ≡ true → contains h before ≡ true)
      → Asks h before flight r
  unfolding contains
  quiet-Asks h before flight r e o = (λ q. ground arith, λ q. inr (o q), λ q. ground arith)

  ask_next-Asks :
      (h : BlockHash) (n : NodeState 𝓚) (r : Outcome 𝓚)
      → ask_next 𝓚 n ≡ some r
      → Asks h [] n.download.in_flight r
  unfolding ask_next
  ask_next-Asks h n r e =
      let (batch, download) = pop_batch n.download download_batch_size in
      elim (Bool-cases (not (is_empty batch))) [
        | inl full ↦ rw (← some-injective _ _ (rw full at e)) (
            ask_batch-Asks h batch n.download.in_flight (record n { download = download })
              (pop_batch_fresh n.download download_batch_size h))
        | inr nothing ↦
            unfold contains requested in
            quiet-Asks h [] n.download.in_flight r (ground arith) (ground arith)
      ]

  ask_headers-Asks :
      (h : BlockHash) (flight : List BlockHash) (n : NodeState 𝓚) (r : Outcome 𝓚)
      → ask_headers 𝓚 n ≡ some r
      → Asks h [] flight r
  unfolding ask_headers requested contains
  ask_headers-Asks h flight n r e = quiet-Asks h [] flight r (ground arith) (ground arith)

  on_headers-Asks :
      (h : BlockHash) (hs : List 𝓚.Header) (n : NodeState 𝓚) (r : Outcome 𝓚)
      → on_headers 𝓚 hs n ≡ some r
      → Asks h [] n.download.in_flight r
  unfolding on_headers
  on_headers-Asks h hs n r e =
      let chainman = process_headers 𝓚 n.chainman hs in
      let filled = record n {
        chainman = chainman;
        download = populate_download_queue 𝓚 chainman n.download;
      } in
      elim (Bool-cases (not (length hs == max_headers))) [
        | inl last ↦
            rw (in_flight-populate 𝓚 chainman n.download) at
              (ask_next-Asks h filled r (rw last at e))
        | inr more ↦
            ask_headers-Asks h n.download.in_flight (record n { chainman = chainman }) r
              (rw more at e)
      ]

  on_announcement-Asks :
      (h : BlockHash) (hs : List 𝓚.Header) (n : NodeState 𝓚) (r : Outcome 𝓚)
      → on_announcement 𝓚 hs n ≡ some r
      → Asks h [] n.download.in_flight r
  unfolding on_announcement
  on_announcement-Asks h hs n r e =
      let (announced, chainman) = announce 𝓚 n.chainman hs in
      let (claimed, download) = claim n.download announced in
      let n' = record n { chainman = chainman; download = download } in
      elim (Bool-cases (is_empty announced)) [
        | inl silent ↦
            ask_headers-Asks h n.download.in_flight (record n { chainman = chainman }) r
              (rw silent at e)
        | inr heard ↦ elim (Bool-cases (is_empty claimed)) [
          | inl taken ↦
              unfold contains requested in
              quiet-Asks h [] n.download.in_flight r (ground arith) (ground arith)
          | inr free ↦ rw (← some-injective _ _ (rw (heard, free) at e)) (
              ask_batch-Asks h claimed n.download.in_flight n'
                (ground (arith, (claim_lem n.download announced).1 h)))
        ]
      ]

  on_inv-Asks :
      (h : BlockHash) (items : List Inventory) (n : NodeState 𝓚) (r : Outcome 𝓚)
      → on_inv 𝓚 items n ≡ some r
      → Asks h [] n.download.in_flight r
  unfolding on_inv
  on_inv-Asks h items n r e = elim (Bool-cases (not (is_empty (announced_blocks items)))) [
    | inl heard ↦ ask_headers-Asks h n.download.in_flight n r (rw heard at e)
    | inr silent ↦
        unfold contains requested in
        quiet-Asks h [] n.download.in_flight r (ground arith) (ground arith)
  ]

  -- The blocks that are in flight with the other peers, when this message comes in.
  abbrev pub still_in_flight : Message 𝓚 → List BlockHash → List BlockHash
  still_in_flight (block b) flight = delete (𝓚.hash b) flight
  still_in_flight message flight = flight

  -- What is owed after a batch that ran out was owed before it or asked for.
  Asks-from :
      (h : BlockHash) (before flight : List BlockHash) (r : Outcome 𝓚)
      → Asks h [] flight r
      → Asks h before flight r
  unfolding contains
  Asks-from h before flight r (a, b, c) = (a, λ q. ground (arith, b q), c)

  on_block-Asks :
      (h : BlockHash) (b : 𝓚.Block) (s : AwaitingBlock) (n : NodeState 𝓚) (r : Outcome 𝓚)
      → on_block 𝓚 b s n ≡ some r
      → Asks h s.peer_inventory (delete (𝓚.hash b) n.download.in_flight) r
  unfolding on_block HashSet.remove
  on_block-Asks h b s n r e =
      let flight = delete (𝓚.hash b) n.download.in_flight in
      elim (Bool-cases (is_empty (delete (𝓚.hash b) s.peer_inventory))) [
        | inl done ↦
            Asks-from h s.peer_inventory flight r (
              rw in_flight-receive_block at
                (ask_next-Asks h (receive_block 𝓚 b n) r (rw done at e)))
        | inr more ↦
            unfold requested in
            quiet-Asks h s.peer_inventory flight r (ground arith)
              (ground (arith, contains-delete (𝓚.hash b) h s.peer_inventory))
      ]

  dispatch-Asks :
      (h : BlockHash) (state : PeerStateMachine) (message : Message 𝓚) (n : NodeState 𝓚)
      (r : Outcome 𝓚)
      → dispatch 𝓚 state message n ≡ some r
      → Asks h (owed state) (still_in_flight message n.download.in_flight) r
  unfolding dispatch requested
  dispatch-Asks h awaiting_headers (headers hs) n r e = on_headers-Asks h hs n r e
  dispatch-Asks h awaiting_inv (headers hs) n r e = on_announcement-Asks h hs n r e
  dispatch-Asks h awaiting_inv (inv items) n r e = on_inv-Asks h items n r e
  dispatch-Asks h (awaiting_block s) (block b) n r e = on_block-Asks h b s n r e
  dispatch-Asks h state message n r e =
      quiet-Asks h (owed state) (still_in_flight message n.download.in_flight) r (ground arith)
        (ground arith)

  pub process_message-Asks :
      (h : BlockHash) (state : PeerStateMachine) (message : Message 𝓚) (source : AddrV2)
      (n : NodeState 𝓚) (r : Outcome 𝓚)
      → process_message 𝓚 state message source n ≡ some r
      → Asks h (owed state) (still_in_flight message n.download.in_flight) r
  unfolding process_message requested
  process_message-Asks h state (ping nonce) source n r e =
      quiet-Asks h (owed state) n.download.in_flight r (ground arith) (ground arith)
  process_message-Asks h state (addr_v2 payload) source n r e =
      quiet-Asks h (owed state) n.download.in_flight r (ground arith) (ground arith)
  process_message-Asks h state message source n r e = dispatch-Asks h state message n r e
