-- ===== src/P2p/Connection/Pings.antt =====
-- The pings of a connection, whichever messages come in between.
use kernel_node.Prelude.{
  ℕ, ◌≡◌, refl, Bool, true, false, List, ◌∷◌, arith, if◌then◌else◌, ◌==◌, nat_eq, [],
}
use kernel_node.P2p.Message.{NetworkMessage, pong}
use kernel_node.P2p.Connection.{Connection, waiting, record_message, receive_pong, ping_round}

module _ (H B : Type 0) where
  -- A message comes in at a time; or the writing thread makes a round at a time, with a random number.
  pub data Event : Type 0 where
    incoming : NetworkMessage H B → ℕ → Event
    round : (random now : ℕ) → Event

  -- The pings sent, the last one first, and the state after the events.
  unfoldable pub run : ℕ → List Event → Connection → List ℕ → List ℕ × Connection
  run interval [] c sent = (sent, c)
  run interval (incoming message now ∷ events) c sent =
      run interval events (record_message message now c) sent
  run interval (round random now ∷ events) c sent =
      let (messages, state) =
        ping_round {H = H} {B = B} interval random now c.outbound_ping_state in
      run interval events (record c { outbound_ping_state = state })
        (elim messages [ [] ↦ sent | _ ∷ _ ↦ random ∷ sent ])

  -- No pong with the nonce is among the events.
  unfoldable pub unanswered : ℕ → List Event → Bool
  unanswered nonce [] = true
  unanswered nonce (incoming (pong answer) now ∷ events) =
      if answer == nonce then false else unanswered nonce events
  unanswered nonce (event ∷ events) = unanswered nonce events

  record_message-waiting :
      (message : NetworkMessage H B) (now nonce then_ : ℕ) (c : Connection)
      → c.outbound_ping_state ≡ waiting nonce then_
      → unanswered nonce (incoming message now ∷ []) ≡ true
      → (record_message message now c).outbound_ping_state ≡ waiting nonce then_
  unfolding record_message unanswered receive_pong
  record_message-waiting (pong answer) now nonce then_ c e far = ground arith
  record_message-waiting message now nonce then_ c e far = e

  unanswered-cons :
      (nonce : ℕ) (event : Event) (events : List Event)
      → unanswered nonce (event ∷ events) ≡ true
      → (unanswered nonce (event ∷ []) ≡ true) × (unanswered nonce events ≡ true)
  unfolding unanswered
  unanswered-cons nonce (incoming (pong answer) now) events far = (ground arith, ground arith)
  unanswered-cons nonce event events far = (refl, far)

  -- While a ping waits and no pong brings its nonce, nothing that comes in ends the wait or resets its
  -- time, and no second ping is sent.
  pub run-unanswered :
      (interval nonce then_ : ℕ) (events : List Event) (c : Connection) (sent : List ℕ)
      → c.outbound_ping_state ≡ waiting nonce then_
      → unanswered nonce events ≡ true
      → ((run interval events c sent).0 ≡ sent)
        × ((run interval events c sent).1.outbound_ping_state ≡ waiting nonce then_)
  unfolding run ping_round
  run-unanswered interval nonce then_ [] c sent e far = (refl, e)
  run-unanswered interval nonce then_ (incoming message now ∷ events) c sent e far =
      let (here, later) = unanswered-cons nonce (incoming message now) events far in
      run-unanswered interval nonce then_ events (record_message message now c) sent
        (record_message-waiting message now nonce then_ c e here) later
  run-unanswered interval nonce then_ (round random now ∷ events) c sent e far =
      let (here, later) = unanswered-cons nonce (round random now) events far in
      simp e (
        run-unanswered interval nonce then_ events
          (record c { outbound_ping_state = waiting nonce then_ }) sent refl later)
