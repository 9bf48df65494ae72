-- ===== src/Tests/Pings.antt =====
-- The theorem on pings, at a connection that waits for a pong.
use kernel_node.Prelude.{ℕ, ◌≡◌, refl, List, ◌∷◌, ℕ_discrete, nat_eq, []}
use kernel_node.P2p.Message.{pong, headers}
use kernel_node.P2p.Handshake.{no_preferences}
use kernel_node.P2p.Connection.{Connection, timed_messages, waiting}
use kernel_node.P2p.Connection.Pings.{Event, incoming, round, run, unanswered, run-unanswered}

abbrev pinged : Connection
pinged = record {
  their_preferences = no_preferences;
  timed = timed_messages 5;
  outbound_ping_state = waiting 77 40;
}

abbrev events : List (Event ℕ ℕ)
events = incoming (pong 3) 41 ∷ round 9 90 ∷ incoming (headers []) 91 ∷ []

run-unanswered_example :
    ((run ℕ ℕ 30 events pinged []).0 ≡ [])
    × ((run ℕ ℕ 30 events pinged []).1.outbound_ping_state ≡ waiting 77 40)
unfolding unanswered ℕ_discrete
run-unanswered_example = run-unanswered ℕ ℕ 30 77 40 events pinged [] refl refl
