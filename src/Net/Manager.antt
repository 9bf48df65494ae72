-- ===== src/Net/Manager.antt =====
-- src/net/manager.rs: the peer threads over the set of destinations that they share, the ways to
-- reach a destination, the feeler, and the broadcast of a transaction. Time is an argument; so is
-- what the sockets and the peers do.
pub mod Connected
pub mod Book
pub mod Lasting
use kernel_node.Prelude.{
  ℕ, ℕ_discrete, Eq, nat_eq, if◌then◌else◌, Bool, List, Option, ltb, leb, false, ◌∷◌, some, ◌+◌,
  ◌==◌, true, ◌++◌, none, not, [],
}
use kernel_node.Prelude.HashSet
use kernel_node.Node.Events.{FatalShutdown, trigger}
use kernel_node.P2p.Message.{addr-discrete, AddrV2, ipv4, ipv6, tor_v3, tor_v2, i2p, cjdns, unknown}

abbrev pub default_max_peers : ℕ
default_max_peers = 8

abbrev pub empty_address_book_limit : ℕ
empty_address_book_limit = 60

-- src/net/addr.rs
pub record Destination : Type 0 where
  pub addr : AddrV2
  pub port : ℕ

unfoldable pub destination-discrete : Discrete Destination
destination-discrete = hlevel (ℕ_discrete, addr-discrete)

instance abbrev pub destination_eq : Eq Destination
destination_eq = record { dec = destination-discrete }

-- `PeerManager::max_peers`
abbrev pub max_peers : ℕ → ℕ
max_peers n = if ltb n 1 then 1 else n

-- What the thread makes of an entry of the address book; an onion address wants a proxy.
unfoldable pub destination_of : Bool → AddrV2 → ℕ → Option Destination
destination_of proxy (ipv4 octets) port = some (record { addr = ipv4 octets; port = port })
destination_of proxy (ipv6 octets) port = some (record { addr = ipv6 octets; port = port })
destination_of proxy (tor_v3 pubkey) port =
    if proxy then some (record { addr = tor_v3 pubkey; port = port }) else none
destination_of proxy (tor_v2 octets) port = none
destination_of proxy (i2p octets) port = none
destination_of proxy (cjdns octets) port = none
destination_of proxy (unknown network octets) port = none

-- Where a peer thread stands: before a selection, with the count of empty ones; with a destination
-- that it has put into the shared set; done.
pub data PeerThread : Type 0 where
  selecting : ℕ → PeerThread
  connecting serving : Destination → PeerThread
  stopped : PeerThread

pub record Shared : Type 0 where
  pub connected_peers : List Destination
  pub fatal : FatalShutdown

-- From the selection to the insertion into the set. `insert` reports whether it was new.
unfoldable pub take_destination : Destination → Shared → PeerThread × Shared
take_destination d s =
    let inserted = HashSet.insert d s.connected_peers in
    if not inserted.0
    then (selecting 0, s)
    else (connecting d, record s { connected_peers = inserted.1 })

unfoldable pub select_round : Bool → ℕ → Option (AddrV2 × ℕ) → Shared → PeerThread × Shared
select_round proxy empty_selections none s =
    if leb empty_address_book_limit (empty_selections + 1)
    then (stopped, record s { fatal = trigger s.fatal })
    else (selecting (empty_selections + 1), s)
select_round proxy empty_selections (some (addr, port)) s = elim (destination_of proxy addr port) [
  | none ↦ (selecting empty_selections, s)
  | some d ↦ take_destination d s
]

unfoldable pub give_back : Destination → Shared → Shared
give_back d s = record s { connected_peers = (HashSet.remove d s.connected_peers).1 }

-- `BitcoinPeer::new`, by whether it succeeds.
unfoldable pub connect_round : Bool → Destination → Shared → PeerThread × Shared
connect_round connected d s = if connected then (serving d, s) else (selecting 0, give_back d s)

-- The end of the inner loop: the peer stalled, failed, or the node stops.
unfoldable pub disconnect_round : Destination → Shared → PeerThread × Shared
disconnect_round d s = (selecting 0, give_back d s)

-- How `connect` reaches an address, or why it does not.
pub data Route : Type 0 where
  direct through_proxy unreachable unreachable_without_proxy : Route

unfoldable pub route : Bool → AddrV2 → Route
route true (ipv4 octets) = through_proxy
route true (ipv6 octets) = through_proxy
route true (tor_v3 pubkey) = through_proxy
route true (tor_v2 octets) = unreachable
route true (i2p octets) = unreachable
route true (cjdns octets) = unreachable
route true (unknown network octets) = unreachable
route false (ipv4 octets) = direct
route false (ipv6 octets) = direct
route false (tor_v3 pubkey) = unreachable_without_proxy
route false (tor_v2 octets) = unreachable_without_proxy
route false (i2p octets) = unreachable_without_proxy
route false (cjdns octets) = unreachable_without_proxy
route false (unknown network octets) = unreachable_without_proxy

-- What `read_message` brings while a pong is waited for.
pub data Heard : Type 0 where
  pong : ℕ → Heard
  other timed_out lost : Heard

-- The loop of `wait_for_pong` over what is heard until the deadline.
unfoldable pub wait_for_pong : ℕ → List Heard → Bool
wait_for_pong nonce [] = false
wait_for_pong nonce (pong received ∷ heard) =
    let rest = wait_for_pong nonce heard in if received == nonce then true else rest
wait_for_pong nonce (other ∷ heard) = wait_for_pong nonce heard
wait_for_pong nonce (timed_out ∷ heard) = wait_for_pong nonce heard
wait_for_pong nonce (lost ∷ heard) = false

-- One attempt of `broadcast_transaction`, by what the sockets do: the connection fails; a write
-- fails; or the ping is out, and this is heard.
pub data Attempt : Type 0 where
  not_connected tx_not_sent ping_not_sent : Attempt
  awaits_pong : ℕ → List Heard → Attempt

-- What becomes of the address book's entry.
pub data Mark : Type 0 where
  success failure : Mark

unfoldable pub attempt_ok : Attempt → Bool
attempt_ok not_connected = false
attempt_ok tx_not_sent = false
attempt_ok ping_not_sent = false
attempt_ok (awaits_pong nonce heard) = wait_for_pong nonce heard

abbrev pub attempt_marks : Attempt → List Mark
attempt_marks not_connected = failure ∷ []
attempt_marks tx_not_sent = []
attempt_marks ping_not_sent = []
attempt_marks (awaits_pong nonce heard) = if wait_for_pong nonce heard then success ∷ [] else []

-- The attempts that the time allows; the list ends when the time is up or the book is empty.
unfoldable pub broadcast_transaction : List Attempt → Bool × List Mark
broadcast_transaction [] = (false, [])
broadcast_transaction (a ∷ attempts) =
    let rest = broadcast_transaction attempts in
    if attempt_ok a then (true, attempt_marks a) else (rest.0, attempt_marks a ++ rest.1)

-- `open_feeler`, by whether it connects; nothing happens while the book is empty.
unfoldable pub open_feeler : Option Bool → List Mark
open_feeler none = []
open_feeler (some connected) = if connected then success ∷ [] else failure ∷ []
