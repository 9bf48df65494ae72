-- ===== src/P2p/Transport.antt =====
-- The bytes of a connection: `V1MessageHeader` of crates/p2p/src/lib.rs, and the transports and the
-- writing thread of crates/p2p/src/net.rs. rust-bitcoin's encoding is a parameter. The results of
-- writes and what the reading thread does to the ping in between are given with each round.
pub mod Delivery
use kernel_node.Prelude.{
  ℕ, zero, suc, not, Option, none, some, List, ◌∷◌, ◌++◌, arith, length, take, if◌then◌else◌, ◌==◌,
  nat_eq, [],
}
use kernel_node.Prelude.Bytes.{from_le_bytes}
use kernel_node.Prelude.Slices.{slice}
use kernel_node.Prelude.Reader.{Result, ok, err, IoError, read_exact}
use kernel_node.P2p.Message.{NetworkMessage}
use kernel_node.P2p.Handshake
use kernel_node.P2p.Connection.{OutboundPing, ping_round}

-- `serialize` of a `RawNetworkMessage` with its magic, and `deserialize` of one and of a command.
pub record Wire (H B : Type 0) : Type 1 where
  pub Command : Type 0
  pub decode_command : List ℕ → Option Command
  pub serialize : ℕ → NetworkMessage H B → List ℕ
  pub decode_raw : List ℕ → Option (NetworkMessage H B)

pub data TransportError : Type 0 where
  io : IoError → TransportError
  deserialize_error : TransportError
  handshake_error : Handshake.Error → TransportError
  unexpected_magic : ℕ → TransportError
  missing_version channel_closed : TransportError

pub data WriteRequest (H B : Type 0) : Type 0 where
  send_message : NetworkMessage H B → WriteRequest H B
  shutdown : WriteRequest H B

-- What `recv_timeout` gives the writing thread.
pub data Received (H B : Type 0) : Type 0 where
  request : WriteRequest H B → Received H B
  timeout disconnected : Received H B

-- A round of the writing thread. A write or a shutdown that fails has written so many bytes.
pub record Round (H B : Type 0) : Type 0 where
  pub received : Received H B
  pub fails_after : Option ℕ
  pub between : OutboundPing → OutboundPing
  pub random : ℕ
  pub now : ℕ
  pub ping_fails_after : Option ℕ

-- How the thread ends.
pub data Ending : Type 0 where
  returned failed : Ending

-- What reaches the stream, and whether all of it did.
abbrev pub write_all : Option ℕ → List ℕ → List ℕ × Option Ending
write_all none bytes = (bytes, none)
write_all (some n) bytes = (take n bytes, some failed)

-- What is written next, unless the thread has ended.
abbrev pub followed_by : List ℕ × Option Ending → List ℕ × Option Ending → List ℕ × Option Ending
followed_by (bytes, some e) later = (bytes, some e)
followed_by (bytes, none) (more, e) = (bytes ++ more, e)

module _ {H B : Type 0} (𝓦 : Wire H B) where
  pub record V1MessageHeader : Type 0 where
    pub magic : ℕ
    pub command : 𝓦.Command
    pub length : ℕ
    pub checksum : List ℕ

  unfoldable pub decode_header : List ℕ → Option V1MessageHeader
  decode_header buf = elim (𝓦.decode_command (slice 4 12 buf)) [
    | none ↦ none
    | some command ↦ some (record {
      magic = from_le_bytes (slice 0 4 buf);
      command = command;
      length = from_le_bytes (slice 16 4 buf);
      checksum = slice 20 4 buf;
    })
  ]

  -- `ReadTransport::read_message`, on the bytes that are still to come.
  unfoldable pub read_message : ℕ → List ℕ → Result TransportError (NetworkMessage H B × List ℕ)
  read_message magic bytes = elim (read_exact 24 bytes) [
    | err e ↦ err (io e)
    | ok (message_buf, rest) ↦ elim (decode_header message_buf) [
      | none ↦ err deserialize_error
      | some h ↦
          if not (h.magic == magic)
          then err (unexpected_magic h.magic)
          else (elim (read_exact h.length rest) [
            | err e ↦ err (io e)
            | ok (contents_buf, rest') ↦ elim (𝓦.decode_raw (message_buf ++ contents_buf)) [
              | none ↦ err deserialize_error
              | some message ↦ ok (message, rest')
            ]
          ])
    ]
  ]

  unfoldable pub read_messages :
      ℕ → ℕ → List ℕ → Result TransportError (List (NetworkMessage H B) × List ℕ)
  read_messages zero magic bytes = ok ([], bytes)
  read_messages (suc n) magic bytes = elim (read_message magic bytes) [
    | err e ↦ err e
    | ok (message, rest) ↦ elim (read_messages n magic rest) [
      | err e ↦ err e
      | ok (messages, rest') ↦ ok (message ∷ messages, rest')
    ]
  ]

  -- `WriteTransport::write_message`
  unfoldable pub write_message : ℕ → Option ℕ → NetworkMessage H B → List ℕ × Option Ending
  write_message magic fails_after message = write_all fails_after (𝓦.serialize magic message)

  unfoldable pub handle_received : ℕ → Option ℕ → Received H B → List ℕ × Option Ending
  unfolding write_message
  handle_received magic fails_after (request (send_message message)) =
      write_message magic fails_after message
  handle_received magic fails_after (request shutdown) = write_all fails_after []
  handle_received magic fails_after timeout = ([], none)
  handle_received magic fails_after disconnected = ([], some returned)

  -- The messages of a round's ping, one or none.
  unfoldable pub write_pings : ℕ → Option ℕ → List (NetworkMessage H B) → List ℕ × Option Ending
  unfolding write_message
  write_pings magic fails_after [] = ([], none)
  write_pings magic fails_after (message ∷ messages) = write_message magic fails_after message

  -- `maintain_connection`: what it has written after these rounds, and how it has ended, if it has.
  unfoldable pub maintain_connection :
      ℕ → ℕ → OutboundPing → List (Round H B) → List ℕ × Option Ending
  unfolding handle_received write_pings ping_round
  maintain_connection magic ping_interval ping [] = ([], none)
  maintain_connection magic ping_interval ping (r ∷ rounds) =
      let (pings, ping') = ping_round ping_interval r.random r.now (r.between ping) in
      followed_by (handle_received magic r.fails_after r.received) (
        followed_by (write_pings magic r.ping_fails_after pings)
          (maintain_connection magic ping_interval ping' rounds))
