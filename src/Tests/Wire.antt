-- ===== src/Tests/Wire.antt =====
-- A wire that carries pings and pongs, and runs of the transports over it.
use kernel_node.Prelude.{
  ℕ, ◌≡◌, refl, Bool, true, false, Option, none, some, List, ◌∷◌, ◌++◌, arith, ℕ_discrete, length,
  drop, replicate, if◌then◌else◌, ◌==◌, nat_eq, [],
}
use kernel_node.Prelude.Bytes.{to_le_bytes, from_le_bytes, length-to_le_bytes}
use kernel_node.Prelude.Slices.{concat, drop-append_past, length-concat}
use kernel_node.Prelude.Reader.{err, read_exact}
use kernel_node.P2p.Message.{NetworkMessage, ping, pong}
use kernel_node.P2p.Connection.{last_received}
use kernel_node.P2p.Transport.{
  Wire, Received, request, send_message, timeout, disconnected, Round, read_message,
  unexpected_magic, maintain_connection, decode_header,
}
use kernel_node.P2p.Transport.Delivery.{
  HasWire, IsDelivered, requested, maintain_connection-Delivered,
}

abbrev Message : Type 0
Message = NetworkMessage ℕ ℕ

abbrev payload : Message → List ℕ
payload (ping n) = 1 ∷ n ∷ []
payload (pong n) = 2 ∷ n ∷ []
payload m = []

abbrev message_of : List ℕ → Option Message
message_of (k ∷ n ∷ []) = if k == 1 then some (ping n) else some (pong n)
message_of bytes = none

abbrev carried : Message → Bool
carried (ping n) = true
carried (pong n) = true
carried m = false

abbrev header : ℕ → Message → List (List ℕ)
header magic m =
    to_le_bytes 4 magic ∷ replicate 12 0 ∷ to_le_bytes 4 (length (payload m)) ∷ replicate 4 0 ∷ []

abbrev wire : Wire ℕ ℕ
wire = record {
  Command = List ℕ;
  decode_command = λ bytes. some bytes;
  serialize = λ magic m. concat (header magic m) ++ payload m;
  decode_raw = λ bytes. message_of (drop 24 bytes);
}

payload_carried :
    (m : Message) → carried m ≡ true → (length (payload m) ≡ 2) × (message_of (payload m) ≡ some m)
unfolding ℕ_discrete
payload_carried (ping n) h = (refl, refl)
payload_carried (pong n) h = (refl, refl)
payload_carried _ h = cc

past_header : (magic : ℕ) (m : Message) → drop 24 (concat (header magic m) ++ payload m) ≡ payload m
past_header magic m = drop-append_past 0 24 (concat (header magic m)) (payload m) (
    omega (
      arith,
      length-concat (header magic m) (4 ∷ 12 ∷ 4 ∷ 4 ∷ []) (
        length-to_le_bytes 4 magic,
        (refl, (length-to_le_bytes 4 (length (payload m)), (refl, tt))),
      ),
    ))

wire_law : HasWire wire
wire_law = record {
  fits = carried;
  command = λ m. replicate 12 0;
  checksum = λ m. replicate 4 0;
  payload = payload;
  serialized = λ magic m fit. refl;
  command_length = λ m fit. refl;
  checksum_length = λ m fit. refl;
  payload_fits = λ m fit. omega (arith, (payload_carried m fit).0);
  command_read = λ m fit e. cc;
  raw_read = λ magic m bound fit. rw (past_header magic m) (payload_carried m fit).1;
}

abbrev round : Received ℕ ℕ → Round ℕ ℕ
round received = record {
  received = received;
  fails_after = none;
  between = λ state. state;
  random = 77;
  now = 40;
  ping_fails_after = none;
}

abbrev rounds : List (Round ℕ ℕ)
rounds = round (request (send_message (pong 5))) ∷ round timeout ∷ round disconnected ∷ []

-- The second round pings, as more than half a minute has passed.
maintain_connection-Delivered_example :
    IsDelivered wire wire_law 7
      (omega arith)
      (requested rounds)
      (maintain_connection wire 7 30 (last_received 0) rounds)
unfolding wire_law
maintain_connection-Delivered_example =
    maintain_connection-Delivered wire wire_law 7 (omega arith) 30 (last_received 0) rounds
      ((refl, refl), ((tt, refl), ((tt, refl), tt)))

foreign_run :
    read_message wire 8 (concat (header 7 (pong 5)) ++ payload (pong 5)) ≡ err (unexpected_magic 7)
unfolding read_message decode_header read_exact to_le_bytes from_le_bytes ℕ_discrete
foreign_run = refl
