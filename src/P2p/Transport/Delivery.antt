-- ===== src/P2p/Transport/Delivery.antt =====
-- crates/p2p/src/net.rs: what one side writes, the other side reads.
use kernel_node.Prelude.{
  ℕ, All, suc, ◌-◌, ◌^◌, ◌<◌, ◌≡◌, refl, ap, ◌≢◌, ◌⊎◌, inl, inr, Bool, true, Option, none, some,
  List, ◌∷◌, ◌++◌, length, ltb, Bool-cases, Option-cases, ◌==◌, ==-self, nat_eq, [],
}
use kernel_node.P2p.Message.{NetworkMessage, ping}
use kernel_node.P2p.Connection.{OutboundPing, ping_round, last_received, waiting}
use kernel_node.P2p.Transport.{
  Wire, Received, request, send_message, shutdown, timeout, disconnected, Round, Ending, returned,
  failed, decode_header, read_message, read_messages, write_message, handle_received, write_pings,
  maintain_connection, followed_by, V1MessageHeader,
}
use kernel_node.Prelude.Bytes.{to_le_bytes, from_le_bytes-to_le_bytes, length-to_le_bytes}
use kernel_node.Prelude.Slices.{slice, concat, HaveLengths, slice-concat, length-concat}
use kernel_node.Prelude.Reader.{ok, read_exact, read_exact-append}
use mathlib.Core.List.{append_assoc}

-- What rust-bitcoin documents of the messages that fit on the wire: the magic, a command of twelve
-- bytes, the length of the payload, a checksum of four bytes, and the payload.
pub record HasWire {H B : Type 0} (𝓦 : Wire H B) : Type 0 where
  pub fits : NetworkMessage H B → Bool
  pub command : NetworkMessage H B → List ℕ
  pub checksum : NetworkMessage H B → List ℕ
  pub payload : NetworkMessage H B → List ℕ
  pub serialized :
      (magic : ℕ) (m : NetworkMessage H B)
      → fits m ≡ true
      → 𝓦.serialize magic m
        ≡ concat
            (to_le_bytes 4 magic ∷ command m ∷ to_le_bytes 4 (length (payload m)) ∷ checksum m ∷ [])
          ++ payload m
  pub command_length : (m : NetworkMessage H B) → fits m ≡ true → length (command m) ≡ 12
  pub checksum_length : (m : NetworkMessage H B) → fits m ≡ true → length (checksum m) ≡ 4
  pub payload_fits : (m : NetworkMessage H B) → fits m ≡ true → length (payload m) < 2 ^ 32
  pub command_read : (m : NetworkMessage H B) → fits m ≡ true → 𝓦.decode_command (command m) ≢ none
  pub raw_read :
      (magic : ℕ) (m : NetworkMessage H B)
      → magic < 2 ^ 32
      → fits m ≡ true
      → 𝓦.decode_raw (𝓦.serialize magic m) ≡ some m

module _ {H B : Type 0} where
  -- The requested messages, in order, with pings between them.
  pub data WithPings : List (NetworkMessage H B) → List (NetworkMessage H B) → Type 0 where
    done : WithPings [] []
    sent :
        {m : NetworkMessage H B} {asked messages : List (NetworkMessage H B)}
        → WithPings asked messages
        → WithPings (m ∷ asked) (m ∷ messages)
    pinged :
        {nonce : ℕ} {asked messages : List (NetworkMessage H B)}
        → WithPings asked messages
        → WithPings asked (ping nonce ∷ messages)

  -- The messages that the thread is asked to send until the channel is closed.
  abbrev pub asked_for : Received H B → List (NetworkMessage H B) → List (NetworkMessage H B)
  asked_for (request (send_message m)) later = m ∷ later
  asked_for (request shutdown) later = later
  asked_for timeout later = later
  asked_for disconnected later = []

  unfoldable pub requested : List (Round H B) → List (NetworkMessage H B)
  requested [] = []
  requested (r ∷ rounds) = asked_for r.received (requested rounds)

module _ {H B : Type 0} (𝓦 : Wire H B) (law : HasWire 𝓦) (magic : ℕ) (in_u32 : magic < 2 ^ 32) where
  abbrev header : NetworkMessage H B → List (List ℕ)
  header m =
      to_le_bytes 4 magic
      ∷ law.command m
      ∷ to_le_bytes 4 (length (law.payload m))
      ∷ law.checksum m
      ∷ []

  header-HaveLengths :
      (m : NetworkMessage H B) → law.fits m ≡ true → HaveLengths (header m) (4 ∷ 12 ∷ 4 ∷ 4 ∷ [])
  header-HaveLengths m fit = (
    length-to_le_bytes 4 magic,
    (
      law.command_length m fit,
      (length-to_le_bytes 4 (length (law.payload m)), (law.checksum_length m fit, tt)),
    ),
  )

  decode_header-header :
      (m : NetworkMessage H B) (command : 𝓦.Command)
      → law.fits m ≡ true
      → 𝓦.decode_command (law.command m) ≡ some command
      → decode_header 𝓦 (concat (header m))
        ≡ some (record {
          magic = magic;
          command = command;
          length = length (law.payload m);
          checksum = law.checksum m;
        })
  unfolding decode_header
  decode_header-header m command fit e =
      let fits = header-HaveLengths m fit in
      let lengths : List ℕ = 4 ∷ 12 ∷ 4 ∷ 4 ∷ [] in
      let first : slice 0 4 (concat (header m)) ≡ to_le_bytes 4 magic =
        slice-concat 0 (header m) lengths fits in
      let second : slice 4 12 (concat (header m)) ≡ law.command m =
        slice-concat 1 (header m) lengths fits in
      let third : slice 16 4 (concat (header m)) ≡ to_le_bytes 4 (length (law.payload m)) =
        slice-concat 2 (header m) lengths fits in
      let fourth : slice 20 4 (concat (header m)) ≡ law.checksum m =
        slice-concat 3 (header m) lengths fits in
      let its_magic = from_le_bytes-to_le_bytes 4 magic in_u32 in
      let its_length =
        from_le_bytes-to_le_bytes 4 (length (law.payload m)) (law.payload_fits m fit) in
      rw (second, e, first, third, fourth, its_magic, its_length, decode_header) refl

  read_message-parts :
      (bytes message_buf rest contents_buf rest' : List ℕ) (h : V1MessageHeader 𝓦)
      (m : NetworkMessage H B)
      → read_exact 24 bytes ≡ ok (message_buf, rest)
      → decode_header 𝓦 message_buf ≡ some h
      → (h.magic == magic) ≡ true
      → read_exact h.length rest ≡ ok (contents_buf, rest')
      → 𝓦.decode_raw (message_buf ++ contents_buf) ≡ some m
      → read_message 𝓦 magic bytes ≡ ok (m, rest')
  unfolding read_message
  read_message-parts bytes message_buf rest contents_buf rest' h m e1 e2 e3 e4 e5 =
      rw (e1, e2, e3, e4, e5, read_message) refl

  -- One message is read back, whatever follows it.
  read_message-serialize :
      (m : NetworkMessage H B) (rest : List ℕ)
      → law.fits m ≡ true
      → read_message 𝓦 magic (𝓦.serialize magic m ++ rest) ≡ ok (m, rest)
  read_message-serialize m rest fit = elim (Option-cases (𝓦.decode_command (law.command m))) [
    | inl unread ↦ absurd (law.command_read m fit unread)
    | inr (command, e) ↦
        let whole = law.serialized magic m fit in
        let parts = append_assoc (concat (header m)) (law.payload m) rest in
        let first =
          read_exact-append 24 (concat (header m)) (law.payload m ++ rest)
            (length-concat (header m) (4 ∷ 12 ∷ 4 ∷ 4 ∷ []) (header-HaveLengths m fit)) in
        let second = read_exact-append (length (law.payload m)) (law.payload m) rest refl in
        rw (whole, parts)
          (read_message-parts (concat (header m) ++ (law.payload m ++ rest)) (concat (header m))
            (law.payload m ++ rest) (law.payload m) rest _ m first
            (decode_header-header m command fit e) (==-self magic) second
            (rw (← whole) (law.raw_read magic m in_u32 fit)))
  ]

  -- The peer reads the first of the messages that were asked for, with pings between them, and then
  -- some bytes; it reads all of them, and nothing else, if no write failed.
  pub record IsDelivered (asked : List (NetworkMessage H B)) (written : List ℕ × Option Ending)
      : Type 0 where
    pub taken : List (NetworkMessage H B)
    pub skipped : List (NetworkMessage H B)
    pub splits : asked ≡ taken ++ skipped
    pub messages : List (NetworkMessage H B)
    pub in_order : WithPings taken messages
    pub rest : List ℕ
    pub read : read_messages 𝓦 (length messages) magic written.0 ≡ ok (messages, rest)
    pub complete : (written.1 ≡ some failed) ⊎ ((skipped ≡ []) × (rest ≡ []))

  failed-Delivered :
      (asked : List (NetworkMessage H B)) (bytes : List ℕ) → IsDelivered asked (bytes, some failed)
  unfolding read_messages
  failed-Delivered asked bytes = record {
    taken = [];
    skipped = asked;
    splits = refl;
    messages = [];
    in_order = done;
    rest = bytes;
    read = refl;
    complete = inl refl;
  }

  empty-Delivered : (end : Option Ending) → IsDelivered [] ([], end)
  unfolding read_messages
  empty-Delivered end = record {
    taken = [];
    skipped = [];
    splits = refl;
    messages = [];
    in_order = done;
    rest = [];
    read = refl;
    complete = inr (refl, refl);
  }

  read_messages-cons :
      (m : NetworkMessage H B) (messages : List (NetworkMessage H B)) (bytes rest : List ℕ)
      → law.fits m ≡ true
      → read_messages 𝓦 (length messages) magic bytes ≡ ok (messages, rest)
      → read_messages 𝓦 (suc (length messages)) magic (𝓦.serialize magic m ++ bytes)
        ≡ ok (m ∷ messages, rest)
  unfolding read_messages
  read_messages-cons m messages bytes rest fit e =
      rw (read_message-serialize m bytes fit, e, read_messages) refl

  -- A message that is asked for, and what follows it.
  write_message-Delivered :
      (m : NetworkMessage H B) (fails_after : Option ℕ) (asked : List (NetworkMessage H B))
      (later : List ℕ × Option Ending)
      → law.fits m ≡ true
      → IsDelivered asked later
      → IsDelivered (m ∷ asked) (followed_by (write_message 𝓦 magic fails_after m) later)
  unfolding write_message
  write_message-Delivered m (some n) asked later fit d = failed-Delivered (m ∷ asked) _
  write_message-Delivered m none asked later fit d = record {
    taken = m ∷ d.taken;
    skipped = d.skipped;
    splits = ap (◌∷◌ m) d.splits;
    messages = m ∷ d.messages;
    in_order = sent d.in_order;
    rest = d.rest;
    read = read_messages-cons m d.messages later.0 d.rest fit d.read;
    complete = d.complete;
  }

  ping-Delivered :
      (nonce : ℕ) (fails_after : Option ℕ) (asked : List (NetworkMessage H B))
      (later : List ℕ × Option Ending)
      → law.fits (ping nonce) ≡ true
      → IsDelivered asked later
      → IsDelivered asked (followed_by (write_message 𝓦 magic fails_after (ping nonce)) later)
  unfolding write_message
  ping-Delivered nonce (some n) asked later fit d = failed-Delivered asked _
  ping-Delivered nonce none asked later fit d = record {
    taken = d.taken;
    skipped = d.skipped;
    splits = d.splits;
    messages = ping nonce ∷ d.messages;
    in_order = pinged d.in_order;
    rest = d.rest;
    read = read_messages-cons (ping nonce) d.messages later.0 d.rest fit d.read;
    complete = d.complete;
  }

  pings-Delivered :
      (state : OutboundPing) (ping_interval random now : ℕ) (fails_after : Option ℕ)
      (asked : List (NetworkMessage H B)) (later : List ℕ × Option Ending)
      → law.fits (ping random) ≡ true
      → IsDelivered asked later
      → IsDelivered asked (
          followed_by
            (write_pings 𝓦 magic fails_after (ping_round ping_interval random now state).0)
            later)
  unfolding write_pings ping_round
  pings-Delivered (waiting nonce then_) ping_interval random now fails_after asked later fit d = d
  pings-Delivered (last_received then_) ping_interval random now fails_after asked later fit d =
      elim (Bool-cases (ltb ping_interval (now - then_))) [
        | inl due ↦ rw due (ping-Delivered random fails_after asked later fit d)
        | inr early ↦ rw early d
      ]

  abbrev pub FitsReceived : Received H B → Type 0
  FitsReceived (request (send_message m)) = law.fits m ≡ true
  FitsReceived received = Unit

  -- What is sent in a round fits on the wire.
  abbrev pub FitsRound : Round H B → Type 0
  FitsRound r = FitsReceived r.received × (law.fits (ping r.random) ≡ true)

  received-Delivered :
      (received : Received H B) (fails_after : Option ℕ) (asked : List (NetworkMessage H B))
      (later : List ℕ × Option Ending)
      → FitsReceived received
      → IsDelivered asked later
      → IsDelivered
          (asked_for received asked)
          (followed_by (handle_received 𝓦 magic fails_after received) later)
  unfolding handle_received
  received-Delivered (request (send_message m)) fails_after asked later fit d =
      write_message-Delivered m fails_after asked later fit d
  received-Delivered (request shutdown) none asked later fit d = d
  received-Delivered (request shutdown) (some n) asked later fit d = failed-Delivered asked _
  received-Delivered timeout fails_after asked later fit d = d
  received-Delivered disconnected fails_after asked later fit d = empty-Delivered (some returned)

  -- Whatever the writing thread is asked to send, whatever the pings and whichever writes fail: a peer
  -- of the same network reads the messages that were asked for, each once and in their order, with
  -- pings between them; all of them, and no more, unless a write failed. What is sent fits on the
  -- wire, where messages are encoded as documented.
  pub maintain_connection-Delivered :
      (ping_interval : ℕ) (state : OutboundPing) (rounds : List (Round H B))
      → All FitsRound rounds
      → IsDelivered (requested rounds) (maintain_connection 𝓦 magic ping_interval state rounds)
  unfolding maintain_connection requested
  maintain_connection-Delivered ping_interval state [] fit = empty-Delivered none
  maintain_connection-Delivered ping_interval state (r ∷ rounds) ((first, pinging), fit) =
      received-Delivered r.received r.fails_after (requested rounds) _ first (
        pings-Delivered (r.between state) ping_interval r.random r.now r.ping_fails_after
          (requested rounds) _ pinging
          (maintain_connection-Delivered ping_interval
            (ping_round {H = H} {B = B} ping_interval r.random r.now (r.between state)).1 rounds
            fit))
