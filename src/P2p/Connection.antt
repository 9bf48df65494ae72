-- ===== src/P2p/Connection.antt =====
-- What crates/p2p/src/lib.rs and net.rs record of an open connection: the counts of messages, the
-- peer's preferences, and the pings. Times are numbers. A count, an `f64` in the source, is a number:
-- it is exact below 2^53. Locks are taken to succeed.
pub mod Pings
use kernel_node.Prelude.{
  ℕ, zero, suc, ◌+◌, ◌-◌, ◌^◌, min, Bool, true, false, List, ◌∷◌, length, ltb, if◌then◌else◌, ◌==◌,
  nat_eq, [],
}
use kernel_node.Prelude.HashMap
use kernel_node.Prelude.HashMap.{HashMap}
use kernel_node.P2p.Message.{
  NetworkMessage, Inventory, block, headers, cfilter, addr, addr_v2, pong, ping, inv, send_headers,
  send_cmpct, wtx, witness_transaction, transaction, witness_block, compact_block,
}
use kernel_node.P2p.Handshake.{Preferences}

pub data MessageRate : Type 0 where
  none_received : MessageRate
  ongoing : (count start : ℕ) → MessageRate

-- `try_into().unwrap_or(u32::MAX)`
abbrev pub u32_or_max : ℕ → ℕ
u32_or_max n = min n (2 ^ 32 - 1)

unfoldable pub add_to_rate : MessageRate → ℕ → ℕ → MessageRate
add_to_rate rate zero now = rate
add_to_rate none_received (suc n) now = ongoing (u32_or_max (suc n)) now
add_to_rate (ongoing count start) (suc n) now = ongoing (count + u32_or_max (suc n)) start

-- `as u32` on a float stops at the greatest one.
unfoldable pub total_count : MessageRate → ℕ
total_count none_received = 0
total_count (ongoing count start) = min count (2 ^ 32 - 1)

-- The table of `TimedMessages` has one rate for each kind, from the start on.
pub record TimedMessages : Type 0 where
  pub block_headers : MessageRate
  pub cfilters : MessageRate
  pub blocks : MessageRate
  pub addrs : MessageRate
  pub transaction_announcements : MessageRate
  pub last_block : ℕ

abbrev pub timed_messages : ℕ → TimedMessages
timed_messages now = record {
  block_headers = none_received;
  cfilters = none_received;
  blocks = none_received;
  addrs = none_received;
  transaction_announcements = none_received;
  last_block = now;
}

pub data OutboundPing : Type 0 where
  waiting : (nonce then_ : ℕ) → OutboundPing
  last_received : (then_ : ℕ) → OutboundPing

-- What the two threads of a connection share.
pub record Connection : Type 0 where
  pub their_preferences : Preferences
  pub timed : TimedMessages
  pub outbound_ping_state : OutboundPing

abbrev pub is_transaction : Inventory → Bool
is_transaction (wtx _) = true
is_transaction (witness_transaction _) = true
is_transaction (transaction _) = true
is_transaction item = false

abbrev pub is_block : Inventory → Bool
is_block (block _) = true
is_block (witness_block _) = true
is_block (compact_block _) = true
is_block item = false

-- The loop over an inventory.
unfoldable pub count_inventory : ℕ → List Inventory → TimedMessages → TimedMessages
count_inventory now [] t = t
count_inventory now (item ∷ items) t =
    let counted =
      if is_transaction item
      then record t { transaction_announcements = add_to_rate t.transaction_announcements 1 now }
      else t in
    count_inventory now items
      (if is_block item then record counted { last_block = now } else counted)

-- A pong ends the wait for it, if it has the nonce of the ping.
unfoldable pub receive_pong : ℕ → ℕ → OutboundPing → OutboundPing
receive_pong now nonce (waiting sent then_) =
    if nonce == sent then last_received now else waiting sent then_
receive_pong now nonce (last_received then_) = last_received then_

module _ {H B : Type 0} where
  -- What `ConnectionReader::read_message` does with a message that comes in at the time `now`.
  unfoldable pub record_message : NetworkMessage H B → ℕ → Connection → Connection
  record_message send_headers now c = record c {
    their_preferences = record c.their_preferences { sendheaders = true };
  }
  record_message (send_cmpct cmpct) now c = record c {
    their_preferences = record c.their_preferences { sendcmpct = cmpct };
  }
  record_message (block _) now c = record c {
    timed = record c.timed { blocks = add_to_rate c.timed.blocks 1 now };
  }
  record_message (headers _) now c = record c {
    timed = record c.timed {
      block_headers = add_to_rate c.timed.block_headers 1 now;
      last_block = now;
    };
  }
  record_message cfilter now c = record c {
    timed = record c.timed { cfilters = add_to_rate c.timed.cfilters 1 now };
  }
  record_message (addr list) now c = record c {
    timed = record c.timed { addrs = add_to_rate c.timed.addrs (length list) now };
  }
  record_message (addr_v2 list) now c = record c {
    timed = record c.timed { addrs = add_to_rate c.timed.addrs (length list) now };
  }
  record_message (pong nonce) now c = record c {
    outbound_ping_state = receive_pong now nonce c.outbound_ping_state;
  }
  record_message (inv items) now c = record c { timed = count_inventory now items c.timed }
  record_message message now c = c

  -- The part of a round of `maintain_connection` that pings: what is sent, with `random` as the nonce.
  unfoldable pub ping_round : ℕ → ℕ → ℕ → OutboundPing → List (NetworkMessage H B) × OutboundPing
  ping_round ping_interval random now (waiting nonce then_) = ([], waiting nonce then_)
  ping_round ping_interval random now (last_received then_) =
      if ltb ping_interval (now - then_)
      then (ping random ∷ [], waiting random now)
      else ([], last_received then_)

-- `ConnectionMetrics::ping_timed_out`
unfoldable pub ping_timed_out : ℕ → ℕ → OutboundPing → Bool
ping_timed_out timeout now (waiting nonce then_) = ltb timeout (now - then_)
ping_timed_out timeout now (last_received then_) = false

-- `ConnectionMetrics::stale_block`
unfoldable pub stale_block : ℕ → ℕ → TimedMessages → Bool
stale_block timeout now t = ltb timeout (now - t.last_block)
