-- ===== src/AddressBook/Record.antt =====
-- `Record` of crates/address-book/src/lib.rs: what the book keeps of one peer, and its bytes. Times
-- are `Duration`s in nanoseconds. Rust's `DefaultHasher` and the consensus encoding of an address are
-- not the node's code, so they are parameters.

use kernel_node.Prelude.{
  ℕ, ◌+◌, ◌-◌, ◌*◌, ◌/◌, ◌^◌, Bool, true, false, ◌&&◌, Option, none, some, List, ◌∷◌, ◌++◌, length,
  take, drop, replicate, ltb, if◌then◌else◌, ◌==◌, nat_eq, [],
}
use kernel_node.P2p.Message.{AddrV2, ipv4, ipv6, tor_v2, tor_v3, i2p, cjdns, unknown}
use kernel_node.Prelude.Bytes.{to_le_bytes, from_le_bytes}
use kernel_node.Prelude.Reader.{Reader, read_exact, pure, fail, invalid_data, ok, err, ◌>>=◌}

abbrev pub second : ℕ
second = 10 ^ 9

abbrev pub one_minute : ℕ
one_minute = 60 * second

abbrev pub one_week : ℕ
one_week = 604800 * second

-- `finish` of a `DefaultHasher` that was given an array of octets, the text for a network that is not
-- known, or a destination id.
pub record Hasher : Type 0 where
  pub octets : List ℕ → ℕ
  pub unknown_network : ℕ
  pub destination : List ℕ → ℕ

-- `consensus::serialize` and `consensus::deserialize_partial` of an address.
pub record Consensus : Type 0 where
  pub serialize : AddrV2 → List ℕ
  pub deserialize_partial : List ℕ → Option (AddrV2 × ℕ)

pub record Record : Type 0 where
  pub addr : AddrV2
  pub port : ℕ
  pub source : List ℕ
  pub services : ℕ
  pub failed_attempts : ℕ
  pub last_connection : Option ℕ
  pub last_attempt : Option ℕ

abbrev pub service_flags : Record → ℕ
service_flags r = r.services

unfoldable pub update_service_flags : Record → ℕ → Record
update_service_flags r flags = record r { services = flags }

-- `IpAddr`, by its octets.
pub data IpAddr : Type 0 where
  v4 v6 : List ℕ → IpAddr

-- `as_secs`, `from_secs`
abbrev pub as_secs : ℕ → ℕ
as_secs d = d / second

abbrev pub from_secs : ℕ → ℕ
from_secs s = s * second

-- The first four little-endian bytes of a hash.
abbrev pub four_bytes : ℕ → List ℕ
unfolding to_le_bytes
four_bytes hash = take 4 (to_le_bytes 8 hash)

abbrev pub size_of_addr : AddrV2 → Option ℕ
size_of_addr (i2p _) = some 34
size_of_addr (ipv4 _) = some 6
size_of_addr (ipv6 _) = some 18
size_of_addr (tor_v2 _) = some 12
size_of_addr (tor_v3 _) = some 34
size_of_addr (cjdns _) = some 18
size_of_addr (unknown _ _) = none

-- `none` is the panic on an address of an unknown network.
unfoldable pub compute_size : Record → Option ℕ
compute_size r = elim (size_of_addr r.addr) [
  | none ↦ none
  | some size ↦ some (size + 2 + length r.source + 8 + 1 + 9 + 9)
]

-- `!matches!(addr, AddrV2::Unknown(..))`
abbrev pub is_known : AddrV2 → Bool
is_known (unknown _ _) = false
is_known addr = true

unfoldable pub is_serializable : Record → Bool
is_serializable r = is_known r.addr

module _ (𝓗 : Hasher) where
  unfoldable pub source_id : IpAddr → List ℕ
  unfolding four_bytes
  source_id (v4 octets) = four_bytes (𝓗.octets (take 2 octets))
  source_id (v6 octets) = four_bytes (𝓗.octets (take 4 octets))

  unfoldable pub destination_id : AddrV2 → List ℕ
  unfolding four_bytes
  destination_id (ipv4 octets) = four_bytes (𝓗.octets octets)
  destination_id (ipv6 octets) = four_bytes (𝓗.octets octets)
  destination_id (i2p octets) = four_bytes (𝓗.octets octets)
  destination_id (tor_v3 octets) = four_bytes (𝓗.octets octets)
  destination_id (cjdns octets) = four_bytes (𝓗.octets octets)
  destination_id addr = four_bytes 𝓗.unknown_network

  unfoldable pub new : AddrV2 → ℕ → ℕ → IpAddr → Record
  new addr port services source = record {
    addr = addr;
    port = port;
    source = source_id source;
    services = services;
    failed_attempts = 0;
    last_connection = none;
    last_attempt = none;
  }

  -- All the mixnets are one source.
  unfoldable pub source_of_addrv2 : AddrV2 → List ℕ
  source_of_addrv2 (ipv4 octets) = source_id (v4 octets)
  source_of_addrv2 (ipv6 octets) = source_id (v6 octets)
  source_of_addrv2 source = 1 ∷ 1 ∷ 1 ∷ 1 ∷ []

  unfoldable pub new_from_addrv2_source : AddrV2 → ℕ → ℕ → AddrV2 → Record
  new_from_addrv2_source addr port services source = record {
    addr = addr;
    port = port;
    source = source_of_addrv2 source;
    services = services;
    failed_attempts = 0;
    last_connection = none;
    last_attempt = none;
  }

-- A time is a mark and the seconds.
unfoldable pub serialize_time : Option ℕ → List ℕ
unfolding to_le_bytes
serialize_time (some time) = 1 ∷ to_le_bytes 8 (as_secs time)
serialize_time none = replicate 9 0

-- What follows the mark.
unfoldable pub marked_time : ℕ → Reader (Option ℕ)
marked_time should_read =
    if should_read == 0
    then (do time ← read_exact 8; pure none)
    else if should_read == 1
    then (do time ← read_exact 8; pure (some (from_secs (from_le_bytes time))))
    else fail invalid_data

unfoldable pub deserialize_time : Reader (Option ℕ)
deserialize_time = do mark ← read_exact 1; marked_time (from_le_bytes mark)

-- What is written behind the address.
unfoldable pub serialize_fields : Record → List ℕ
unfolding to_le_bytes serialize_time
serialize_fields r =
    to_le_bytes 2 r.port
    ++ (r.source
        ++ (to_le_bytes 8 r.services
            ++ ((r.failed_attempts ∷ [])
                ++ (serialize_time r.last_attempt ++ serialize_time r.last_connection))))

module _ (𝓒 : Consensus) where
  unfoldable pub serialize : Record → Option (List ℕ)
  unfolding compute_size serialize_fields
  serialize r = elim (compute_size r) [
    | none ↦ none
    | some len ↦ some (len ∷ 𝓒.serialize r.addr ++ serialize_fields r)
  ]

  -- What follows the address.
  unfoldable pub deserialize_fields : AddrV2 → Reader Record
  deserialize_fields addr = do
    port ← read_exact 2
    source ← read_exact 4
    services ← read_exact 8
    failed ← read_exact 1
    last_attempt ← deserialize_time
    last_connection ← deserialize_time
    pure (record {
      addr = addr;
      port = from_le_bytes port;
      source = source;
      services = from_le_bytes services;
      failed_attempts = from_le_bytes failed;
      last_connection = last_connection;
      last_attempt = last_attempt;
    })

  -- The reader goes on after the content, whatever of it was used.
  unfoldable pub deserialize_content : List ℕ → Reader Record
  deserialize_content content rest = elim (𝓒.deserialize_partial content) [
    | none ↦ err invalid_data
    | some (addr, len) ↦ elim (deserialize_fields addr (drop len content)) [
      | err e ↦ err e
      | ok (r, _) ↦ ok (r, rest)
    ]
  ]

  unfoldable pub deserialize : Reader Record
  deserialize = do
    size ← read_exact 1
    content ← read_exact (from_le_bytes size)
    deserialize_content content

-- `is_terrible` at the time `now`.
unfoldable pub is_terrible : Record → ℕ → ℕ → ℕ → Bool
is_terrible r maximum_tries maximum_weekly_tries now = elim r.last_attempt [
  | none ↦ ltb maximum_tries r.failed_attempts
  | some last ↦
      if ltb (now - last) one_minute
      then false
      else if ltb maximum_weekly_tries r.failed_attempts && ltb (now - last) one_week
      then true
      else ltb maximum_tries r.failed_attempts
]
