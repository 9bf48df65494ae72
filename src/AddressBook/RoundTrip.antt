-- ===== src/AddressBook/RoundTrip.antt =====
-- A record read back from its bytes.
use mathlib.Core.Bool.{false≢true}
use kernel_node.AddressBook.Record.{is_known}
use mathlib.Core.List.{append-nil}
use kernel_node.Prelude.Slices.{same_bytes}
use kernel_node.Prelude.{
  All, take, false, ℕ, suc, ◌+◌, ◌*◌, ◌^◌, ◌<◌, ◌≡◌, refl, sym, ap, ◌∙◌, true, Option, none, some,
  List, ◌∷◌, ◌++◌, arith, ℕ_discrete, length, drop, replicate, length-append, drop-append,
  length-replicate, nat_eq, [],
}
use kernel_node.P2p.Message.{AddrV2, ipv4, ipv6, tor_v2, tor_v3, i2p, cjdns, unknown}
use kernel_node.Prelude.Bytes.{
  to_le_bytes, from_le_bytes, length-to_le_bytes, from_le_bytes-to_le_bytes,
}
use kernel_node.Prelude.Reader.{step, step_read, ok}
use kernel_node.AddressBook.Record.{
  Record, Consensus, serialize, deserialize, deserialize_content, deserialize_fields,
  serialize_fields, deserialize_time, marked_time, serialize_time, compute_size, size_of_addr,
  is_serializable, as_secs, from_secs,
}

-- The first octets of an IPv6 address that stands for an onion service, or for an IPv4 address.
abbrev pub onion_cat : List ℕ
onion_cat = 253 ∷ 135 ∷ 216 ∷ 126 ∷ 235 ∷ 67 ∷ []

abbrev pub ipv4_mapped : List ℕ
ipv4_mapped = 0 ∷ 0 ∷ 0 ∷ 0 ∷ 0 ∷ 0 ∷ 0 ∷ 0 ∷ 0 ∷ 0 ∷ 255 ∷ 255 ∷ []

abbrev pub IsByte : ℕ → Type 0
IsByte octet = octet < 256

-- So many octets.
abbrev pub AreOctets : ℕ → List ℕ → Type 0
AreOctets n octets = (length octets ≡ n) × All IsByte octets

-- An address of a known network that rust-bitcoin decodes: it has as many octets as its network says,
-- an IPv6 address is neither IPv4-mapped nor OnionCat, and a CJDNS address begins with 0xFC.
abbrev pub AddrInRange : AddrV2 → Type 0
AddrInRange (ipv4 octets) = AreOctets 4 octets
AddrInRange (ipv6 octets) =
    AreOctets 16 octets
    × (same_bytes (take 6 octets) onion_cat ≡ false)
    × (same_bytes (take 12 octets) ipv4_mapped ≡ false)
AddrInRange (tor_v2 octets) = AreOctets 10 octets
AddrInRange (tor_v3 octets) = AreOctets 32 octets
AddrInRange (i2p octets) = AreOctets 32 octets
AddrInRange (cjdns octets) = AreOctets 16 octets × (take 1 octets ≡ 252 ∷ [])
AddrInRange (unknown network octets) = ⊥

-- What rust-bitcoin documents of the encoding: such an address is encoded with its network's length,
-- and is decoded from the front of any bytes that its encoding begins.
pub record HasConsensus (𝓒 : Consensus) : Type 0 where
  pub length-serialize :
      (a : AddrV2) (n : ℕ) → AddrInRange a → size_of_addr a ≡ some n → length (𝓒.serialize a) ≡ n
  pub deserialize_partial-serialize :
      (a : AddrV2) (n : ℕ) (rest : List ℕ)
      → AddrInRange a
      → size_of_addr a ≡ some n
      → 𝓒.deserialize_partial (𝓒.serialize a ++ rest) ≡ some (a, n)

-- The ranges of the fields: u16, four bytes, u64, u8, and times of fewer than 2^64 seconds.
abbrev pub TimeInRange : Option ℕ → Type 0
TimeInRange none = Unit {0}
TimeInRange (some t) = as_secs t < 2 ^ 64

abbrev pub InRange : Record → Type 0
InRange r =
    (r.port < 2 ^ 16)
    × (length r.source ≡ 4)
    × (r.services < 2 ^ 64)
    × (r.failed_attempts < 2 ^ 8)
    × TimeInRange r.last_connection
    × TimeInRange r.last_attempt
    × AddrInRange r.addr

-- Times lose what is less than a second.
abbrev pub whole_seconds : Option ℕ → Option ℕ
whole_seconds none = none
whole_seconds (some t) = some (from_secs (as_secs t))

deserialize_time-serialize_time :
    (t : Option ℕ) (rest : List ℕ)
    → TimeInRange t
    → deserialize_time (serialize_time t ++ rest) ≡ ok (whole_seconds t, rest)
unfolding deserialize_time marked_time serialize_time from_le_bytes ℕ_discrete
deserialize_time-serialize_time none rest fits =
    step_read _ 1 (0 ∷ []) (replicate 8 0 ++ rest) refl ∙ step_read _ 8 (replicate 8 0) rest refl
deserialize_time-serialize_time (some t) rest fits =
    let seconds = to_le_bytes 8 (as_secs t) in
    step_read _ 1 (1 ∷ []) (seconds ++ rest) refl
    ∙ step_read _ 8 seconds rest (length-to_le_bytes 8 (as_secs t))
    ∙ ap (λ s. ok (some (from_secs s), rest)) (from_le_bytes-to_le_bytes 8 (as_secs t) fits)

abbrev pub in_seconds : Record → Record
in_seconds r = record r {
  last_connection = whole_seconds r.last_connection;
  last_attempt = whole_seconds r.last_attempt;
}

module _ (𝓒 : Consensus) where
  deserialize_fields-fields :
      (r : Record)
      → InRange r
      → deserialize_fields 𝓒 r.addr (serialize_fields r) ≡ ok (in_seconds r, [])
  unfolding deserialize_fields serialize_fields from_le_bytes
  deserialize_fields-fields r (port, source, services, failed, connection, attempt, _) =
      let last = serialize_time r.last_connection in
      let times = serialize_time r.last_attempt ++ last in
      let tail = (r.failed_attempts ∷ []) ++ times in
      step_read _ 2 (to_le_bytes 2 r.port) (r.source ++ (to_le_bytes 8 r.services ++ tail))
        (length-to_le_bytes 2 r.port)
      ∙ step_read _ 4 r.source (to_le_bytes 8 r.services ++ tail) source
      ∙ step_read _ 8 (to_le_bytes 8 r.services) tail (length-to_le_bytes 8 r.services)
      ∙ step_read _ 1 (r.failed_attempts ∷ []) times refl
      ∙ step _ (deserialize_time-serialize_time r.last_attempt last attempt)
      ∙ step _ (
          ap deserialize_time (sym (append-nil last))
          ∙ deserialize_time-serialize_time r.last_connection [] connection)
      ∙ rw
          (from_le_bytes-to_le_bytes 2 r.port port, from_le_bytes-to_le_bytes 8 r.services services)
          (ground arith)

  deserialize_content-serialize :
      (L : HasConsensus 𝓒) (r : Record) (n : ℕ) (rest : List ℕ)
      → InRange r
      → size_of_addr r.addr ≡ some n
      → deserialize_content 𝓒 (𝓒.serialize r.addr ++ serialize_fields r) rest
        ≡ ok (in_seconds r, rest)
  unfolding deserialize_content
  deserialize_content-serialize L r n rest fits known =
      let behind =
        ap (λ k. drop k (𝓒.serialize r.addr ++ serialize_fields r))
          (sym (L.length-serialize r.addr n fits.6 known))
        ∙ drop-append (𝓒.serialize r.addr) (serialize_fields r) in
      rw (
        L.deserialize_partial-serialize r.addr n (serialize_fields r) fits.6 known,
        deserialize_content,
        behind,
        deserialize_fields-fields r fits,
      )

  length-serialize_time : (t : Option ℕ) → length (serialize_time t) ≡ 9
  unfolding serialize_time
  length-serialize_time none = length-replicate {A = ℕ} 9 0
  length-serialize_time (some t) = ap suc (length-to_le_bytes 8 (as_secs t))

  length-serialize_fields : (r : Record) → length r.source ≡ 4 → length (serialize_fields r) ≡ 33
  unfolding serialize_fields
  length-serialize_fields r four =
      rw
        (
          length-append (to_le_bytes 2 r.port),
          length-append r.source,
          length-append (to_le_bytes 8 r.services),
          length-append (serialize_time r.last_attempt),
          length-to_le_bytes,
          length-serialize_time r.last_attempt,
          length-serialize_time r.last_connection,
          four,
        )
        refl

  size_known : (a : AddrV2) → is_known a ≡ true → (n : ℕ) × (size_of_addr a ≡ some n)
  size_known (ipv4 _) e = (6, refl)
  size_known (ipv6 _) e = (18, refl)
  size_known (tor_v2 _) e = (12, refl)
  size_known (tor_v3 _) e = (34, refl)
  size_known (i2p _) e = (34, refl)
  size_known (cjdns _) e = (18, refl)
  size_known (unknown _ _) e = absurd (false≢true e)

  compute_size_lem :
      (r : Record) (n : ℕ)
      → size_of_addr r.addr ≡ some n
      → length r.source ≡ 4
      → compute_size r ≡ some (n + 33)
  unfolding compute_size
  compute_size_lem r n known four = rw (known, compute_size) (ap some (omega arith))

  deserialize_sized :
      (L : HasConsensus 𝓒) (r : Record) (n : ℕ) (rest : List ℕ)
      → InRange r
      → size_of_addr r.addr ≡ some n
      → deserialize 𝓒 (((n + 33) ∷ 𝓒.serialize r.addr ++ serialize_fields r) ++ rest)
        ≡ ok (in_seconds r, rest)
  unfolding deserialize from_le_bytes
  deserialize_sized L r n rest fits known =
      let content = 𝓒.serialize r.addr ++ serialize_fields r in
      step_read _ 1 ((n + 33) ∷ []) (content ++ rest) refl
      ∙ step_read _ (n + 33 + 256 * 0) content rest (
          omega (
            arith,
            L.length-serialize r.addr n fits.6 known,
            length-append (𝓒.serialize r.addr) (serialize_fields r),
            length-serialize_fields r fits.1,
          ))
      ∙ deserialize_content-serialize L r n rest fits known

  -- A record of a known network, its fields in their ranges, is written, and is read back from its
  -- bytes with the times cut to seconds; the reader stands behind it. Its address is one that
  -- rust-bitcoin decodes.
  pub deserialize-serialize :
      (L : HasConsensus 𝓒) (r : Record) (rest : List ℕ)
      → is_serializable r ≡ true
      → InRange r
      → (bytes : List ℕ) × (serialize 𝓒 r ≡ some bytes)
        × (deserialize 𝓒 (bytes ++ rest) ≡ ok (in_seconds r, rest))
  unfolding serialize is_serializable
  deserialize-serialize L r rest known fits =
      let (n, size) = size_known r.addr known in
      (
        (n + 33) ∷ 𝓒.serialize r.addr ++ serialize_fields r,
        rw (compute_size_lem r n size fits.1, serialize) refl,
        deserialize_sized L r n rest fits size,
      )
