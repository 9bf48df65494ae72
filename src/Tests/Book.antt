-- ===== src/Tests/Book.antt =====
-- The theorems on the address book and the handshake, at concrete inputs.
use kernel_node.Prelude.{
  ℕ, All, zero, suc, ◌+◌, ◌-◌, ◌*◌, ◌/◌, ◌%◌, ◌^◌, ◌≤◌, ◌<◌, min, ◌≡◌, refl, sym, ap, ◌∙◌, ◌≢◌, ◌↔◌,
  ◌⊎◌, inl, inr, ite, Bool, true, false, not, ◌&&◌, ◌||◌, cond, Option, none, some, List, [], ◌∷◌,
  ◌++◌, map, arith, dec_lt, dec_le, ℕ_discrete, length, get_elem?, set, take, drop, replicate,
  length-append, take-append, drop-append, length-set, get_elem?-set_self, length-replicate, filter,
  ltb, leb, if◌then◌else◌, ltb→lt, lt→ltb, Bool-cases, Option-cases, Eq, ◌==◌, ==-self, nat_eq,
}
use kernel_node.Prelude.HashSet.{contains}
use kernel_node.P2p.Message.{AddrV2, ipv4, ipv6, tor_v2, tor_v3, i2p, cjdns, unknown}
use kernel_node.AddressBook.Record.{
  Consensus, size_of_addr, serialize, deserialize, is_serializable,
}
use kernel_node.Prelude.Slices.{same_bytes, same_bytes_self}
use kernel_node.AddressBook.RoundTrip.{
  onion_cat, ipv4_mapped, AddrInRange, HasConsensus, in_seconds, deserialize-serialize,
}
use kernel_node.Prelude.Int.{pos}
use kernel_node.Prelude.Reader.{ok}
use kernel_node.P2p.Message.{
  NetworkMessage, VersionMessage, ipv4, version, verack, wtxid_relay, send_headers, get_addr,
  fee_filter, send_cmpct,
}
use kernel_node.P2p.Handshake
use kernel_node.P2p.Handshake.{
  handshake, new, build_our_version, suggested_messages, CompletedHandshake, no_preferences,
}
use kernel_node.P2p.Handshake.Completion.{preferences, handshake-ok, IsAcceptable, closing}
use kernel_node.AddressBook.Record.{Record, Hasher}
use kernel_node.AddressBook.Table
use kernel_node.AddressBook.File
use kernel_node.AddressBook.File.{unordered_records, write_table, read_table}
use kernel_node.AddressBook.Table.{Table, select, is_empty, is_bucket_empty}
use kernel_node.AddressBook.Table.Sources.{add_all, from_source, add_all-one_source}
use kernel_node.AddressBook.Table.Writes.{record_at, IsShaped}
use kernel_node.AddressBook.Table.Places.{
  Command, adds, fails, perform_all, promised_all, perform_all-promised_all,
}
use kernel_node.AddressBook.Table.{bucket_at}
use kernel_node.P2p.Message.{AddrV2Message}
use kernel_node.AddressBook.Table.Selection.{Stored, select-Stored}

abbrev pub hasher : Hasher
hasher = record {
  octets = λ bytes. length bytes;
  unknown_network = 7;
  destination = λ id. length id;
}

abbrev pub peer : Record
peer = record {
  addr = ipv4 (1 ∷ 2 ∷ 3 ∷ 4 ∷ []);
  port = 8333;
  source = 9 ∷ 0 ∷ 0 ∷ 0 ∷ [];
  services = 1;
  failed_attempts = 2;
  last_connection = none;
  last_attempt = some (5 * 10 ^ 9 + 7);
}

abbrev pub book : Table
book = (none ∷ none ∷ []) ∷ (none ∷ some peer ∷ []) ∷ (none ∷ none ∷ []) ∷ []

select-Stored_example :
    (r : Record) × (select hasher 3 2 2 book 2 (λ b. b) (λ b. 0) ≡ some r)
    × Stored hasher 3 2 2 book r
unfolding is_empty is_bucket_empty
select-Stored_example = select-Stored hasher 3 2 2 book 2 (λ b. b) (λ b. 0) (omega arith) refl refl

add_all-one_source_example :
    (buckets : List ℕ) × (length buckets ≤ 2)
    × ((b : ℕ)
        → (contains b buckets ≡ true)
          ⊎ (get_elem?
                (add_all hasher 8 2 2 book
                  (map (from_source hasher 8 2 2 (9 ∷ 0 ∷ 0 ∷ 0 ∷ [])) (peer ∷ peer ∷ [])))
                b
              ≡ get_elem? book b))
add_all-one_source_example =
    add_all-one_source hasher 8 2 2 (9 ∷ 0 ∷ 0 ∷ 0 ∷ []) (peer ∷ peer ∷ []) book (omega arith)

abbrev theirs : VersionMessage
theirs = record {
  version = 70015;
  services = 9;
  timestamp = pos 1000;
  nonce = 5;
  user_agent = [];
  start_height = pos 3;
  relay = true;
}

abbrev has_all : ℕ → ℕ → Bool
has_all a b = leb b a

abbrev no_name : NetworkMessage ℕ ℕ → List ℕ
no_name message = []

abbrev lenient : Handshake.ConnectionConfig
lenient = Handshake.decrease_version_requirement new 70000

abbrev incoming : List (Option (NetworkMessage ℕ ℕ))
incoming = some (version theirs) ∷ none ∷ some wtxid_relay ∷ some verack ∷ some get_addr ∷ []

abbrev completed : CompletedHandshake
completed = record {
  feeler = record {
    effective_version = 70015;
    services = 9;
    net_time_difference = pos 7;
    reported_height = pos 3;
    nonce = 4;
  };
  their_preferences = record no_preferences { sendwtxid = true };
}

abbrev all_sent : List (NetworkMessage ℕ ℕ)
all_sent =
    version (build_our_version lenient 1007 4)
    ∷ send_headers
    ∷ verack
    ∷ send_cmpct lenient.cmpct
    ∷ fee_filter lenient.fee
    ∷ []

handshake_run : handshake has_all no_name lenient 1007 4 incoming ≡ (all_sent, ok completed)
unfolding handshake Handshake.start_handshake Handshake.accept_version Handshake.negotiate_loop
    Handshake.negotiate Handshake.closing_messages Handshake.suggested_messages
    kernel_node.Prelude.Int.less ℕ_discrete
handshake_run = refl

handshake-ok_example :
    (v : VersionMessage) × (before rest : List (Option (NetworkMessage ℕ ℕ))) × (incoming
      ≡ some (version v) ∷ before ++ some verack ∷ rest)
    × IsAcceptable has_all no_name lenient 4 v
    × (completed.their_preferences ≡ preferences has_all no_name no_preferences before)
    × (completed.feeler.effective_version ≡ min lenient.our_version v.version)
    × (all_sent
        ≡ (version (build_our_version lenient 1007 4)
            ∷ suggested_messages has_all no_name (min lenient.our_version v.version))
          ++ closing has_all no_name lenient)
handshake-ok_example =
    handshake-ok has_all no_name lenient 1007 4 incoming all_sent completed handshake_run

-- An encoding of addresses: a network, a length, and the octets. An IPv6 address that is IPv4-mapped or
-- OnionCat is not decoded, nor is a CJDNS address that does not begin with 0xFC.
abbrev make : ℕ → List ℕ → Option AddrV2
make zero octets = some (ipv4 octets)
make (suc zero) octets =
    if same_bytes (take 6 octets) onion_cat
    then none
    else if same_bytes (take 12 octets) ipv4_mapped
    then none
    else some (ipv6 octets)
make (suc (suc zero)) octets = some (tor_v2 octets)
make (suc (suc (suc zero))) octets = some (tor_v3 octets)
make (suc (suc (suc (suc zero)))) octets = some (i2p octets)
make (suc (suc (suc (suc (suc n))))) octets =
    if same_bytes (take 1 octets) (252 ∷ []) then some (cjdns octets) else none

abbrev decoded : ℕ → Option AddrV2 → Option (AddrV2 × ℕ)
decoded size none = none
decoded size (some a) = some (a, size + 2)

abbrev decode : List ℕ → Option (AddrV2 × ℕ)
decode [] = none
decode (network ∷ []) = none
decode (network ∷ size ∷ bytes) = decoded size (make network (take size bytes))

abbrev encode : AddrV2 → List ℕ
encode (ipv4 octets) = 0 ∷ 4 ∷ octets
encode (ipv6 octets) = 1 ∷ 16 ∷ octets
encode (tor_v2 octets) = 2 ∷ 10 ∷ octets
encode (tor_v3 octets) = 3 ∷ 32 ∷ octets
encode (i2p octets) = 4 ∷ 32 ∷ octets
encode (cjdns octets) = 5 ∷ 16 ∷ octets
encode (unknown network octets) = []

abbrev pub plain : Consensus
plain = record { serialize = encode; deserialize_partial = decode }

take_octets : (n : ℕ) (octets rest : List ℕ) → length octets ≡ n → take n (octets ++ rest) ≡ octets
take_octets n octets rest e = ap (λ k. take k (octets ++ rest)) (sym e) ∙ take-append octets rest

length-encode :
    (a : AddrV2) (n : ℕ) → AddrInRange a → size_of_addr a ≡ some n → length (encode a) ≡ n
length-encode (ipv4 octets) n (size, _) e = ground (arith, size)
length-encode (ipv6 octets) n fits e = ground (arith, fits.0.0)
length-encode (tor_v2 octets) n (size, _) e = ground (arith, size)
length-encode (tor_v3 octets) n (size, _) e = ground (arith, size)
length-encode (i2p octets) n (size, _) e = ground (arith, size)
length-encode (cjdns octets) n fits e = ground (arith, fits.0.0)
length-encode (unknown network octets) n fits e = absurd fits

make_ipv6 : (octets : List ℕ) → AddrInRange (ipv6 octets) → make 1 octets ≡ some (ipv6 octets)
make_ipv6 octets fits = rw (fits.1, fits.2) refl

make_cjdns : (octets : List ℕ) → AddrInRange (cjdns octets) → make 5 octets ≡ some (cjdns octets)
make_cjdns octets fits = rw (fits.1, same_bytes_self (252 ∷ [])) refl

decode-encode :
    (a : AddrV2) (n : ℕ) (rest : List ℕ)
    → AddrInRange a
    → size_of_addr a ≡ some n
    → decode (encode a ++ rest) ≡ some (a, n)
decode-encode (ipv4 octets) n rest (size, _) e = rw (take_octets 4 octets rest size) (ground arith)
decode-encode (ipv6 octets) n rest fits e =
    ap (λ o. decoded 16 (make 1 o)) (take_octets 16 octets rest fits.0.0)
    ∙ ap (decoded 16) (make_ipv6 octets fits)
    ∙ ground arith
decode-encode (tor_v2 octets) n rest (size, _) e =
    rw (take_octets 10 octets rest size) (ground arith)
decode-encode (tor_v3 octets) n rest (size, _) e =
    rw (take_octets 32 octets rest size) (ground arith)
decode-encode (i2p octets) n rest (size, _) e = rw (take_octets 32 octets rest size) (ground arith)
decode-encode (cjdns octets) n rest fits e =
    ap (λ o. decoded 16 (make 5 o)) (take_octets 16 octets rest fits.0.0)
    ∙ ap (decoded 16) (make_cjdns octets fits)
    ∙ ground arith
decode-encode (unknown network octets) n rest fits e = absurd fits

pub plain-HasConsensus : HasConsensus plain
plain-HasConsensus = record {
  length-serialize = length-encode;
  deserialize_partial-serialize = decode-encode;
}

pub peer-AddrInRange : AddrInRange peer.addr
peer-AddrInRange = (refl, (omega arith, (omega arith, (omega arith, (omega arith, tt)))))

deserialize-serialize_example :
    (bytes : List ℕ) × (serialize plain peer ≡ some bytes)
    × (deserialize plain (bytes ++ (7 ∷ [])) ≡ ok (in_seconds peer, 7 ∷ []))
unfolding is_serializable
deserialize-serialize_example =
    deserialize-serialize plain plain-HasConsensus peer (7 ∷ []) refl
      (omega arith, refl, omega arith, omega arith, tt, omega arith, peer-AddrInRange)

kept_records : unordered_records book ≡ peer ∷ []
unfolding unordered_records File.bucket_records is_serializable
kept_records = refl

three_buckets : (b : ℕ) → b < 3 → length (bucket_at (Table.new hasher 3 2 2) b) ≡ 2
unfolding bucket_at
three_buckets zero h = refl
three_buckets (suc zero) h = refl
three_buckets (suc (suc zero)) h = refl
three_buckets (suc (suc (suc b))) h = absurd (omega arith)

new-Shaped : IsShaped 3 2 (Table.new hasher 3 2 2)
new-Shaped = record { buckets = refl; slots = three_buckets }

abbrev commands : List Command
commands = adds peer ∷ fails peer 8 ∷ adds peer ∷ []

perform_all-promised_all_example :
    (record_at (perform_all hasher 3 2 2 (Table.new hasher 3 2 2) commands) 1 1
      ≡ promised_all hasher 3 2 2 1 1 (record_at (Table.new hasher 3 2 2) 1 1) commands)
    × IsShaped 3 2 (perform_all hasher 3 2 2 (Table.new hasher 3 2 2) commands)
perform_all-promised_all_example =
    perform_all-promised_all hasher 3 2 2 (Table.new hasher 3 2 2) commands 1 1 (omega arith)
      (omega arith) new-Shaped

abbrev gossip : List AddrV2Message
gossip =
    record { addr = ipv4 (1 ∷ 2 ∷ 3 ∷ 4 ∷ []); port = 8333; services = 1 }
    ∷ record { addr = unknown 42 (7 ∷ []); port = 8333; services = 1 }
    ∷ []
