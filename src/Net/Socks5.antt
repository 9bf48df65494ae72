-- ===== src/Net/Socks5.antt =====
-- src/net/socks5.rs and src/net/addr.rs: addresses as the proxy and the log spell them, and the
-- dialogue with the proxy. Bytes are numbers below 256; the hash is sha3's and a parameter.
pub mod Base32
use kernel_node.Prelude.{
  ℕ, zero, suc, ◌+◌, ◌-◌, ◌*◌, ◌/◌, ◌%◌, ◌^◌, List, ◌∷◌, ◌++◌, take, ltb, leb, if◌then◌else◌,
  nat_eq, [],
}

-- "abcdefghijklmnopqrstuvwxyz234567"
unfoldable pub alphabet : ℕ → ℕ
alphabet n = if ltb n 26 then 97 + n else 24 + n

-- ".onion checksum"
abbrev pub salt : List ℕ
salt = 46 ∷ 111 ∷ 110 ∷ 105 ∷ 111 ∷ 110 ∷ 32 ∷ 99 ∷ 104 ∷ 101 ∷ 99 ∷ 107 ∷ 115 ∷ 117 ∷ 109 ∷ []

-- ".onion"
abbrev pub onion_suffix : List ℕ
onion_suffix = 46 ∷ 111 ∷ 110 ∷ 105 ∷ 111 ∷ 110 ∷ []

abbrev pub tor_version : ℕ
tor_version = 3

-- `while bits_left >= 5`: what is written, and the bits that are left. A byte leaves at most twelve
-- bits, so three rounds are more than enough.
unfoldable pub take_groups : ℕ → ℕ → ℕ → List ℕ × ℕ
take_groups zero buffer bits_left = ([], bits_left)
take_groups (suc fuel) buffer bits_left =
    let rest = take_groups fuel buffer (bits_left - 5) in
    if leb 5 bits_left
    then (alphabet (buffer / 2 ^ (bits_left - 5) % 32) ∷ rest.0, rest.1)
    else ([], bits_left)

-- The loop over the bytes. `buffer << 8` loses what leaves 64 bits, and its last eight bits are 0.
unfoldable pub encode_loop : List ℕ → ℕ → ℕ → List ℕ
encode_loop [] buffer bits_left = []
encode_loop (byte ∷ bytes) buffer bits_left =
    let shifted = (buffer * 2 ^ 8) % 2 ^ 64 + byte in
    let groups = take_groups 3 shifted (bits_left + 8) in
    groups.0 ++ encode_loop bytes shifted groups.1

-- The array has room for 56 characters.
unfoldable pub base32_encode_35 : List ℕ → List ℕ
base32_encode_35 bytes = encode_loop bytes 0 0

module _ (sha3_256 : List ℕ → List ℕ) where
  unfoldable pub pubkey_to_service : List ℕ → List ℕ
  pubkey_to_service ed25519 =
      let cs = sha3_256 (salt ++ (ed25519 ++ (tor_version ∷ []))) in
      base32_encode_35 (ed25519 ++ (take 2 cs ++ (tor_version ∷ []))) ++ onion_suffix

  -- The length byte, and the service.
  unfoldable pub encode_onion : List ℕ → List ℕ
  encode_onion pubkey = 62 ∷ pubkey_to_service pubkey
