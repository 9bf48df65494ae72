-- ===== src/Net/Socks5/Base32.antt =====
-- src/net/socks5.rs: the base 32 encoder against the definition of base 32 (RFC 4648, section 6).
use kernel_node.Prelude.{
  ℕ, All, zero, suc, ◌+◌, ◌*◌, ◌/◌, ◌%◌, ◌^◌, ◌≤◌, ◌<◌, ◌≡◌, refl, ap, ◌∙◌, ◌⊎◌, inl, inr, List,
  ◌∷◌, ◌++◌, arith, length, ltb, Bool-cases, nat_eq, [],
}
use kernel_node.Net.Socks5.{alphabet, encode_loop, take_groups, base32_encode_35}

-- Forty bits are eight characters, the most significant five bits first.
abbrev pub quantum : ℕ → ℕ → ℕ → ℕ → ℕ → ℕ
quantum a b c d e = a * 2 ^ 32 + b * 2 ^ 24 + c * 2 ^ 16 + d * 2 ^ 8 + e

abbrev pub characters : ℕ → List ℕ
characters n =
    alphabet (n / 2 ^ 35 % 32)
    ∷ alphabet (n / 2 ^ 30 % 32)
    ∷ alphabet (n / 2 ^ 25 % 32)
    ∷ alphabet (n / 2 ^ 20 % 32)
    ∷ alphabet (n / 2 ^ 15 % 32)
    ∷ alphabet (n / 2 ^ 10 % 32)
    ∷ alphabet (n / 2 ^ 5 % 32)
    ∷ alphabet (n % 32)
    ∷ []

-- Bytes that are no multiple of five end with the last whole quantum.
unfoldable pub base32 : List ℕ → List ℕ
base32 (a ∷ b ∷ c ∷ d ∷ e ∷ bytes) = characters (quantum a b c d e) ++ base32 bytes
base32 bytes = []

abbrev pub AreBytes : List ℕ → Type 0
AreBytes = All (λ b. b < 256)

-- The buffer, shifted with what leaves 64 bits lost, and a byte put in.
abbrev shift : ℕ → ℕ → ℕ
shift buffer byte = (buffer * 2 ^ 8) % 2 ^ 64 + byte

module _ (buffer a b c d e : ℕ) (ha : a < 256) (hb : b < 256) (hc : c < 256) (hd : d < 256)
    (he : e < 256) where
  low8 : shift buffer a % 2 ^ 8 ≡ a
  low8 = omega arith

  low16 : shift (shift buffer a) b % 2 ^ 16 ≡ a * 2 ^ 8 + b
  low16 = omega (arith, low8)

  low24 : shift (shift (shift buffer a) b) c % 2 ^ 24 ≡ a * 2 ^ 16 + b * 2 ^ 8 + c
  low24 = omega (arith, low16)

  low32 :
      shift (shift (shift (shift buffer a) b) c) d % 2 ^ 32
      ≡ a * 2 ^ 24 + b * 2 ^ 16 + c * 2 ^ 8 + d
  low32 = omega (arith, low24)

  low40 : shift (shift (shift (shift (shift buffer a) b) c) d) e % 2 ^ 40 ≡ quantum a b c d e
  low40 = omega (arith, low32)

  char0 : (shift buffer a) / 2 ^ 3 % 32 ≡ quantum a b c d e / 2 ^ 35 % 32
  char0 = omega (arith, low8)

  char1 : (shift (shift buffer a) b) / 2 ^ 6 % 32 ≡ quantum a b c d e / 2 ^ 30 % 32
  char1 = omega (arith, low16)

  char2 : (shift (shift buffer a) b) / 2 ^ 1 % 32 ≡ quantum a b c d e / 2 ^ 25 % 32
  char2 = omega (arith, low16)

  char3 : (shift (shift (shift buffer a) b) c) / 2 ^ 4 % 32 ≡ quantum a b c d e / 2 ^ 20 % 32
  char3 = omega (arith, low24)

  char4 :
      (shift (shift (shift (shift buffer a) b) c) d) / 2 ^ 7 % 32 ≡ quantum a b c d e / 2 ^ 15 % 32
  char4 = omega (arith, low32)

  char5 :
      (shift (shift (shift (shift buffer a) b) c) d) / 2 ^ 2 % 32 ≡ quantum a b c d e / 2 ^ 10 % 32
  char5 = omega (arith, low32)

  char6 :
      (shift (shift (shift (shift (shift buffer a) b) c) d) e) / 2 ^ 5 % 32
      ≡ quantum a b c d e / 2 ^ 5 % 32
  char6 = omega (arith, low40)

  char7 :
      (shift (shift (shift (shift (shift buffer a) b) c) d) e) / 2 ^ 0 % 32 ≡ quantum a b c d e % 32
  char7 = omega (arith, low40)

  encode_loop-quantum :
      (bytes : List ℕ)
      → (later : ℕ) × (encode_loop (a ∷ b ∷ c ∷ d ∷ e ∷ bytes) buffer 0
          ≡ characters (quantum a b c d e) ++ encode_loop bytes later 0)
  unfolding encode_loop take_groups
  encode_loop-quantum bytes = (
    shift (shift (shift (shift (shift buffer a) b) c) d) e,
    rw (char0, char1, char2, char3, char4, char5, char6, char7) refl,
  )

encode_loop-base32 :
    (k : ℕ) (bytes : List ℕ) (buffer : ℕ)
    → AreBytes bytes
    → length bytes ≡ 5 * k
    → encode_loop bytes buffer 0 ≡ base32 bytes
unfolding encode_loop base32
encode_loop-base32 zero [] buffer h n = refl
encode_loop-base32 zero (a ∷ bytes) buffer h n = absurd (omega arith)
encode_loop-base32 (suc k) [] buffer h n = absurd (omega arith)
encode_loop-base32 (suc k) (a ∷ []) buffer h n = absurd (omega arith)
encode_loop-base32 (suc k) (a ∷ b ∷ []) buffer h n = absurd (omega arith)
encode_loop-base32 (suc k) (a ∷ b ∷ c ∷ []) buffer h n = absurd (omega arith)
encode_loop-base32 (suc k) (a ∷ b ∷ c ∷ d ∷ []) buffer h n = absurd (omega arith)
encode_loop-base32 (suc k) (a ∷ b ∷ c ∷ d ∷ e ∷ bytes) buffer (ha, (hb, (hc, (hd, (he, h))))) n =
    let (later, one) = encode_loop-quantum buffer a b c d e ha hb hc hd he bytes in
    one
    ∙ ap (λ rest. characters (quantum a b c d e) ++ rest)
        (encode_loop-base32 k bytes later h (omega arith))

-- The characters of the alphabet, a to z and 2 to 7.
abbrev pub IsBase32 : ℕ → Type 0
IsBase32 c = ((97 ≤ c) × (c ≤ 122)) ⊎ ((50 ≤ c) × (c ≤ 55))

alphabet-Base32 : (n : ℕ) → n < 32 → IsBase32 (alphabet n)
unfolding alphabet
alphabet-Base32 n h = elim (Bool-cases (ltb n 26)) [
  | inl letter ↦ inl (ground (arith, letter), ground (arith, letter))
  | inr digit ↦ inr (ground (arith, digit), ground (arith, digit))
]

base32-bounds :
    (k : ℕ) (bytes : List ℕ)
    → length bytes ≡ 5 * k
    → (length (base32 bytes) ≡ 8 * k) × All IsBase32 (base32 bytes)
unfolding base32
base32-bounds zero [] n = (omega arith, tt)
base32-bounds zero (a ∷ bytes) n = absurd (omega arith)
base32-bounds (suc k) [] n = absurd (omega arith)
base32-bounds (suc k) (a ∷ []) n = absurd (omega arith)
base32-bounds (suc k) (a ∷ b ∷ []) n = absurd (omega arith)
base32-bounds (suc k) (a ∷ b ∷ c ∷ []) n = absurd (omega arith)
base32-bounds (suc k) (a ∷ b ∷ c ∷ d ∷ []) n = absurd (omega arith)
base32-bounds (suc k) (a ∷ b ∷ c ∷ d ∷ e ∷ bytes) n =
    let (size, all) = base32-bounds k bytes (omega arith) in
    let five : (m : ℕ) → IsBase32 (alphabet (m % 32)) =
      λ m. alphabet-Base32 (m % 32) (omega arith) in
    (
      omega (arith, size),
      (five _, (five _, (five _, (five _, (five _, (five _, (five _, (five _, all)))))))),
    )

-- On 35 bytes the encoder, whose buffer holds no more than 64 bits, writes what base 32 says.
pub base32_encode_35-base32 :
    (bytes : List ℕ) → AreBytes bytes → length bytes ≡ 35 → base32_encode_35 bytes ≡ base32 bytes
unfolding base32_encode_35
base32_encode_35-base32 bytes h n = encode_loop-base32 7 bytes 0 h n

-- On 35 bytes the encoder writes 56 characters, as many as its array has room for, and all of them
-- are of the alphabet.
pub length-base32_encode_35 :
    (bytes : List ℕ)
    → AreBytes bytes
    → length bytes ≡ 35
    → (length (base32_encode_35 bytes) ≡ 56) × All IsBase32 (base32_encode_35 bytes)
length-base32_encode_35 bytes h n = rw (base32_encode_35-base32 bytes h n) (base32-bounds 7 bytes n)
