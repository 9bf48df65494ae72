-- ===== src/Wallet/Keys/RoundTrip.antt =====
-- crates/wallet/src/silentpayments/keys_file.rs: which files are read, and as what.
use kernel_node.Prelude.{
  ℕ, zero, suc, ◌+◌, ◌*◌, ◌<◌, ◌≡◌, refl, sym, ap, ◌∙◌, inl, inr, true, some, List, ◌∷◌, ◌++◌,
  arith, ℕ_discrete, length, take, drop, length-append, Bool-cases, Option-cases, ◌==◌, nat_eq, [],
}
use kernel_node.Prelude.Bytes.{from_le_bytes}
use kernel_node.Prelude.Slices.{byte_at, drop-append_past, take-append_here}
use kernel_node.Prelude.Reader.{ok, Result-cases}
use kernel_node.Wallet.Scanning.{SilentPayments}
use kernel_node.Wallet.Keys.{
  KeyMaking, magic, strip_prefix, SpendKey, secret, xonly_public, SilentPaymentKeysFile, to_bytes,
  from_bytes, spend_tag, spend_bytes, decode_spend_key,
}

-- What secp256k1 says of the 32 bytes of its keys: they are all there is to a key.
pub record HasKeyBytes (𝓢 : SilentPayments) (𝓚 : KeyMaking 𝓢) : Type 0 where
  pub secret_length : (k : 𝓢.SecretKey) → length (𝓚.secret_bytes k) ≡ 32
  pub secret_read : (k : 𝓢.SecretKey) → 𝓚.secret_from_slice (𝓚.secret_bytes k) ≡ ok k
  pub secret_written :
      (b : List ℕ) (k : 𝓢.SecretKey) → 𝓚.secret_from_slice b ≡ ok k → 𝓚.secret_bytes k ≡ b
  pub xonly_length : (k : 𝓚.XOnlyPublicKey) → length (𝓚.xonly_bytes k) ≡ 32
  pub xonly_read : (k : 𝓚.XOnlyPublicKey) → 𝓚.xonly_from_slice (𝓚.xonly_bytes k) ≡ ok k
  pub xonly_written :
      (b : List ℕ) (k : 𝓚.XOnlyPublicKey) → 𝓚.xonly_from_slice b ≡ ok k → 𝓚.xonly_bytes k ≡ b

strip_prefix-append : (p bytes : List ℕ) → strip_prefix p (p ++ bytes) ≡ some bytes
unfolding strip_prefix
strip_prefix-append [] bytes = refl
strip_prefix-append (b ∷ p) bytes = ground (arith, strip_prefix-append p bytes)

strip_prefix-some : (p bytes body : List ℕ) → strip_prefix p bytes ≡ some body → bytes ≡ p ++ body
unfolding strip_prefix
strip_prefix-some [] bytes body e = ground arith
strip_prefix-some (b ∷ p) [] body e = ground arith
strip_prefix-some (b ∷ p) (c ∷ bytes) body e = ground (arith, strip_prefix-some p bytes body)

-- A body that is long enough is its key, its tag and the rest.
body_parts :
    (n : ℕ) (body : List ℕ)
    → n < length body
    → body ≡ take n body ++ (byte_at n body ∷ drop (suc n) body)
unfolding from_le_bytes
body_parts n [] h = absurd (omega arith)
body_parts zero (b ∷ body) h = ap (λ c. c ∷ body) (omega arith)
body_parts (suc n) (b ∷ body) h = ap (◌∷◌ b) (body_parts n body (omega arith))

module _ (𝓢 : SilentPayments) (𝓚 : KeyMaking 𝓢) (law : HasKeyBytes 𝓢 𝓚) where
  length-spend_bytes : (k : SpendKey 𝓢 𝓚) → length (spend_bytes 𝓢 𝓚 k) ≡ 32
  length-spend_bytes (secret sk) = law.secret_length sk
  length-spend_bytes (xonly_public pk) = law.xonly_length pk

  decode_spend_key-spend_bytes :
      (k : SpendKey 𝓢 𝓚) → decode_spend_key 𝓢 𝓚 (spend_tag 𝓢 𝓚 k) (spend_bytes 𝓢 𝓚 k) ≡ ok k
  unfolding decode_spend_key ℕ_discrete
  decode_spend_key-spend_bytes (secret sk) = rw (law.secret_read sk) refl
  decode_spend_key-spend_bytes (xonly_public pk) = rw (law.xonly_read pk) refl

  length-to_bytes : (f : SilentPaymentKeysFile 𝓢 𝓚) → length (to_bytes 𝓢 𝓚 f) ≡ 69
  unfolding to_bytes
  length-to_bytes f =
      let key = 𝓚.secret_bytes f.scan_key in
      omega (
        arith,
        length-append key (spend_tag 𝓢 𝓚 f.spend_key ∷ spend_bytes 𝓢 𝓚 f.spend_key),
        law.secret_length f.scan_key,
        length-spend_bytes f.spend_key,
      )

  pub from_bytes-to_bytes : (f : SilentPaymentKeysFile 𝓢 𝓚) → from_bytes 𝓢 𝓚 (to_bytes 𝓢 𝓚 f) ≡ ok f
  unfolding from_bytes to_bytes from_le_bytes
  from_bytes-to_bytes f =
      let key = 𝓚.secret_bytes f.scan_key in
      let after = (spend_tag 𝓢 𝓚 f.spend_key ∷ []) ++ spend_bytes 𝓢 𝓚 f.spend_key in
      let size : (length (to_bytes 𝓢 𝓚 f) == 69) ≡ true = ground (arith, length-to_bytes f) in
      let first : take 32 (key ++ after) ≡ key =
        take-append_here 32 key after (law.secret_length f.scan_key) in
      let past32 : drop 32 (key ++ after) ≡ after =
        drop-append_past 0 32 key after (omega (arith, law.secret_length f.scan_key)) in
      let past33 : drop 33 (key ++ after) ≡ spend_bytes 𝓢 𝓚 f.spend_key =
        drop-append_past 1 33 key after (omega (arith, law.secret_length f.scan_key)) in
      let tag : spend_tag 𝓢 𝓚 f.spend_key + 256 * 0 ≡ spend_tag 𝓢 𝓚 f.spend_key = omega arith in
      rw
        (
          size,
          strip_prefix-append magic (key ++ after),
          first,
          law.secret_read f.scan_key,
          past33,
          past32,
          tag,
          decode_spend_key-spend_bytes f.spend_key,
        )
        refl

  decode_spend_key-ok :
      (tag : ℕ) (b : List ℕ) (k : SpendKey 𝓢 𝓚)
      → decode_spend_key 𝓢 𝓚 tag b ≡ ok k
      → (spend_tag 𝓢 𝓚 k ≡ tag) × (spend_bytes 𝓢 𝓚 k ≡ b)
  unfolding decode_spend_key
  decode_spend_key-ok tag b k e = elim (Bool-cases (tag == 0)) [
    | inl zero_tag ↦ elim (Result-cases (𝓚.secret_from_slice b)) [
      | inr (x, bad) ↦ absurd (ground (arith, e, bad))
      | inl (sk, good) ↦
          let same : k ≡ secret sk = ground (arith, e, good) in
          rw same (ground arith, law.secret_written b sk good)
    ]
    | inr other ↦ elim (Bool-cases (tag == 1)) [
      | inr unknown ↦ absurd (ground (arith, e, other, unknown))
      | inl one_tag ↦ elim (Result-cases (𝓚.xonly_from_slice b)) [
        | inr (x, bad) ↦ absurd (ground (arith, e, bad))
        | inl (pk, good) ↦
            let same : k ≡ xonly_public pk = ground (arith, e, good) in
            rw same (ground arith, law.xonly_written b pk good)
      ]
    ]
  ]

  pub from_bytes-ok :
      (bytes : List ℕ) (f : SilentPaymentKeysFile 𝓢 𝓚)
      → from_bytes 𝓢 𝓚 bytes ≡ ok f
      → to_bytes 𝓢 𝓚 f ≡ bytes
  unfolding from_bytes to_bytes
  from_bytes-ok bytes f e = elim (Bool-cases (length bytes == 69)) [
    | inr short ↦ absurd (ground (arith, e, short))
    | inl size ↦ elim (Option-cases (strip_prefix magic bytes)) [
      | inl none-eq ↦ absurd (ground (arith, e, size, none-eq))
      | inr (body, stripped) ↦ elim (Result-cases (𝓚.secret_from_slice (take 32 body))) [
        | inr (x, bad) ↦ absurd (ground (arith, e, size, stripped, bad))
        | inl (sk, good) ↦
            elim (Result-cases (decode_spend_key 𝓢 𝓚 (byte_at 32 body) (drop 33 body))) [
              | inr (x, bad) ↦ absurd (ground (arith, e, size, stripped, good, bad))
              | inl (k, decoded) ↦
                  let scan : f.scan_key ≡ sk = ground (arith, e, size, stripped, good, decoded) in
                  let spend : f.spend_key ≡ k = ground (arith, e, size, stripped, good, decoded) in
                  let whole = strip_prefix-some magic bytes body stripped in
                  let (tag, rest) =
                    decode_spend_key-ok (byte_at 32 body) (drop 33 body) k decoded in
                  let long : 32 < length body =
                    ground (arith, size, whole, length-append magic body) in
                  rw (scan, spend, law.secret_written (take 32 body) sk good, tag, rest)
                    (ap (λ body. magic ++ body) (sym (body_parts 32 body long)) ∙ sym whole)
            ]
      ]
    ]
  ]
