-- ===== src/Net/Proxy/Replies.antt =====
-- src/net/socks5.rs: what is left of a proxy's bytes once it has answered.
use kernel_node.Prelude.{
  ℕ, ◌+◌, ◌≡◌, List, ◌∷◌, ◌++◌, arith, ℕ_discrete, length, length-append, nat_eq, [],
}
use kernel_node.Prelude.Slices.{drop-append_past}
use kernel_node.Prelude.Bytes.{from_le_bytes}
use kernel_node.Prelude.Reader.{ok}
use kernel_node.Net.Proxy.{
  SocksDestination, skip, skip_bound_address, read_response, greeting, request, connect,
  addr_type_ipv4, addr_type_ipv6, addr_type_domain,
}

-- The bound address of a response: of a type, as many bytes as the type says, and two for the port.
pub data IsBound : ℕ → List ℕ → Type 0 where
  bound_ipv4 : (bytes : List ℕ) → length bytes ≡ 6 → IsBound addr_type_ipv4 bytes
  bound_ipv6 : (bytes : List ℕ) → length bytes ≡ 18 → IsBound addr_type_ipv6 bytes
  bound_domain :
      (n : ℕ) (bytes : List ℕ) → length bytes ≡ n + 2 → IsBound addr_type_domain (n ∷ bytes)

skip-append : (n : ℕ) (bytes rest : List ℕ) → length bytes ≡ n → skip n (bytes ++ rest) ≡ ok rest
unfolding skip
skip-append n bytes rest e =
    ground (arith, length-append bytes rest, drop-append_past 0 n bytes rest, e)

skip_bound_address-Bound :
    (addr_type : ℕ) (bytes rest : List ℕ)
    → IsBound addr_type bytes
    → skip_bound_address addr_type (bytes ++ rest) ≡ ok rest
unfolding skip_bound_address ℕ_discrete from_le_bytes
skip_bound_address-Bound _ bytes rest (bound_ipv4 _ e) = skip-append 6 bytes rest e
skip_bound_address-Bound _ bytes rest (bound_ipv6 _ e) = skip-append 18 bytes rest e
skip_bound_address-Bound _ _ rest (bound_domain n bytes e) =
    ground (arith, skip-append (n + 2) bytes rest e)

-- A proxy that asks for no authentication and reports success, with any bound address, is written
-- the greeting and the request, and what follows its answer is left for the peer, from its first
-- byte on.
pub connect-Bound :
    (sha3_256 : List ℕ → List ℕ) (addr : SocksDestination) (port reserved addr_type : ℕ)
    (bound rest : List ℕ)
    → IsBound addr_type bound
    → connect sha3_256 addr port
        ((5 ∷ 0 ∷ []) ++ ((5 ∷ 0 ∷ reserved ∷ addr_type ∷ []) ++ (bound ++ rest)))
      ≡ (greeting ++ request sha3_256 addr port, ok rest)
unfolding connect read_response from_le_bytes
connect-Bound sha3_256 addr port reserved addr_type bound rest h =
    ground (arith, skip_bound_address-Bound addr_type bound rest h)
