-- ===== src/Net/Proxy.antt =====
-- `Socks5Proxy::connect` of src/net/socks5.rs, as a function of all that the proxy sends: what is
-- written to it, and the bytes that then come from the peer. Writes succeed.
pub mod Replies
use kernel_node.Prelude.{
  ℕ, ◌+◌, ◌/◌, ◌%◌, not, List, ◌∷◌, ◌++◌, length, drop, ltb, if◌then◌else◌, ◌==◌, nat_eq, [],
}
use kernel_node.Prelude.Slices.{byte_at}
use kernel_node.Prelude.Reader.{Result, ok, err}
use kernel_node.Net.Socks5.{encode_onion}

abbrev pub socks_version : ℕ
socks_version = 5

abbrev pub noauth : ℕ
noauth = 0

abbrev pub methods : ℕ
methods = 1

abbrev pub cmd_connect : ℕ
cmd_connect = 1

abbrev pub response_success : ℕ
response_success = 0

abbrev pub rsv : ℕ
rsv = 0

abbrev pub addr_type_ipv4 : ℕ
addr_type_ipv4 = 1

abbrev pub addr_type_domain : ℕ
addr_type_domain = 3

abbrev pub addr_type_ipv6 : ℕ
addr_type_ipv6 = 4

pub data ProxyError : Type 0 where
  unsupported_version authentication_required response_failure closed : ProxyError

-- The implementations of the trait: an octet list each, and the onion address as its service.
pub data SocksDestination : Type 0 where
  to_ipv4 to_ipv6 to_onion : List ℕ → SocksDestination

abbrev pub type_byte : SocksDestination → ℕ
type_byte (to_ipv4 octets) = addr_type_ipv4
type_byte (to_ipv6 octets) = addr_type_ipv6
type_byte (to_onion pubkey) = addr_type_domain

abbrev pub Answer : Type 0
Answer = Result ProxyError (List ℕ)

-- `read_exact` into a buffer that is not looked at.
unfoldable pub skip : ℕ → List ℕ → Answer
skip n incoming = if ltb (length incoming) n then err closed else ok (drop n incoming)

-- The address that the proxy is bound to, with its port, is read and dropped.
unfoldable pub skip_bound_address : ℕ → List ℕ → Answer
skip_bound_address addr_type incoming =
    if addr_type == addr_type_ipv4
    then skip 6 incoming
    else if addr_type == addr_type_ipv6
    then skip 18 incoming
    else if addr_type == addr_type_domain
    then (if ltb (length incoming) 1
        then err closed
        else skip (byte_at 0 incoming + 2) (drop 1 incoming))
    else err response_failure

unfoldable pub read_response : List ℕ → Answer
read_response incoming =
    if ltb (length incoming) 4
    then err closed
    else if not (byte_at 0 incoming == socks_version)
    then err unsupported_version
    else if not (byte_at 1 incoming == response_success)
    then err response_failure
    else skip_bound_address (byte_at 3 incoming) (drop 4 incoming)

abbrev pub greeting : List ℕ
greeting = socks_version ∷ methods ∷ noauth ∷ []

module _ (sha3_256 : List ℕ → List ℕ) where
  unfoldable pub encode : SocksDestination → List ℕ
  encode (to_ipv4 octets) = octets
  encode (to_ipv6 octets) = octets
  encode (to_onion pubkey) = encode_onion sha3_256 pubkey

  -- The port goes in network order.
  unfoldable pub request : SocksDestination → ℕ → List ℕ
  request addr port =
      (socks_version ∷ cmd_connect ∷ rsv ∷ type_byte addr ∷ [])
      ++ (encode addr ++ (port / 256 ∷ port % 256 ∷ []))

  unfoldable pub connect : SocksDestination → ℕ → List ℕ → List ℕ × Answer
  connect addr port incoming =
      if ltb (length incoming) 2
      then (greeting, err closed)
      else if not (byte_at 0 incoming == socks_version)
      then (greeting, err unsupported_version)
      else if not (byte_at 1 incoming == noauth)
      then (greeting, err authentication_required)
      else (greeting ++ request addr port, read_response (drop 2 incoming))
