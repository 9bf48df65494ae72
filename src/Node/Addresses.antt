-- ===== src/Node/Addresses.antt =====
-- src/bin/node.rs and src/ext.rs: how the address book is filled, at the start and by gossip.
use kernel_node.Prelude.{
  ℕ, ◌≤◌, ◌<◌, ◌≡◌, refl, ◌⊎◌, inl, inr, Bool, true, false, List, ◌∷◌, map, length, get_elem?,
  if◌then◌else◌, Bool-cases, nat_eq, [],
}
use kernel_node.P2p.Message.{AddrV2, AddrV2Message, ipv4, ipv6, tor_v2, tor_v3, i2p, cjdns, unknown}
use kernel_node.AddressBook.Record
use kernel_node.AddressBook.Record.{
  Record, Hasher, IpAddr, v4, v6, new_from_addrv2_source, source_of_addrv2,
}
use kernel_node.AddressBook.Table
use kernel_node.AddressBook.Table.{Table, add, is_empty}
use kernel_node.AddressBook.Table.Sources.{add_all, from_source, add_all-one_source}
use kernel_node.Prelude.HashSet.{contains}
use kernel_node.Wallet.Coins

-- rust-bitcoin's networks.
pub data ChainNetwork : Type 0 where
  bitcoin signet testnet3 testnet4 regtest_chain : ChainNetwork

unfoldable pub default_p2p_port : ChainNetwork → ℕ
default_p2p_port bitcoin = 8333
default_p2p_port signet = 38333
default_p2p_port testnet3 = 18333
default_p2p_port testnet4 = 48333
default_p2p_port regtest_chain = 18444

unfoldable pub wallet_network : ChainNetwork → Coins.Network
wallet_network bitcoin = Coins.mainnet
wallet_network regtest_chain = Coins.regtest
wallet_network signet = Coins.testnet
wallet_network testnet3 = Coins.testnet
wallet_network testnet4 = Coins.testnet

-- `DNS_RESOLVER`, 1.1.1.1, stands for the source of what no peer has told.
abbrev pub dns_resolver : IpAddr
dns_resolver = v4 (1 ∷ 1 ∷ 1 ∷ 1 ∷ [])

-- `ServiceFlags::NETWORK`
abbrev pub network_service : ℕ
network_service = 1

abbrev pub addr_of : IpAddr → AddrV2
addr_of (v4 octets) = ipv4 octets
addr_of (v6 octets) = ipv6 octets

abbrev pub is_unknown : AddrV2 → Bool
is_unknown (ipv4 octets) = false
is_unknown (ipv6 octets) = false
is_unknown (tor_v2 octets) = false
is_unknown (tor_v3 octets) = false
is_unknown (i2p octets) = false
is_unknown (cjdns octets) = false
is_unknown (unknown network octets) = true

module _ (𝓗 : Hasher) (B S W : ℕ) where
  unfoldable pub seed_records : List (IpAddr × ℕ) → List Record
  seed_records [] = []
  seed_records ((ip, port) ∷ peers) =
      Record.new 𝓗 (addr_of ip) port network_service dns_resolver ∷ seed_records peers

  abbrev pub with_port : ℕ → List IpAddr → List (IpAddr × ℕ)
  with_port port [] = []
  with_port port (ip ∷ ips) = (ip, port) ∷ with_port port ips

  -- The peers that the user names; else the file's table, and the seeds if it is empty.
  unfoldable pub initial_table : ChainNetwork → List (IpAddr × ℕ) → Table → List IpAddr → Table
  initial_table network [] loaded seeds =
      if is_empty loaded
      then add_all 𝓗 B S W loaded (seed_records (with_port (default_p2p_port network) seeds))
      else loaded
  initial_table network (peer ∷ peers) loaded seeds =
      add_all 𝓗 B S W (Table.new 𝓗 B S W) (seed_records (peer ∷ peers))

  -- One message that the address thread takes from its channel.
  unfoldable pub process_addresses : Table → AddrV2 → List AddrV2Message → Table
  process_addresses table source [] = table
  process_addresses table source (a ∷ payload) = elim (is_unknown a.addr) [
    | true ↦ process_addresses table source payload
    | false ↦
        process_addresses
          (add 𝓗 B S W table (new_from_addrv2_source 𝓗 a.addr a.port a.services source)).1 source
          payload
  ]

  -- The records that a message makes.
  gossiped : AddrV2 → List AddrV2Message → List Record
  gossiped source [] = []
  gossiped source (a ∷ payload) =
      let rest = gossiped source payload in
      if is_unknown a.addr
      then rest
      else new_from_addrv2_source 𝓗 a.addr a.port a.services source ∷ rest

  process_addresses-gossiped :
      (table : Table) (source : AddrV2) (payload : List AddrV2Message)
      → process_addresses table source payload
        ≡ add_all 𝓗 B S W table
            (map (from_source 𝓗 B S W (source_of_addrv2 𝓗 source)) (gossiped source payload))
  unfolding process_addresses gossiped add_all new_from_addrv2_source
  process_addresses-gossiped table source [] = refl
  process_addresses-gossiped table source (a ∷ payload) = elim (Bool-cases (is_unknown a.addr)) [
    | inl skipped ↦
        rw (skipped, process_addresses, gossiped) (process_addresses-gossiped table source payload)
    | inr known ↦
        rw (known, process_addresses, gossiped)
          (process_addresses-gossiped
            (add 𝓗 B S W table (new_from_addrv2_source 𝓗 a.addr a.port a.services source)).1 source
            payload)
  ]

  -- However many addresses a peer gossips: there are at most `W` buckets such that every other bucket
  -- of the address book stays as it was.
  pub process_addresses-one_source :
      (table : Table) (source : AddrV2) (payload : List AddrV2Message)
      → 0 < W
      → (buckets : List ℕ) × (length buckets ≤ W)
        × ((b : ℕ)
            → (contains b buckets ≡ true)
              ⊎ (get_elem? (process_addresses table source payload) b ≡ get_elem? table b))
  process_addresses-one_source table source payload some_window =
      rw (process_addresses-gossiped table source payload) (
        add_all-one_source 𝓗 B S W (source_of_addrv2 𝓗 source) (gossiped source payload) table
          some_window)
