-- ===== src/P2p/Message.antt =====
-- The part of rust-bitcoin's message types that the node reads or builds. Headers and blocks are
-- opaque here; addresses are kept as their octets. `other` stands for the messages that every
-- function of the source treats by its catch-all arm.
use kernel_node.Prelude.{ℕ, Bool, List, ℕ_discrete}
use kernel_node.Prelude.Int.{ℤ}

pub data AddrV2 : Type 0 where
  ipv4 ipv6 tor_v2 tor_v3 i2p cjdns : List ℕ → AddrV2
  unknown : ℕ → List ℕ → AddrV2

unfoldable pub addr-discrete : Discrete AddrV2
addr-discrete = hlevel ℕ_discrete

-- An entry of an `addrv2` message.
pub record AddrV2Message : Type 0 where
  pub addr : AddrV2
  pub port : ℕ
  pub services : ℕ

pub data Inventory : Type 0 where
  error_item : Inventory
  transaction block compact_block wtx witness_transaction witness_block : ℕ → Inventory
  unknown_item : ℕ → ℕ → Inventory

pub record SendCmpct : Type 0 where
  pub send_compact : Bool
  pub version : ℕ

-- `version` is a u32, `services` and `nonce` are u64, `timestamp` is an i64 and `start_height` an i32.
pub record VersionMessage : Type 0 where
  pub version : ℕ
  pub services : ℕ
  pub timestamp : ℤ
  pub nonce : ℕ
  pub user_agent : List ℕ
  pub start_height : ℤ
  pub relay : Bool

-- `GetHeadersMessage`, `GetBlocksMessage`
pub record LocatorMessage : Type 0 where
  pub version : ℕ
  pub locator_hashes : List ℕ
  pub stop_hash : ℕ

pub data NetworkMessage (H B : Type 0) : Type 0 where
  version : VersionMessage → NetworkMessage H B
  verack wtxid_relay send_addr_v2 send_headers get_addr : NetworkMessage H B
  mem_pool filter_clear filter_load filter_add cfilter : NetworkMessage H B
  send_cmpct : SendCmpct → NetworkMessage H B
  fee_filter : ℤ → NetworkMessage H B
  ping pong : ℕ → NetworkMessage H B
  addr : List AddrV2Message → NetworkMessage H B
  addr_v2 : List AddrV2Message → NetworkMessage H B
  inv get_data : List Inventory → NetworkMessage H B
  get_blocks get_headers : LocatorMessage → NetworkMessage H B
  headers : List H → NetworkMessage H B
  block : B → NetworkMessage H B
  other : ℕ → NetworkMessage H B
