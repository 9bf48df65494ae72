-- ===== src/P2p/Validation.antt =====
-- crates/p2p/src/validation.rs: which messages a peer should not send.
use kernel_node.Prelude.{ℕ, Bool, true, false, length, ltb, nat_eq}
use kernel_node.P2p.Message.{
  NetworkMessage, verack, version, send_addr_v2, wtxid_relay, filter_clear, filter_load, filter_add,
  mem_pool, addr, addr_v2, inv, get_data, get_blocks, get_headers,
}

abbrev pub max_inv_size : ℕ
max_inv_size = 50000

abbrev pub max_locator_hashes : ℕ
max_locator_hashes = 101

module _ {H B : Type 0} where
  unfoldable pub is_handshake_message : NetworkMessage H B → Bool
  is_handshake_message verack = true
  is_handshake_message (version _) = true
  is_handshake_message send_addr_v2 = true
  is_handshake_message wtxid_relay = true
  is_handshake_message message = false

  unfoldable pub is_discouraged : NetworkMessage H B → Bool
  is_discouraged filter_clear = true
  is_discouraged filter_load = true
  is_discouraged filter_add = true
  is_discouraged mem_pool = true
  is_discouraged (addr list) = ltb max_inv_size (length list)
  is_discouraged (addr_v2 list) = ltb max_inv_size (length list)
  is_discouraged (inv items) = ltb max_inv_size (length items)
  is_discouraged (get_data items) = ltb max_inv_size (length items)
  is_discouraged (get_blocks m) = ltb max_locator_hashes (length m.locator_hashes)
  is_discouraged (get_headers m) = ltb max_locator_hashes (length m.locator_hashes)
  is_discouraged message = false

  abbrev pub is_malformed : NetworkMessage H B → Bool
  is_malformed message = false
