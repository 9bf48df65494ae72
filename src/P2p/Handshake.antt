-- ===== src/P2p/Handshake.antt =====
-- crates/p2p/src/handshake.rs, and `ConnectionExt::handshake` of crates/p2p/src/net.rs up to the
-- point where the connection is open. `ServiceFlags::has` and the name of a message's command are
-- rust-bitcoin's, so they are parameters. Writes succeed. The difference of the two times is exact
-- here; in the source it is an i64.
pub mod Completion
use kernel_node.Prelude.{
  ℕ, min, Bool, true, false, not, ◌||◌, Option, none, some, List, ◌∷◌, ◌++◌, ltb, leb,
  if◌then◌else◌, ◌==◌, nat_eq, [],
}
use kernel_node.Prelude.Int.{ℤ, pos, less}
use kernel_node.Prelude.Reader.{Result, ok, err}
use kernel_node.P2p.Message.{
  NetworkMessage, SendCmpct, VersionMessage, verack, version, send_addr_v2, wtxid_relay,
  send_headers, send_cmpct, fee_filter, get_addr,
}

abbrev pub wtxid_relay_version : ℕ
wtxid_relay_version = 70016

abbrev pub sendheaders_version : ℕ
sendheaders_version = 70012

abbrev pub min_peer_proto_version : ℕ
min_peer_proto_version = 31800

-- The network is a number here, and text is its bytes.
pub record ConnectionConfig : Type 0 where
  pub our_version : ℕ
  pub our_services : ℕ
  pub expected_version : ℕ
  pub expected_services : ℕ
  pub cmpct : SendCmpct
  pub agent : List ℕ
  pub height : ℤ
  pub fee : ℤ
  pub network : ℕ
  pub asks_addr : Bool

-- The library's name and version, as `ConnectionConfig::new` reports them.
abbrev pub default_user_agent : List ℕ
default_user_agent =
    47 ∷ 98 ∷ 105 ∷ 116 ∷ 99 ∷ 111 ∷ 105 ∷ 110 ∷ 45 ∷ 112 ∷ 50 ∷ 112 ∷ 58 ∷ 48 ∷ 46 ∷ 49 ∷ 46 ∷ 48
    ∷ 47 ∷ []

-- Bitcoin's main network is 0.
abbrev pub new : ConnectionConfig
new = record {
  our_version = wtxid_relay_version;
  our_services = 0;
  expected_version = wtxid_relay_version;
  expected_services = 0;
  cmpct = record { send_compact = false; version = 0 };
  agent = default_user_agent;
  height = pos 0;
  fee = pos 0;
  network = 0;
  asks_addr = false;
}

abbrev pub change_network : ConnectionConfig → ℕ → ConnectionConfig
change_network c network = record c { network = network }

abbrev pub request_addr : ConnectionConfig → ConnectionConfig
request_addr c = record c { asks_addr = true }

abbrev pub decrease_version_requirement : ConnectionConfig → ℕ → ConnectionConfig
decrease_version_requirement c protocol_version = record c { expected_version = protocol_version }

abbrev pub set_service_requirement : ConnectionConfig → ℕ → ConnectionConfig
set_service_requirement c flags = record c { expected_services = flags }

abbrev pub offer_services : ConnectionConfig → ℕ → ConnectionConfig
offer_services c flags = record c { our_services = flags }

abbrev pub user_agent : ConnectionConfig → List ℕ → ConnectionConfig
user_agent c agent = record c { agent = agent }

abbrev pub our_height : ConnectionConfig → ℤ → ConnectionConfig
our_height c height = record c { height = height }

abbrev pub config_send_cmpct : ConnectionConfig → SendCmpct → ConnectionConfig
config_send_cmpct c cmpct = record c { cmpct = cmpct }

abbrev pub config_fee_filter : ConnectionConfig → ℤ → ConnectionConfig
config_fee_filter c fee = record c { fee = fee }

pub record FeelerData : Type 0 where
  pub effective_version : ℕ
  pub services : ℕ
  pub net_time_difference : ℤ
  pub reported_height : ℤ
  pub nonce : ℕ

pub record Preferences : Type 0 where
  pub sendheaders : Bool
  pub sendaddrv2 : Bool
  pub sendcmpct : SendCmpct
  pub sendwtxid : Bool

abbrev pub no_preferences : Preferences
no_preferences = record {
  sendheaders = false;
  sendaddrv2 = false;
  sendcmpct = record { send_compact = false; version = 0 };
  sendwtxid = false;
}

pub record InitializedHandshake : Type 0 where
  pub feeler : FeelerData
  pub their_preferences : Preferences
  pub fee : ℤ
  pub cmpct : SendCmpct
  pub asks_addr : Bool

pub record CompletedHandshake : Type 0 where
  pub feeler : FeelerData
  pub their_preferences : Preferences

-- `handshake::Error`, and the two of `net::Error` that a handshake meets: the peer's first message
-- is one that is skipped, and the stream ends or fails.
pub data Error : Type 0 where
  irrelevant_message : List ℕ → Error
  connection_to_self : Error
  too_low_version missing_service : ℕ → Error
  missing_version stream_failed : Error

-- `build_our_version`, with the time in seconds. The addresses in it are placeholders.
abbrev pub build_our_version : ConnectionConfig → ℕ → ℕ → VersionMessage
build_our_version c unix_time nonce = record {
  version = c.our_version;
  services = c.our_services;
  timestamp = pos unix_time;
  nonce = nonce;
  user_agent = c.agent;
  start_height = c.height;
  relay = false;
}

module _ {H B : Type 0} (has : ℕ → ℕ → Bool) (command : NetworkMessage H B → List ℕ) where
  abbrev pub Message : Type 0
  Message = NetworkMessage H B

  -- What is offered to a peer of the effective version.
  unfoldable pub suggested_messages : ℕ → List Message
  suggested_messages effective_version =
      (if leb wtxid_relay_version effective_version then wtxid_relay ∷ [] else [])
      ++ ((if leb 70016 effective_version then send_addr_v2 ∷ [] else [])
          ++ (if leb sendheaders_version effective_version then send_headers ∷ [] else []))

  unfoldable pub accept_version :
      ConnectionConfig → ℕ → VersionMessage → ℕ → Result Error (InitializedHandshake × List Message)
  accept_version c unix_time v nonce =
      if v.nonce == nonce
      then err connection_to_self
      else if ltb v.version c.expected_version || ltb v.version min_peer_proto_version
      then err (too_low_version v.version)
      else if not (has v.services c.expected_services)
      then err (missing_service v.services)
      else let effective_version = min c.our_version v.version in
        let feeler : FeelerData = record {
          effective_version = effective_version;
          services = v.services;
          net_time_difference = less unix_time v.timestamp;
          reported_height = v.start_height;
          nonce = nonce;
        } in
        ok (
          record {
            feeler = feeler;
            their_preferences = no_preferences;
            fee = c.fee;
            cmpct = c.cmpct;
            asks_addr = c.asks_addr;
          },
          suggested_messages effective_version,
        )

  unfoldable pub start_handshake :
      ConnectionConfig → ℕ → Message → ℕ → Result Error (InitializedHandshake × List Message)
  start_handshake c unix_time (version v) nonce = accept_version c unix_time v nonce
  start_handshake c unix_time message nonce = err (irrelevant_message (command message))

  -- What closes a handshake: `verack` and what follows it.
  unfoldable pub closing_messages : InitializedHandshake → List Message
  closing_messages h =
      verack ∷ send_cmpct h.cmpct ∷ fee_filter h.fee ∷ (if h.asks_addr then get_addr ∷ [] else [])

  abbrev prefer : InitializedHandshake → (Preferences → Preferences) → InitializedHandshake
  prefer h f = record h { their_preferences = f h.their_preferences }

  -- The handshake after the message, with what completes it if the message does.
  unfoldable pub negotiate :
      InitializedHandshake
      → Message
      → Result Error (Option (CompletedHandshake × List Message) × InitializedHandshake)
  negotiate h verack = ok (
    some
        (record { feeler = h.feeler; their_preferences = h.their_preferences }, closing_messages h),
    h,
  )
  negotiate h wtxid_relay = ok (none, prefer h (λ p. record p { sendwtxid = true }))
  negotiate h send_addr_v2 = ok (none, prefer h (λ p. record p { sendaddrv2 = true }))
  negotiate h (send_cmpct cmpct) = ok (none, prefer h (λ p. record p { sendcmpct = cmpct }))
  negotiate h send_headers = ok (none, prefer h (λ p. record p { sendheaders = true }))
  negotiate h message = err (irrelevant_message (command message))

  -- The loop of `handshake` over what `read_message` returns until the stream ends, with what is sent;
  -- `none` is a message that the transport skips.
  unfoldable pub negotiate_loop :
      InitializedHandshake → List (Option Message) → List Message × Result Error CompletedHandshake
  negotiate_loop h [] = ([], err stream_failed)
  negotiate_loop h (none ∷ incoming) = negotiate_loop h incoming
  negotiate_loop h (some message ∷ incoming) = elim (negotiate h message) [
    | err e ↦ ([], err e)
    | ok (some (completed, responses), _) ↦ (responses, ok completed)
    | ok (none, h') ↦ negotiate_loop h' incoming
  ]

  -- `handshake`: all that is sent, and how it ends.
  unfoldable pub handshake :
      ConnectionConfig
      → ℕ
      → ℕ
      → List (Option Message)
      → List Message × Result Error CompletedHandshake
  handshake c unix_time nonce incoming =
      let ours = version (build_our_version c unix_time nonce) in
      elim incoming [
        | [] ↦ (ours ∷ [], err stream_failed)
        | none ∷ _ ↦ (ours ∷ [], err missing_version)
        | some message ∷ rest ↦ elim (start_handshake c unix_time message nonce) [
          | err e ↦ (ours ∷ [], err e)
          | ok (h, messages) ↦
              let (sent, end) = negotiate_loop h rest in (ours ∷ messages ++ sent, end)
        ]
      ]
