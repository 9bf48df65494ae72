-- ===== src/Net/Session.antt =====
-- `BitcoinPeer` of src/net/peer.rs: one peer with the time of its last progress, in seconds. What a
-- peer is sent goes to a channel, which is taken to be open.
pub mod Stalling
use kernel_node.Prelude.{ℕ, Bool, ◌||◌, Option, none, some, List, if◌then◌else◌, nat_eq}
use kernel_node.P2p.Message.{AddrV2}
use kernel_node.Net.Kernel.{Kernel}
use kernel_node.Net.Peer.{
  PeerStateMachine, NodeState, Message, process_message, delivers_requested_block, any_request,
  stalled,
}

pub record BitcoinPeer : Type 0 where
  pub state_machine : PeerStateMachine
  pub last_progress : ℕ
  pub addr : AddrV2

unfoldable pub is_stalled : BitcoinPeer → ℕ → Bool
is_stalled peer now = stalled peer.state_machine peer.last_progress now

module _ (𝓚 : Kernel) where
  -- The message is in, and `now` is the time.
  unfoldable pub receive_and_process_message :
      BitcoinPeer
      → Message 𝓚
      → ℕ
      → NodeState 𝓚
      → Option (BitcoinPeer × List (Message 𝓚) × NodeState 𝓚)
  receive_and_process_message peer message now n =
      let delivered = delivers_requested_block 𝓚 peer.state_machine message in
      elim (process_message 𝓚 peer.state_machine message peer.addr n) [
        | none ↦ none
        | some (state, messages, n') ↦
            let progress = delivered || any_request 𝓚 messages in
            some (
              record peer {
                state_machine = state;
                last_progress = if progress then now else peer.last_progress;
              },
              messages,
              n',
            )
      ]
