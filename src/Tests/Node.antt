-- ===== src/Tests/Node.antt =====
-- The scan thread, the peer threads and the proxy at concrete inputs.
use kernel_node.Prelude.{
  ◌||◌, ℕ, zero, suc, ◌^◌, ◌≡◌, refl, true, false, Option, none, some, List, ◌∷◌, ◌++◌, arith,
  ℕ_discrete, replicate, nat_eq, [],
}
use kernel_node.Prelude.HashSet
use kernel_node.Prelude.HashSet.{contains}
use kernel_node.Prelude.Reader.{ok, err}
use kernel_node.P2p.Message.{addr-discrete, AddrV2, ipv4}
use kernel_node.Net.Socks5.{base32_encode_35}
use kernel_node.Net.Socks5.Base32.{AreBytes, base32, base32_encode_35-base32}
use kernel_node.Net.Proxy.{connect, greeting, request, to_ipv4}
use kernel_node.Net.Proxy.Replies.{connect-Bound, bound_domain}
use kernel_node.Net.Manager.{
  Destination, destination_eq, selecting, select_round, Shared, connecting,
}
use kernel_node.Net.Manager
use kernel_node.Net.Manager.Connected.{Manager, IsApart, here, then_step, selects, Reach-Apart}
use kernel_node.Wallet.Scanning.{outpoint_eq}
use kernel_node.Wallet.Coins
use kernel_node.Wallet.Coins.{Wallet, from_parts, process_disconnect, regtest}
use kernel_node.Wallet.Store
use kernel_node.Wallet.Store.{wallet_from_bytes, wallet_to_bytes}
use kernel_node.Node.Events
use kernel_node.Node.Events.{
  ScanKernel, ScanState, handle_event, handle_events, disconnected, connected,
}
use kernel_node.Node.Events.Files.{IsFit, handle_event-OnFile}
use kernel_node.Node.Events.Shutdown.{IsOnce, handle_events-Once, any_failed, event_failed}
use kernel_node.Tests.Wallet.{generous}
use kernel_node.Tests.Store.{kept, scalar_bytes, scalar, scalar_law, kept-AllStorable, kept-IsTable}

abbrev octets : List ℕ
octets = replicate 35 200

replicate-AreBytes : (n : ℕ) → AreBytes (replicate n 200)
replicate-AreBytes zero = tt
replicate-AreBytes (suc n) = (omega arith, replicate-AreBytes n)

octets-AreBytes : AreBytes octets
octets-AreBytes = replicate-AreBytes 35

base32_encode_35-base32_example : base32_encode_35 octets ≡ base32 octets
base32_encode_35-base32_example = base32_encode_35-base32 octets octets-AreBytes refl

abbrev no_hash : List ℕ → List ℕ
no_hash bytes = replicate 32 0

connect-Bound_example :
    connect no_hash
      (to_ipv4 (1 ∷ 2 ∷ 3 ∷ 4 ∷ []))
      8333
      ((5 ∷ 0 ∷ []) ++ ((5 ∷ 0 ∷ 0 ∷ 3 ∷ []) ++ ((1 ∷ 97 ∷ 0 ∷ 80 ∷ []) ++ (9 ∷ 9 ∷ []))))
    ≡ (greeting ++ request no_hash (to_ipv4 (1 ∷ 2 ∷ 3 ∷ 4 ∷ [])) 8333, ok (9 ∷ 9 ∷ []))
connect-Bound_example =
    connect-Bound no_hash (to_ipv4 (1 ∷ 2 ∷ 3 ∷ 4 ∷ [])) 8333 0 3 (1 ∷ 97 ∷ 0 ∷ 80 ∷ [])
      (9 ∷ 9 ∷ []) (bound_domain 1 (97 ∷ 0 ∷ 80 ∷ []) refl)

abbrev there : Destination
there = record { addr = ipv4 (1 ∷ 2 ∷ 3 ∷ 4 ∷ []); port = 8333 }

abbrev quiet : Shared
quiet = record { connected_peers = []; fatal = record { triggered = false; signals = 0 } }

abbrev one_taken : Shared
one_taken = record quiet { connected_peers = there ∷ [] }

abbrev idle : Manager
idle = record { threads = selecting 0 ∷ selecting 3 ∷ []; shared = quiet }

abbrev choice : Option (AddrV2 × ℕ)
choice = some (there.addr, 8333)

select_run : select_round false 0 choice quiet ≡ (connecting there, one_taken)
unfolding select_round Manager.destination_of Manager.take_destination HashSet.insert contains
select_run = refl

idle-Apart : IsApart idle
idle-Apart = record { distinct = tt; known = tt }

Reach-Apart_example :
    IsApart (record { threads = connecting there ∷ selecting 0 ∷ []; shared = one_taken })
unfolding select_round Manager.destination_of Manager.take_destination HashSet.insert contains
    Manager.destination-discrete addr-discrete ℕ_discrete
Reach-Apart_example = Reach-Apart idle _ idle-Apart (
    then_step (then_step here (selects [] (selecting 3 ∷ []) quiet false 0 choice))
      (selects (connecting there ∷ []) [] one_taken false 3 choice))

abbrev bytes_of : Option (Store.Persisted (List ℕ)) → List ℕ
bytes_of (some (ok bytes)) = bytes
bytes_of (some (err e)) = []
bytes_of none = []

abbrev kernel : ScanKernel
kernel = record { get_block_tree_entry = λ hash. none; read_spent_outputs = λ hash. none }

abbrev fresh : ScanState generous scalar_bytes scalar kernel
fresh = record { wallet = kept; file = []; fatal = quiet.fatal }

abbrev saved : ScanState generous scalar_bytes scalar kernel
saved = record fresh { file = bytes_of (wallet_to_bytes scalar_bytes scalar generous kept) }

disconnect_run :
    handle_event generous scalar_bytes scalar kernel true fresh (disconnected [] 400) ≡ some saved
unfolding handle_event Events.save process_disconnect Coins.unspend_all Coins.unspend
    Coins.retain_others contains wallet_to_bytes Store.encode_records Store.encode_record ℕ_discrete
disconnect_run = refl

kept-Fit : IsFit generous scalar_bytes scalar kernel (2 ^ 256) scalar_law kept
kept-Fit = record {
  storable = kept-AllStorable;
  table = kept-IsTable;
  height = omega arith;
  count = omega arith;
}

handle_event-OnFile_example :
    wallet_from_bytes scalar_bytes scalar generous saved.file
    ≡ ok (from_parts generous 400 regtest kept.utxos)
handle_event-OnFile_example =
    handle_event-OnFile generous scalar_bytes scalar kernel (2 ^ 256) scalar_law true fresh saved
      (disconnected [] 400) disconnect_run refl kept-Fit

missing_run :
    handle_events generous scalar_bytes scalar kernel fresh
      ((true, connected [] 5) ∷ (true, connected [] 6) ∷ [])
    ≡ some (record fresh { fatal = record { triggered = true; signals = 1 } })
unfolding handle_events handle_event Events.trigger
missing_run = refl

handle_events-Once_example :
    IsOnce
      (false
        || any_failed generous scalar_bytes scalar kernel fresh
            ((true, connected [] 5) ∷ (true, connected [] 6) ∷ []))
      (record { triggered = true; signals = 1 })
handle_events-Once_example =
    handle_events-Once generous scalar_bytes scalar kernel false fresh
      (record fresh { fatal = record { triggered = true; signals = 1 } })
      ((true, connected [] 5) ∷ (true, connected [] 6) ∷ []) (refl, refl) missing_run

failed_run :
    any_failed generous scalar_bytes scalar kernel fresh
      ((true, connected [] 5) ∷ (true, connected [] 6) ∷ [])
    ≡ true
unfolding any_failed event_failed
failed_run = refl
