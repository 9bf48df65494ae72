-- ===== src/Net/Manager/Connected.antt =====
-- src/net/manager.rs: all peer threads at once, in any order, over the set of connected peers.
use kernel_node.Prelude.{
  ℕ, ◌+◌, ◌≡◌, refl, sym, ap, ◌∙◌, inl, inr, Bool, true, false, Option, none, some, List, ◌∷◌, ◌++◌,
  arith, leb, Bool-cases, Option-cases, nat_eq, [],
}
use kernel_node.Prelude.HashSet
use kernel_node.Prelude.HashSet.{contains, delete, contains-insert}
use kernel_node.Prelude.Choices.{
  IsDistinct, AreIn, IsDistinct-drop_middle, IsDistinct-add_middle, AreIn-drop_middle,
  AreIn-add_middle, AreIn-absent, AreIn-cons, AreIn-delete,
}
use kernel_node.P2p.Message.{AddrV2}
use kernel_node.Node.Events.{trigger}
use kernel_node.Net.Manager.{
  Destination, destination_eq, PeerThread, selecting, connecting, serving, stopped, Shared,
  take_destination, select_round, connect_round, disconnect_round, give_back, destination_of,
}
use mathlib.Core.List.{append_assoc}

pub record Manager : Type 0 where
  pub threads : List PeerThread
  pub shared : Shared

-- The destination that a thread is busy with.
abbrev pub busy_with : PeerThread → List Destination
busy_with (selecting n) = []
busy_with (connecting d) = d ∷ []
busy_with (serving d) = d ∷ []
busy_with stopped = []

abbrev pub busy : List PeerThread → List Destination
busy [] = []
busy (t ∷ threads) = busy_with t ++ busy threads

abbrev pub replaced : List PeerThread → List PeerThread → PeerThread × Shared → Manager
replaced before after (t, s) = record { threads = before ++ (t ∷ after); shared = s }

-- One thread, wherever it stands among the others, does its next thing.
pub data Step : Manager → Manager → Type 0 where
  selects :
      (before after : List PeerThread) (s : Shared) (proxy : Bool) (n : ℕ)
      (selected : Option (AddrV2 × ℕ))
      → Step
          (record { threads = before ++ (selecting n ∷ after); shared = s })
          (replaced before after (select_round proxy n selected s))
  connects :
      (before after : List PeerThread) (s : Shared) (d : Destination) (connected : Bool)
      → Step
          (record { threads = before ++ (connecting d ∷ after); shared = s })
          (replaced before after (connect_round connected d s))
  disconnects :
      (before after : List PeerThread) (s : Shared) (d : Destination)
      → Step
          (record { threads = before ++ (serving d ∷ after); shared = s })
          (replaced before after (disconnect_round d s))

pub data Reach (start : Manager) : Manager → Type 0 where
  here : Reach start start
  then_step : {m m' : Manager} → Reach start m → Step m m' → Reach start m'

pub record IsApart (m : Manager) : Type 0 where
  pub distinct : IsDistinct (busy m.threads)
  pub known : AreIn (busy m.threads) m.shared.connected_peers

busy-append : (before after : List PeerThread) → busy (before ++ after) ≡ busy before ++ busy after
busy-append [] after = refl
busy-append (t ∷ before) after =
    ap (λ ds. busy_with t ++ ds) (busy-append before after)
    ∙ sym (append_assoc (busy_with t) (busy before) (busy after))

-- What is known of the others when one thread is idle, or gives its destination up.
record IsApartBut (before after : List PeerThread) (connected : List Destination) : Type 0 where
  distinct : IsDistinct (busy before ++ busy after)
  known : AreIn (busy before ++ busy after) connected

module _ (before after : List PeerThread) where
  idle-Apart :
      (t : PeerThread) (s : Shared)
      → busy_with t ≡ []
      → IsApart (replaced before after (t, s))
      → IsApartBut before after s.connected_peers
  idle-Apart t s idle a =
      let all : busy (before ++ (t ∷ after)) ≡ busy before ++ busy after =
        busy-append before (t ∷ after) ∙ ap (λ ds. busy before ++ (ds ++ busy after)) idle in
      record { distinct = rw all at a.distinct; known = rw all at a.known }

  Apart-idle :
      (t : PeerThread) (s : Shared)
      → busy_with t ≡ []
      → IsApartBut before after s.connected_peers
      → IsApart (replaced before after (t, s))
  Apart-idle t s idle a =
      let all : busy (before ++ (t ∷ after)) ≡ busy before ++ busy after =
        busy-append before (t ∷ after) ∙ ap (λ ds. busy before ++ (ds ++ busy after)) idle in
      record { distinct = rw all a.distinct; known = rw all a.known }

  -- A destination that is new to the set.
  Apart-taken :
      (d : Destination) (s : Shared)
      → IsApartBut before after s.connected_peers
      → IsApart (replaced before after (take_destination d s))
  unfolding take_destination HashSet.insert contains
  Apart-taken d s a = elim (Bool-cases (contains d s.connected_peers)) [
    | inl there ↦ rw (there, take_destination) (Apart-idle (selecting 0) s refl a)
    | inr new ↦
        let all : busy (before ++ (connecting d ∷ after)) ≡ busy before ++ (d ∷ busy after) =
          busy-append before (connecting d ∷ after) in
        let absent = AreIn-absent d (busy before ++ busy after) s.connected_peers a.known new in
        rw (new, take_destination)
          (record {
            distinct =
                rw all (IsDistinct-add_middle (busy before) (busy after) d a.distinct absent);
            known = rw all (
                AreIn-add_middle (busy before) (busy after) (d ∷ s.connected_peers) d
                  (AreIn-cons d (busy before ++ busy after) s.connected_peers a.known)
                  (ground arith));
          })
  ]

  -- A destination that is given up.
  Apart-given :
      (t : PeerThread) (d : Destination) (s : Shared)
      → busy_with t ≡ d ∷ []
      → IsApart (replaced before after (t, s))
      → IsApart (replaced before after (selecting 0, give_back d s))
  unfolding give_back HashSet.remove
  Apart-given t d s busy_d a =
      let all : busy (before ++ (t ∷ after)) ≡ busy before ++ ((d ∷ []) ++ busy after) =
        busy-append before (t ∷ after) ∙ ap (λ ds. busy before ++ (ds ++ busy after)) busy_d in
      let whole : IsDistinct (busy before ++ ((d ∷ []) ++ busy after)) = rw all at a.distinct in
      let held : AreIn (busy before ++ ((d ∷ []) ++ busy after)) s.connected_peers =
        rw all at a.known in
      let (distinct, apart) = IsDistinct-drop_middle (busy before) (d ∷ []) (busy after) whole in
      Apart-idle (selecting 0) (give_back d s) refl (record {
        distinct = distinct;
        known =
            AreIn-delete d (busy before ++ busy after) s.connected_peers
              (AreIn-drop_middle (busy before) (d ∷ []) (busy after) s.connected_peers held) apart;
      })

  Apart-selected :
      (proxy : Bool) (n : ℕ) (selected : Option (AddrV2 × ℕ)) (s : Shared)
      → IsApartBut before after s.connected_peers
      → IsApart (replaced before after (select_round proxy n selected s))
  unfolding select_round
  Apart-selected proxy n none s a = elim (Bool-cases (leb 60 (n + 1))) [
    | inl limit ↦
        rw (limit, select_round)
          (Apart-idle stopped (record s { fatal = trigger s.fatal }) refl
            (record { distinct = a.distinct; known = a.known }))
    | inr below ↦ rw (below, select_round) (Apart-idle (selecting (n + 1)) s refl a)
  ]
  Apart-selected proxy n (some (addr, port)) s a =
      elim (Option-cases (destination_of proxy addr port)) [
        | inl nowhere ↦ rw (nowhere, select_round) (Apart-idle (selecting n) s refl a)
        | inr (d, somewhere) ↦ rw (somewhere, select_round) (Apart-taken d s a)
      ]

Step-Apart : (m m' : Manager) → IsApart m → Step m m' → IsApart m'
unfolding connect_round disconnect_round
Step-Apart _ _ a (selects before after s proxy n selected) =
    Apart-selected before after proxy n selected s (idle-Apart before after (selecting n) s refl a)
Step-Apart _ _ a (connects before after s d true) = record {
  distinct =
      rw (busy-append before (serving d ∷ after), ← busy-append before (connecting d ∷ after))
        a.distinct;
  known =
      rw (busy-append before (serving d ∷ after), ← busy-append before (connecting d ∷ after))
        a.known;
}
Step-Apart _ _ a (connects before after s d false) =
    Apart-given before after (connecting d) d s refl a
Step-Apart _ _ a (disconnects before after s d) = Apart-given before after (serving d) d s refl a

-- From a state in which no two peer threads are busy with the same destination and the set names
-- what they are busy with, in whatever order the threads select, connect and lose peers: no two are
-- ever busy with the same destination, and what they are busy with stays in the set.
pub Reach-Apart : (start m : Manager) → IsApart start → Reach start m → IsApart m
Reach-Apart start m a here = a
Reach-Apart start m' a (then_step {m = m} reached step) =
    Step-Apart m m' (Reach-Apart start m a reached) step
