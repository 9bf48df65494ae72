-- ===== src/Net/Manager/Lasting.antt =====
-- src/net/manager.rs and src/bin/node.rs: what no thread can do to the address book.
use kernel_node.Prelude.{
  ℕ, All, ◌<◌, ◌≡◌, sym, ap, ◌∙◌, inl, inr, Option, some, List, [], ◌∷◌, ◌++◌, arith, Bool-cases,
  nat_eq,
}
use kernel_node.P2p.Message.{AddrV2, AddrV2Message}
use kernel_node.AddressBook.Record.{Record, Hasher, new_from_addrv2_source}
use kernel_node.AddressBook.Table.{
  Table, select, successful_connection, failed_connection, is_empty, add,
}
use kernel_node.AddressBook.Table.Writes.{record_at}
use kernel_node.AddressBook.Table.Lasting.{
  IsSound, HasEntry, Carried, Carried-refl, Carried-trans, entry-Carried, IsSame-refl, add-Carried,
  failed_connection-Carried, successful_connection-Carried, HasAt,
}
use kernel_node.AddressBook.Table.Selection.{select-Stored}
use kernel_node.Node.Addresses.{process_addresses, is_unknown}
use kernel_node.Net.Manager.{Mark, success, failure, attempt_marks, open_feeler}
use kernel_node.Node.Addresses.{ChainNetwork, initial_table}
use kernel_node.AddressBook.File
use kernel_node.AddressBook.File.Sound.{load-Sound}
use kernel_node.AddressBook.Record.{IpAddr, Consensus}
use kernel_node.AddressBook.Table.{new}
use kernel_node.AddressBook.Table.Lasting.{add_all-Carried, new-Sound}
use kernel_node.Net.Manager.Book.{
  Book, report, Step, gossips, selects, feels, attempts, Reach, here, then_step,
}
use mathlib.Core.Option.{some-injective}

All-apart {ℓ κ} :
    {A : Type ℓ} (P : A → Type κ) (before after : List A) (x : A)
    → All P (before ++ (x ∷ after))
    → P x × All P (before ++ after)
All-apart P [] after x (p, rest) = (p, rest)
All-apart P (y ∷ before) after x (p, rest) =
    let (q, others) = All-apart P before after x rest in (q, (p, others))

module _ (𝓗 : Hasher) (B S W : ℕ) (hB : 0 < B) (hS : 0 < S) where
  select-HasEntry :
      (t : Table) (bucket_hash : ℕ) (slot_hash now : ℕ → ℕ) (r : Record)
      → IsSound 𝓗 B S W t
      → select 𝓗 B S W t bucket_hash slot_hash now ≡ some r
      → HasEntry 𝓗 B S W t r
  unfolding select
  select-HasEntry t bucket_hash slot_hash now r sound e = elim (Bool-cases (is_empty t)) [
    | inl bare ↦ absurd (ground (arith, bare, e))
    | inr full ↦
        let (q, e', (b, (s, at))) =
          select-Stored 𝓗 B S W t bucket_hash slot_hash now hS sound.shape.buckets full in
        let own : q ≡ r = some-injective q r (sym e' ∙ e) in
        let there : record_at t b s ≡ some r = at ∙ ap some own in
        let (hb, hs) = sound.home b s r there in (r, rw (hb, hs) there, IsSame-refl r)
  ]

  report-Carried :
      (t : Table) (r : Record) (attempt connection : ℕ) (marks : List Mark)
      → IsSound 𝓗 B S W t
      → HasEntry 𝓗 B S W t r
      → Carried 𝓗 B S W t (report 𝓗 B S W t r attempt connection marks)
  unfolding report
  report-Carried t r attempt connection [] sound entry = Carried-refl 𝓗 B S W t sound
  report-Carried t r attempt connection (success ∷ marks) sound entry =
      let one = successful_connection-Carried 𝓗 B S W hB hS t r attempt connection sound entry in
      Carried-trans 𝓗 B S W t _ _ one (
        report-Carried (successful_connection 𝓗 B S W t r attempt connection) r attempt connection
          marks one.sound (entry-Carried 𝓗 B S W t _ r one entry))
  report-Carried t r attempt connection (failure ∷ marks) sound entry =
      let one = failed_connection-Carried 𝓗 B S W hB hS t r attempt sound in
      Carried-trans 𝓗 B S W t _ _ one (
        report-Carried (failed_connection 𝓗 B S W t r attempt) r attempt connection marks one.sound
          (entry-Carried 𝓗 B S W t _ r one entry))

  process_addresses-Carried :
      (t : Table) (source : AddrV2) (payload : List AddrV2Message)
      → IsSound 𝓗 B S W t
      → Carried 𝓗 B S W t (process_addresses 𝓗 B S W t source payload)
  unfolding process_addresses
  process_addresses-Carried t source [] sound = Carried-refl 𝓗 B S W t sound
  process_addresses-Carried t source (a ∷ payload) sound = elim (Bool-cases (is_unknown a.addr)) [
    | inl skipped ↦
        rw (skipped, process_addresses) (process_addresses-Carried t source payload sound)
    | inr known ↦
        let r = new_from_addrv2_source 𝓗 a.addr a.port a.services source in
        let one = add-Carried 𝓗 B S W hB hS t r sound in
        rw (known, process_addresses)
          (Carried-trans 𝓗 B S W t (add 𝓗 B S W t r).1 _ one
            (process_addresses-Carried (add 𝓗 B S W t r).1 source payload one.sound))
  ]

  -- The book is sound, and what is tried is in it.
  pub record IsKept (m : Book) : Type 0 where
    pub sound : IsSound 𝓗 B S W m.table
    pub tried : All (HasEntry 𝓗 B S W m.table) m.trying

  entries-Carried :
      (t u : Table) (rs : List Record)
      → Carried 𝓗 B S W t u
      → All (HasEntry 𝓗 B S W t) rs
      → All (HasEntry 𝓗 B S W u) rs
  entries-Carried t u [] c h = tt
  entries-Carried t u (r ∷ rs) c (h, more) =
      (entry-Carried 𝓗 B S W t u r c h, entries-Carried t u rs c more)

  -- What a step does to a book that is kept.
  Keeps : Book → Book → Type 0
  Keeps m m' = IsKept m' × Carried 𝓗 B S W m.table m'.table

  kept_after :
      (m m' : Book)
      → All (HasEntry 𝓗 B S W m.table) m'.trying
      → Carried 𝓗 B S W m.table m'.table
      → Keeps m m'
  unfolding Keeps
  kept_after m m' tried c =
      (record { sound = c.sound; tried = entries-Carried m.table m'.table m'.trying c tried }, c)

  Step-Keeps : {m m' : Book} → Step 𝓗 B S W m m' → IsKept m → Keeps m m'
  Step-Keeps (gossips table trying source payload) k =
      kept_after _ _ k.tried (process_addresses-Carried table source payload k.sound)
  Step-Keeps (selects table trying bucket_hash slot_hash now r e) k =
      kept_after _ _ (select-HasEntry table bucket_hash slot_hash now r k.sound e, k.tried)
        (Carried-refl 𝓗 B S W table k.sound)
  Step-Keeps (feels table before after r attempt connection connected) k =
      let (own, others) = All-apart (HasEntry 𝓗 B S W table) before after r k.tried in
      kept_after _ _ others
        (report-Carried table r attempt connection (open_feeler (some connected)) k.sound own)
  Step-Keeps (attempts table before after r attempt connection a) k =
      let (own, others) = All-apart (HasEntry 𝓗 B S W table) before after r k.tried in
      kept_after _ _ others
        (report-Carried table r attempt connection (attempt_marks a) k.sound own)

  Reach-Keeps : {start m : Book} → Reach 𝓗 B S W start m → IsKept start → Keeps start m
  unfolding Keeps
  Reach-Keeps {start} here k = (k, Carried-refl 𝓗 B S W start.table k.sound)
  Reach-Keeps {start} {m} (then_step {m = n} reach step) k =
      let (kept, c) = Reach-Keeps reach k in
      let (kept', c') = Step-Keeps step kept in
      (kept', Carried-trans 𝓗 B S W start.table n.table m.table c c')

  pub initial_table-Sound :
      (network : ChainNetwork) (peers : List (IpAddr × ℕ)) (loaded : Table) (seeds : List IpAddr)
      → IsSound 𝓗 B S W loaded
      → IsSound 𝓗 B S W (initial_table 𝓗 B S W network peers loaded seeds)
  unfolding initial_table
  initial_table-Sound network [] loaded seeds sound = elim (Bool-cases (is_empty loaded)) [
    | inl bare ↦ rw (bare, initial_table) (add_all-Carried 𝓗 B S W hB hS loaded _ sound).sound
    | inr full ↦ rw (full, initial_table) sound
  ]
  initial_table-Sound network (peer ∷ peers) loaded seeds sound =
      (add_all-Carried 𝓗 B S W hB hS (new 𝓗 B S W) _ (new-Sound 𝓗 B S W)).sound

-- The node starts with the peers that the user names, or with what its file holds, or with the seeds.
abbrev pub start_book :
    Consensus
    → Hasher
    → (B S W : ℕ) → ChainNetwork
    → List (IpAddr × ℕ)
    → Option (List ℕ)
    → List IpAddr
    → Book
start_book 𝓒 𝓗 B S W network peers file seeds = record {
  table = initial_table 𝓗 B S W network peers (File.load 𝓒 𝓗 B S W file) seeds;
  trying = [];
}

-- From every start of the node, whatever its file holds: an entry that is in the address book at some
-- time stands at the same place at any later time, with its address, port, source and services, and
-- whatever a feeler or a broadcast is trying then has its own entry at its place. This holds whatever is
-- gossiped, selected, tried and reported, in whatever order.
pub Reach-stays :
    (𝓒 : Consensus) (𝓗 : Hasher) (B S W : ℕ) (network : ChainNetwork) (peers : List (IpAddr × ℕ))
    (file : Option (List ℕ)) (seeds : List IpAddr) (m m' : Book) (b s : ℕ) (o : Record)
    → 0 < B
    → 0 < S
    → Reach 𝓗 B S W (start_book 𝓒 𝓗 B S W network peers file seeds) m
    → Reach 𝓗 B S W m m'
    → record_at m.table b s ≡ some o
    → HasAt 𝓗 B S W m'.table b s o × All (HasEntry 𝓗 B S W m'.table) m'.trying
unfolding Keeps
Reach-stays 𝓒 𝓗 B S W network peers file seeds m m' b s o hB hS first later there =
    let loaded = load-Sound 𝓒 𝓗 B S W hB hS file in
    let start : IsKept 𝓗 B S W hB hS (start_book 𝓒 𝓗 B S W network peers file seeds) = record {
      sound =
          initial_table-Sound 𝓗 B S W hB hS network peers (File.load 𝓒 𝓗 B S W file) seeds loaded;
      tried = tt;
    } in
    let (kept, _) = Reach-Keeps 𝓗 B S W hB hS first start in
    let (kept', c) = Reach-Keeps 𝓗 B S W hB hS later kept in (c.stays b s o there, kept'.tried)
