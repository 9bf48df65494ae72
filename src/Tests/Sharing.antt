-- ===== src/Tests/Sharing.antt =====
-- The address book as the threads of the node share it, at a concrete start.
use kernel_node.Prelude.{
  All, ◌≡◌, refl, true, none, some, List, [], ◌∷◌, arith, ℕ_discrete, if◌then◌else◌, nat_eq,
}
use kernel_node.P2p.Message.{AddrV2Message, ipv4}
use kernel_node.AddressBook.Record
use kernel_node.AddressBook.Record.{Record, v4}
use kernel_node.AddressBook.Table
use kernel_node.AddressBook.Table.{Table, select, is_empty}
use kernel_node.AddressBook.Table.Writes.{record_at}
use kernel_node.AddressBook.Table.Lasting.{HasAt, HasEntry}
use kernel_node.Node.Addresses.{signet, network_service, dns_resolver, process_addresses}
use kernel_node.Node.Addresses.{initial_table, seed_records}
use kernel_node.AddressBook.Table.Sources.{add_all}
use kernel_node.Prelude.Bytes.{from_le_bytes}
use kernel_node.Net.Manager.{open_feeler}
use kernel_node.Net.Manager.Book.{Book, Reach, here, then_step, selects, gossips, feels, report}
use kernel_node.Net.Manager.Lasting.{start_book, Reach-stays}
use kernel_node.AddressBook.Table.Counting.{count, has_record, count-IsSound, record-discrete}
use kernel_node.P2p.Message.{addr-discrete}
use kernel_node.AddressBook.Table.{bucket_at, derive_bucket}
use kernel_node.AddressBook.Table.Lasting.{new-Sound}
use kernel_node.Net.Manager.Lasting.{initial_table-Sound}
use kernel_node.AddressBook.File
use kernel_node.Tests.Book.{hasher, plain}

-- One peer, named by the user.
abbrev at_start : Book
at_start = start_book plain hasher 3 2 2 signet ((v4 (1 ∷ 2 ∷ 3 ∷ 4 ∷ []), 38333) ∷ []) none []

abbrev named : Record
named = Record.new hasher (ipv4 (1 ∷ 2 ∷ 3 ∷ 4 ∷ [])) 38333 network_service dns_resolver

-- A gossiped address of another port, for the same place.
abbrev gossip : List AddrV2Message
gossip = record { services = 9; addr = ipv4 (1 ∷ 2 ∷ 3 ∷ 4 ∷ []); port = 1 } ∷ []

abbrev gossiped : Table
gossiped = process_addresses hasher 3 2 2 at_start.table (ipv4 (5 ∷ 6 ∷ 7 ∷ 8 ∷ [])) gossip

abbrev reported : Book
reported = record {
  table = report hasher 3 2 2 gossiped named 5 6 (open_feeler (some true));
  trying = named ∷ [];
}

start_run : record_at at_start.table 0 0 ≡ some named
unfolding Table.slot_at Table.bucket_at initial_table add_all seed_records Table.add
    Table.derive_bucket from_le_bytes Record.new Record.source_id Record.destination_id
    Table.add_to_bucket Table.derive_slot
start_run = refl

select_run : select hasher 3 2 2 at_start.table 0 (λ b. b) (λ b. 0) ≡ some named
unfolding Table.slot_at Table.bucket_at initial_table add_all seed_records Table.add
    Table.derive_bucket from_le_bytes Record.new Record.source_id Record.destination_id select
    is_empty Table.is_bucket_empty Table.add_to_bucket Table.derive_slot Table.random_from_bucket
    Table.slot_loop ℕ_discrete
select_run = refl

-- A record is selected twice; another of the same address is gossiped; one connection is reported.
later : Reach hasher 3 2 2 at_start reported
later =
    then_step
      (then_step
        (then_step (then_step here (selects at_start.table [] 0 (λ b. b) (λ b. 0) named select_run))
          (selects at_start.table (named ∷ []) 0 (λ b. b) (λ b. 0) named select_run))
        (gossips at_start.table (named ∷ named ∷ []) (ipv4 (5 ∷ 6 ∷ 7 ∷ 8 ∷ [])) gossip))
      (feels gossiped [] (named ∷ []) named 5 6 true)

reported_run :
    record_at reported.table 0 0
    ≡ some (record named { last_attempt = some 5; last_connection = some 6; failed_attempts = 0 })
unfolding Table.slot_at Table.bucket_at initial_table add_all seed_records Table.add
    Table.derive_bucket from_le_bytes Record.new Record.source_id Record.destination_id report
    open_feeler Table.successful_connection process_addresses Record.new_from_addrv2_source
    Record.source_of_addrv2 Table.change_slot Table.add_to_bucket Table.derive_slot
reported_run = refl

Reach-stays_example :
    HasAt hasher 3 2 2 reported.table 0 0 named
    × All (HasEntry hasher 3 2 2 reported.table) (named ∷ [])
Reach-stays_example =
    Reach-stays plain hasher 3 2 2 signet ((v4 (1 ∷ 2 ∷ 3 ∷ 4 ∷ []), 38333) ∷ []) none [] at_start
      reported 0 0 named (omega arith) (omega arith) here later start_run

count-IsSound_example : count hasher 3 2 2 at_start.table named ≡ (
    if has_record hasher 3 2 2 (bucket_at at_start.table (derive_bucket hasher 3 2 2 named)) named
    then 1
    else 0)
unfolding File.load
count-IsSound_example = count-IsSound hasher 3 2 2 at_start.table named (
    initial_table-Sound hasher 3 2 2 (omega arith) (omega arith) signet
      ((v4 (1 ∷ 2 ∷ 3 ∷ 4 ∷ []), 38333) ∷ []) _ [] (new-Sound hasher 3 2 2))

count_run : count hasher 3 2 2 at_start.table named ≡ 1
unfolding Table.slot_at Table.bucket_at initial_table add_all seed_records Table.add
    Table.derive_bucket from_le_bytes Record.new Record.source_id Record.destination_id
    Table.add_to_bucket Table.derive_slot count has_record record-discrete addr-discrete ℕ_discrete
count_run = refl
