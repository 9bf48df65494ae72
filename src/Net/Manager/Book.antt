-- ===== src/Net/Manager/Book.antt =====
-- What the threads of the node do to the address book that they share: the gossip that comes in
-- (src/bin/node.rs), the feelers and the broadcasts (src/net/manager.rs). A record is selected under one
-- lock and reported on under another; in between, the others go on.
use kernel_node.Prelude.{ℕ, ◌≡◌, Bool, some, List, [], ◌∷◌, ◌++◌, nat_eq}
use kernel_node.P2p.Message.{AddrV2, AddrV2Message}
use kernel_node.AddressBook.Record.{Record, Hasher}
use kernel_node.AddressBook.Table.{Table, select, successful_connection, failed_connection}
use kernel_node.Node.Addresses.{process_addresses}
use kernel_node.Net.Manager.{Mark, success, failure, Attempt, attempt_marks, open_feeler}

-- The book, and the records that feelers and broadcasts have taken from it and not reported on.
pub record Book : Type 0 where
  pub table : Table
  pub trying : List Record

module _ (𝓗 : Hasher) (B S W : ℕ) where
  -- What is reported on a record, with the times that the clock gives.
  unfoldable pub report : Table → Record → ℕ → ℕ → List Mark → Table
  report table r attempt connection [] = table
  report table r attempt connection (success ∷ marks) =
      report (successful_connection 𝓗 B S W table r attempt connection) r attempt connection marks
  report table r attempt connection (failure ∷ marks) =
      report (failed_connection 𝓗 B S W table r attempt) r attempt connection marks

  pub data Step : Book → Book → Type 0 where
    gossips :
        (table : Table) (trying : List Record) (source : AddrV2) (payload : List AddrV2Message)
        → Step
            (record { table = table; trying = trying })
            (record { table = process_addresses 𝓗 B S W table source payload; trying = trying })
    -- A feeler, or a round of a broadcast, selects; the clock decides what.
    selects :
        (table : Table) (trying : List Record) (bucket_hash : ℕ) (slot_hash now : ℕ → ℕ)
        (r : Record)
        → select 𝓗 B S W table bucket_hash slot_hash now ≡ some r
        → Step
            (record { table = table; trying = trying })
            (record { table = table; trying = r ∷ trying })
    -- A feeler reports, by whether it connected.
    feels :
        (table : Table) (before after : List Record) (r : Record) (attempt connection : ℕ)
        (connected : Bool)
        → Step
            (record { table = table; trying = before ++ (r ∷ after) })
            (record {
              table = report table r attempt connection (open_feeler (some connected));
              trying = before ++ after;
            })
    -- A round of a broadcast ends, by what the sockets did.
    attempts :
        (table : Table) (before after : List Record) (r : Record) (attempt connection : ℕ)
        (a : Attempt)
        → Step
            (record { table = table; trying = before ++ (r ∷ after) })
            (record {
              table = report table r attempt connection (attempt_marks a);
              trying = before ++ after;
            })

  pub data Reach (start : Book) : Book → Type 0 where
    here : Reach start start
    then_step : {m m' : Book} → Reach start m → Step m m' → Reach start m'
