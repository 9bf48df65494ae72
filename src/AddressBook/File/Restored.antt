-- ===== src/AddressBook/File/Restored.antt =====
-- crates/address-book/src/io.rs and src/net/addr.rs: a book whose records stand at their own places,
-- before and after a restart.
use kernel_node.Prelude.{
  ℕ, All, ◌^◌, ◌<◌, ◌≡◌, refl, sym, ap, ◌∙◌, ◌≢◌, ◌⊎◌, inl, inr, true, false, Option, none, some,
  List, [], ◌∷◌, map, arith, length, if◌then◌else◌, Bool-cases, nat_eq,
}
use kernel_node.Prelude.Reader.{Result, ok, err}
use kernel_node.Disk.{FilePath, FsError, Disk, calm, failed}
use kernel_node.AddressBook.File.OnDisk.{save_table, load, peers_tmp, save_table-Kept}
use kernel_node.AddressBook.Record.{Record, Hasher, is_serializable, Consensus}
use kernel_node.AddressBook.RoundTrip.{in_seconds, HasConsensus, InRange}
use kernel_node.AddressBook.Table
use kernel_node.AddressBook.Table.{
  Table, Bucket, add, slot_at, bucket_at, derive_bucket, derive_slot,
}
use kernel_node.AddressBook.Table.Writes.{record_at}
use kernel_node.AddressBook.Table.Sources.{add_all}
use kernel_node.AddressBook.Table.Places.{
  Command, adds, perform, perform_all, promised, promised_all, is_place_of,
  perform_all-promised_all,
}
use kernel_node.AddressBook.Table.Lasting.{IsSound, new-Sound, record_at-new}
use kernel_node.AddressBook.File.{unordered_records}
use mathlib.Core.Option.{some-injective}
use kernel_node.AddressBook.File.Written.{
  IsIn, Held, All-along, unordered_records-IsIn, unordered_records-Held,
}

module _ (𝓗 : Hasher) (B S W : ℕ) where
  commands : List Record → List Command
  commands [] = []
  commands (r ∷ rs) = adds (in_seconds r) ∷ commands rs

  add_all-commands :
      (t : Table) (rs : List Record)
      → add_all 𝓗 B S W t (map in_seconds rs) ≡ perform_all 𝓗 B S W t (commands rs)
  unfolding add_all perform_all perform commands
  add_all-commands t [] = refl
  add_all-commands t (r ∷ rs) = add_all-commands (add 𝓗 B S W t (in_seconds r)).1 rs

  promised-taken :
      (b s : ℕ) (o r : Record) → promised 𝓗 B S W b s (some o) (adds (in_seconds r)) ≡ some o
  unfolding promised
  promised-taken b s o r = elim (Bool-cases (is_place_of 𝓗 B S W (in_seconds r) b s)) [
    | inl here ↦ rw here refl
    | inr away ↦ rw away refl
  ]

  promised-free :
      (b s : ℕ) (r : Record)
      → promised 𝓗 B S W b s none (adds (in_seconds r))
        ≡ (if is_place_of 𝓗 B S W r b s then some (in_seconds r) else none)
  unfolding promised derive_bucket derive_slot
  promised-free b s r = refl

  promised-kept :
      (b s : ℕ) (o : Record) (rs : List Record)
      → promised_all 𝓗 B S W b s (some o) (commands rs) ≡ some o
  unfolding promised_all commands
  promised-kept b s o [] = refl
  promised-kept b s o (r ∷ rs) =
      ap (λ held. promised_all 𝓗 B S W b s held (commands rs)) (promised-taken b s o r)
      ∙ promised-kept b s o rs

  -- The only record of its place comes to stand there.
  promised-only :
      (b s : ℕ) (o : Record) (rs : List Record)
      → is_place_of 𝓗 B S W o b s ≡ true
      → All (λ r. is_place_of 𝓗 B S W r b s ≡ true → r ≡ o) rs
      → IsIn o rs
      → promised_all 𝓗 B S W b s none (commands rs) ≡ some (in_seconds o)
  unfolding promised_all commands
  promised-only b s o [] own only h = elim h [ ]
  promised-only b s o (r ∷ rs) own (first, only) h = elim (Bool-cases (is_place_of 𝓗 B S W r b s)) [
    | inl here ↦
        begin (promised-free b s r ∙ rw here refl)
          (promised-kept b s (in_seconds r) rs ∙ ap (λ q. some (in_seconds q)) (first here))
    | inr away ↦
        begin (promised-free b s r ∙ rw away refl) (promised-only b s o rs own only (later h away))
  ]
    where
      begin :
          {first : Option Record}
          → promised 𝓗 B S W b s none (adds (in_seconds r)) ≡ first
          → promised_all 𝓗 B S W b s first (commands rs) ≡ some (in_seconds o)
          → promised_all 𝓗 B S W b s none (commands (r ∷ rs)) ≡ some (in_seconds o)
      begin e k = ap (λ held. promised_all 𝓗 B S W b s held (commands rs)) e ∙ k

      later : IsIn o (r ∷ rs) → is_place_of 𝓗 B S W r b s ≡ false → IsIn o rs
      later (inr k) away = k
      later (inl e) away = absurd (cc)

  -- The place is the record's own.
  own_place :
      (t : Table) (b s : ℕ) (o : Record)
      → IsSound 𝓗 B S W t
      → record_at t b s ≡ some o
      → is_place_of 𝓗 B S W o b s ≡ true
  own_place t b s o sound e = let (hb, hs) = sound.home b s o e in ground (arith, hb, hs)

  only_one :
      (t : Table) (b s : ℕ) (o r : Record)
      → IsSound 𝓗 B S W t
      → record_at t b s ≡ some o
      → Held t r
      → is_place_of 𝓗 B S W r b s ≡ true
      → r ≡ o
  only_one t b s o r sound e (b', s', held) here =
      let (hb, hs) = sound.home b' s' r held in
      let eb : b' ≡ b = ground (arith, hb, here) in
      let es : s' ≡ s = ground (arith, hs, here) in some-injective r o (sym held ∙ rw (eb, es) e)

  restored :
      (t : Table) (b s : ℕ) (o : Record)
      → 0 < B
      → 0 < S
      → IsSound 𝓗 B S W t
      → record_at t b s ≡ some o
      → is_serializable o ≡ true
      → record_at (add_all 𝓗 B S W (Table.new 𝓗 B S W) (map in_seconds (unordered_records t))) b s
        ≡ some (in_seconds o)
  restored t b s o hB hS sound e known =
      let rs = unordered_records t in
      let fresh = new-Sound 𝓗 B S W in
      let (place, _) =
        perform_all-promised_all 𝓗 B S W (Table.new 𝓗 B S W) (commands rs) b s hB hS fresh.shape in
      rw (add_all-commands (Table.new 𝓗 B S W) rs) (
        place
        ∙ rw (record_at-new 𝓗 B S W B b s) (
            promised-only b s o rs (own_place t b s o sound e)
              (All-along (Held t) (λ r. is_place_of 𝓗 B S W r b s ≡ true → r ≡ o) rs
                (λ r held here. only_one t b s o r sound e held here) (unordered_records-Held t))
              (unordered_records-IsIn t b s o e known)))

  module _ (𝓒 : Consensus) (law : HasConsensus 𝓒) where
    -- After a save of an address book whose records stand at their own places, whatever fails on the
    -- way: the node that starts next has each record that can be written at the same place, its times
    -- cut to seconds; or the save reports an error, and the node has what it would have had before. The
    -- fields of the records are in their ranges, with addresses that rust-bitcoin decodes, their number
    -- in 64 bits, and the file is not the one that is written beside it.
    pub save_table-Restored :
        (table : Table) (path : FilePath) (d : Disk) (b s : ℕ) (o : Record)
        → 0 < B
        → 0 < S
        → IsSound 𝓗 B S W table
        → All InRange (unordered_records table)
        → length (unordered_records table) < 2 ^ 64
        → path.file_name ≢ peers_tmp
        → record_at table b s ≡ some o
        → is_serializable o ≡ true
        → (r : Result FsError (Unit {0})) × (d' : Disk) × (save_table 𝓒 table path d ≡ some (r, d'))
          × (((r ≡ ok tt) × (record_at (load 𝓒 𝓗 B S W path (calm d')).0 b s ≡ some (in_seconds o)))
              ⊎ ((r ≡ err failed)
                  × ((load 𝓒 𝓗 B S W path (calm d')).0 ≡ (load 𝓒 𝓗 B S W path (calm d)).0)))
    save_table-Restored table path d b s o hB hS sound fits counted apart there known =
        let (r, d', saved, outcome) =
          save_table-Kept 𝓒 𝓗 B S W law table path d fits counted apart in
        (
          r,
          d',
          saved,
          elim outcome [
            | inl (fine, loaded) ↦
                inl (fine, rw loaded (restored table b s o hB hS sound there known))
            | inr kept ↦ inr kept
          ],
        )
