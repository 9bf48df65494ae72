-- ===== src/AddressBook/Table/Lasting.antt =====
-- The table of crates/address-book/src/lib.rs as the node uses it: records are added and reported on,
-- and keep their places.
use kernel_node.Prelude.{
  ℕ, zero, suc, ◌<◌, ◌≡◌, refl, sym, ap, ◌∙◌, inl, inr, true, none, some, List, [], ◌∷◌, arith,
  replicate, length-replicate, Bool-cases, Option-cases, nat_eq,
}
use kernel_node.AddressBook.Record.{Record, Hasher}
use kernel_node.AddressBook.Table.{
  Table, new, derive_bucket, derive_slot, add, failed_connection, successful_connection, failed,
  succeeded, bucket_at, slot_at, Bucket,
}
use kernel_node.AddressBook.Table.Writes.{record_at, IsShaped}
use kernel_node.AddressBook.Table.Places.{
  Command, perform, perform_all, promised, promised_all, perform_all-promised_all, is_place_of,
  adds, fails, succeeds,
}
use kernel_node.AddressBook.Table.Sources.{add_all}
use mathlib.Core.Option.{some-injective}
use mathlib.Core.Path.{subst}

-- The same entry, but for what connections have changed in it.
pub record IsSame (o o' : Record) : Type 0 where
  pub addr : o.addr ≡ o'.addr
  pub port : o.port ≡ o'.port
  pub source : o.source ≡ o'.source
  pub services : o.services ≡ o'.services

pub IsSame-refl : (o : Record) → IsSame o o
IsSame-refl o = record { addr = refl; port = refl; source = refl; services = refl }

pub IsSame-trans : (a b c : Record) → IsSame a b → IsSame b c → IsSame a c
IsSame-trans a b c p q = record {
  addr = p.addr ∙ q.addr;
  port = p.port ∙ q.port;
  source = p.source ∙ q.source;
  services = p.services ∙ q.services;
}

module _ (𝓗 : Hasher) (B S W : ℕ) where
  -- The place `b`, `s` is the record's own.
  abbrev pub IsHome : ℕ → ℕ → Record → Type 0
  IsHome b s r = (derive_bucket 𝓗 B S W r ≡ b) × (derive_slot 𝓗 B S W r ≡ s)

  -- The entry at a place, the same as `r`.
  abbrev pub HasAt : Table → ℕ → ℕ → Record → Type 0
  HasAt table b s r = (o : Record) × (record_at table b s ≡ some o) × IsSame r o

  -- The record has its entry in the table.
  abbrev pub HasEntry : Table → Record → Type 0
  HasEntry table r = HasAt table (derive_bucket 𝓗 B S W r) (derive_slot 𝓗 B S W r) r

  pub record IsSound (table : Table) : Type 0 where
    pub shape : IsShaped B S table
    pub home : (b s : ℕ) (o : Record) → record_at table b s ≡ some o → IsHome b s o

  -- A sound table in which every entry has stayed.
  pub record Carried (table after : Table) : Type 0 where
    pub sound : IsSound after
    pub stays : (b s : ℕ) (o : Record) → record_at table b s ≡ some o → HasAt after b s o

  pub Carried-refl : (table : Table) → IsSound table → Carried table table
  Carried-refl table sound = record { sound = sound; stays = λ b s o e. (o, e, IsSame-refl o) }

  pub Carried-trans : (t u v : Table) → Carried t u → Carried u v → Carried t v
  Carried-trans t u v p q = record {
    sound = q.sound;
    stays = λ b s o e.
        let (o', e', same) = p.stays b s o e in
        let (o'', e'', same') = q.stays b s o' e' in (o'', e'', IsSame-trans o o' o'' same same');
  }

  pub IsHome-same : (b s : ℕ) (o o' : Record) → IsSame o o' → IsHome b s o → IsHome b s o'
  unfolding derive_bucket derive_slot
  IsHome-same b s o o' same (hb, hs) =
      (rw (sym same.addr, sym same.source) hb, rw (sym same.addr) hs)

  pub entry-Carried : (t u : Table) (r : Record) → Carried t u → HasEntry t r → HasEntry u r
  entry-Carried t u r c (o, e, same) =
      let (o', e', same') = c.stays (derive_bucket 𝓗 B S W r) (derive_slot 𝓗 B S W r) o e in
      (o', e', IsSame-trans r o o' same same')

  module _ (hB : 0 < B) (hS : 0 < S) where
    one_place :
        (t : Table) (c : Command) (b s : ℕ)
        → IsShaped B S t
        → (record_at (perform 𝓗 B S W t c) b s ≡ promised 𝓗 B S W b s (record_at t b s) c)
          × IsShaped B S (perform 𝓗 B S W t c)
    unfolding perform_all promised_all
    one_place t c b s shape = perform_all-promised_all 𝓗 B S W t (c ∷ []) b s hB hS shape

    -- A command that keeps what is there, and puts records into their own places only.
    command-Carried :
        (t : Table) (c : Command)
        → IsSound t
        → ((b s : ℕ) (o : Record)
            → record_at t b s ≡ some o
            → (o' : Record) × (promised 𝓗 B S W b s (some o) c ≡ some o') × IsSame o o')
        → ((b s : ℕ) (o : Record) → promised 𝓗 B S W b s none c ≡ some o → IsHome b s o)
        → Carried t (perform 𝓗 B S W t c)
    command-Carried t c sound keeps puts = record {
      sound = record { shape = (one_place t c 0 0 sound.shape).1; home = homes };
      stays = stays;
    }
      where
        stays :
            (b s : ℕ) (o : Record) → record_at t b s ≡ some o → HasAt (perform 𝓗 B S W t c) b s o
        stays b s o e =
            let (o', e', same) = keeps b s o e in
            (o', (one_place t c b s sound.shape).0 ∙ rw e e', same)

        homes : (b s : ℕ) (o : Record) → record_at (perform 𝓗 B S W t c) b s ≡ some o → IsHome b s o
        homes b s o e =
            let place = sym (one_place t c b s sound.shape).0 ∙ e in
            elim (Option-cases (record_at t b s)) [
              | inl free ↦ puts b s o (rw (sym free) place)
              | inr (q, taken) ↦
                  let (q', e', same) = keeps b s q taken in
                  IsHome-same b s q o
                    (subst (IsSame q) (some-injective q' o (sym e' ∙ rw (sym taken) place)) same)
                    (sound.home b s q taken)
            ]

    at-IsHome : (r : Record) (b s : ℕ) → is_place_of 𝓗 B S W r b s ≡ true → IsHome b s r
    at-IsHome r b s here = (ground (arith, here), ground (arith, here))

    pub add-Carried : (t : Table) (r : Record) → IsSound t → Carried t (add 𝓗 B S W t r).1
    unfolding perform promised
    add-Carried t r sound =
        command-Carried t (adds r) sound
          (λ b s o e. (
            o,
            elim (Bool-cases (is_place_of 𝓗 B S W r b s)) [
              | inl here ↦ rw here refl
              | inr away ↦ rw away refl
            ],
            IsSame-refl o,
          ))
          (λ b s o e. elim (Bool-cases (is_place_of 𝓗 B S W r b s)) [
            | inl here ↦
                subst (IsHome b s) (some-injective r o (ground (arith, here, e)))
                  (at-IsHome r b s here)
            | inr away ↦ absurd (ground (arith, away, e))
          ])

    pub add_all-Carried :
        (t : Table) (rs : List Record) → IsSound t → Carried t (add_all 𝓗 B S W t rs)
    unfolding add_all
    add_all-Carried t [] sound = Carried-refl t sound
    add_all-Carried t (r ∷ rs) sound =
        let one = add-Carried t r sound in
        Carried-trans t (add 𝓗 B S W t r).1 _ one (add_all-Carried (add 𝓗 B S W t r).1 rs one.sound)

    pub failed_connection-Carried :
        (t : Table) (r : Record) (attempt : ℕ)
        → IsSound t
        → Carried t (failed_connection 𝓗 B S W t r attempt)
    unfolding perform promised
    failed_connection-Carried t r attempt sound =
        command-Carried t (fails r attempt) sound
          (λ b s o e. elim (Bool-cases (is_place_of 𝓗 B S W r b s)) [
            | inl here ↦ (
              failed attempt o,
              rw here refl,
              record { addr = refl; port = refl; source = refl; services = refl },
            )
            | inr away ↦ (o, rw away refl, IsSame-refl o)
          ])
          (λ b s o e. absurd (elim (Bool-cases (is_place_of 𝓗 B S W r b s)) [
            | inl here ↦ ground (arith, here, e)
            | inr away ↦ ground (arith, away, e)
          ]))

    -- The services that a report writes are the entry's own.
    pub successful_connection-Carried :
        (t : Table) (r : Record) (attempt connection : ℕ)
        → IsSound t
        → HasEntry t r
        → Carried t (successful_connection 𝓗 B S W t r attempt connection)
    unfolding perform promised
    successful_connection-Carried t r attempt connection sound (q, there, same) =
        command-Carried t (succeeds r attempt connection) sound
          (λ b s o e. elim (Bool-cases (is_place_of 𝓗 B S W r b s)) [
            | inl here ↦
                let (hb, hs) = at-IsHome r b s here in
                let own : q ≡ o = some-injective q o (sym there ∙ (rw (hb, hs) e)) in
                (
                  succeeded r.services attempt connection o,
                  rw here refl,
                  record {
                    addr = refl;
                    port = refl;
                    source = refl;
                    services = sym (same.services ∙ ap (λ x. x.services) own);
                  },
                )
            | inr away ↦ (o, rw away refl, IsSame-refl o)
          ])
          (λ b s o e. absurd (elim (Bool-cases (is_place_of 𝓗 B S W r b s)) [
            | inl here ↦ ground (arith, here, e)
            | inr away ↦ ground (arith, away, e)
          ]))

  bucket_at-replicate :
      (n b : ℕ) (bucket : Bucket) → b < n → bucket_at (replicate n bucket) b ≡ bucket
  unfolding bucket_at
  bucket_at-replicate zero b bucket h = absurd (omega (arith, h))
  bucket_at-replicate (suc n) zero bucket h = refl
  bucket_at-replicate (suc n) (suc b) bucket h = bucket_at-replicate n b bucket (omega (arith, h))

  slot_at-replicate : (n s : ℕ) → slot_at (replicate n none) s ≡ none
  unfolding slot_at
  slot_at-replicate zero s = refl
  slot_at-replicate (suc n) zero = refl
  slot_at-replicate (suc n) (suc s) = slot_at-replicate n s

  pub record_at-new : (n b s : ℕ) → record_at (replicate n (replicate S none)) b s ≡ none
  unfolding bucket_at slot_at
  record_at-new zero b s = refl
  record_at-new (suc n) zero s = slot_at-replicate S s
  record_at-new (suc n) (suc b) s = record_at-new n b s

  -- A table without records.
  pub new-Sound : IsSound (new 𝓗 B S W)
  new-Sound = record {
    shape = record {
      buckets = length-replicate B (replicate S none);
      slots = λ b h. rw (bucket_at-replicate B b (replicate S none) h) (length-replicate S none);
    };
    home = λ b s o e. absurd (ground (arith, record_at-new B b s, e));
  }
