-- ===== src/Net/Sync/Queue.antt =====
-- `populate_download_queue` of src/net/peer.rs: what is queued for download.
use kernel_node.Prelude.{
  ℕ, zero, suc, ◌<◌, ◌≡◌, refl, ap, ◌∙◌, ◌≢◌, inl, inr, Bool, true, false, not, ◌&&◌, some, List,
  ◌∷◌, ◌++◌, arith, filter, Option-cases, nat_eq, [],
}
use kernel_node.Prelude.HashSet.{contains, contains-append}
use mathlib.Core.List.{reverse, reverse-cons, append_assoc, append-nil}
use kernel_node.Net.Kernel.{Kernel, HasParents}
use kernel_node.Net.Download.{BlockHash, DownloadState, buffered_hashes}
use kernel_node.Net.Sync.{forked, exhausted, walk, fill_queue, populate_download_queue}

contains-filter :
    (b : BlockHash) (p : BlockHash → Bool) (xs : List BlockHash)
    → contains b (filter p xs) ≡ (contains b xs && p b)
unfolding contains filter
contains-filter b p [] = refl
contains-filter b p (x ∷ xs) = ground (arith, contains-filter b p xs, ap p)

contains-reverse : (b : BlockHash) (xs : List BlockHash) → contains b (reverse xs) ≡ contains b xs
unfolding contains
contains-reverse b [] = refl
contains-reverse b (x ∷ xs) =
    ground
      (arith, reverse-cons x xs, contains-append b (reverse xs) (x ∷ []), contains-reverse b xs)

module _ (𝓚 : Kernel) (chainman : 𝓚.Chainstate) where
  -- The branch from an entry down to the active chain, tip first, without the fork point.
  pub data Branch : 𝓚.Entry → List BlockHash → Type 0 where
    fork : {e : 𝓚.Entry} → 𝓚.on_active_chain chainman e ≡ true → Branch e []
    above :
        {e p : 𝓚.Entry} {hashes : List BlockHash}
        → 𝓚.on_active_chain chainman e ≡ false
        → 𝓚.prev e ≡ some p
        → Branch p hashes
        → Branch e (𝓚.block_hash e ∷ hashes)

  walk-Branch :
      (P : HasParents 𝓚) (fuel : ℕ) (e : 𝓚.Entry) (hashes seen : List BlockHash)
      → 𝓚.height e < fuel
      → Branch e hashes
      → walk 𝓚 fuel chainman e seen ≡ forked (seen ++ hashes)
  unfolding walk
  walk-Branch P zero e hashes seen enough b = elim enough [ ]
  walk-Branch P (suc fuel) e _ seen enough (fork on) = rw (on, append-nil, walk)
  walk-Branch P (suc fuel) e _ seen enough (above {p = p} {hashes = hashes} off up b) =
      rw (off, up, walk)
        (walk-Branch P fuel p hashes (seen ++ 𝓚.block_hash e ∷ [])
            (omega (arith, P.height-prev e p up)) b
          ∙ ap forked (append_assoc seen (𝓚.block_hash e ∷ []) hashes))

  -- The walk ends by its own tests: the fuel that the model gives it is enough.
  pub walk-ne-exhausted :
      (P : HasParents 𝓚) (fuel : ℕ) (e : 𝓚.Entry) (seen : List BlockHash)
      → 𝓚.height e < fuel
      → walk 𝓚 fuel chainman e seen ≢ exhausted
  unfolding walk
  walk-ne-exhausted P zero e seen enough = elim enough [ ]
  walk-ne-exhausted P (suc fuel) e seen enough = elim (Option-cases (𝓚.prev e)) [
    | inl top ↦ ground arith
    | inr (p, up) ↦
        ground
          (arith, P.height-prev e p up, walk-ne-exhausted P fuel p (seen ++ 𝓚.block_hash e ∷ []))
  ]

  fill_queue_lem :
      (hashes : List BlockHash) (d : DownloadState 𝓚.KernelBlock)
      → d.queue ≡ []
      → let d' = fill_queue 𝓚 hashes d in
        (d'.queue
          ≡ filter
              (λ hash.
                not (contains hash (buffered_hashes 𝓚.kernel_hash d))
                && not (contains hash d.in_flight))
              (reverse hashes))
        × (d'.in_flight ≡ d.in_flight)
        × (d'.buffer ≡ d.buffer)
  unfolding fill_queue filter
  fill_queue_lem [] d no_queue = (no_queue, refl, refl)
  fill_queue_lem (h ∷ hs) d no_queue = ground arith

  populates :
      (d : DownloadState 𝓚.KernelBlock) (best : 𝓚.Entry) (hashes : List BlockHash)
      → d.queue ≡ []
      → 𝓚.best_entry chainman ≡ some best
      → walk 𝓚 (suc (𝓚.height best)) chainman best [] ≡ forked hashes
      → populate_download_queue 𝓚 chainman d ≡ fill_queue 𝓚 hashes d
  unfolding populate_download_queue
  populates d best hashes no_queue known e = simp (no_queue, known, e)

  -- An empty queue is filled with the blocks between the best known entry and the active chain that
  -- are neither buffered nor in flight, those nearest the active chain first. What is in flight and
  -- what is buffered stays. The walk runs to its end.
  pub populate_download_queue-Branch :
      (P : HasParents 𝓚) (d : DownloadState 𝓚.KernelBlock) (best : 𝓚.Entry)
      (hashes : List BlockHash)
      → d.queue ≡ []
      → 𝓚.best_entry chainman ≡ some best
      → Branch best hashes
      → let d' = populate_download_queue 𝓚 chainman d in
        (d'.queue
          ≡ filter
              (λ hash.
                not (contains hash (buffered_hashes 𝓚.kernel_hash d))
                && not (contains hash d.in_flight))
              (reverse hashes))
        × (d'.in_flight ≡ d.in_flight)
        × (d'.buffer ≡ d.buffer)
  unfolding populate_download_queue
  populate_download_queue-Branch P d best hashes no_queue known b =
      let e = walk-Branch P (suc (𝓚.height best)) best hashes [] (omega arith) b in
      rw (populates d best hashes no_queue known e) (fill_queue_lem hashes d no_queue)

  pub in_flight-populate :
      (d : DownloadState 𝓚.KernelBlock)
      → (populate_download_queue 𝓚 chainman d).in_flight ≡ d.in_flight
  unfolding populate_download_queue
  in_flight-populate d = ground arith
