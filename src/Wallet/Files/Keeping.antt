-- ===== src/Wallet/Files/Keeping.antt =====
-- crates/wallet/src/silentpayments/keys_file.rs: what a save of keys leaves on the disk.
use kernel_node.Prelude.{◌≡◌, refl, sym, ◌∙◌, ◌≢◌, ◌⊎◌, inl, inr, none, some, arith, nat_eq}
use kernel_node.Prelude.Reader.{ok, err}
use kernel_node.Prelude.HashMap
use kernel_node.Disk.{FilePath, path_eq, File, Disk, FsError, failed, calm}
use kernel_node.Disk.Operations.{
  IsPut, create_new-cases, write_all-cases, put_here, put_else, read-calm,
}
use kernel_node.Wallet.Scanning.{SilentPayments}
use kernel_node.Wallet.Keys.{KeyMaking, SilentPaymentKeysFile, to_bytes}
use kernel_node.Wallet.Keys.RoundTrip.{HasKeyBytes, from_bytes-to_bytes}
use kernel_node.Wallet.Files.{save_keys, load_keys}

kept_apart :
    (path p : FilePath) (file f : File) (d d' : Disk)
    → HashMap.get path d.files ≡ none
    → HashMap.get p d.files ≡ some f
    → IsPut path file d d'
    → (p ≢ path) × (HashMap.get p d'.files ≡ some f)
kept_apart path p file f d d' free there put =
    let other : p ≢ path = λ same. absurd (ground (arith, there, rw (sym same) at free)) in
    (other, put_else path file d d' put p other ∙ there)

module _ (𝓢 : SilentPayments) (𝓚 : KeyMaking 𝓢) (law : HasKeyBytes 𝓢 𝓚) where
  load_keys-own :
      (path : FilePath) (keys : SilentPaymentKeysFile 𝓢 𝓚) (d : Disk) (file : File)
      → HashMap.get path d.files ≡ some file
      → file.content ≡ to_bytes 𝓢 𝓚 keys
      → (load_keys 𝓢 𝓚 path (calm d)).0 ≡ ok keys
  unfolding load_keys
  load_keys-own path keys d file there e =
      rw (read-calm path d file there, e)
        (let back = from_bytes-to_bytes 𝓢 𝓚 law keys in ground (arith, back))

  -- A save of keys, whatever fails on the way, leaves every file that was there as it was, also one
  -- of the same path; and if it reports no error, that path was free, and the keys are loaded from it.
  pub save_keys-Kept :
      (path p : FilePath) (f : File) (keys : SilentPaymentKeysFile 𝓢 𝓚) (d : Disk)
      → HashMap.get p d.files ≡ some f
      → (HashMap.get p (save_keys 𝓢 𝓚 path keys d).1.files ≡ some f)
        × (((e : FsError) × ((save_keys 𝓢 𝓚 path keys d).0 ≡ err e))
            ⊎ (((save_keys 𝓢 𝓚 path keys d).0 ≡ ok tt)
                × (HashMap.get path d.files ≡ none)
                × ((load_keys 𝓢 𝓚 path (calm (save_keys 𝓢 𝓚 path keys d).1)).0 ≡ ok keys)))
  unfolding save_keys
  save_keys-Kept path p f keys d there = elim (create_new-cases path d) [
    | inr (d1, e, e1, same) ↦ rw e1 (ground (arith, same, there), inl (e, refl))
    | inl (d1, e1, free, put1) ↦
        let (other, there1) = kept_apart path p _ f d d1 free there put1 in
        elim (write_all-cases path (to_bytes 𝓢 𝓚 keys) d1 _ (put_here path _ d d1 put1)) [
          | inr (d2, n, e2, put2) ↦
              rw (e1, e2) (put_else path _ d1 d2 put2 p other ∙ there1, inl (failed, refl))
          | inl (d2, e2, put2) ↦
              rw (e1, e2)
                (
                  put_else path _ d1 d2 put2 p other ∙ there1,
                  inr (refl, free, load_keys-own path keys d2 _ (put_here path _ d1 d2 put2) refl),
                )
        ]
  ]
