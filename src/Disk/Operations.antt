-- ===== src/Disk/Operations.antt =====
-- Each operation on the disk: what it does, or how it fails.
use kernel_node.Prelude.{
  ℕ, ◌≡◌, refl, ◌≢◌, ◌⊎◌, inl, inr, true, false, some, List, ◌∷◌, ◌++◌, arith, take, if◌then◌else◌,
  ◌==◌, nat_eq, [], Option-cases, none,
}
use kernel_node.Prelude.Reader.{ok, err}
use kernel_node.Prelude.HashMap
use kernel_node.Prelude.HashMap.{HashMap}
use kernel_node.Disk.{
  FilePath, path_eq, File, Verdict, fine, fails_after, FsError, failed, Disk, Io, attempt, refuse,
  put, create, written, write_all, sync_data, all_synced, renamed, rename, create_new, read, exists,
  calm, created_new, already_exists,
}

insert-get :
    (p q : FilePath) (f : File) (m : HashMap FilePath File)
    → HashMap.get p (HashMap.insert q f m) ≡ (if p == q then some f else HashMap.get p m)
insert-get p q f m = HashMap.get-insert q p f m

-- An operation is refused, with whatever a refusal does, or runs.
pub attempt-cases {ℓ} :
    {A : Type ℓ} (refused : ℕ → Io FsError A) (run : Io FsError A) (d : Disk)
    → ((n : ℕ) × (vs : List Verdict) × (attempt refused run d
          ≡ refused n (record d { verdicts = vs })))
      ⊎ ((vs : List Verdict) × (attempt refused run d ≡ run (record d { verdicts = vs })))
unfolding attempt
attempt-cases refused run d = go d.verdicts refl
  where
    go :
        (vs : List Verdict)
        → d.verdicts ≡ vs
        → ((n : ℕ) × (vs : List Verdict) × (attempt refused run d
              ≡ refused n (record d { verdicts = vs })))
          ⊎ ((vs : List Verdict) × (attempt refused run d ≡ run (record d { verdicts = vs })))
    go [] e = inr ([], rw e refl)
    go (fine ∷ vs) e = inr (vs, rw e refl)
    go (fails_after n ∷ vs) e = inl (n, vs, rw e refl)

-- The file alone has changed, and is this one.
abbrev pub IsPut : FilePath → File → Disk → Disk → Type 0
IsPut path file d d' =
    (p : FilePath)
    → HashMap.get p d'.files ≡ (if p == path then some file else HashMap.get p d.files)

pub create-cases :
    (path : FilePath) (d : Disk)
    → ((d' : Disk) × (create path d ≡ (ok tt, d'))
        × IsPut path (record { content = []; synced = false }) d d')
      ⊎ ((d' : Disk) × (create path d ≡ (err failed, d')) × (d'.files ≡ d.files))
unfolding create
create-cases path d =
    elim (attempt-cases {0} refuse
      (λ d. (ok tt, put path (record { content = []; synced = false }) d)) d) [
        | inl (n, vs, e) ↦ inr (record d { verdicts = vs }, e, refl)
        | inr (vs, e) ↦
            inl (put path _ (record d { verdicts = vs }), e, λ p. insert-get p path _ d.files)
      ]

-- A write to a file that is there: more of it is written, or it fails within.
pub write_all-cases :
    (path : FilePath) (bytes : List ℕ) (d : Disk) (file : File)
    → HashMap.get path d.files ≡ some file
    → ((d' : Disk) × (write_all path bytes d ≡ (ok tt, d'))
        × IsPut path (record { content = file.content ++ bytes; synced = false }) d d')
      ⊎ ((d' : Disk) × (n : ℕ) × (write_all path bytes d ≡ (err failed, d'))
          × IsPut path (record { content = file.content ++ take n bytes; synced = false }) d d')
unfolding write_all written
write_all-cases path bytes d file there =
    elim (attempt-cases {0} (λ n d. (err failed, written path (take n bytes) d))
      (λ d. (ok tt, written path bytes d)) d) [
        | inl (n, vs, e) ↦ inr (_, n, rw (there, written) at e, λ p. insert-get p path _ d.files)
        | inr (vs, e) ↦ inl (_, rw (there, written) at e, λ p. insert-get p path _ d.files)
      ]

pub sync_data-cases :
    (path : FilePath) (d : Disk) (file : File)
    → HashMap.get path d.files ≡ some file
    → ((d' : Disk) × (sync_data path d ≡ (ok tt, d'))
        × IsPut path (record file { synced = true }) d d')
      ⊎ ((d' : Disk) × (sync_data path d ≡ (err failed, d')) × (d'.files ≡ d.files))
unfolding sync_data all_synced
sync_data-cases path d file there =
    elim (attempt-cases {0} refuse (λ d. (ok tt, all_synced path d)) d) [
      | inl (n, vs, e) ↦ inr (record d { verdicts = vs }, e, refl)
      | inr (vs, e) ↦ inl (_, rw (there, all_synced) at e, λ p. insert-get p path _ d.files)
    ]

pub rename-cases :
    (from to : FilePath) (d : Disk) (file : File)
    → HashMap.get from d.files ≡ some file
    → from ≢ to
    → ((d' : Disk) × (rename from to d ≡ (ok tt, d'))
        × ((p : FilePath)
            → p ≢ from
            → HashMap.get p d'.files ≡ (if p == to then some file else HashMap.get p d.files)))
      ⊎ ((d' : Disk) × (rename from to d ≡ (err failed, d')) × (d'.files ≡ d.files))
unfolding rename renamed
rename-cases from to d file there apart = elim (attempt-cases {0} refuse (renamed from to) d) [
  | inl (n, vs, e) ↦ inr (record d { verdicts = vs }, e, refl)
  | inr (vs, e) ↦ inl (
    _,
    rw (there, renamed) at e,
    λ p other. ground (
      arith,
      insert-get p to file (HashMap.remove from d.files),
      HashMap.get-remove from p d.files,
      other,
    ),
  )
]

pub put_here :
    (path : FilePath) (file : File) (d d' : Disk)
    → IsPut path file d d'
    → HashMap.get path d'.files ≡ some file
put_here path file d d' h = ground (arith, h path)

pub put_else :
    (path : FilePath) (file : File) (d d' : Disk)
    → IsPut path file d d'
    → (p : FilePath) → p ≢ path
    → HashMap.get p d'.files ≡ HashMap.get p d.files
put_else path file d d' h p other = ground (arith, h p, other)

pub create_new-cases :
    (path : FilePath) (d : Disk)
    → ((d' : Disk) × (create_new path d ≡ (ok tt, d'))
        × (HashMap.get path d.files ≡ none)
        × IsPut path (record { content = []; synced = false }) d d')
      ⊎ ((d' : Disk) × (e : FsError) × (create_new path d ≡ (err e, d')) × (d'.files ≡ d.files))
unfolding create_new exists
create_new-cases path d = elim (attempt-cases {0} refuse (created_new path) d) [
  | inl (n, vs, e) ↦ inr (record d { verdicts = vs }, failed, e, refl)
  | inr (vs, e) ↦ elim (Option-cases (HashMap.get path d.files)) [
    | inl free ↦
        inl (_, rw (free, created_new, exists) at e, free, λ p. insert-get p path _ d.files)
    | inr (file, taken) ↦ inr (_, already_exists, rw (taken, created_new, exists) at e, refl)
  ]
]

pub read-calm :
    (path : FilePath) (d : Disk) (file : File)
    → HashMap.get path d.files ≡ some file
    → read path (calm d) ≡ (ok file.content, calm d)
unfolding read attempt
read-calm path d file there = ground (arith, there)
