-- ===== src/Disk.antt =====
-- std::fs, as crates/wallet and src/net/addr.rs use it: files by their path, and operations that may
-- fail. A path is its directory and the name of the file in it.
pub mod Operations
pub mod Replacing
use kernel_node.Prelude.{
  ℕ, Bool, true, false, none, some, List, ◌∷◌, ◌++◌, arith, ℕ_discrete, take, if◌then◌else◌, Eq,
  nat_eq, [],
}
use kernel_node.Prelude.Reader.{Result, ok, err}
use kernel_node.Prelude.HashMap
use kernel_node.Prelude.HashMap.{HashMap}

pub record FilePath : Type 0 where
  pub parent : List ℕ
  pub file_name : List ℕ

unfoldable pub path-discrete : Discrete FilePath
path-discrete = hlevel ℕ_discrete

instance abbrev pub path_eq : Eq FilePath
path_eq = record { dec = path-discrete }

-- What is in a file, and whether all of it has reached the disk.
pub record File : Type 0 where
  pub content : List ℕ
  pub synced : Bool

-- How the next operation ends. A write that fails has written so many bytes.
pub data Verdict : Type 0 where
  fine : Verdict
  fails_after : ℕ → Verdict

pub data FsError : Type 0 where
  not_found already_exists failed : FsError

-- Once the verdicts are used up, all operations are fine.
pub record Disk : Type 0 where
  pub files : HashMap FilePath File
  pub verdicts : List Verdict

abbrev pub Io {ℓ κ} : Type ℓ → Type κ → Type (ℓ ⊔ κ)
Io E A = Disk → Result E A × Disk

abbrev pub then_io {ℓ κ μ} :
    {E : Type ℓ} {A : Type κ} {B : Type μ} → Result E A × Disk → (A → Io E B) → Result E B × Disk
then_io (ok a, d) f = f a d
then_io (err e, d) f = (err e, d)

infixl 10 ◌>>=◌
abbrev pub ◌>>=◌ {ℓ κ μ} : {E : Type ℓ} {A : Type κ} {B : Type μ} → Io E A → (A → Io E B) → Io E B
(m >>= f) = λ d. then_io (m d) f

-- An error of the file system as one of the caller's, `From<io::Error>`.
abbrev pub map_err {ℓ κ μ} :
    {E : Type ℓ} {F : Type κ} {A : Type μ} → (E → F) → Result E A × Disk → Result F A × Disk
map_err f (ok a, d) = (ok a, d)
map_err f (err e, d) = (err (f e), d)

-- The disk later, when nothing fails.
abbrev pub calm : Disk → Disk
calm d = record d { verdicts = [] }

-- The operation `run`, unless the disk refuses it; `refused` gets the number of bytes.
unfoldable pub attempt {ℓ} : {A : Type ℓ} → (ℕ → Io FsError A) → Io FsError A → Io FsError A
attempt refused run d = elim d.verdicts [
  | [] ↦ run (calm d)
  | fine ∷ more ↦ run (record d { verdicts = more })
  | fails_after n ∷ more ↦ refused n (record d { verdicts = more })
]

abbrev pub refuse {ℓ} : {A : Type ℓ} → ℕ → Io FsError A
refuse n d = (err failed, d)

abbrev pub put : FilePath → File → Disk → Disk
put path file d = record d { files = HashMap.insert path file d.files }

-- `path.exists()`
unfoldable pub exists : FilePath → Disk → Bool
exists path d = elim (HashMap.get path d.files) [ none ↦ false | some file ↦ true ]

-- `File::create`: what was there is cut to nothing.
unfoldable pub create : FilePath → Io FsError (Unit {0})
unfolding attempt
create path = attempt refuse (λ d. (ok tt, put path (record { content = []; synced = false }) d))

unfoldable pub created_new : FilePath → Io FsError (Unit {0})
unfolding exists
created_new path d =
    if exists path d
    then (err already_exists, d)
    else (ok tt, put path (record { content = []; synced = false }) d)

-- `File::create_new`
unfoldable pub create_new : FilePath → Io FsError (Unit {0})
unfolding attempt created_new
create_new path = attempt refuse (created_new path)

unfoldable pub written : FilePath → List ℕ → Disk → Disk
written path bytes d = elim (HashMap.get path d.files) [
  | none ↦ d
  | some file ↦ put path (record { content = file.content ++ bytes; synced = false }) d
]

unfoldable pub all_synced : FilePath → Disk → Disk
all_synced path d = elim (HashMap.get path d.files) [
  | none ↦ d
  | some file ↦ put path (record file { synced = true }) d
]

-- `write_all` at the end of the file
unfoldable pub write_all : FilePath → List ℕ → Io FsError (Unit {0})
unfolding attempt written
write_all path bytes =
    attempt (λ n d. (err failed, written path (take n bytes) d))
      (λ d. (ok tt, written path bytes d))

unfoldable pub sync_data : FilePath → Io FsError (Unit {0})
unfolding attempt all_synced
sync_data path = attempt refuse (λ d. (ok tt, all_synced path d))

unfoldable pub renamed : FilePath → FilePath → Io FsError (Unit {0})
renamed from to d = elim (HashMap.get from d.files) [
  | none ↦ (err not_found, d)
  | some file ↦ (ok tt, record d { files = HashMap.insert to file (HashMap.remove from d.files) })
]

-- `fs::rename`: what the second path named is gone.
unfoldable pub rename : FilePath → FilePath → Io FsError (Unit {0})
unfolding attempt renamed
rename from to = attempt refuse (renamed from to)

-- `fs::read`
unfoldable pub read : FilePath → Io FsError (List ℕ)
unfolding attempt
read path = attempt refuse (λ d. elim (HashMap.get path d.files) [
  | none ↦ (err not_found, d)
  | some file ↦ (ok file.content, d)
])

-- A file is written beside the one that it replaces, and takes its place once it is on the disk.
unfoldable pub replace : FilePath → FilePath → List ℕ → Io FsError (Unit {0})
replace tmp path bytes = do
  _ ← create tmp
  _ ← write_all tmp bytes
  _ ← sync_data tmp
  rename tmp path
