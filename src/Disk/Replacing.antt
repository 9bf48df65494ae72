-- ===== src/Disk/Replacing.antt =====
-- What the replacement of a file leaves on the disk, whatever fails on the way.
use kernel_node.Prelude.{
  ◌∙◌, ℕ, ◌≡◌, refl, ◌≢◌, ◌⊎◌, inl, inr, true, some, List, arith, if◌then◌else◌, ◌==◌, nat_eq,
}
use kernel_node.Prelude.Reader.{ok, err}
use kernel_node.Prelude.HashMap
use kernel_node.Prelude.HashMap.{HashMap}
use kernel_node.Disk.{FilePath, path_eq, failed, Disk, replace}
use kernel_node.Disk.Operations.{
  create-cases, write_all-cases, sync_data-cases, rename-cases, put_here, put_else,
}

-- All but the file beside it are as they were.
abbrev pub SameBut : FilePath → Disk → Disk → Type 0
SameBut tmp d d' = (p : FilePath) → p ≢ tmp → HashMap.get p d'.files ≡ HashMap.get p d.files

-- All but the file beside it are as they were, and the file is replaced, by bytes that have reached
-- the disk.
abbrev pub IsReplaced : FilePath → FilePath → List ℕ → Disk → Disk → Type 0
IsReplaced tmp path bytes d d' =
    (p : FilePath)
    → p ≢ tmp
    → HashMap.get p d'.files ≡ (
        if p == path
        then some (record { content = bytes; synced = true })
        else HashMap.get p d.files)

-- Whatever fails on the way, the file is replaced as a whole or stays what it was.
pub replace-cases :
    (tmp path : FilePath) (bytes : List ℕ) (d : Disk)
    → tmp ≢ path
    → ((d' : Disk) × (replace tmp path bytes d ≡ (ok tt, d')) × IsReplaced tmp path bytes d d')
      ⊎ ((d' : Disk) × (replace tmp path bytes d ≡ (err failed, d')) × SameBut tmp d d')
unfolding replace
replace-cases tmp path bytes d apart = elim (create-cases tmp d) [
  | inr (d1, e1, same) ↦ inr (d1, rw e1 refl, λ p other. ground (arith, same))
  | inl (d1, e1, put1) ↦
      let old1 = put_else tmp _ d d1 put1 in
      elim (write_all-cases tmp bytes d1 _ (put_here tmp _ d d1 put1)) [
        | inr (d2, n, e2, put2) ↦
            inr (d2, rw (e1, e2) refl, λ p other. put_else tmp _ d1 d2 put2 p other ∙ old1 p other)
        | inl (d2, e2, put2) ↦
            let old2 : SameBut tmp d d2 =
              λ p other. put_else tmp _ d1 d2 put2 p other ∙ old1 p other in
            elim (sync_data-cases tmp d2 _ (put_here tmp _ d1 d2 put2)) [
              | inr (d3, e3, same) ↦
                  inr (d3, rw (e1, e2, e3) refl, λ p other. rw same (old2 p other))
              | inl (d3, e3, put3) ↦
                  let old3 : SameBut tmp d d3 =
                    λ p other. put_else tmp _ d2 d3 put3 p other ∙ old2 p other in
                  elim (rename-cases tmp path d3 _ (put_here tmp _ d2 d3 put3) apart) [
                    | inr (d4, e4, same) ↦
                        inr (d4, rw (e1, e2, e3, e4) refl, λ p other. rw same (old3 p other))
                    | inl (d4, e4, moved) ↦ inl (
                      d4,
                      rw (e1, e2, e3, e4) refl,
                      λ p other. ground (arith, moved p other, old3 p other),
                    )
                  ]
            ]
      ]
]
