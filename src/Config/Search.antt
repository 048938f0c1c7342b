-- ===== src/Config/Search.antt =====
-- What the search of `PATH` and the list of user files promise.
use scap.Base.{
  true, false, not, ◌||◌, ◌≡◌, refl, ap, some, List, [], ◌∷◌, ◌++◌, is_empty, any, Bool-cases, inl,
  inr, All,
}
use scap.Base.Bytes.{Bytes, codes, bytes_eq}
use scap.Config.Sources.{Files, Source, join_path, runs, search_path, key_of, unseen}

module _ (fs : Files) where
  abbrev pub git_in : Bytes → Bytes
  git_in dir = join_path dir (codes "git")

  -- No directory of the list has a `git` that runs; an empty one is none.
  abbrev pub AllWithout : List Bytes → Type 0
  AllWithout dirs = All (λ dir. (is_empty dir || not (runs fs (git_in dir))) ≡ true) dirs

  -- The directories split at the first that has the program.
  abbrev pub IsFirst : List Bytes → Bytes → Type 0
  IsFirst dirs program =
      (front : List Bytes) × (dir : Bytes) × (back : List Bytes) × (dirs ≡ front ++ (dir ∷ back))
      × (is_empty dir ≡ false)
      × (program ≡ git_in dir)
      × (runs fs program ≡ true)
      × AllWithout front

  IsFirst-later :
      (dir : Bytes) (dirs : List Bytes) (program : Bytes)
      → (is_empty dir || not (runs fs (git_in dir))) ≡ true
      → IsFirst dirs program
      → IsFirst (dir ∷ dirs) program
  IsFirst-later dir dirs program skipped (front, d, back, e, named, same, there, without) =
      (dir ∷ front, d, back, ap (◌∷◌ dir) e, named, same, there, (skipped, without))

  -- The program is the one in the first non-empty directory that has an executable file `git`.
  pub search_path-IsFirst :
      (dirs : List Bytes) {program : Bytes}
      → search_path fs dirs ≡ some program
      → IsFirst dirs program
  unfolding search_path
  search_path-IsFirst [] h = absurd cc
  search_path-IsFirst (dir ∷ dirs) {program} h = elim (Bool-cases (is_empty dir)) [
    | inl blank ↦
        IsFirst-later dir dirs program (rw blank refl)
          (search_path-IsFirst dirs {program = program} (rw blank at h))
    | inr named ↦ elim (Bool-cases (runs fs (git_in dir))) [
      | inl there ↦
          let e : some (git_in dir) ≡ some program = rw (named, there) at h in
          let same : program ≡ git_in dir = cc in
          ([], dir, dirs, refl, named, same, rw same there, tt)
      | inr gone ↦
          IsFirst-later dir dirs program (rw (named, gone) refl)
            (search_path-IsFirst dirs {program = program} (rw (named, gone) at h))
    ]
  ]

  -- The files of the list have keys that are new, each behind those before it.
  abbrev pub AllNew : List Bytes → List (Bytes × Source) → Type 0
  AllNew seen [] = Unit
  AllNew seen (f ∷ files) =
      (any (bytes_eq (key_of fs f.0)) seen ≡ false) × AllNew (seen ++ (key_of fs f.0 ∷ [])) files

  -- No file is read twice under two names: each one's canonical path is none of those before it.
  pub unseen-AllNew :
      (seen : List Bytes) (files : List (Bytes × Source)) → AllNew seen (unseen fs seen files)
  unfolding unseen
  unseen-AllNew seen [] = tt
  unseen-AllNew seen (f ∷ files) = elim (Bool-cases (any (bytes_eq (key_of fs f.0)) seen)) [
    | inl old ↦ rw old (unseen-AllNew seen files)
    | inr new ↦ rw new (new, unseen-AllNew (seen ++ (key_of fs f.0 ∷ [])) files)
  ]
