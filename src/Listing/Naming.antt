-- ===== src/Listing/Naming.antt =====
-- Absolute paths in one buffer, and the configured root that names each repository.
pub mod Roots
pub mod Buffer
use scap.Base.{
  ℕ, zero, suc, ◌+◌, Bool, true, false, not, Option, none, some, List, [], ◌∷◌, ◌++◌, ◌==◌,
  if◌then◌else◌, length, take, drop, get_elem?, ◌>>=◌,
}
use scap.Base.Bytes.{Bytes, codes, bytes_eq, starts_with, ends_with}
use scap.Listing.{Repo}

pub record Naming : Type 0 where
  pub start : ℕ
  pub rel : ℕ
  pub end : ℕ
  pub under_primary : Bool

unfoldable pub push_full_path : Bytes → Bytes → Bytes → Bytes
push_full_path sink root rel =
    if bytes_eq rel (codes ".")
    then sink ++ root
    else if not (ends_with (codes "/") root)
    then (sink ++ root) ++ (codes "/" ++ rel)
    else (sink ++ root) ++ rel

-- `abs[root.len()] == b'/'`, where `abs` is longer than `root`.
abbrev slash_at : Bytes → ℕ → Bool
slash_at abs i = elim (get_elem? abs i) [ none ↦ false | some c ↦ c == b'/' ]

unfoldable pub root_prefix : Bytes → Bytes → Option ℕ
root_prefix root abs =
    if not (starts_with root abs)
    then none
    else if length abs == length root
    then some (length abs)
    else if ends_with (codes "/") root
    then some (length root)
    else if slash_at abs (length root)
    then some (length root + 1)
    else none

-- `find_map` over the candidates, numbered from `i`.
unfoldable pub find_root : ℕ → List Bytes → Bytes → Option (ℕ × ℕ)
find_root i [] abs = none
find_root i (root ∷ roots) abs =
    let later = find_root (suc i) roots abs in
    elim (root_prefix root abs) [ some cut ↦ some (i, cut) | none ↦ later ]

-- The paths that one root's walk found; `none` is the `expect`'s panic.
unfoldable pub name_listing :
    List Bytes → Bytes → List Bytes → Bytes → List Naming → Option (Bytes × List Naming)
name_listing candidates root [] paths spans = some (paths, spans)
name_listing candidates root (rel ∷ rels) paths spans =
    let start = length paths in
    let paths' = push_full_path paths root rel in
    let end = length paths' in
    find_root 0 candidates (drop start paths') >>= λ p. name_listing candidates root rels paths' (
      spans
      ++ (record { start = start; rel = start + p.1; end = end; under_primary = p.0 == 0 } ∷ []))

-- `roots.iter().zip(listings).enumerate()`, from root `walked` on.
unfoldable pub name_from :
    List Bytes
    → ℕ
    → List Bytes
    → List (List Bytes)
    → Bytes
    → List Naming
    → Option (Bytes × List Naming)
name_from all_roots walked [] listings paths spans = some (paths, spans)
name_from all_roots walked (root ∷ roots) [] paths spans = some (paths, spans)
name_from all_roots walked (root ∷ roots) (rels ∷ listings) paths spans =
    name_listing (take (suc walked) all_roots) root rels paths spans >>= λ p.
    name_from all_roots (suc walked) roots listings p.0 p.1

unfoldable pub name_repositories : List Bytes → List (List Bytes) → Option (Bytes × List Naming)
name_repositories roots listings = name_from roots 0 roots listings [] []

-- `&paths[from..to]`
abbrev slice : Bytes → ℕ → ℕ → Bytes
slice paths from to = drop from (take to paths)

-- A root that names itself has an empty remainder, and `.` is printed for it.
abbrev or_dot : Bytes → Bytes
or_dot [] = codes "."
or_dot (b ∷ bs) = b ∷ bs

unfoldable pub repo_at : Bytes → Naming → Repo
repo_at paths span = record {
  abs = slice paths span.start span.end;
  rel = or_dot (slice paths span.rel span.end);
  under_primary = span.under_primary;
}
