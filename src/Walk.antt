-- ===== src/Walk.antt =====
-- src/walk/: what a walk of one root leaves. This file has the records and the listing of
-- walk/mod.rs, the child the arena of walk/arena.rs.
pub mod Arena
pub mod Recorded
pub mod Records
pub mod Pool
pub mod Entries
pub mod Sys
pub mod Reader
pub mod Tree
pub mod Lookup
pub mod Ledger
pub mod Queued
pub mod Children
pub mod Links
pub mod Reads
pub mod Workers
pub mod Drive
pub mod Merge
pub mod Exact
pub mod Ends
pub mod Roots
pub mod Descriptors
pub mod Live
pub mod Threads
pub mod Times
pub mod Jobs
pub mod Park
pub mod Parking
use scap.Base.{
  ℕ, ◌+◌, Bool, true, false, Option, none, some, List, [], ◌∷◌, ◌++◌, if◌then◌else◌, is_empty, ◌≡◌,
  refl, ap, sym, ◌∙◌, retain, map, ◌>>=◌, Bool-cases, inl, inr,
}
use scap.Base.Int.{ℤ}
use scap.Base.Bytes.{Bytes, codes}
use scap.Walk.Arena.{Arena as PathArena, no_paths}

-- One directory that a walk read, or a repository where there is no mtime.
pub record Record : Type 0 where
  pub rel : Bytes
  pub mtime_ns : Option ℤ

abbrev pub dir : Bytes → ℤ → Record
dir rel mtime = record { rel = rel; mtime_ns = some mtime }

abbrev pub repo : Bytes → Record
repo rel = record { rel = rel; mtime_ns = none }

abbrev pub is_repo : Record → Bool
is_repo r = elim r.mtime_ns [ none ↦ true | some _ ↦ false ]

pub record RootListing : Type 0 where
  pub arena : PathArena
  pub dirs_read : ℕ
  pub excluded : ℕ
  pub records : List Record
  pub incomplete : Bool

-- The path under which a repository is listed: the root itself is `.`.
abbrev pub shown : Record → Bytes
shown r = if is_empty r.rel then codes "." else r.rel

-- The loop over the repositories of the records; `none` is the panic past 4 GiB.
unfoldable pub push_repos : PathArena → List Record → Option PathArena
push_repos arena [] = some arena
push_repos arena (r ∷ rs) =
    let skipped = push_repos arena rs in
    if is_repo r then (Arena.push arena (shown r) >>= λ grown. push_repos grown rs) else skipped

unfoldable pub from_records : List Record → ℕ → ℕ → Bool → Option RootListing
from_records records dirs_read excluded incomplete = do
  arena ← push_repos no_paths records
  some (record {
    arena = arena;
    dirs_read = dirs_read;
    excluded = excluded;
    records = records;
    incomplete = incomplete;
  })
