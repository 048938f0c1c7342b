-- ===== src/Walk/Drive.antt =====
-- src/walk/mod.rs: the knobs of a walk, which roots are walked, and the two walks that start from one.
-- `file_name` is `Path::file_name`, `pool` is `pool::run` as one schedule runs it, `none` is a panic.
use scap.Base.{
  ℕ, ◌+◌, ◌*◌, ◌-◌, ◌/◌, ◌%◌, ◌^◌, ◌==◌, Bool, true, false, not, ◌&&◌, Option, none, some, List, [],
  ◌∷◌, ltb, leb, if◌then◌else◌, is_empty, ◌>>=◌, map,
}
use scap.Base.Bytes.{Bytes, codes, bytes_eq, contains, ends_with, is_digit, strip_prefix}
use scap.Walk.{RootListing}
use scap.Walk.Arena.{no_paths}
use scap.Walk.Pool.{max_threads}
use scap.Walk.Sys.{
  Answer, failed, got, Os, DetectStrategy, open_scan, stat_first, Ctx, Out, new_out, emit,
}
use scap.Walk.Entries.{FileType}
use scap.Walk.Reader.{Job, Reading, read_dir}
use scap.Walk.Workers.{fresh, merge_all}
use scap.Walk.Sys.{is_directory}

abbrev pub default_threads : ℕ
default_threads = 4

abbrev pub fd_cap : ℕ
fd_cap = 4096

-- The value of decimal digits behind `seen`; anything else, and a value that is no usize, is no number.
abbrev digits_from : ℕ → Bytes → Option ℕ
digits_from seen [] = if ltb seen (2 ^ 64) then some seen else none
digits_from seen (c ∷ cs) =
    let rest = digits_from (seen * 10 + (c - b'0')) cs in if is_digit c then rest else none

-- `str::parse::<usize>`: one `+` is passed over, and there is a digit.
abbrev unsigned : Bytes → Option ℕ
unsigned [] = none
unsigned (c ∷ cs) = digits_from 0 (c ∷ cs)

unfoldable pub parse_usize : Bytes → Option ℕ
parse_usize text = elim (strip_prefix (codes "+") text) [
  | some digits ↦ unsigned digits
  | none ↦ unsigned text
]

abbrev pub in_range : ℕ → ℕ
in_range threads = if leb 1 threads && leb threads max_threads then threads else default_threads

abbrev pub selected : Option ℕ → ℕ
selected none = default_threads
selected (some threads) = in_range threads

unfoldable pub parse_threads : Option Bytes → ℕ
parse_threads none = default_threads
parse_threads (some value) =
    if is_empty value then default_threads else selected (parse_usize value)

unfoldable pub parse_detect_strategy : Option Bytes → DetectStrategy
parse_detect_strategy none = stat_first
parse_detect_strategy (some value) =
    if is_empty value
    then stat_first
    else if bytes_eq value (codes "open")
    then open_scan
    else if bytes_eq value (codes "stat")
    then stat_first
    else stat_first

pub record WalkOptions : Type 0 where
  pub threads : ℕ
  pub exclude : List (Bytes → Bool)
  pub detect : DetectStrategy
  pub record_index : Bool

-- The environment's values of `SCAP_LIST_DETECT`; no index is recorded.
unfoldable pub new_options : Option Bytes → ℕ → List (Bytes → Bool) → WalkOptions
new_options detect threads exclude = record {
  threads = threads;
  exclude = exclude;
  detect = parse_detect_strategy detect;
  record_index = false;
}

abbrev pub with_record : Bool → WalkOptions → WalkOptions
with_record record_index options = record options { record_index = record_index }

-- The kernel's answers about one root: its `stat` with the mode's permission bits, and the two
-- descriptors on it. `os` answers `openat` below the first.
pub record Kernel : Type 1 where
  pub os : Os
  pub stat_root : Answer (FileType × ℕ)
  pub open_base : Answer (Unit {0})
  pub open_read : Answer os.Fd

-- `mode & 0o444 == 0`
unfoldable pub is_unreadable : ℕ → Bool
is_unreadable mode =
    (((mode / 256) % 2) == 0) && (((mode / 32) % 2) == 0) && (((mode / 4) % 2) == 0)

abbrev walkable : Answer (FileType × ℕ) → Bool
walkable (failed e) = false
walkable (got (type, mode)) = if not (is_directory type) then false else not (is_unreadable mode)

unfoldable pub root_is_walkable : Kernel → Bool
root_is_walkable k = walkable k.stat_root

abbrev pub no_listing : RootListing
no_listing = record {
  arena = no_paths;
  dirs_read = 0;
  excluded = 0;
  records = [];
  incomplete = false;
}

unfoldable pub unreadable : RootListing
unreadable = record no_listing { incomplete = true }

unfoldable pub from_out : Out → RootListing
from_out out = record {
  arena = out.arena;
  dirs_read = out.dirs_read;
  excluded = out.excluded;
  records = out.records;
  incomplete = out.incomplete;
}

pub data Walked : Type 0 where
  invalid_root : Walked
  listing : RootListing → Walked

abbrev pub ctx_of : WalkOptions → ℕ → Ctx
ctx_of opts cap = record {
  exclude = opts.exclude;
  detect = opts.detect;
  record_index = opts.record_index;
  fd_cap = cap;
}

abbrev pub finished : Option Out → Option Walked
finished out = out >>= λ whole. some (listing (from_out whole))

-- A file name that ends in `.git`: rule (ii) for the root itself.
abbrev pub is_bare_root : Option Bytes → Bool
is_bare_root none = false
is_bare_root (some name) = ends_with (codes ".git") name

module _ (k : Kernel) (file_name : Bytes → Option Bytes)
    (pool : List (Job k.os) → ℕ → List Out) where
  -- The pool is started only for a root with something to descend into.
  abbrev pub parts_of : List (Job k.os) → ℕ → List Out
  parts_of [] live_fds = []
  parts_of (job ∷ jobs) live_fds = pool (job ∷ jobs) live_fds

  abbrev pub descended : Reading k.os → Option Walked
  descended r = finished (merge_all r.out (parts_of r.children r.live_fds))

  abbrev pub read_root : Ctx → Answer (Unit {0}) → Answer k.os.Fd → Option Walked
  read_root ctx (failed e) read = some (listing unreadable)
  read_root ctx (got base) (failed e) = some (listing unreadable)
  read_root ctx (got base) (got fd) =
      read_dir k.os ctx fd [] (fresh k.os ctx (new_out ctx.record_index) [] 0) >>= descended

  unfoldable pub walk_root_capped : Bytes → WalkOptions → ℕ → Option Walked
  walk_root_capped root opts cap =
      let bare = finished (emit [] (new_out opts.record_index)) in
      let walked = read_root (ctx_of opts cap) k.open_base k.open_read in
      if contains 0 root
      then some invalid_root
      else if not (root_is_walkable k)
      then some (listing no_listing)
      else if is_bare_root (file_name root)
      then bare
      else walked

  unfoldable pub walk_root : Bytes → WalkOptions → Option Walked
  walk_root root opts = walk_root_capped root opts fd_cap

  -- A subtree is a job with a path and no descriptor.
  abbrev seed : Bytes → Job k.os
  seed rel = record { fd = none; rel = rel }

  abbrev rewalked : WalkOptions → List Bytes → Answer (Unit {0}) → Option Walked
  rewalked opts rels (failed e) = some (listing unreadable)
  rewalked opts rels (got base) =
      finished (merge_all (new_out opts.record_index) (pool (map seed rels) 0))

  unfoldable pub walk_subtrees : Bytes → List Bytes → WalkOptions → Option Walked
  walk_subtrees root [] opts = some (listing no_listing)
  walk_subtrees root (rel ∷ rels) opts =
      let walked = rewalked opts (rel ∷ rels) k.open_base in
      if contains 0 root then some invalid_root else walked
