-- ===== src/Index/Validate.antt =====
-- The validation pass: which entries of an index still hold, and which have to be walked again.
pub mod Sums
pub mod Weight
pub mod Ends
pub mod Unchanged
use scap.Base.{
  ℕ, zero, suc, ◌+◌, ◌-◌, ◌^◌, Bool, true, false, ◌||◌, Option, none, some, List, [], ◌∷◌, ◌++◌,
  if◌then◌else◌, ltb, leb, is_empty, length, get_elem?,
}
use scap.Base.Int.{ℤ, pos, negsuc, int_eq}
use scap.Base.Bytes.{Bytes, codes, contains, ends_with, rsplit_once}
use scap.Index.{Mode, off, on, check, Entry, Index, Probe, is_repo}
use scap.Index.Tree.Claims.{after}
use scap.Walk.{Record}
use scap.Walk

-- `--cache-check` before `--no-cache` before `--cache` and the configured default.
unfoldable pub mode : Bool → Bool → Bool → Bool → Mode
mode cache no_cache cache_check configured =
    if cache_check then check else if no_cache then off else if cache || configured then on else off

abbrev pub racy_window_ns : ℕ
racy_window_ns = 2000000000

-- `i64::saturating_sub` of the window.
unfoldable pub before_window : ℤ → ℤ
before_window (pos n) =
    if ltb n racy_window_ns then negsuc (racy_window_ns - n - 1) else pos (n - racy_window_ns)
before_window (negsuc n) =
    if leb (n + racy_window_ns) (2 ^ 63 - 1)
    then negsuc (n + racy_window_ns)
    else negsuc (2 ^ 63 - 1)

-- `a > b` on `i64`.
abbrev pub is_after : ℤ → ℤ → Bool
is_after (pos a) (pos b) = ltb b a
is_after (pos a) (negsuc b) = true
is_after (negsuc a) (pos b) = false
is_after (negsuc a) (negsuc b) = ltb a b

unfoldable pub is_racy : ℤ → ℤ → Bool
is_racy observed_ns written_ns = is_after observed_ns (before_window written_ns)

pub record Outcome : Type 0 where
  pub fresh : List Record
  pub stale : List Bytes
  pub hits : ℕ
  pub racy : ℕ

abbrev no_outcome : Outcome
no_outcome = record { fresh = []; stale = []; hits = 0; racy = 0 }

-- What the probe and the recorded mtime say of an entry.
pub data Verdict : Type 0 where
  holds_repo : Verdict
  holds_dir : ℤ → Verdict
  too_young is_stale : Verdict

unfoldable pub verdict : ℤ → Probe → Option ℤ → Verdict
verdict written_ns Probe.repo recorded = holds_repo
verdict written_ns (Probe.dir observed) (some recorded) =
    if int_eq observed recorded
    then if is_racy observed written_ns then too_young else holds_dir observed
    else is_stale
verdict written_ns (Probe.dir observed) none = is_stale
verdict written_ns Probe.stale recorded = is_stale

-- The stack and the outcome behind one entry; only a directory that holds has its children tried.
unfoldable pub settle : Entry → Verdict → List ℕ → Outcome → List ℕ × Outcome
settle entry holds_repo stack out =
    (stack, record out { hits = suc out.hits; fresh = out.fresh ++ (Walk.repo entry.rel ∷ []) })
settle entry (holds_dir observed) stack out = (
  after stack entry.children,
  record out { hits = suc out.hits; fresh = out.fresh ++ (Walk.dir entry.rel observed ∷ []) },
)
settle entry too_young stack out =
    (stack, record out { racy = suc out.racy; stale = out.stale ++ (entry.rel ∷ []) })
settle entry is_stale stack out = (stack, record out { stale = out.stale ++ (entry.rel ∷ []) })

-- The entry and the probe at an index; `none` is the panic out of range.
abbrev pub looked_up : Index → List Probe → ℕ → Option (Entry × Probe)
looked_up index probes i = elim (get_elem? index.entries i) [
  | none ↦ none
  | some e ↦ elim (get_elem? probes i) [ none ↦ none | some p ↦ some (e, p) ]
]

-- `while let Some(i) = stack.pop()`, the top of the stack first.
unfoldable pub walk_from : ℕ → Index → List Probe → List ℕ → Outcome → Option Outcome
walk_from fuel index probes [] out = some out
walk_from zero index probes (i ∷ stack) out = none
walk_from (suc fuel) index probes (i ∷ stack) out = elim (looked_up index probes i) [
  | none ↦ none
  | some (e, p) ↦
      let next = settle e (verdict index.written_ns p e.mtime_ns) stack out in
      walk_from fuel index probes next.0 next.1
]

-- One turn for each entry.
unfoldable pub walk_index : Index → List Probe → Option Outcome
walk_index index probes = walk_from (length index.entries) index probes (0 ∷ []) no_outcome

abbrev pub basename : Bytes → Bytes
basename rel = elim (rsplit_once b'/' rel) [ none ↦ rel | some p ↦ p.1 ]

abbrev pub parent_of : Bytes → Bytes
parent_of rel = elim (rsplit_once b'/' rel) [ none ↦ [] | some p ↦ p.0 ]

-- The parts in one C string: `none` for an inner NUL.
unfoldable pub cstr : Bytes → Option Bytes
cstr bytes = if contains 0 bytes then none else some bytes

-- What `statat` answers below the open root: whether a path is there, links followed, and the mtime
-- of a path that is itself a directory.
pub record Stats : Type 0 where
  pub is_there : Bytes → Bool
  pub dir_mtime : Bytes → Option ℤ

abbrev repo_probe : Bool → Probe
repo_probe there = if there then Probe.repo else Probe.stale

abbrev dir_probe : Option ℤ → Probe
dir_probe none = Probe.stale
dir_probe (some mtime) = Probe.dir mtime

unfoldable pub probe : Stats → Entry → Bytes → Probe
probe stats entry root_name =
    if is_repo entry
    then if ends_with (codes ".git") (if is_empty entry.rel then root_name else basename entry.rel)
      then Probe.repo
      else elim (cstr (if is_empty entry.rel then codes ".git" else entry.rel ++ codes "/.git")) [
        | none ↦ Probe.stale
        | some path ↦ repo_probe (stats.is_there path)
      ]
    else elim (cstr (if is_empty entry.rel then codes "." else entry.rel)) [
      | none ↦ Probe.stale
      | some path ↦ dir_probe (stats.dir_mtime path)
    ]

-- Every entry has its own slot, so that the split over threads does not show.
unfoldable pub probe_all : Stats → List Entry → Bytes → List Probe
probe_all stats [] root_name = []
probe_all stats (e ∷ es) root_name = probe stats e root_name ∷ probe_all stats es root_name
