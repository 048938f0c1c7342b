-- ===== src/Witness/Walking.antt =====
-- A walk of a small tree: two repositories, one of them below a plain directory.
use scap.Base.{
  ◌+◌, ◌-◌, ℕ, ◌≤◌, inl, ◌<◌, ◌^◌, ◌≡◌, refl, true, false, Option, none, some, List, [], ◌∷◌, ◌++◌,
  arith, length,
}
use scap.Base.Bytes.{Bytes, codes}
use scap.Base.Int.{pos, negsuc}
use scap.Walk.Times.{stat_of, mtime_ns-never_valid}
use scap.Base.Sort.{sum, times}
use scap.Walk.Arena.{Handle, push, offset, iter}
use scap.Walk.Entries
use scap.Walk.Entries.{entries, entries_from, push_all}
use scap.Walk.Sys.{
  mtime_ns, never_valid, Mtime, Os, Ctx, Out, stat_first, emit, new_out, is_repo_dir, is_excluded,
  join_rel, cstr,
}
use scap.Walk.Reader.{
  Job, Reading, read_dir, read_whole, read_entries, read_entry, read_child_dir, queue_child, opened,
  run,
}
use scap.Walk.Ends.{taken-dirs_in}
use scap.Walk.Tree.{dirs_in, Nodes, dir, nil, entry, os_of, found_dir, found_in, AllNamed}
use scap.Walk.Workers.{taken, Turns, none_yet, then_one, read_job, crew, idle, fresh}
use scap.Walk.Drive.{WalkOptions, ctx_of, is_unreadable, walk_root_capped, listing}
use scap.Walk.Ledger.{IsSmall}
use scap.Walk.Roots.{kernel_of, walk_root_capped-times}
use scap.Walk.Exact.{Turns-run}
use scap.Walk.Live.{live_fds-soft}
use scap.Walk.Parking.{
  Parking, start, Steps, at_first, then_next, load_below, open_child, fetch_add,
}
use scap.Walk.{RootListing}

abbrev pub no_fstat : Nodes → Option Mtime
no_fstat ns = none

abbrev pub repo_node : Nodes
repo_node = entry (codes ".git") (dir true nil) nil

abbrev pub plain_node : Nodes
plain_node = entry (codes "c") (dir true repo_node) nil

abbrev pub tree : Nodes
tree = entry (codes "a") (dir true repo_node) (entry (codes "b") (dir true plain_node) nil)

abbrev pub options : WalkOptions
options = record { threads = 2; exclude = []; detect = stat_first; record_index = false }

abbrev pub disk : Os
disk = os_of tree true no_fstat

abbrev ctx : Ctx
ctx = ctx_of options 4096

abbrev pub out_of : Bytes → List Handle → ℕ → Out
out_of bytes repos dirs_read = record {
  arena = record { bytes = bytes; repos = repos };
  dirs_read = dirs_read;
  excluded = 0;
  records = [];
  incomplete = false;
  record_index = false;
}

-- The root has been read: `a` is listed and `b` is queued with its descriptor.
abbrev pub root_read : Reading disk
root_read = record {
  out = out_of (codes "a") (record { start = 0; end = 1 } ∷ []) 1;
  children = record { fd = some plain_node; rel = codes "b" } ∷ [];
  live_fds = 1;
}

-- One worker has read `b`.
abbrev part : Out
part = out_of (codes "b/c") (record { start = 0; end = 3 } ∷ []) 1

abbrev pub one_part : List (Job disk) → ℕ → List Out
one_part jobs live_fds = part ∷ []

pub reads_root : read_dir disk ctx tree [] (fresh disk ctx (new_out false) [] 0) ≡ some root_read
unfolding read_dir read_whole read_entries read_entry read_child_dir queue_child opened emit push
    offset push_all Entries.push entries entries_from is_repo_dir is_excluded join_rel cstr new_out
reads_root = refl

abbrev b_read : Reading disk
b_read = record { out = part; children = []; live_fds = 0 }

reads_b :
    run disk ctx
      (record { fd = some plain_node; rel = codes "b" })
      (fresh disk ctx (new_out false) [] 1)
    ≡ some b_read
unfolding run read_dir read_whole read_entries read_entry read_child_dir queue_child opened emit
    push offset push_all Entries.push entries entries_from is_repo_dir is_excluded join_rel cstr
    new_out
reads_b = refl

pub one_turn :
    Turns disk ctx
      (crew disk ctx (idle 1 ctx) root_read.children 1)
      (crew disk ctx (part ∷ []) [] 0)
unfolding idle
one_turn = then_one none_yet (
    read_job [] [] (new_out false) [] [] (record { fd = some plain_node; rel = codes "b" }) 1 b_read
      reads_b)

repo_IsSmall : IsSmall repo_node
unfolding AllNamed
repo_IsSmall = (((refl, refl, refl, refl), refl, (tt, omega arith), tt), omega arith)

pub tree_IsSmall : IsSmall tree
unfolding AllNamed
tree_IsSmall = (
  (
    (refl, refl, refl, refl),
    refl,
    repo_IsSmall,
    (
      (refl, refl, refl, refl),
      refl,
      (((refl, refl, refl, refl), refl, repo_IsSmall, tt), omega arith),
      tt,
    ),
  ),
  omega arith,
)

pub tree_room : sum length (found_dir [] [] tree) < 2 ^ 32
unfolding found_dir found_in is_excluded join_rel
tree_room = omega arith

walk_root_capped-times_example :
    (l : RootListing) × (walk_root_capped
        (kernel_of tree true no_fstat 493)
        (λ p. some p)
        one_part
        (codes "/r")
        options
        4096
      ≡ some (listing l))
    × ((rel : Bytes) → times rel (iter l.arena) ≡ times rel (found_dir [] [] tree))
unfolding is_unreadable
walk_root_capped-times_example =
    walk_root_capped-times tree true no_fstat 493 (λ p. some p) (codes "/r") options 4096 one_part 1
      0 {r = root_read} refl refl refl tree_IsSmall (inl refl) tree_room reads_root one_turn

no_turn : Turns disk ctx (crew disk ctx (idle 1 ctx) root_read.children 1) (
    crew disk ctx
      ([] ++ (new_out false ∷ []))
      ([] ++ (record { fd = some plain_node; rel = codes "b" } ∷ []))
      1)
unfolding idle
no_turn = none_yet

Turns-run_example :
    (r' : Reading disk) × (run disk ctx
        (record { fd = some plain_node; rel = codes "b" })
        (fresh disk ctx (new_out false) [] 1)
      ≡ some r')
Turns-run_example =
    Turns-run tree true no_fstat ctx 1 0 {r = root_read} [] [] (new_out false) [] []
      (record { fd = some plain_node; rel = codes "b" }) 1 tree_IsSmall (inl refl) tree_room
      reads_root no_turn

-- Two workers that both find the count below a cap of two, behind the one that the root has queued.
abbrev tight : Ctx
tight = ctx_of options 2

reads_tight : read_dir disk tight tree [] (fresh disk tight (new_out false) [] 0) ≡ some root_read
unfolding read_dir read_whole read_entries read_entry read_child_dir queue_child opened emit push
    offset push_all Entries.push entries entries_from is_repo_dir is_excluded join_rel cstr new_out
reads_tight = refl

abbrev standing : ℕ → ℕ → ℕ → ℕ → ℕ → Parking
standing live_fds free cleared opened added = record {
  live_fds = live_fds;
  queued = 1;
  free = free;
  cleared = cleared;
  opened = opened;
  added = added;
  taken = 0;
}

abbrev both_added : Parking
both_added = standing 3 0 0 0 2

both_add : Steps 2 (start 2 1 1) both_added
unfolding start
both_add =
    let one = then_next at_first (load_below (standing 1 2 0 0 0) 1 (omega arith)) in
    let two = then_next one (load_below (standing 1 1 1 0 0) 0 (omega arith)) in
    let three = then_next two (open_child (standing 1 0 2 0 0) 1) in
    let four = then_next three (open_child (standing 1 0 1 1 0) 0) in
    let five = then_next four (fetch_add (standing 1 0 0 2 0) 1) in
    then_next five (fetch_add (standing 2 0 0 1 1) 0)

live_fds-soft_example : (3 ≡ (1 + 2) + 0) × (3 + 0 ≤ 2 + (2 - 1))
live_fds-soft_example =
    live_fds-soft disk tight tree [] (new_out false) 2 {r = root_read} {p = both_added} reads_tight
      (omega arith) both_add

push_all-kept_example :
    (buf : Entries.EntryBuf) × (push_all Entries.no_entries
        ((codes ".", Entries.directory) ∷ (codes "a", Entries.regular) ∷ [])
      ≡ some buf)
    × (entries buf
        ≡ some (Entries.kept ((codes ".", Entries.directory) ∷ (codes "a", Entries.regular) ∷ [])))
push_all-kept_example =
    Entries.push_all-kept ((codes ".", Entries.directory) ∷ (codes "a", Entries.regular) ∷ [])
      (omega arith)

taken-dirs_in_example : taken disk ctx one_turn + 0 ≤ dirs_in tree
taken-dirs_in_example =
    taken-dirs_in tree true no_fstat ctx 1 0 {r = root_read} {c = crew disk ctx (part ∷ []) [] 0}
      tree_IsSmall (inl refl) tree_room reads_root one_turn

mtime_ns-never_valid_example : mtime_ns (stat_of (negsuc 9999999999) (pos 0)) ≡ never_valid
mtime_ns-never_valid_example = mtime_ns-never_valid 9999999999 (omega arith) (omega arith)
