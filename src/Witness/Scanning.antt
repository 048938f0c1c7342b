-- ===== src/Witness/Scanning.antt =====
-- The walk of the small tree by the strategy that opens every directory.
use scap.Base.{ℕ, ◌≡◌, refl, true, false, some, List, [], ◌∷◌}
use scap.Base.Bytes.{Bytes, codes}
use scap.Base.Sort.{times}
use scap.Walk.Arena.{push, offset, iter}
use scap.Walk.Entries
use scap.Walk.Entries.{entries, entries_from, push_all}
use scap.Walk.Sys.{
  Ctx, Out, stat_first, open_scan, emit, new_out, is_repo_dir, is_excluded, join_rel, cstr,
}
use scap.Walk.Reader.{
  Job, Reading, read_dir, read_whole, read_entries, read_entry, read_child_dir, queue_child, opened,
  run,
}
use scap.Walk.Tree.{AllReadable}
use scap.Walk.Workers.{Turns, none_yet, then_one, read_job, crew, idle, fresh}
use scap.Walk.Drive.{WalkOptions, ctx_of, is_unreadable, walk_root_capped, listing}
use scap.Walk.Roots.{kernel_of, walk_root_capped-detect}
use scap.Walk.{RootListing}
use scap.Witness.Walking.{
  no_fstat, repo_node, plain_node, tree, options, disk, out_of, root_read, one_part, reads_root,
  one_turn, tree_IsSmall, tree_room,
}

-- The same walk by the other strategy: `a` and `b` are both queued.
abbrev open_options : WalkOptions
open_options = record options { detect = open_scan }

abbrev open_ctx : Ctx
open_ctx = ctx_of open_options 4096

abbrev root_scanned : Reading disk
root_scanned = record {
  out = out_of [] [] 1;
  children =
      record { fd = some repo_node; rel = codes "a" }
      ∷ record { fd = some plain_node; rel = codes "b" }
      ∷ [];
  live_fds = 2;
}

scans_root :
    read_dir disk open_ctx tree [] (fresh disk open_ctx (new_out false) [] 0) ≡ some root_scanned
unfolding read_dir read_whole read_entries read_entry read_child_dir queue_child opened emit push
    offset push_all Entries.push entries entries_from is_repo_dir is_excluded join_rel cstr new_out
scans_root = refl

abbrev a_scanned : Out
a_scanned = out_of (codes "a") (record { start = 0; end = 1 } ∷ []) 1

abbrev b_scanned : Out
b_scanned = out_of (codes "a") (record { start = 0; end = 1 } ∷ []) 2

abbrev c_scanned : Out
c_scanned =
    out_of (codes "ab/c") (record { start = 0; end = 1 } ∷ record { start = 1; end = 4 } ∷ []) 3

abbrev a_job : Job disk
a_job = record { fd = some repo_node; rel = codes "a" }

abbrev b_job : Job disk
b_job = record { fd = some plain_node; rel = codes "b" }

abbrev c_job : Job disk
c_job = record { fd = some repo_node; rel = codes "b/c" }

scans_a :
    run disk open_ctx a_job (fresh disk open_ctx (new_out false) [] 2)
    ≡ some (fresh disk open_ctx a_scanned [] 1)
unfolding run read_dir read_whole read_entries read_entry read_child_dir queue_child opened emit
    push offset push_all Entries.push entries entries_from is_repo_dir is_excluded join_rel cstr
    new_out
scans_a = refl

scans_b :
    run disk open_ctx b_job (fresh disk open_ctx a_scanned [] 1)
    ≡ some (fresh disk open_ctx b_scanned (c_job ∷ []) 1)
unfolding run read_dir read_whole read_entries read_entry read_child_dir queue_child opened emit
    push offset push_all Entries.push entries entries_from is_repo_dir is_excluded join_rel cstr
    new_out
scans_b = refl

scans_c :
    run disk open_ctx c_job (fresh disk open_ctx b_scanned [] 1)
    ≡ some (fresh disk open_ctx c_scanned [] 0)
unfolding run read_dir read_whole read_entries read_entry read_child_dir queue_child opened emit
    push offset push_all Entries.push entries entries_from is_repo_dir is_excluded join_rel cstr
    new_out
scans_c = refl

three_turns :
    Turns disk open_ctx
      (crew disk open_ctx (idle 1 open_ctx) root_scanned.children 2)
      (crew disk open_ctx (c_scanned ∷ []) [] 0)
unfolding idle
three_turns =
    then_one
      (then_one
        (then_one none_yet (
          read_job [] [] (new_out false) [] (b_job ∷ []) a_job 2
            (fresh disk open_ctx a_scanned [] 1) scans_a))
        (read_job [] [] a_scanned [] [] b_job 1 (fresh disk open_ctx b_scanned (c_job ∷ []) 1)
          scans_b))
      (read_job [] [] b_scanned [] [] c_job 1 (fresh disk open_ctx c_scanned [] 0) scans_c)

abbrev scanned_part : List (Job disk) → ℕ → List Out
scanned_part jobs live_fds = c_scanned ∷ []

tree_AllReadable : AllReadable tree
unfolding AllReadable
tree_AllReadable = ((refl, ((refl, tt), tt)), ((refl, ((refl, ((refl, tt), tt)), tt)), tt))

walk_root_capped-detect_example :
    (l : RootListing) × (l' : RootListing) × (walk_root_capped
        (kernel_of tree true no_fstat 493)
        (λ p. some p)
        one_part
        (codes "/r")
        options
        4096
      ≡ some (listing l))
    × (walk_root_capped
          (kernel_of tree true no_fstat 493)
          (λ p. some p)
          scanned_part
          (codes "/r")
          open_options
          4096
        ≡ some (listing l'))
    × ((rel : Bytes) → times rel (iter l.arena) ≡ times rel (iter l'.arena))
unfolding is_unreadable
walk_root_capped-detect_example =
    walk_root_capped-detect tree true no_fstat 493 (λ p. some p) (codes "/r") [] stat_first
      open_scan 2 2 4096 4096 false one_part scanned_part 1 1 0 0 {r = root_read}
      {r' = root_scanned} refl refl refl tree_IsSmall tree_AllReadable tree_room
      (reads_root, one_turn) (scans_root, three_turns)
