-- ===== src/Witness/Stored.antt =====
-- A walk that keeps records: the root, and the repository `a` that a worker reads.
use scap.Base.{ℕ, ◌≡◌, refl, true, false, Option, some, List, [], ◌∷◌}
use scap.Base.Bytes.{Bytes, codes}
use scap.Base.Int.{pos}
use scap.Walk
use scap.Walk.{Record, RootListing}
use scap.Walk.Arena.{Handle, push, merge, offset, shift_all, iter}
use scap.Walk.Drive.{
  Kernel, WalkOptions, ctx_of, is_unreadable, walk_root_capped, listing, from_out, root_is_walkable,
}
use scap.Walk.Entries
use scap.Walk.Entries.{entries, entries_from, push_all}
use scap.Walk.Reader.{
  Job, Reading, read_dir, read_whole, read_entries, read_entry, read_child_dir, queue_child, opened,
  run,
}
use scap.Walk.Recorded.Walks.{walk_root_capped-listed}
use scap.Walk.Records.{listed}
use scap.Walk.Roots.{kernel_of}
use scap.Walk.Sys.{
  mtime_ns, widen, Mtime, Ctx, Out, open_scan, emit, new_out, merge_out, is_repo_dir, is_excluded,
  join_rel, cstr,
}
use scap.Walk.Tree.{Nodes, dir, nil, entry}
use scap.Walk.Workers.{Turns, none_yet, then_one, read_job, crew, idle, fresh, merge_all}

abbrev repo_node : Nodes
repo_node = entry (codes ".git") (dir true nil) nil

abbrev pub stored_tree : Nodes
stored_tree = entry (codes "a") (dir true repo_node) nil

abbrev at_three : Nodes → Option Mtime
at_three ns = some (record { st_mtime = pos 0; st_mtime_nsec = pos 3 })

abbrev pub kernel : Kernel
kernel = kernel_of stored_tree true at_three 493

abbrev pub recording : WalkOptions
recording = record { threads = 2; exclude = []; detect = open_scan; record_index = true }

abbrev ctx : Ctx
ctx = ctx_of recording 4096

abbrev out_of : Bytes → List Handle → List Record → Out
out_of bytes repos records = record {
  arena = record { bytes = bytes; repos = repos };
  dirs_read = 1;
  excluded = 0;
  records = records;
  incomplete = false;
  record_index = true;
}

abbrev pub stored_root : Reading kernel.os
stored_root = record {
  out = out_of [] [] (Walk.dir [] (pos 3) ∷ []);
  children = record { fd = some repo_node; rel = codes "a" } ∷ [];
  live_fds = 1;
}

abbrev part : Out
part = out_of (codes "a") (record { start = 0; end = 1 } ∷ []) (Walk.repo (codes "a") ∷ [])

abbrev pub one_repo : List (Job kernel.os) → ℕ → List Out
one_repo jobs live_fds = part ∷ []

abbrev pub stored_listing : RootListing
stored_listing = record {
  arena = record { bytes = codes "a"; repos = record { start = 0; end = 1 } ∷ [] };
  dirs_read = 2;
  excluded = 0;
  records = Walk.dir [] (pos 3) ∷ Walk.repo (codes "a") ∷ [];
  incomplete = false;
}

pub reads_stored :
    read_dir kernel.os ctx stored_tree [] (fresh kernel.os ctx (new_out true) [] 0)
    ≡ some stored_root
unfolding read_dir read_whole read_entries read_entry read_child_dir queue_child opened emit push
    offset push_all Entries.push entries entries_from is_repo_dir is_excluded join_rel cstr new_out
    mtime_ns widen
reads_stored = refl

abbrev a_read : Reading kernel.os
a_read = record { out = part; children = []; live_fds = 0 }

reads_a :
    run kernel.os ctx
      (record { fd = some repo_node; rel = codes "a" })
      (fresh kernel.os ctx (new_out true) [] 1)
    ≡ some a_read
unfolding run read_dir read_whole read_entries read_entry read_child_dir queue_child opened emit
    push offset push_all Entries.push entries entries_from is_repo_dir is_excluded join_rel cstr
    new_out mtime_ns widen
reads_a = refl

pub stored_turn :
    Turns kernel.os ctx
      (crew kernel.os ctx (idle 1 ctx) stored_root.children 1)
      (crew kernel.os ctx (part ∷ []) [] 0)
unfolding idle
stored_turn = then_one none_yet (
    read_job [] [] (new_out true) [] [] (record { fd = some repo_node; rel = codes "a" }) 1 a_read
      reads_a)

pub walks_stored :
    walk_root_capped kernel (λ p. some p) one_repo (codes "/r") recording 4096
    ≡ some (listing stored_listing)
unfolding walk_root_capped root_is_walkable is_unreadable from_out merge_all merge_out merge
    shift_all offset read_dir read_whole read_entries read_entry read_child_dir queue_child opened
    emit push push_all Entries.push entries entries_from is_repo_dir is_excluded join_rel cstr
    new_out mtime_ns widen
walks_stored = refl

walk_root_capped-listed_example : iter stored_listing.arena ≡ listed stored_listing.records
walk_root_capped-listed_example =
    walk_root_capped-listed kernel (λ p. some p) recording 4096 one_repo (codes "/r") stored_tree 1
      0 {r = stored_root} {l = stored_listing} refl refl reads_stored stored_turn walks_stored
