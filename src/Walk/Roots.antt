-- ===== src/Walk/Roots.antt =====
-- src/walk/mod.rs on a still tree: what `walk_root` lists, and what a seeded re-walk lists.
use scap.Base.{
  ◌∙◌, sym, inr, ℕ, ◌^◌, ◌<◌, ◌≡◌, refl, Bool, false, Option, some, List, [], ◌∷◌, length,
}
use scap.Base.Bytes.{Bytes, contains}
use scap.Walk.{RootListing}
use scap.Walk.Arena.{iter}
use scap.Walk.Entries.{directory}
use scap.Walk.Sys.{DetectStrategy, got, Mtime, Os, Ctx, Out, new_out}
use scap.Walk.Reader.{Job, Reading, read_dir}
use scap.Walk.Tree.{AllReadable, Nodes, os_of, found_dir}
use scap.Walk.Workers.{fresh, crew, Turns, none_yet, idle, merge_all}
use scap.Walk.Drive.{
  Kernel, WalkOptions, listing, ctx_of, is_unreadable, root_is_walkable, is_bare_root,
  walk_root_capped, from_out, parts_of,
}
use scap.Base.Sort.{sum, times}
use scap.Walk.Ledger.{IsScannable, IsSmall}
use scap.Walk.Exact.{merged-times}

-- The kernel of a still tree, whose root has this mode.
abbrev pub kernel_of : Nodes → Bool → (Nodes → Option Mtime) → ℕ → Kernel
kernel_of root typed fstat mode = record {
  os = os_of root typed fstat;
  stat_root = got (directory, mode);
  open_base = got tt;
  open_read = got root;
}

module _ (root : Nodes) (typed : Bool) (fstat : Nodes → Option Mtime) (mode : ℕ)
    (file_name : Bytes → Option Bytes) (path : Bytes) (opts : WalkOptions) (cap : ℕ) where
  abbrev disk : Os
  disk = os_of root typed fstat

  abbrev ctx : Ctx
  ctx = ctx_of opts cap

  parts-times :
      (pool : List (Job disk) → ℕ → List Out) (workers now : ℕ) {r : Reading disk}
      (children : List (Job disk))
      → r.children ≡ children
      → IsSmall root
      → IsScannable opts.detect root
      → sum length (found_dir opts.exclude [] root) < 2 ^ 32
      → read_dir disk ctx root [] (fresh disk ctx (new_out opts.record_index) [] 0) ≡ some r
      → Turns disk ctx
          (crew disk ctx (idle workers ctx) r.children r.live_fds)
          (crew disk ctx (pool children r.live_fds) [] now)
      → (whole : Out) × (merge_all r.out
            (parts_of (kernel_of root typed fstat mode) file_name pool children r.live_fds)
          ≡ some whole)
        × ((rel : Bytes)
            → times rel (iter whole.arena) ≡ times rel (found_dir opts.exclude [] root))
  unfolding idle
  parts-times pool workers now {r} [] same small able room e ts =
      merged-times root typed fstat ctx 0 0 {r = r} [] r.live_fds small able room e
        (rw same none_yet)
  parts-times pool workers now {r} (job ∷ jobs) same small able room e ts =
      merged-times root typed fstat ctx workers 0 {r = r} (pool (job ∷ jobs) r.live_fds) now small
        able room e ts

  -- A walk of a root that stands still, has a name that ends not in `.git`, and can be read, whose
  -- names are names, with fewer than 2^32 bytes of names in a directory and of paths to list, and of
  -- which every directory can be read unless the probing strategy is on: if the pool gives the outputs
  -- with which some order of turns of its workers empties the queue, the listing has each path
  -- exactly as often as the rules find it.
  pub walk_root_capped-times :
      (pool : List (Job disk) → ℕ → List Out) (workers now : ℕ) {r : Reading disk}
      → contains 0 path ≡ false
      → is_unreadable mode ≡ false
      → is_bare_root (file_name path) ≡ false
      → IsSmall root
      → IsScannable opts.detect root
      → sum length (found_dir opts.exclude [] root) < 2 ^ 32
      → read_dir disk ctx root [] (fresh disk ctx (new_out opts.record_index) [] 0) ≡ some r
      → Turns disk ctx
          (crew disk ctx (idle workers ctx) r.children r.live_fds)
          (crew disk ctx (pool r.children r.live_fds) [] now)
      → (l : RootListing) × (walk_root_capped
            (kernel_of root typed fstat mode)
            file_name
            pool
            path
            opts
            cap
          ≡ some (listing l))
        × ((rel : Bytes) → times rel (iter l.arena) ≡ times rel (found_dir opts.exclude [] root))
  unfolding walk_root_capped root_is_walkable from_out
  walk_root_capped-times pool workers now {r} clean readable plain small able room e ts =
      let (whole, f, same) =
        parts-times pool workers now {r = r} r.children refl small able room e ts in
      (from_out whole, rw (clean, readable, plain, e, f) refl, same)

abbrev pub options_of : List (Bytes → Bool) → DetectStrategy → ℕ → Bool → WalkOptions
options_of exclude detect threads record_index = record {
  threads = threads;
  exclude = exclude;
  detect = detect;
  record_index = record_index;
}

-- The root has been read, and some order of turns has emptied the queue with the outputs of the pool.
abbrev pub HasWalked :
    (root : Nodes) (typed : Bool) (fstat : Nodes → Option Mtime) (opts : WalkOptions) (cap : ℕ)
    → (List (Job (os_of root typed fstat)) → ℕ → List Out)
    → ℕ
    → ℕ
    → Reading (os_of root typed fstat)
    → Type 0
HasWalked root typed fstat opts cap pool workers now r =
    let disk = os_of root typed fstat in
    let ctx = ctx_of opts cap in
    (read_dir disk ctx root [] (fresh disk ctx (new_out opts.record_index) [] 0) ≡ some r)
    × Turns disk ctx (crew disk ctx (idle workers ctx) r.children r.live_fds)
        (crew disk ctx (pool r.children r.live_fds) [] now)

-- Two walks of one still, readable tree with the same exclude patterns, under the hypotheses of
-- `walk_root_capped-times`, list each path equally often, whichever strategies, thread counts,
-- descriptor caps and orders of turns the two have.
pub walk_root_capped-detect :
    (root : Nodes) (typed : Bool) (fstat : Nodes → Option Mtime) (mode : ℕ)
    (file_name : Bytes → Option Bytes) (path : Bytes) (exclude : List (Bytes → Bool))
    (detect detect' : DetectStrategy) (threads threads' cap cap' : ℕ) (record_index : Bool)
    (pool pool' : List (Job (os_of root typed fstat)) → ℕ → List Out)
    (workers workers' now now' : ℕ) {r r' : Reading (os_of root typed fstat)}
    → contains 0 path ≡ false
    → is_unreadable mode ≡ false
    → is_bare_root (file_name path) ≡ false
    → IsSmall root
    → AllReadable root
    → sum length (found_dir exclude [] root) < 2 ^ 32
    → HasWalked root typed fstat
        (options_of exclude detect threads record_index)
        cap
        pool
        workers
        now
        r
    → HasWalked root typed fstat
        (options_of exclude detect' threads' record_index)
        cap'
        pool'
        workers'
        now'
        r'
    → (l : RootListing) × (l' : RootListing) × (walk_root_capped
          (kernel_of root typed fstat mode)
          file_name
          pool
          path
          (options_of exclude detect threads record_index)
          cap
        ≡ some (listing l))
      × (walk_root_capped
            (kernel_of root typed fstat mode)
            file_name
            pool'
            path
            (options_of exclude detect' threads' record_index)
            cap'
          ≡ some (listing l'))
      × ((rel : Bytes) → times rel (iter l.arena) ≡ times rel (iter l'.arena))
walk_root_capped-detect root typed fstat mode file_name path exclude detect detect' threads threads'
      cap cap' record_index pool pool' workers workers' now now' {r} {r'} clean readable plain small
      able room walked walked' =
    let (l, e, same) =
      walk_root_capped-times root typed fstat mode file_name path
        (options_of exclude detect threads record_index) cap pool workers now {r = r} clean readable
        plain small (inr able) room walked.0 walked.1 in
    let (l', e', same') =
      walk_root_capped-times root typed fstat mode file_name path
        (options_of exclude detect' threads' record_index) cap' pool' workers' now' {r = r'} clean
        readable plain small (inr able) room walked'.0 walked'.1 in
    (l, l', e, e', λ rel. same rel ∙ sym (same' rel))
