-- ===== src/Index/Cache/Walked.antt =====
-- A listing that comes from the index against the walk from which the index was stored.
use scap.Base.{ℕ, ◌<◌, ◌^◌, ◌≡◌, sym, ap, ◌∙◌, true, Option, some, List, [], length}
use scap.Base.Bytes.{Bytes}
use scap.Base.Sort.{times}
use scap.Index.{Index}
use scap.Index.Build.Kept.{AreDistinct}
use scap.Index.Cache.{Root, ok, cached_listing}
use scap.Index.Cache.Unchanged.{Revisit, listed_bytes, cached_listing-Revisit}
use scap.Index.Codec.{encode}
use scap.Index.Layout.{Fits}
use scap.Index.Validate.Unchanged.{total}
use scap.Walk.{RootListing}
use scap.Walk.Arena.{iter}
use scap.Walk.Drive.{Kernel, WalkOptions, listing, walk_root_capped, ctx_of}
use scap.Walk.Reader.{Job, Reading, read_dir}
use scap.Walk.Recorded.Walks.{walk_root_capped-listed}
use scap.Walk.Sys.{Ctx, got, Out, new_out}
use scap.Walk.Workers.{fresh, crew, Turns, idle}

module _ (k : Kernel) (file_name : Bytes → Option Bytes) (opts : WalkOptions) (cap : ℕ)
    (pool : List (Job k.os) → ℕ → List Out) where
  abbrev ctx : Ctx
  ctx = ctx_of opts cap

  -- If a walk that keeps records has been stored, and a later run finds the root and every entry of the
  -- index as they are recorded there, each directory with a time of at least two seconds before the
  -- write, the index answers with each path as often as the walk listed it. The pool gives the outputs
  -- of its workers after turns in any order, the records have different paths, the index is one that
  -- the format can hold, and the listed paths come to fewer than 2^32 bytes.
  pub cached_listing-walked :
      (path : Bytes) (fd : k.os.Fd) (workers left : ℕ) {r : Reading k.os} {l : RootListing}
      (before now : Root) (index : Index)
      → opts.record_index ≡ true
      → k.open_read ≡ got fd
      → read_dir k.os ctx fd [] (fresh k.os ctx (new_out opts.record_index) [] 0) ≡ some r
      → Turns k.os ctx
          (crew k.os ctx (idle workers ctx) r.children r.live_fds)
          (crew k.os ctx (pool r.children r.live_fds) [] left)
      → walk_root_capped k file_name pool path opts cap ≡ some (listing l)
      → Revisit before now l.records index
      → Fits index
      → length (encode index) < 2 ^ 64
      → AreDistinct l.records
      → total listed_bytes l.records < 2 ^ 32
      → (l' : RootListing) × (cached_listing now ≡ ok (some l'))
        × ((p : Bytes) → times p (iter l'.arena) ≡ times p (iter l.arena))
  cached_listing-walked path fd workers left {r} {l} before now index on opened read ts walked v
        fits small distinct room =
      let (l', answered, same) =
        cached_listing-Revisit before now l.records index v fits small distinct room in
      let paths =
        walk_root_capped-listed k file_name opts cap pool path fd workers left {r = r} {l = l} on
          opened read ts walked in
      (l', answered, λ p. same p ∙ ap (times p) (sym paths))
