-- ===== src/Index/Cache/Unchanged.antt =====
-- The way of a listing through the index file and back, on a root where nothing has changed since.
use scap.Base.{
  ℕ, ◌+◌, ◌<◌, ◌^◌, true, some, List, [], ◌∷◌, ◌≡◌, refl, sym, ap, ◌∙◌, inl, inr, Bool-cases,
  length, length-append, if◌then◌else◌, arith, append-nil, ==_refl,
}
use scap.Base.Bytes.{Bytes, bytes_eq, bytes_eq_refl}
use scap.Base.Int.{ℤ}
use scap.Base.Sort.{times}
use scap.Index.{Index}
use scap.Index.Build.{Stat, ident, build, sorted}
use scap.Index.Build.Contents.{Contents, build-Contents}
use scap.Index.Build.Kept.{AreDistinct, total-sorted}
use scap.Index.Build.Linked.{build-IsTree}
use scap.Index.Cache.{
  Root, ok, load, store, describes, patterns_eq, rejoin, from_index, cached_listing,
  cached_listing-eq_from_index,
}
use scap.Index.Codec.{encode}
use scap.Index.Layout.{Fits}
use scap.Index.RoundTrip.{decode-encode}
use scap.Index.Validate.{Outcome, walk_index, probe_all}
use scap.Index.Validate.Unchanged.{AllHold, total, walk_index-AllHold}
use scap.Walk.{Record, RootListing, is_repo, shown, push_repos, from_records}
use scap.Walk.Arena.{Arena as PathArena, no_paths, iter, pushed, push-some}
use scap.Walk.Records.{listed, from_records-iter}

-- The bytes that a record takes in a listing, and whether it is listed as a path.
abbrev pub listed_bytes : Record → ℕ
listed_bytes r = if is_repo r then length (shown r) else 0

abbrev is_listed_as : Bytes → Record → ℕ
is_listed_as path r =
    let one = if bytes_eq (shown r) path then 1 else 0 in if is_repo r then one else 0

times-listed :
    (path : Bytes) (rs : List Record) → times path (listed rs) ≡ total (is_listed_as path) rs
unfolding listed
times-listed path [] = refl
times-listed path (r ∷ rs) = elim (Bool-cases (is_repo r)) [
  | inl e ↦ rw (listed, e) (omega (arith, times-listed path rs))
  | inr e ↦ rw (listed, e) (omega (arith, times-listed path rs))
]

push_repos-some :
    (arena : PathArena) (rs : List Record)
    → length arena.bytes + total listed_bytes rs < 2 ^ 32
    → (grown : PathArena) × (push_repos arena rs ≡ some grown)
unfolding push_repos
push_repos-some arena [] room = (arena, refl)
push_repos-some arena (r ∷ rs) room = elim (Bool-cases (is_repo r)) [
  | inl e ↦
      let space : length arena.bytes + (length (shown r) + total listed_bytes rs) < 2 ^ 32 =
        rw e at room in
      let fits = push-some arena (shown r) (omega (arith, space)) in
      rw (e, fits)
        (push_repos-some (pushed arena (shown r)) rs
          (omega (arith, space, length-append arena.bytes (shown r))))
  | inr e ↦ rw e (push_repos-some arena rs (omega (arith, rw e at room)))
]

patterns_eq_refl : (ps : List Bytes) → patterns_eq ps ps ≡ true
patterns_eq_refl [] = refl
patterns_eq_refl (p ∷ ps) = ground (arith, bytes_eq_refl p, patterns_eq_refl ps)

Contents-describes :
    (root : Bytes) (exclude : List Bytes) (now : ℤ) (stat : Stat) (rs : List Record) (index : Index)
    → Contents root exclude now stat rs index
    → describes index root stat exclude ≡ true
unfolding describes
Contents-describes root exclude now stat rs index c =
    rw
      (
        c.same_root,
        c.same_dev,
        c.same_ino,
        c.same_exclude,
        bytes_eq_refl root,
        ==_refl (ident stat.st_dev),
        ==_refl (ident stat.st_ino),
        patterns_eq_refl exclude,
      )
      refl

-- A later run on the root of an earlier one that stored `records` of it as `index`: the root is the
-- same, every entry still holds, a directory by its recorded time, which is at least two seconds before
-- the write, and a walk of no subtrees finds nothing.
pub record Revisit (before now : Root) (records : List Record) (index : Index) : Type 0 where
  pub stat : Stat
  pub known : before.root_stat ≡ some stat
  pub built : build before.path before.exclude before.now_ns before.root_stat records ≡ some index
  pub same_path : now.path ≡ before.path
  pub same_exclude : now.exclude ≡ before.exclude
  pub same_stat : now.opened ≡ some stat
  pub index_kept : now.index_file ≡ store before records
  pub holding :
      AllHold index.written_ns index.entries (probe_all now.stats index.entries now.file_name)
  pub no_subtrees : (empty : RootListing) × (now.walk_subtrees [] ≡ ok empty) × (empty.records ≡ [])

store-encode :
    (before now : Root) (records : List Record) (index : Index)
    → Revisit before now records index
    → store before records ≡ some (encode index)
unfolding store
store-encode before now records index v = rw (store, v.built) refl

load-index :
    (before now : Root) (records : List Record) (index : Index)
    → Revisit before now records index
    → Fits index
    → length (encode index) < 2 ^ 64
    → load now ≡ some index
unfolding load
load-index before now records index v fits small =
    rw (v.index_kept, store-encode before now records index v)
      (decode-encode index fits
        (build-IsTree before.path before.exclude before.now_ns before.root_stat records v.built)
        small)

rejoin-fresh :
    (now : Root) (out : Outcome) (empty : RootListing)
    → out.stale ≡ []
    → now.walk_subtrees [] ≡ ok empty
    → empty.records ≡ []
    → total listed_bytes out.fresh < 2 ^ 32
    → (l : RootListing) × (rejoin now out ≡ ok (some l)) × (iter l.arena ≡ listed out.fresh)
unfolding rejoin from_records
rejoin-fresh now out empty none_stale walked nothing room =
    let (arena, e) = push_repos-some no_paths out.fresh (omega (arith, room)) in
    let listing : RootListing = record {
      arena = arena;
      dirs_read = empty.dirs_read;
      excluded = empty.excluded;
      records = out.fresh;
      incomplete = empty.incomplete;
    } in
    let built : from_records out.fresh empty.dirs_read empty.excluded empty.incomplete
        ≡ some listing =
      rw e refl in
    (
      listing,
      rw (none_stale, walked, nothing, append-nil out.fresh, e) refl,
      from_records-iter out.fresh empty.dirs_read empty.excluded empty.incomplete built,
    )

from_index-describes :
    (r : Root) (index : Index) (stat : Stat) (out : Outcome)
    → describes index r.path stat r.exclude ≡ true
    → walk_index index (probe_all r.stats index.entries r.file_name) ≡ some out
    → from_index r index stat ≡ rejoin r out
from_index-describes r index stat out same ended = rw (from_index, same, ended) refl

-- What is stored of a listing is, where every entry still holds, what a later run reads from the index:
-- the paths are those of the repositories among the records, each as often as there. The records have
-- different paths, the index is one that the format can hold, and the listed paths come to fewer than
-- 2^32 bytes.
pub cached_listing-Revisit :
    (before now : Root) (records : List Record) (index : Index)
    → Revisit before now records index
    → Fits index
    → length (encode index) < 2 ^ 64
    → AreDistinct records
    → total listed_bytes records < 2 ^ 32
    → (l : RootListing) × (cached_listing now ≡ ok (some l))
      × ((path : Bytes) → times path (iter l.arena) ≡ times path (listed records))
cached_listing-Revisit before now records index v fits small distinct room =
    let contents =
      build-Contents before.path before.exclude before.now_ns v.stat records
        (rw v.known at v.built) in
    let tree =
      build-IsTree before.path before.exclude before.now_ns before.root_stat records v.built in
    let (out, ended, none_stale, all_fresh) =
      walk_index-AllHold index now.stats now.file_name tree v.holding in
    let (empty, walked, nothing) = v.no_subtrees in
    let counts = λ (g : Record → ℕ).
      all_fresh g ∙ ap (total g) contents.same_records ∙ total-sorted g records distinct in
    let (l, joined, paths) =
      rejoin-fresh now out empty none_stale walked nothing
        (omega (arith, counts listed_bytes, room)) in
    let same : describes index now.path v.stat now.exclude ≡ true =
      rw (v.same_path, v.same_exclude)
        (Contents-describes before.path before.exclude before.now_ns v.stat (sorted records) index
          contents) in
    (
      l,
      cached_listing-eq_from_index now {index = index} {stat = v.stat}
            (load-index before now records index v fits small) v.same_stat
          ∙ from_index-describes now index v.stat out same ended
          ∙ joined,
      λ path.
          ap (times path) paths
          ∙ times-listed path out.fresh
          ∙ counts (is_listed_as path)
          ∙ sym (times-listed path records),
    )
