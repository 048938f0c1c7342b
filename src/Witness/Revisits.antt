-- ===== src/Witness/Revisits.antt =====
-- A root that is walked, stored and listed again from the index.
use scap.Base.{◌≡◌, refl, arith, none, some, List, [], ◌∷◌, ◌<◌, ◌^◌}
use scap.Base.Bytes.{Bytes, codes}
use scap.Base.Int.{pos}
use scap.Base.Sort.{times}
use scap.Index.Build.{build, build_from, sorted, insert, link, ident}
use scap.Index.Build.Linked.{build-IsTree}
use scap.Index.Cache.{Root, ok, store, cached_listing}
use scap.Index.Cache.Unchanged.{Revisit, listed_bytes}
use scap.Index.Cache.Walked.{cached_listing-walked}
use scap.Index.Tree.{IsTree}
use scap.Index.Validate.{is_racy, before_window, probe, probe_all, cstr}
use scap.Index.Validate.Unchanged.{no_entry, entry_holds, repo_holds, dir_holds, total}
use scap.Walk.{Record, RootListing, dir, repo}
use scap.Walk
use scap.Walk.Arena.{iter}
use scap.Witness.Stored.{
  kernel, recording, one_repo, stored_tree, stored_root, stored_listing, reads_stored, stored_turn,
  walks_stored,
}
use scap.Witness.Indexes.{
  small_index, small_index-Fits, small_index-size, root_with, nothing_walked,
}

-- Both runs, in that order.
abbrev before : Root
before = record (root_with none) { now_ns = small_index.written_ns }

abbrev found : List Record
found = Walk.dir [] (pos 3) ∷ Walk.repo (codes "a") ∷ []

small_index-built :
    build before.path before.exclude before.now_ns before.root_stat found ≡ some small_index
unfolding build build_from sorted insert link ident
small_index-built = refl

abbrev now : Root
now = root_with (store before found)

build-IsTree_example : IsTree small_index.entries
build-IsTree_example =
    build-IsTree before.path before.exclude before.now_ns before.root_stat found small_index-built

small_index-Revisit : Revisit before now found small_index
unfolding probe_all probe cstr is_racy before_window
small_index-Revisit = record {
  stat = record { st_dev = pos 1; st_ino = pos 2 };
  known = refl;
  built = small_index-built;
  same_path = refl;
  same_exclude = refl;
  same_stat = refl;
  index_kept = refl;
  holding = entry_holds (dir_holds (pos 3) refl refl) (entry_holds (repo_holds refl refl) no_entry);
  no_subtrees = (nothing_walked, refl, refl);
}

found-small : total listed_bytes found < 2 ^ 32
found-small = omega arith

cached_listing-walked_example :
    (l' : RootListing) × (cached_listing now ≡ ok (some l'))
    × ((p : Bytes) → times p (iter l'.arena) ≡ times p (iter stored_listing.arena))
cached_listing-walked_example =
    cached_listing-walked kernel (λ p. some p) recording 4096 one_repo (codes "/r") stored_tree 1 0
      {r = stored_root} {l = stored_listing} before now small_index refl refl reads_stored
      stored_turn walks_stored small_index-Revisit small_index-Fits small_index-size
      ((refl, tt), (tt, tt)) found-small
