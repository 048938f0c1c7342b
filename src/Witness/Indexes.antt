-- ===== src/Witness/Indexes.antt =====
-- The index: its theorems at a root with one repository.
use scap.Index.Cache.Origin.{IsOf, cached_listing-IsOf}
use scap.Base.{◌≡◌, refl, true, false, Option, none, some, [], ◌∷◌, arith, length, ◌∙◌, ◌<◌, ◌^◌}
use scap.Base.Int.{pos}
use scap.Base.Bytes.{Bytes, codes}
use scap.Index.{Index}
use scap.Index.Word.{le_bytes, i64_bits}
use scap.Index.Codec.{
  encode, decode, is_safe_rel, push_len, push_bytes, push_patterns, push_children, push_dir,
  push_entries,
}
use scap.Index.Tree.{IsTree}
use scap.Index.Layout.{Fits}
use scap.Index.RoundTrip.{decode-encode}
use scap.Index.Sound.{decode-IsSound, IsSound}
use scap.Walk.{Record, RootListing, from_records, push_repos}
use scap.Walk
use scap.Walk.Arena.{Arena, merge, merge-iter, iter, IsWithin, push, offset, shift_all}
use scap.Index.Cache
use scap.Index.Cache.{
  Root, load as load_index, describes, cached_listing, rejoin, cached_listing-eq_from_index, store,
  store_if_complete, list_root, check_root, list_root_complete, check_root-walk_root,
}
use scap.Index.Validate.Ends.{walk_index-probe_all}
use scap.Index.Validate.{
  Outcome, Stats, walk_index, walk_from, verdict, is_racy, before_window, settle, probe_all, probe,
  cstr,
}
use scap.Index.Build.{ident, build, sorted, insert, build_from, link}

-- An index of a root with one repository below it.
abbrev pub small_index : Index
small_index = record {
  root = codes "/r";
  dev = 1;
  ino = 2;
  written_ns = pos 9000000000;
  exclude = codes "tmp" ∷ [];
  entries =
      record { rel = []; mtime_ns = some (pos 3); children = 1 ∷ [] }
      ∷ record { rel = codes "a"; mtime_ns = none; children = [] }
      ∷ [];
}

pub small_index-Fits : Fits small_index
unfolding is_safe_rel
small_index-Fits = record {
  root = omega arith;
  dev = omega arith;
  ino = omega arith;
  written = omega arith;
  pattern_count = omega arith;
  patterns = (omega arith, tt);
  entry_count = omega arith;
  entries = ((omega arith, refl, (omega arith, omega arith)), ((omega arith, refl, refl), tt));
}

small_index-IsTree : IsTree small_index.entries
small_index-IsTree = record {
  rooted = refl;
  forward = (((omega arith, omega arith), tt), (tt, tt));
  once = (refl, tt);
  covered = λ j p q. ground (arith, p, q);
}

pub small_index-size : length (encode small_index) < 2 ^ 64
unfolding encode push_len push_bytes push_patterns push_children push_dir push_entries le_bytes
    i64_bits
small_index-size = omega arith

decode-encode_example : decode (encode small_index) ≡ some small_index
decode-encode_example =
    decode-encode small_index small_index-Fits small_index-IsTree small_index-size

decode-IsSound_example : IsSound small_index
decode-IsSound_example = decode-IsSound (encode small_index) small_index decode-encode_example

-- A root whose index file is that of `small_index`, with nothing changed since.
abbrev still_there : Stats
still_there = record { is_there = λ path. true; dir_mtime = λ path. some (pos 3) }

abbrev walked : RootListing
walked = record {
  arena = record { bytes = codes "a"; repos = record { start = 0; end = 1 } ∷ [] };
  dirs_read = 1;
  excluded = 0;
  records = Walk.dir [] (pos 3) ∷ Walk.repo (codes "a") ∷ [];
  incomplete = false;
}

abbrev pub nothing_walked : RootListing
nothing_walked = record {
  arena = Walk.Arena.no_paths;
  dirs_read = 0;
  excluded = 0;
  records = [];
  incomplete = false;
}

abbrev pub root_with : Option Bytes → Root
root_with file = record {
  path = codes "/r";
  file_name = codes "r";
  exclude = codes "tmp" ∷ [];
  index_file = file;
  opened = some (record { st_dev = pos 1; st_ino = pos 2 });
  root_stat = some (record { st_dev = pos 1; st_ino = pos 2 });
  stats = still_there;
  now_ns = pos 9;
  walk_root = λ record_index. Cache.Result.ok walked;
  walk_subtrees = λ rels. Cache.Result.ok nothing_walked;
}

abbrev cached_answer : RootListing
cached_answer = record walked { dirs_read = 0 }

from_small_index :
    Cache.from_index
      (root_with (some (encode small_index)))
      small_index
      (record { st_dev = pos 1; st_ino = pos 2 })
    ≡ Cache.Result.ok (some cached_answer)
unfolding describes ident walk_index walk_from verdict is_racy before_window settle probe_all probe
    cstr rejoin from_records push_repos push offset
from_small_index = refl

cached_here :
    cached_listing (root_with (some (encode small_index))) ≡ Cache.Result.ok (some cached_answer)
unfolding load_index
cached_here =
    cached_listing-eq_from_index (root_with (some (encode small_index))) decode-encode_example refl
    ∙ from_small_index

cached_listing-IsOf_example : (index : Index) × IsOf (root_with (some (encode small_index))) index
cached_listing-IsOf_example =
    cached_listing-IsOf (root_with (some (encode small_index))) cached_here

abbrev stored_index : Index
stored_index = record small_index { written_ns = pos 9 }

stored : list_root (root_with none) ≡ Cache.Result.ok (walked, some (encode stored_index))
unfolding list_root cached_listing load_index store_if_complete store build sorted insert build_from
    link ident
stored = refl

checked_root :
    check_root (root_with none) ≡ Cache.Result.ok ((walked, false), some (encode stored_index))
unfolding check_root cached_listing load_index store_if_complete store build sorted insert
    build_from link ident
checked_root = refl

walk_index-probe_all_example :
    (r : Outcome) × (walk_index small_index (probe_all still_there small_index.entries (codes "r"))
      ≡ some r)
walk_index-probe_all_example =
    walk_index-probe_all small_index still_there (codes "r") small_index-IsTree
