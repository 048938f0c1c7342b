-- ===== src/Witness/Listings.antt =====
-- The list command and the sources of the configuration.
use scap.Base.{◌≡◌, refl, true, false, none, some, List, [], ◌∷◌, ◌++◌}
use scap.Base.Int.{pos}
use scap.Base.Bytes.{Bytes, codes, bytes_eq}
use scap.Base.Sort.{IsSorted, times}
use scap.Index.{off}
use scap.Index.Validate.{mode}
use scap.Index.Cache
use scap.Index.Cache.{Root, cached_listing, check_root, load, store_if_complete}
use scap.Index.Codec.{decode}
use scap.Walk.{RootListing}
use scap.Walk.Arena.{iter, slices}
use scap.Listing.Naming.{
  name_repositories, name_from, name_listing, find_root, root_prefix, push_full_path, repo_at,
}
use scap.Listing.{ListArgs}
use scap.Listing.Filter.{Unicode, filter_repos}
use scap.Listing.Run.Checks.{run-cache_check, no_root, root_too}
use scap.Listing.Run.{
  run, printed, render, lines_text, plain_repos, is_supported, walk_each, walk_one, run-printed,
}
use scap.Config.Sources.{Files, search_path, join_path}
use scap.Config.Entries.{GitEntry, entries-printed, read_back}
use scap.Config.Entries as Written
use scap.Config.GitBackend.{entries}

abbrev ascii : Unicode
ascii = record { is_utf8 = λ s. true; to_lowercase = λ s. s }

abbrev two_found : RootListing
two_found = record {
  arena = record {
    bytes = codes "ba";
    repos = record { start = 0; end = 1 } ∷ record { start = 1; end = 2 } ∷ [];
  };
  dirs_read = 1;
  excluded = 0;
  records = [];
  incomplete = true;
}

-- A root with no index file.
abbrev one_root : Root
one_root = record {
  path = codes "/r";
  file_name = codes "r";
  exclude = [];
  index_file = none;
  opened = none;
  root_stat = none;
  stats = record { is_there = λ path. true; dir_mtime = λ path. none };
  now_ns = pos 9;
  walk_root = λ record_index. Cache.Result.ok two_found;
  walk_subtrees = λ rels. Cache.Result.ok two_found;
}

abbrev plain_args : ListArgs
plain_args = record {
  exact = false;
  vcs = some (codes "git");
  full_path = false;
  unique = false;
  bare = false;
  cache = false;
  no_cache = false;
  cache_check = false;
  query = none;
}

one_walked : walk_each off (one_root ∷ []) ≡ Cache.Result.ok (two_found ∷ [], false)
unfolding walk_each walk_one
one_walked = refl

run-printed_example :
    (lines : List Bytes) × (run ascii false plain_args (one_root ∷ [])
      ≡ printed (lines_text lines) false)
    × IsSorted lines
    × ((line : Bytes)
        → times line lines
          ≡ times line (
              render plain_args
                (filter_repos ascii (plain_repos (one_root ∷ []) (two_found ∷ [])) plain_args)))
unfolding is_supported mode
run-printed_example =
    run-printed ascii false plain_args (one_root ∷ []) {listings = two_found ∷ []}
      {index_disagreed = false} refl one_walked

abbrev checked_args : ListArgs
checked_args = record plain_args { cache_check = true }

-- The same root with a broken index file.
abbrev broken_root : Root
broken_root = record one_root { index_file = some (codes "x") }

checked_prints :
    run ascii false checked_args (one_root ∷ [])
    ≡ printed (codes "a" ++ (b'\n' ∷ (codes "b" ++ (b'\n' ∷ [])))) false
unfolding run walk_each walk_one check_root cached_listing load store_if_complete name_repositories
    name_from name_listing find_root root_prefix push_full_path repo_at filter_repos render
    lines_text iter slices mode is_supported
checked_prints = refl

broken_prints :
    run ascii false checked_args (broken_root ∷ [])
    ≡ printed (codes "a" ++ (b'\n' ∷ (codes "b" ++ (b'\n' ∷ [])))) false
unfolding run walk_each walk_one check_root cached_listing load store_if_complete name_repositories
    name_from name_listing find_root root_prefix push_full_path repo_at filter_repos render
    lines_text iter slices mode is_supported decode scap.Index.Codec.read_fields
    scap.Index.Reader.take_bytes
broken_prints = refl

run-cache_check_example :
    codes "a" ++ (b'\n' ∷ (codes "b" ++ (b'\n' ∷ [])))
    ≡ codes "a" ++ (b'\n' ∷ (codes "b" ++ (b'\n' ∷ [])))
run-cache_check_example =
    run-cache_check ascii false plain_args {roots = one_root ∷ []} {roots' = broken_root ∷ []}
      {index_disagreed = false} {index_disagreed' = false} (root_too refl refl no_root)
      checked_prints broken_prints

-- A `git` in the second directory, and a file that has two names.
abbrev files : Files
files = record {
  is_file = λ path. bytes_eq path (codes "/b/git");
  is_executable = λ path. true;
  canonicalize = λ path. some (codes "/real");
  commondir = λ path. none;
  parse_local = λ path. none;
  upwards = λ cwd ceilings. none;
  is_utf8 = λ s. true;
}

found_second : search_path files (codes "/a" ∷ codes "/b" ∷ []) ≡ some (codes "/b/git")
unfolding search_path join_path
found_second = refl

abbrev two_entries : List GitEntry
two_entries =
    record { origin = codes "file:/a"; key = codes "scap.root"; value = some (codes "/r") }
    ∷ record { origin = codes "file:/a"; key = codes "scap.listcache"; value = none }
    ∷ []

entries-printed_example : entries (λ s. true) (Written.printed two_entries) ≡ read_back two_entries
entries-printed_example =
    entries-printed (λ s. true) two_entries
      ((refl, refl, refl, refl, refl, refl), ((refl, refl, refl, refl, refl, tt), tt))
