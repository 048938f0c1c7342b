-- ===== src/Listing/Unique.antt =====
-- `--unique`: the shortest sub-path that only one repository has.
use scap.Base.{ℕ, ◌+◌, not, ◌&&◌, Option, none, some, List, [], ◌∷◌, ◌==◌, ltb, if◌then◌else◌}
use scap.Base.Bytes.{Bytes, bytes_eq}
use scap.Listing.{Repo}
use scap.Listing.Filter.{subpaths}

-- A `HashMap<&[u8], usize>` of counts; a key that is not there counts 0.
abbrev pub Counts : Type 0
Counts = Bytes → ℕ

abbrev pub bump : Counts → Bytes → Counts
bump m k = λ j. if bytes_eq j k then m j + 1 else m j

abbrev pub bump_all : Counts → List Bytes → Counts
bump_all m [] = m
bump_all m (p ∷ ps) = bump_all (bump m p) ps

-- The first loop: sub-paths are counted once for each path, paths at each repository.
unfoldable pub count_subpaths : List Repo → Counts → Counts → Counts × Counts
count_subpaths [] subpath_count repos_count = (subpath_count, repos_count)
count_subpaths (r ∷ rs) subpath_count repos_count =
    count_subpaths rs
      (if repos_count r.rel == 0 then bump_all subpath_count (subpaths r.rel) else subpath_count)
      (bump repos_count r.rel)

-- The inner loop, with its `break`.
abbrev pub first_unique : Counts → List Bytes → Option Bytes
first_unique m [] = none
first_unique m (p ∷ ps) = let later = first_unique m ps in if m p == 1 then some p else later

abbrev pub push_some : Option Bytes → List Bytes → List Bytes
push_some none out = out
push_some (some p) out = p ∷ out

-- The second loop.
unfoldable pub unique_lines : Counts → Counts → List Repo → List Bytes
unique_lines subpath_count repos_count [] = []
unique_lines subpath_count repos_count (r ∷ rs) =
    let rest = unique_lines subpath_count repos_count rs in
    if ltb 1 (repos_count r.rel) && not r.under_primary
    then rest
    else push_some (first_unique subpath_count (subpaths r.rel)) rest

unfoldable pub format_unique : List Repo → List Bytes
format_unique repos =
    let (subpath_count, repos_count) = count_subpaths repos (λ p. 0) (λ p. 0) in
    unique_lines subpath_count repos_count repos
