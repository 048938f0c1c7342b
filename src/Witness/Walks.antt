-- ===== src/Witness/Walks.antt =====
-- Walks and the names of what they find.
use scap.Base.{◌≡◌, ◌≢◌, refl, false, some, List, [], ◌∷◌, arith, map, length, ◌↔◌}
use scap.Base.Int.{pos}
use scap.Base.Bytes.{Bytes, codes}
use scap.Listing.Naming.{Naming, name_repositories, repo_at, root_prefix}
use scap.Listing.Naming.Roots.{root_prefix_iff, Within}
use scap.Listing.Naming.Buffer.{name_repositories-plain, plain_from}
use scap.Walk.{Record, RootListing, from_records, push_repos}
use scap.Walk
use scap.Walk.Arena.{Arena, push, offset}
use scap.Walk.Pool.{Pool, start, Steps, done, more, find_job, count_children, push_child, retire}

name_repositories-plain_example :
    (p : Bytes × List Naming) × (name_repositories (codes "/r" ∷ []) ((codes "a" ∷ []) ∷ [])
      ≡ some p)
    × (map (repo_at p.0) p.1
        ≡ plain_from (codes "/r" ∷ []) 0 (codes "/r" ∷ []) ((codes "a" ∷ []) ∷ []))
name_repositories-plain_example = name_repositories-plain (codes "/r" ∷ []) ((codes "a" ∷ []) ∷ [])

abbrev finished : Pool
finished = record { in_flight = 0; queued = []; turns = [] }

-- One directory with one child, both walked by one worker.
two_directories : Steps (start (codes "a" ∷ [])) finished
unfolding start
two_directories =
    more
      (more
        (more
          (more
            (more
              (more (more done (find_job 1 [] [] [] (codes "a")))
                (count_children 1 [] [] [] (codes "a") (codes "b" ∷ [])))
              (push_child 2 [] [] [] (codes "b") []))
            (retire 2 (codes "b" ∷ []) [] []))
          (find_job 1 [] [] [] (codes "b")))
        (count_children 1 [] [] [] (codes "b") []))
      (retire 1 [] [] [])

-- An arena of one path.
abbrev one_path : Bytes → Arena
one_path path = record { bytes = path; repos = record { start = 0; end = length path } ∷ [] }

abbrev two_records : List Record
two_records = Walk.dir [] (pos 3) ∷ Walk.repo (codes "ab") ∷ []

abbrev two_listing : RootListing
two_listing = record {
  arena = one_path (codes "ab");
  dirs_read = 1;
  excluded = 0;
  records = two_records;
  incomplete = false;
}

two_records-listing : from_records two_records 1 0 false ≡ some two_listing
unfolding from_records push_repos push offset
two_records-listing = refl

root_prefix_iff_example :
    (root_prefix (codes "/r") (codes "/r/a") ≡ some 3) ↔ Within (codes "/r") (codes "/r/a") 3
root_prefix_iff_example = root_prefix_iff (codes "/r") (codes "/r/a") 3

one_in_flight : (start (codes "a" ∷ [])).in_flight ≢ 0
unfolding start
one_in_flight h = absurd (omega (arith, h))
