-- ===== src/Witness/Crews.antt =====
-- The workers of a parallel run, the scan for stale directories, and runs over several targets.
use scap.Base.{◌≢◌}
use scap.Base.{
  ℕ, ◌≤◌, ◌*◌, ◌+◌, ◌≡◌, ◌⊎◌, ◌↔◌, refl, true, false, none, some, Option, List, [], ◌∷◌, any, arith,
  IsIn, if◌then◌else◌, ◌==◌,
}
use scap.Base.Bytes.{Bytes, codes}
use scap.Base.Int.{pos}
use mathlib.Core.List.{Perm}
use scap.Git.{dest_is_git_repo, Runs, spawn, UpdateOptions, update}
use scap.Git.Ends.{EndsWithLast, update-EndsWithLast}
use scap.Git.Stale.{Kill, signalable, no_such_process, pid_is_alive, stale_tmp_paths}
use scap.Git.Spared.{LeftBehind, stale_tmp_paths_iff}
use scap.Get.{place_of, tmp_path_for, clone_with_lock}
use scap.Get.Spared.{is_removal_of, clone_with_lock-living}
use scap.Get.Crew.{Crew, start, Step, take, process, leave, Steps, done, more, workers_for}
use scap.Get.Crew.Ends.{IsOver, Steps-all_left, Steps-bounded}
use scap.Get.{Effective}
use scap.Get.Run.{World, process_targets}
use scap.Get.Run.There.{AreThere, none_left, there_too, by_https, Brings, process_targets-Brings}
use scap.RepoPath.{dest_path, rel_path}
use scap.Url.{Repo}
use scap.Url
use scap.Config
use scap.Witness.Gets.{willing, plain_get, all_there}

-- Process 7 is this one, process 12 lives, process 9 does not.
abbrev lives : ℕ → Kill
lives pid = if pid == 9 then no_such_process else signalable

abbrev left_in : Bytes → Option (List (Option Bytes))
left_in path = some (some (codes "n.tmp-12") ∷ none ∷ some (codes "n.tmp-9") ∷ [])

living_12 : pid_is_alive lives (pos 12) ≡ true
unfolding pid_is_alive
living_12 = refl

clone_with_lock-living_example :
    any
      (is_removal_of (tmp_path_for (some (codes "/r")) (some (codes "n")) 12))
      (clone_with_lock willing
        (stale_tmp_paths lives left_in (some (codes "/r")) (some (codes "n")))
        (codes "https://h/n")
        (codes "/r/n")
        (place_of (some (codes "/r")) (some (codes "n")) 7)
        plain_get
        []).1
    ≡ false
clone_with_lock-living_example =
    clone_with_lock-living willing lives left_in (codes "/r") (codes "n") (codes "https://h/n")
      (codes "/r/n") plain_get 7 12 refl (omega arith) (omega arith) (omega arith) living_12

stale_tmp_paths_iff_example :
    IsIn (codes "/r/n.tmp-9") (stale_tmp_paths lives left_in (some (codes "/r")) (some (codes "n")))
    ↔ LeftBehind lives
        (codes "/r")
        (codes "n")
        (some (codes "n.tmp-12") ∷ none ∷ some (codes "n.tmp-9") ∷ [])
        (codes "/r/n.tmp-9")
stale_tmp_paths_iff_example =
    stale_tmp_paths_iff lives left_in (codes "/r") (codes "n")
      (some (codes "n.tmp-12") ∷ none ∷ some (codes "n.tmp-9") ∷ []) (codes "/r/n.tmp-9") refl

abbrev over : Crew
over = record {
  queue = [];
  idle = 0;
  busy = [];
  left = 1;
  started = codes "a" ∷ [];
  ended = codes "a" ∷ [];
}

one_worker : Steps 3 (start (codes "a" ∷ [])) over
unfolding start workers_for
one_worker =
    more
      (more (more done (take [] (codes "a") 0 [] 0 [] []))
        (process [] 0 [] (codes "a") [] 0 (codes "a" ∷ []) []))
      (leave 0 [] 0 (codes "a" ∷ []) (codes "a" ∷ []))

Steps-all_left_example : (over.started ≡ codes "a" ∷ []) × Perm (codes "a" ∷ []) (codes "a" ∷ [])
Steps-all_left_example = Steps-all_left (codes "a" ∷ []) one_worker refl refl

Steps-bounded_example : (3 ≤ 3 * 1 + 6) × (IsOver over ⊎ ((d : Crew) × Step over d))
Steps-bounded_example = Steps-bounded (codes "a" ∷ []) one_worker

abbrev some_repo : Repo
some_repo = record {
  host = codes "h";
  owner = codes "o";
  name = codes "n";
  vcs_hint = none;
  https_url = codes "https://h/o/n";
  ssh_url = codes "ssh://git@h/o/n";
  original_input = codes "h/o/n";
}

-- A world in which every target is this repository and is there.
abbrev small_world : World
small_world = record {
  from_input = λ input user complete. Url.ok some_repo;
  root_for_url = λ url. Config.ok (codes "/r");
  parent = λ path. some (codes "/r/h/o");
  file_name = λ path. some (codes "n");
  files = λ trace. all_there;
  read_dir = λ trace path. none;
  test_kill_process = λ trace pid. signalable;
  pid = 7;
  shell = none;
  shell_status = λ trace shell dest look. none;
}

has_host : some_repo.host ≢ []
has_host h = cc

abbrev updating : Effective
updating = record plain_get { update = true }

some_repo_there :
    AreThere willing small_world updating
      (codes "h/o/n" ∷ [])
      ((codes "https://h/o/n", codes "/r/h/o/n") ∷ [])
unfolding dest_path rel_path dest_is_git_repo
some_repo_there = there_too refl (by_https has_host refl) refl (λ trace. refl) none_left

process_targets-Brings_example :
    Brings willing small_world updating
      (codes "h/o/n" ∷ [])
      ((codes "https://h/o/n", codes "/r/h/o/n") ∷ [])
      []
      (process_targets willing small_world updating (codes "h/o/n" ∷ []) [])
process_targets-Brings_example =
    process_targets-Brings willing small_world updating (codes "h/o/n" ∷ [])
      ((codes "https://h/o/n", codes "/r/h/o/n") ∷ []) [] some_repo_there

-- A pull that fails.
abbrev no_pull : Runs
no_pull [] command = none
no_pull (first ∷ rest) command = some spawn

abbrev plain_update : UpdateOptions
plain_update = record { bare = false; recursive = true; silent = true }

update-EndsWithLast_example :
    EndsWithLast no_pull (update no_pull (codes "https://h/n") (codes "/r/n") plain_update)
update-EndsWithLast_example =
    update-EndsWithLast no_pull (codes "/r/n") plain_update (codes "https://h/n")
