-- ===== src/Witness/Gets.antt =====
-- Clones.
use scap.Base.{◌≡◌, refl, true, false, none, some, [], ◌∷◌, not, Bool}
use scap.Base.Bytes.{codes}
use scap.Get.{
  Machine, Action, try_lock, End, Place, Effective, place_of, under_lock, clone_with_lock,
  remove_all,
}
use scap.Get.Lock.{Ends, under_lock-Ends}
use scap.Git.{Files, dest_is_git_repo}

-- Machines on which everything succeeds, and on which the lock is taken.
abbrev pub willing : Machine
willing before a = true

abbrev is_try_lock : Action → Bool
is_try_lock (try_lock path) = true
is_try_lock other = false

abbrev busy : Machine
busy before a = not (is_try_lock a)

abbrev place : Place
place = place_of (some (codes "/r/h/o")) (some (codes "n")) 7

abbrev pub plain_get : Effective
plain_get = record {
  update = true;
  ssh = false;
  shallow = false;
  look = false;
  silent = false;
  no_recursive = false;
  branch = none;
  bare = false;
  partial = none;
  parallel = false;
  user = none;
  complete_user = false;
}

under_lock-Ends_example :
    Ends willing
      (codes "/r/h/o/n")
      place
      (under_lock willing (codes "https://h/o/n") (codes "/r/h/o/n") place plain_get [])
under_lock-Ends_example =
    under_lock-Ends willing (codes "https://h/o/n") (codes "/r/h/o/n") place plain_get []

lock_is_taken :
    (clone_with_lock busy
      (codes "/r/h/o/n.tmp-3" ∷ [])
      (codes "https://h/o/n")
      (codes "/r/h/o/n")
      place
      plain_get
      []).0
    ≡ End.temporary_failure
unfolding clone_with_lock remove_all place_of
lock_is_taken = refl

abbrev pub all_there : Files
all_there = record { exists = λ p. true; is_dir = λ p. true; is_file = λ p. true }

repository_there : dest_is_git_repo all_there (λ p. none) (codes "/r/h/o/n") ≡ true
unfolding dest_is_git_repo
repository_there = refl
