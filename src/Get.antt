-- ===== src/Get.antt =====
-- src/cmd/get.rs: one target of `scap get`, as the actions that it takes on the machine.
pub mod Contest
pub mod Crew
pub mod Lock
pub mod Spared
pub mod Run
use scap.Base.{
  ℕ, suc, ◌+◌, Bool, true, false, not, ◌&&◌, ◌||◌, Option, none, some, List, [], ◌∷◌, ◌++◌,
  if◌then◌else◌, is_empty, ◌≡◌, refl, ◌⊎◌, inl, inr, Option-cases, Bool-cases, sym, ap, ◌∙◌, any,
  append_assoc,
}
use scap.Base.Bytes.{Bytes, codes, bytes_eq}
use scap.Base.Decimal.{decimal}
use scap.Git.{CloneOptions, UpdateOptions, Files, dest_is_git_repo}
use scap.RepoPath.{push}
use scap.Url.{Repo}

pub record Effective : Type 0 where
  pub update : Bool
  pub ssh : Bool
  pub shallow : Bool
  pub look : Bool
  pub silent : Bool
  pub no_recursive : Bool
  pub branch : Option Bytes
  pub bare : Bool
  pub partial : Option Bytes
  pub parallel : Bool
  pub user : Option Bytes
  pub complete_user : Bool

unfoldable pub remote_of : Effective → Repo → Bytes
remote_of args repo =
    if is_empty repo.host
    then repo.original_input
    else if args.ssh
    then repo.ssh_url
    else repo.https_url

pub data Action : Type 0 where
  remove_tree : Bytes → Action
  create_dirs : Bytes → Action
  open_lock : Bytes → Action
  try_lock : Bytes → Action
  clone : Bytes → Bytes → CloneOptions → Action
  update_repo : Bytes → Bytes → UpdateOptions → Action
  rename : Bytes → Bytes → Action
  unlock : Bytes → Action
  remove_file : Bytes → Action

pub data End : Type 0 where
  finished : End
  failed : End
  temporary_failure : End

-- Whether an action succeeds, given those that were taken before it.
abbrev pub Machine : Type 0
Machine = List Action → Action → Bool

-- `dest.parent()` and its `file_name()` as text, where it has them, are given.
abbrev parent_or_here : Option Bytes → Bytes
parent_or_here none = codes "."
parent_or_here (some p) = p

abbrev name_or_scap : Option Bytes → Bytes
name_or_scap none = codes "scap"
name_or_scap (some name) = name

unfoldable pub lock_path_for : Option Bytes → Option Bytes → Bytes
lock_path_for parent name = push (parent_or_here parent) (codes ".scap-lock-" ++ name_or_scap name)

unfoldable pub tmp_path_for : Option Bytes → Option Bytes → ℕ → Bytes
tmp_path_for parent name pid =
    push (parent_or_here parent) (name_or_scap name ++ (codes ".tmp-" ++ decimal pid))

-- The paths around a destination. The lock file stands in the directory of the destination.
pub record Place : Type 0 where
  pub parent : Option Bytes
  pub lock_path : Bytes
  pub lock_parent : Option Bytes
  pub tmp_path : Bytes

unfoldable pub place_of : Option Bytes → Option Bytes → ℕ → Place
place_of parent name pid = record {
  parent = parent;
  lock_path = lock_path_for parent name;
  lock_parent = some (parent_or_here parent);
  tmp_path = tmp_path_for parent name pid;
}

abbrev pub update_options : Effective → UpdateOptions
update_options args = record {
  bare = args.bare;
  recursive = not args.no_recursive;
  silent = args.silent;
}

abbrev pub clone_options : Effective → CloneOptions
clone_options args = record {
  shallow = args.shallow;
  branch = args.branch;
  recursive = not args.no_recursive;
  bare = args.bare;
  partial = args.partial;
  silent = args.silent;
}

abbrev pub to_create : Option Bytes → Option Bytes
to_create none = none
to_create (some p) = if is_empty p then none else some p

-- A run of actions: whether it got through, and all that was done up to its end.
abbrev pub Script : Type 0
Script = List Action → Bool × List Action

abbrev pub continue : Script → Bool × List Action → Bool × List Action
continue next (true, trace) = next trace
continue next (false, trace) = (false, trace)

-- `?` between two steps.
infixr 4 ◌then◌
abbrev pub ◌then◌ : Script → Script → Script
(first then next) trace = continue next (first trace)

module _ (m : Machine) where
  abbrev pub act : Action → Script
  act a trace = (m trace a, trace ++ (a ∷ []))

  abbrev pub make_parent : Option Bytes → Script
  make_parent none trace = (true, trace)
  make_parent (some p) trace = act (create_dirs p) trace

  -- Removals whose results are dropped.
  unfoldable pub remove_all : List Bytes → List Action → List Action
  remove_all [] trace = trace
  remove_all (p ∷ ps) trace = remove_all ps (trace ++ (remove_tree p ∷ []))

  -- The closure under the lock: clone next to the destination, then rename. `git::clone` makes the
  -- parent first.
  unfoldable pub clone_and_rename : Bytes → Bytes → Place → Effective → Script
  clone_and_rename url dest place args =
      make_parent (to_create place.parent)
      then act (clone url place.tmp_path (clone_options args))
      then make_parent (to_create place.parent)
      then act (rename place.tmp_path dest)

  abbrev pub clean_up : Place → Bool × List Action → Bool × List Action
  clean_up place (true, trace) = (true, trace)
  clean_up place (false, trace) = (false, trace ++ (remove_tree place.tmp_path ∷ []))

  abbrev pub release : Place → Bool × List Action → End × List Action
  release place (ok, trace) = (
    if ok then finished else failed,
    trace ++ (unlock place.lock_path ∷ remove_file place.lock_path ∷ []),
  )

  unfoldable pub under_lock : Bytes → Bytes → Place → Effective → List Action → End × List Action
  under_lock url dest place args trace =
      release place (clean_up place (clone_and_rename url dest place args trace))

  abbrev pub if_locked : Bytes → Bytes → Place → Effective → Bool × List Action → End × List Action
  if_locked url dest place args (true, trace) = under_lock url dest place args trace
  if_locked url dest place args (false, trace) = (temporary_failure, trace)

  abbrev pub if_opened : Bytes → Bytes → Place → Effective → Bool × List Action → End × List Action
  if_opened url dest place args (true, trace) =
      if_locked url dest place args (act (try_lock place.lock_path) trace)
  if_opened url dest place args (false, trace) = (failed, trace)

  unfoldable pub clone_with_lock :
      List Bytes → Bytes → Bytes → Place → Effective → List Action → End × List Action
  clone_with_lock stale url dest place args trace = if_opened url dest place args (
      (make_parent (to_create place.lock_parent) then act (open_lock place.lock_path))
        (remove_all stale trace))

  abbrev pub ended : Bool × List Action → End × List Action
  ended (ok, trace) = (if ok then finished else failed, trace)

  -- `process_target` behind the resolution of the target to a remote and a directory.
  unfoldable pub process_dest :
      Files
      → (Bytes → Option Bytes)
      → List Bytes
      → Bytes
      → Bytes
      → Place
      → Effective
      → List Action
      → End × List Action
  process_dest files file_name stale remote dest place args trace =
      if dest_is_git_repo files file_name dest
      then if args.update
        then ended (act (update_repo remote dest (update_options args)) trace)
        else (finished, trace)
      else clone_with_lock stale remote dest place args trace
