-- ===== src/Get/Run.antt =====
-- src/cmd/get.rs: a run of `scap get` over its targets, one after the other.
pub mod Order
pub mod There
use scap.Base.{
  ℕ, Bool, true, false, ◌&&◌, ◌||◌, Option, none, some, List, [], ◌∷◌, ◌++◌, if◌then◌else◌,
  is_empty, any, ◌⊎◌, inl, inr,
}
use scap.Base.Bytes.{Bytes, codes, bytes_eq}
use scap.Config.{ConfigSnapshot, ConfigError}
use scap.Config
use scap.Git.{Files}
use scap.Git.Stale.{Kill, stale_tmp_paths}
use scap.RepoPath.{dest_path}
use scap.Url.{Repo, UrlError}
use scap.Url
use scap.Get.{
  Effective, Action, End, finished, failed, temporary_failure, Machine, place_of, remote_of,
  process_dest,
}

pub record GetArgs : Type 0 where
  pub update : Bool
  pub ssh : Bool
  pub shallow : Bool
  pub look : Bool
  pub vcs : Option Bytes
  pub silent : Bool
  pub no_recursive : Bool
  pub branch : Option Bytes
  pub parallel : Bool
  pub bare : Bool
  pub partial : Option Bytes
  pub targets : List Bytes

unfoldable pub clone_lite : GetArgs → ConfigSnapshot → Effective
clone_lite args config = record {
  update = args.update;
  ssh = args.ssh;
  shallow = args.shallow;
  look = args.look;
  silent = args.silent;
  no_recursive = args.no_recursive;
  branch = args.branch;
  bare = args.bare;
  partial = args.partial;
  parallel = args.parallel;
  user = config.user;
  complete_user = config.complete_user;
}

-- A parallel run is silent.
unfoldable pub effective_of : GetArgs → ConfigSnapshot → Effective
effective_of args config =
    let effective = clone_lite args config in
    if effective.parallel then (record effective { silent = true }) else effective

abbrev git_vcs : List Bytes
git_vcs = codes "git" ∷ codes "github" ∷ codes "codecommit" ∷ []

-- The name that is refused.
unfoldable pub validate_vcs : Option Bytes → Option Bytes
validate_vcs none = none
validate_vcs (some vcs) = if any (bytes_eq vcs) git_vcs then none else some vcs

-- The standard input: whether it is a terminal, and its lines, `none` where one cannot be read.
pub record Stdin : Type 0 where
  pub is_terminal : Bool
  pub lines : List (Option Bytes)

module _ (trim : Bytes → Bytes) where
  abbrev push_line : Bytes → Option (List Bytes) → Option (List Bytes)
  push_line trimmed none = none
  push_line trimmed (some rest) = some (if is_empty trimmed then rest else trimmed ∷ rest)

  -- `none` for an error of the input.
  unfoldable pub targets_of_lines : List (Option Bytes) → Option (List Bytes)
  targets_of_lines [] = some []
  targets_of_lines (none ∷ lines) = none
  targets_of_lines (some line ∷ lines) = push_line (trim line) (targets_of_lines lines)

  unfoldable pub collect_targets : GetArgs → Stdin → Option (List Bytes)
  collect_targets args stdin =
      if is_empty args.targets
      then if stdin.is_terminal then some [] else targets_of_lines stdin.lines
      else some args.targets

-- What a run finds around it. The state of the machine depends on what was done so far.
pub record World : Type 0 where
  pub from_input : Bytes → Option Bytes → Bool → Url.Result Repo
  pub root_for_url : Bytes → Config.Result Bytes
  pub parent : Bytes → Option Bytes
  pub file_name : Bytes → Option Bytes
  pub files : List Action → Files
  pub read_dir : List Action → Bytes → Option (List (Option Bytes))
  pub test_kill_process : List Action → ℕ → Kill
  pub pid : ℕ
  pub shell : Option Bytes
  -- The exit code of the shell in a directory with `SCAP_LOOK` set: `none` where the shell cannot be
  -- started there, `some none` where it has no code.
  pub shell_status : List Action → Bytes → Bytes → Bytes → Option (Option ℕ)

-- How the processing of a target ends.
pub data TargetEnd : Type 0 where
  bad_url : UrlError → TargetEnd
  no_root : ConfigError → TargetEnd
  ended : End → TargetEnd

-- How a run ends. An exit is that of the process.
pub data Outcome : Type 0 where
  unsupported_vcs : Bytes → Outcome
  unread_input : Outcome
  no_targets : Outcome
  failed_to_get : Bytes → Outcome
  look_failed : Outcome
  exited : ℕ → Outcome
  completed : Outcome

abbrev ex_tempfail : ℕ
ex_tempfail = 75

-- Whether the end of a target ends the run: `?`, or `process::exit`.
unfoldable pub stops : Bytes → TargetEnd → Option Outcome
stops target (bad_url e) = some (failed_to_get target)
stops target (no_root e) = some (failed_to_get target)
stops target (ended finished) = none
stops target (ended failed) = some (failed_to_get target)
stops target (ended temporary_failure) = some (exited ex_tempfail)

abbrev pub unless_stopped :
    Option Outcome
    → List Action
    → (List Action → Option Outcome × List Action)
    → Option Outcome × List Action
unless_stopped (some outcome) trace next = (some outcome, trace)
unless_stopped none trace next = next trace

module _ (m : Machine) (w : World) (args : Effective) where
  -- The repository of a target and its destination.
  unfoldable pub resolve : Bytes → TargetEnd ⊎ (Repo × Bytes)
  resolve target = elim (w.from_input target args.user args.complete_user) [
    | Url.err e ↦ inl (bad_url e)
    | Url.ok repo ↦ elim (w.root_for_url (remote_of args repo)) [
      | Config.err e ↦ inl (no_root e)
      | Config.ok root ↦ inr (repo, dest_path root repo args.bare)
    ]
  ]

  abbrev pub at_dest : Bytes → Bytes → List Action → End × List Action
  at_dest remote dest trace =
      process_dest m (w.files trace) w.file_name
        (stale_tmp_paths (w.test_kill_process trace) (w.read_dir trace) (w.parent dest)
          (w.file_name dest))
        remote dest (place_of (w.parent dest) (w.file_name dest) w.pid) args trace

  abbrev pub at_resolved : TargetEnd ⊎ (Repo × Bytes) → List Action → TargetEnd × List Action
  at_resolved (inl e) trace = (e, trace)
  at_resolved (inr (repo, dest)) trace =
      let r = at_dest (remote_of args repo) dest trace in (ended r.0, r.1)

  unfoldable pub process_target : Bytes → List Action → TargetEnd × List Action
  process_target target trace = at_resolved (resolve target) trace

  -- The loop over the targets.
  unfoldable pub process_targets : List Bytes → List Action → Option Outcome × List Action
  process_targets [] trace = (none, trace)
  process_targets (target ∷ targets) trace =
      let r = process_target target trace in
      unless_stopped (stops target r.0) r.1 (process_targets targets)

  abbrev or_sh : Option Bytes → Bytes
  or_sh none = codes "/bin/sh"
  or_sh (some shell) = shell

  abbrev scap_look : Repo → Bytes
  scap_look repo = repo.host ++ (codes "/" ++ (repo.owner ++ (codes "/" ++ repo.name)))

  abbrev shell_ended : Option (Option ℕ) → Outcome
  shell_ended none = look_failed
  shell_ended (some none) = exited 1
  shell_ended (some (some code)) = exited code

  -- The shell in the destination. The run ends with it.
  unfoldable pub exec_look : Bytes → List Action → Outcome
  exec_look target trace = elim (resolve target) [
    | inl e ↦ look_failed
    | inr (repo, dest) ↦ shell_ended (w.shell_status trace (or_sh w.shell) dest (scap_look repo))
  ]

  abbrev pub look_after : Bytes → Option Outcome × List Action → Outcome × List Action
  look_after first (some outcome, trace) = (outcome, trace)
  look_after first (none, trace) = (if args.look then exec_look first trace else completed, trace)

  -- `crew` is what the workers of a parallel run come to: the end of the process that one of them
  -- brings about, if any, and all that was done.
  unfoldable pub run_targets :
      (List Bytes → Option Outcome × List Action) → List Bytes → Outcome × List Action
  run_targets crew [] = (no_targets, [])
  run_targets crew (first ∷ rest) =
      if args.parallel
      then look_after first (crew (first ∷ rest))
      else look_after first (process_targets (first ∷ rest) [])

abbrev run_collected :
    (List Bytes → Outcome × List Action) → Option (List Bytes) → Outcome × List Action
run_collected k none = (unread_input, [])
run_collected k (some targets) = k targets

unfoldable pub run :
    Machine
    → World
    → (Bytes → Bytes)
    → (Effective → List Bytes → Option Outcome × List Action)
    → ConfigSnapshot
    → Stdin
    → GetArgs
    → Outcome × List Action
run m w trim crew config stdin args = elim (validate_vcs args.vcs) [
  | some vcs ↦ (unsupported_vcs vcs, [])
  | none ↦
      let effective = effective_of args config in
      run_collected (run_targets m w effective (crew effective)) (collect_targets trim args stdin)
]
