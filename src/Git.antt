-- ===== src/Git.antt =====
-- src/vcs/git.rs: the `git` processes of a clone and of an update, and what counts as a repository.
pub mod Ends
pub mod Stale
pub mod Spared
use scap.Base.{
  Bool, true, false, ◌&&◌, ◌||◌, Option, none, some, List, [], ◌∷◌, ◌++◌, if◌then◌else◌,
}
use scap.Base.Bytes.{Bytes, codes, bytes_eq, ends_with, join}
use scap.Base.Int.{ℤ, pos, negsuc, int_eq}
use scap.RepoPath.{push}

-- The arguments, the directory and the status of a command that failed.
pub data GitError : Type 0 where
  spawn : GitError
  non_zero_exit : Bytes → Bytes → ℤ → GitError

pub record CloneOptions : Type 0 where
  pub shallow : Bool
  pub branch : Option Bytes
  pub recursive : Bool
  pub bare : Bool
  pub partial : Option Bytes
  pub silent : Bool

pub record UpdateOptions : Type 0 where
  pub bare : Bool
  pub recursive : Bool
  pub silent : Bool

-- One `git` process: its directory, whether its output is dropped, its arguments.
pub record Command : Type 0 where
  pub dir : Option Bytes
  pub silent : Bool
  pub args : List Bytes

-- What each command comes to, given those that ran before it: none is success.
abbrev pub Runs : Type 0
Runs = List Command → Command → Option GitError

-- What becomes of a command: it cannot be started, or it ends with a code, if it has one.
pub data Status : Type 0 where
  not_started : Status
  exited : Option ℤ → Status

abbrev dir_or_empty : Option Bytes → Bytes
dir_or_empty none = []
dir_or_empty (some dir) = dir

abbrev code_or_minus_one : Option ℤ → ℤ
code_or_minus_one none = negsuc 0
code_or_minus_one (some code) = code

abbrev pub is_success : Option ℤ → Bool
is_success none = false
is_success (some code) = int_eq code (pos 0)

abbrev pub checked_status : Command → Status → Option GitError
checked_status command not_started = some spawn
checked_status command (exited code) =
    let failure : GitError =
      non_zero_exit (join (codes " ") command.args) (dir_or_empty command.dir)
        (code_or_minus_one code) in
    if is_success code then none else some failure

-- `status` is what the kernel and the command make of it, given the commands before.
unfoldable pub run : (List Command → Command → Status) → Runs
run status ran command = checked_status command (status ran command)

abbrev when : Bool → List Bytes → List Bytes
when true args = args
when false args = []

abbrev branch_args : Option Bytes → List Bytes
branch_args none = []
branch_args (some branch) = codes "--branch" ∷ branch ∷ codes "--single-branch" ∷ []

abbrev filter_args : Option Bytes → List Bytes
filter_args none = []
filter_args (some partial) =
    if bytes_eq partial (codes "blobless")
    then codes "--filter=blob:none" ∷ []
    else if bytes_eq partial (codes "treeless")
    then codes "--filter=tree:0" ∷ []
    else []

unfoldable pub clone_args : Bytes → Bytes → CloneOptions → List Bytes
clone_args url dest opts =
    (codes "clone" ∷ [])
    ++ (when opts.shallow (codes "--depth" ∷ codes "1" ∷ [])
        ++ (branch_args opts.branch
            ++ (when opts.recursive (codes "--recursive" ∷ [])
                ++ (when opts.bare (codes "--bare" ∷ [])
                    ++ (filter_args opts.partial ++ (url ∷ dest ∷ []))))))

abbrev pub at : Bytes → Bool → List Bytes → Command
at dest silent args = record { dir = some dest; silent = silent; args = args }

abbrev pub submodules : List Bytes
submodules = codes "submodule" ∷ codes "update" ∷ codes "--init" ∷ codes "--recursive" ∷ []

-- Behind a successful pull.
abbrev pub update_submodules :
    Runs → List Command → Bytes → UpdateOptions → List Command × Option GitError
update_submodules run ran dest opts =
    let command = at dest opts.silent submodules in
    if opts.recursive then (ran ++ (command ∷ []), run ran command) else (ran, none)

abbrev pub pull : Runs → List Command → Bytes → UpdateOptions → List Command × Option GitError
pull run ran dest opts =
    let command = at dest opts.silent (codes "pull" ∷ codes "--ff-only" ∷ []) in
    let submodules_too = update_submodules run (ran ++ (command ∷ [])) dest opts in
    elim (run ran command) [ some e ↦ (ran ++ (command ∷ []), some e) | none ↦ submodules_too ]

-- The commands of an update, in order, and the error that ended it.
unfoldable pub update : Runs → Bytes → Bytes → UpdateOptions → List Command × Option GitError
update run url dest opts =
    let mirror = at dest true (codes "fetch" ∷ url ∷ codes "*:*" ∷ []) in
    let upstream = at dest true (codes "rev-parse" ∷ codes "@{upstream}" ∷ []) in
    let fetch = at dest opts.silent (codes "fetch" ∷ []) in
    if opts.bare then (mirror ∷ [], run [] mirror) else elim (run [] upstream) [
      | some e ↦ (upstream ∷ fetch ∷ [], run (upstream ∷ []) fetch)
      | none ↦ pull run (upstream ∷ []) dest opts
    ]

-- The queries of the file system.
pub record Files : Type 0 where
  pub exists : Bytes → Bool
  pub is_dir : Bytes → Bool
  pub is_file : Bytes → Bool

abbrev names_bare : Option Bytes → Bool
names_bare none = false
names_bare (some name) = ends_with (codes ".git") name

-- `file_name` of a path whose name is UTF-8.
unfoldable pub dest_is_git_repo : Files → (Bytes → Option Bytes) → Bytes → Bool
dest_is_git_repo files file_name dest =
    files.exists dest
    && (files.is_dir (push dest (codes ".git"))
        || (names_bare (file_name dest)
            && (files.is_file (push dest (codes "HEAD"))
                && (files.is_dir (push dest (codes "objects"))
                    && files.is_dir (push dest (codes "refs"))))))
