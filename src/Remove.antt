-- ===== src/Remove.antt =====
-- src/cmd/rm.rs, and `is_not_exist_or_empty` of src/cmd/mod.rs: the removal of a repository.
pub mod Asked
use scap.Base.{
  ℕ, Bool, true, false, not, ◌||◌, Option, none, some, List, [], ◌∷◌, if◌then◌else◌, is_empty, ◌==◌,
  ◌≡◌, refl, Bool-cases, inl, inr, ap, ◌++◌, ◌⊎◌, All, ==_iff,
}
use scap.Base.Bytes.{Bytes, codes, bytes_eq, bytes_eq→≡, trim_end}
use scap.Config.{ConfigError}
use scap.Config
use scap.RepoPath.{dest_path}
use scap.Url.{Repo, UrlError}
use scap.Url

pub record RmArgs : Type 0 where
  pub target : Bytes
  pub bare : Bool
  pub dry_run : Bool

-- What `read_dir` answers: whether the directory has an entry, or how it fails.
pub data ReadDir : Type 0 where
  entries : Bool → ReadDir
  not_found not_a_directory unreadable : ReadDir

-- The resolution of the target and of its root, the directory, the line that the user types (none
-- where it cannot be read), and whether a tree can be removed.
pub record World : Type 0 where
  pub from_input : Bytes → Url.Result Repo
  pub root_for_url : Bytes → Config.Result Bytes
  pub read_dir : Bytes → ReadDir
  pub response : Option Bytes
  pub remove_dir_all : Bytes → Bool

pub data End : Type 0 where
  name_required : End
  bad_url : UrlError → End
  bad_config : ConfigError → End
  not_inspected : End
  does_not_exist would_remove removed not_removed : Bytes → End
  no_answer aborted : End

-- `none` where the path is no directory or cannot be read.
unfoldable pub is_not_exist_or_empty : ReadDir → Option Bool
is_not_exist_or_empty (entries has_some) = some (not has_some)
is_not_exist_or_empty not_found = some true
is_not_exist_or_empty not_a_directory = none
is_not_exist_or_empty unreadable = none

abbrev is_line_end : ℕ → Bool
is_line_end c = c == 10 || c == 13

-- The answer is `y`, and nothing else.
unfoldable pub confirm : Option Bytes → Option Bool
confirm none = none
confirm (some line) = some (bytes_eq (trim_end is_line_end line) (codes "y"))

module _ (w : World) (args : RmArgs) where
  -- The end, and the trees whose removal is tried.
  abbrev remove : Bytes → Option Bool → End × List Bytes
  remove dest none = (no_answer, [])
  remove dest (some false) = (aborted, [])
  remove dest (some true) =
      (if w.remove_dir_all dest then removed dest else not_removed dest, dest ∷ [])

  abbrev at_dest : Bytes → Option Bool → End × List Bytes
  at_dest dest none = (not_inspected, [])
  at_dest dest (some true) = (does_not_exist dest, [])
  at_dest dest (some false) =
      if args.dry_run then (would_remove dest, []) else remove dest (confirm w.response)

  abbrev at_root : Repo → Config.Result Bytes → End × List Bytes
  at_root repo (Config.err e) = (bad_config e, [])
  at_root repo (Config.ok root) =
      let dest = dest_path root repo args.bare in
      at_dest dest (is_not_exist_or_empty (w.read_dir dest))

  abbrev of_repo : Url.Result Repo → End × List Bytes
  of_repo (Url.err e) = (bad_url e, [])
  of_repo (Url.ok repo) = at_root repo (w.root_for_url repo.https_url)

  unfoldable pub rm : End × List Bytes
  rm = if is_empty args.target then (name_required, []) else of_repo (w.from_input args.target)
