-- ===== src/Create.antt =====
-- src/cmd/create.rs: the directory of a new repository and the `git init` in it.
pub mod Done
use scap.Base.{
  Bool, true, false, not, Option, none, some, List, [], ◌∷◌, if◌then◌else◌, is_empty, any, ◌≡◌,
  refl, Bool-cases, inl, inr, ◌⊎◌,
}
use scap.Base.Bytes.{Bytes, codes, bytes_eq, bytes_eq→≡}
use scap.Config.{ConfigError}
use scap.Config
use scap.Remove.{ReadDir, entries, not_found, not_a_directory, unreadable, is_not_exist_or_empty}
use scap.RepoPath.{dest_path}
use scap.Url.{Repo, UrlError}
use scap.Url

pub record CreateArgs : Type 0 where
  pub target : Bytes
  pub vcs : Option Bytes
  pub bare : Bool

-- What the run does on the machine.
pub data Action : Type 0 where
  create_dir_all : Bytes → Action
  spawn_git : Bytes → List Bytes → Action

-- The configuration, the resolutions of the target and of its root, the directory, whether it can be
-- made, and how `git` ends: `none` where it cannot be started.
pub record Place : Type 0 where
  pub user : Config.Result (Option Bytes)
  pub complete_user : Config.Result Bool
  pub from_input : Bytes → Option Bytes → Bool → Url.Result Repo
  pub root_for_url : Bytes → Config.Result Bytes
  pub read_dir : Bytes → ReadDir
  pub can_create : Bytes → Bool
  pub git_status : Bytes → List Bytes → Option Bool

pub data Outcome : Type 0 where
  name_required unsupported_vcs : Outcome
  bad_config : ConfigError → Outcome
  bad_url : UrlError → Outcome
  not_inspected : Outcome
  exists_already not_made not_spawned git_failed created : Bytes → Outcome

abbrev pub git_vcs_aliases : List Bytes
git_vcs_aliases = codes "git" ∷ codes "github" ∷ codes "codecommit" ∷ []

unfoldable pub validate_vcs : Option Bytes → Bool
validate_vcs none = true
validate_vcs (some vcs) = any (bytes_eq vcs) git_vcs_aliases

abbrev pub init_args : Bool → List Bytes
init_args bare = if bare then codes "init" ∷ codes "--bare" ∷ [] else codes "init" ∷ []

module _ (p : Place) (args : CreateArgs) where
  -- The status of `git init`.
  abbrev pub git_init : Bytes → Option Bool → Outcome
  git_init dest none = not_spawned dest
  git_init dest (some false) = git_failed dest
  git_init dest (some true) = created dest

  abbrev pub in_dir : Bytes → Bool → Outcome × List Action
  in_dir dest false = (not_made dest, create_dir_all dest ∷ [])
  in_dir dest true = (
    git_init dest (p.git_status dest (init_args args.bare)),
    create_dir_all dest ∷ spawn_git dest (init_args args.bare) ∷ [],
  )

  abbrev pub at_dest : Bytes → Option Bool → Outcome × List Action
  at_dest dest none = (not_inspected, [])
  at_dest dest (some false) = (exists_already dest, [])
  at_dest dest (some true) = in_dir dest (p.can_create dest)

  abbrev pub at_root : Repo → Config.Result Bytes → Outcome × List Action
  at_root repo (Config.err e) = (bad_config e, [])
  at_root repo (Config.ok root) =
      let dest = dest_path root repo args.bare in
      at_dest dest (is_not_exist_or_empty (p.read_dir dest))

  abbrev pub of_repo : Url.Result Repo → Outcome × List Action
  of_repo (Url.err e) = (bad_url e, [])
  of_repo (Url.ok repo) = at_root repo (p.root_for_url repo.https_url)

  abbrev pub configured : Config.Result (Option Bytes) → Config.Result Bool → Outcome × List Action
  configured (Config.err e) complete_user = (bad_config e, [])
  configured (Config.ok user) (Config.err e) = (bad_config e, [])
  configured (Config.ok user) (Config.ok complete_user) =
      of_repo (p.from_input args.target user complete_user)

  unfoldable pub create : Outcome × List Action
  create =
      let ended = configured p.user p.complete_user in
      if is_empty args.target
      then (name_required, [])
      else if not (validate_vcs args.vcs)
      then (unsupported_vcs, [])
      else ended
