-- ===== src/Config/Sources.antt =====
-- src/config/sources.rs: which gitconfig files are read, and which `git` runs. The file system, the
-- gitconfig parser and the discovery of a repository are the fields of `Files`.
use scap.Base.{
  ℕ, Bool, true, false, not, ◌&&◌, ◌||◌, Option, none, some, List, [], ◌∷◌, ◌++◌, if◌then◌else◌,
  is_empty, any, length, retain,
}
use scap.Base.Bytes.{Bytes, codes, bytes_eq, ends_with, to_ascii_lowercase}
use scap.Config.{Env, GixSection}
use scap.Config.Snapshot.{boolean_of, split_paths, non_empty}

pub data Source : Type 0 where
  system git user local worktree : Source

pub record SourceList : Type 0 where
  pub files : List (Bytes × Source)
  pub system_probe_matches : ℕ
  pub git_dir : Option Bytes

pub record Files : Type 0 where
  pub is_file : Bytes → Bool
  pub is_executable : Bytes → Bool
  pub canonicalize : Bytes → Option Bytes
  pub commondir : Bytes → Option Bytes
  pub parse_local : Bytes → Option (List GixSection)
  pub upwards : Bytes → List Bytes → Option Bytes
  pub is_utf8 : Bytes → Bool

-- `std::env::var_os` and the rest of the process, and `var_os(key).filter(|v| !v.is_empty())`.
pub record Process : Type 0 where
  pub home_dir : Option Bytes
  pub var_os : Bytes → Option Bytes
  pub current_dir : Option Bytes

abbrev pub non_empty_var_os : Process → Bytes → Option Bytes
non_empty_var_os p key = non_empty (p.var_os key)

abbrev pub default_system_candidates : List Bytes
default_system_candidates =
    codes "/etc/gitconfig"
    ∷ codes "/usr/local/etc/gitconfig"
    ∷ codes "/opt/homebrew/etc/gitconfig"
    ∷ codes "/opt/local/etc/gitconfig"
    ∷ []

unfoldable pub from_process : Process → Env
from_process p = record {
  home = p.home_dir;
  xdg_config_home = non_empty_var_os p (codes "XDG_CONFIG_HOME");
  git_config_global = p.var_os (codes "GIT_CONFIG_GLOBAL");
  git_config_system = p.var_os (codes "GIT_CONFIG_SYSTEM");
  git_config_nosystem = p.var_os (codes "GIT_CONFIG_NOSYSTEM");
  git_config_count = p.var_os (codes "GIT_CONFIG_COUNT");
  git_config_parameters = non_empty_var_os p (codes "GIT_CONFIG_PARAMETERS");
  git_dir = non_empty_var_os p (codes "GIT_DIR");
  git_ceiling_directories = non_empty_var_os p (codes "GIT_CEILING_DIRECTORIES");
  scap_root = p.var_os (codes "SCAP_ROOT");
  scap_list_exclude = p.var_os (codes "SCAP_LIST_EXCLUDE");
  scap_list_cache = p.var_os (codes "SCAP_LIST_CACHE");
  scap_config_backend = p.var_os (codes "SCAP_CONFIG_BACKEND");
  cwd = p.current_dir;
  path = p.var_os (codes "PATH");
  system_probe_candidates = default_system_candidates;
}

-- `Path::join` of a relative name.
unfoldable pub join_path : Bytes → Bytes → Bytes
join_path dir name =
    if is_empty dir || ends_with (codes "/") dir then dir ++ name else dir ++ (codes "/" ++ name)

abbrev pub is_word : List Bytes → Bytes → Bool
is_word words text = any (λ word. bytes_eq text word) words

module _ (fs : Files) where
  unfoldable pub probe_system_config : List Bytes → List Bytes
  probe_system_config candidates = retain fs.is_file candidates

  abbrev pub runs : Bytes → Bool
  runs candidate = fs.is_file candidate && fs.is_executable candidate

  -- The first directory of `PATH` with a file `git` that can be executed.
  unfoldable pub search_path : List Bytes → Option Bytes
  search_path [] = none
  search_path (dir ∷ dirs) =
      let later = search_path dirs in
      if is_empty dir
      then later
      else if runs (join_path dir (codes "git"))
      then some (join_path dir (codes "git"))
      else later

  unfoldable pub resolve_git_program : Env → Option Bytes
  resolve_git_program env = elim env.path [
    | none ↦ none
    | some path ↦ search_path (split_paths path)
  ]

  abbrev pub truthy : Option Bytes → Bool
  truthy none = false
  truthy (some value) =
      if not (fs.is_utf8 value)
      then true
      else not (
          is_word ([] ∷ codes "0" ∷ codes "false" ∷ codes "no" ∷ codes "off" ∷ [])
            (to_ascii_lowercase value))

  abbrev pub tagged : Source → List Bytes → List (Bytes × Source)
  tagged source [] = []
  tagged source (path ∷ paths) = (path, source) ∷ tagged source paths

  -- The system level, and how many probed files are there.
  unfoldable pub system_files : Env → List (Bytes × Source) × ℕ
  system_files env = elim env.git_config_system [
    | some explicit ↦ ((explicit, system) ∷ [], 0)
    | none ↦
        let matched = probe_system_config env.system_probe_candidates in
        if not (truthy env.git_config_nosystem)
        then (tagged system matched, length matched)
        else ([], 0)
  ]

  abbrev pub xdg_home : Env → Option Bytes
  xdg_home env = elim env.xdg_config_home [
    | some xdg ↦ some xdg
    | none ↦ elim env.home [ none ↦ none | some home ↦ some (join_path home (codes ".config")) ]
  ]

  abbrev pub xdg_file : Option Bytes → List (Bytes × Source)
  xdg_file none = []
  xdg_file (some xdg) = (join_path (join_path xdg (codes "git")) (codes "config"), git) ∷ []

  abbrev pub home_file : Option Bytes → List (Bytes × Source)
  home_file none = []
  home_file (some home) = (join_path home (codes ".gitconfig"), user) ∷ []

  unfoldable pub global_files : Env → List (Bytes × Source)
  global_files env = elim env.git_config_global [
    | some explicit ↦ (explicit, user) ∷ []
    | none ↦ xdg_file (xdg_home env) ++ home_file env.home
  ]

  abbrev pub key_of : Bytes → Bytes
  key_of path = elim (fs.canonicalize path) [ none ↦ path | some real ↦ real ]

  -- A file that another name has already brought is passed over.
  unfoldable pub unseen : List Bytes → List (Bytes × Source) → List (Bytes × Source)
  unseen seen [] = []
  unseen seen (f ∷ files) =
      let skipped = unseen seen files in
      let kept = unseen (seen ++ (key_of f.0 ∷ [])) files in
      if any (bytes_eq (key_of f.0)) seen then skipped else f ∷ kept

  abbrev pub common_dir_of : Bytes → Bytes
  common_dir_of git_dir = elim (fs.commondir (join_path git_dir (codes "commondir"))) [
    | none ↦ git_dir
    | some common ↦ common
  ]

  abbrev pub enabled : Option Bool → Bool
  enabled none = false
  enabled (some on) = on

  unfoldable pub worktree_config_enabled : Bytes → Bool
  worktree_config_enabled local_config = elim (fs.parse_local local_config) [
    | none ↦ false
    | some sections ↦
        enabled (boolean_of sections (codes "extensions") (codes "worktreeConfig") none)
  ]

  abbrev pub ceilings : Option Bytes → List Bytes
  ceilings none = []
  ceilings (some value) = split_paths value

  unfoldable pub discover_git_dir : Env → Option Bytes
  discover_git_dir env = elim env.git_dir [
    | some explicit ↦ some explicit
    | none ↦ elim env.cwd [
      | none ↦ none
      | some cwd ↦ fs.upwards cwd (ceilings env.git_ceiling_directories)
    ]
  ]

  unfoldable pub local_files : Option Bytes → List (Bytes × Source)
  local_files none = []
  local_files (some git_dir) =
      let local_path = join_path (common_dir_of git_dir) (codes "config") in
      let worktree_path = join_path git_dir (codes "config.worktree") in
      (local_path, local)
      ∷ (if fs.is_file worktree_path && worktree_config_enabled local_path
          then (worktree_path, worktree) ∷ []
          else [])

  unfoldable pub enumerate : Env → SourceList
  enumerate env =
      let git_dir = discover_git_dir env in
      record {
        files = (system_files env).0 ++ (unseen [] (global_files env) ++ local_files git_dir);
        system_probe_matches = (system_files env).1;
        git_dir = git_dir;
      }
