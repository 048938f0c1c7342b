-- ===== src/Config/GitBackend.antt =====
-- src/config/git_backend.rs: the snapshot from what `git config --list -z --show-origin` prints.
use scap.Base.{
  zero, suc, Bool, false, Option, none, some, List, [], ◌∷◌, ◌++◌, if◌then◌else◌, is_empty,
}
use scap.Base.Int.{ℤ, pos, negsuc}
use scap.Base.Bytes.{Bytes, codes, bytes_eq, strip_prefix, rsplit_once, split, split_once}
use scap.Config.{
  Env, Backend, ConfigSnapshot, git_config_failed, git_required, git_spawn, Reason, Result, ok, err,
  ◌>>=◌,
}
use scap.Config.Boolean.{git_boolean}
use scap.Config.Snapshot.{Values, interpolate_value, effective_list_exclude, effective_list_cache}
use scap.Config.Sources.{Files, resolve_git_program}

-- The key and the value of one record: the value stands behind the first newline.
abbrev pub key_and_value : Bytes → Bytes × Option Bytes
key_and_value text = elim (split_once b'\n' text) [
  | none ↦ (text, none)
  | some (key, value) ↦ (key, some value)
]

-- The fields come in pairs, an origin and a record; a record with no key that is text is passed over.
abbrev pub pairs : (Bytes → Bool) → List Bytes → List (Bytes × Option Bytes)
pairs is_utf8 [] = []
pairs is_utf8 (origin ∷ []) = []
pairs is_utf8 (origin ∷ text ∷ fields) =
    let rest = pairs is_utf8 fields in
    if is_empty text
    then rest
    else if is_utf8 (key_and_value text).0
    then key_and_value text ∷ rest
    else rest

unfoldable pub entries : (Bytes → Bool) → Bytes → List (Bytes × Option Bytes)
entries is_utf8 listing = pairs is_utf8 (split 0 listing)

-- What the loop over the entries has found so far.
pub record Found : Type 0 where
  pub roots : List Bytes
  pub url_scoped_roots : List Bytes
  pub user : Option Bytes
  pub complete_user : Bool
  pub list_exclude : List Bytes
  pub list_cache : Bool

abbrev pub nothing_found : Found
nothing_found = record {
  roots = [];
  url_scoped_roots = [];
  user = none;
  complete_user = false;
  list_exclude = [];
  list_cache = false;
}

abbrev pub one_of : Option Bytes → List Bytes
one_of none = []
one_of (some x) = x ∷ []

module _ (v : Values) (env : Env) where
  abbrev pub interpolated : Option Bytes → List Bytes
  interpolated none = []
  interpolated (some value) = one_of (interpolate_value v env value)

  abbrev pub lossy_of : Option Bytes → List Bytes
  lossy_of none = []
  lossy_of (some value) = v.lossy value ∷ []

  abbrev pub user_of : Option Bytes → Bytes
  user_of none = []
  user_of (some value) = v.trim (v.lossy value)

  -- A key with no further dot.
  abbrev pub plain_key : Bytes → Option Bytes → Found → Found
  plain_key name value found =
      if bytes_eq name (codes "root")
      then record found { roots = found.roots ++ interpolated value }
      else if bytes_eq name (codes "user")
      then record found { user = some (user_of value) }
      else if bytes_eq name (codes "completeuser")
      then record found { complete_user = git_boolean value }
      else if bytes_eq name (codes "listexclude")
      then record found { list_exclude = found.list_exclude ++ lossy_of value }
      else if bytes_eq name (codes "listcache")
      then record found { list_cache = git_boolean value }
      else found

  abbrev pub scoped_key : Bytes → Option Bytes → Found → Found
  scoped_key name value found =
      if bytes_eq name (codes "root")
      then record found { url_scoped_roots = found.url_scoped_roots ++ interpolated value }
      else found

  abbrev pub scap_key : Bytes → Option Bytes → Found → Found
  scap_key rest value found = elim (rsplit_once b'.' rest) [
    | none ↦ plain_key rest value found
    | some (subsection, name) ↦ scoped_key name value found
  ]

  unfoldable pub apply_entry : Bytes × Option Bytes → Found → Found
  apply_entry e found = elim (strip_prefix (codes "scap.") e.0) [
    | none ↦ found
    | some rest ↦ scap_key rest e.1 found
  ]

  unfoldable pub apply_entries : List (Bytes × Option Bytes) → Found → Found
  apply_entries [] found = found
  apply_entries (e ∷ es) found = apply_entries es (apply_entry e found)

  abbrev pub snapshot_of : Found → Reason → ConfigSnapshot
  snapshot_of found reason = record {
    env = env;
    roots = found.roots;
    url_scoped_roots = found.url_scoped_roots;
    user = found.user;
    complete_user = found.complete_user;
    list_exclude = effective_list_exclude v.lossy env found.list_exclude;
    list_cache = effective_list_cache env found.list_cache;
    backend = Backend.git;
    reason = reason;
  }

  unfoldable pub from_listing : (Bytes → Bool) → Bytes → Reason → ConfigSnapshot
  from_listing is_utf8 listing reason =
      snapshot_of (apply_entries (entries is_utf8 listing) nothing_found) reason

-- A run of `git`: its exit status, if it has one, and its standard output.
pub record Output : Type 0 where
  pub code : Option ℤ
  pub stdout : Bytes

-- The variables of the child, `none` for one that is removed.
abbrev pub applied_env : Env → List (Bytes × Option Bytes)
applied_env env =
    (codes "HOME", env.home)
    ∷ (codes "XDG_CONFIG_HOME", env.xdg_config_home)
    ∷ (codes "GIT_CONFIG_GLOBAL", env.git_config_global)
    ∷ (codes "GIT_CONFIG_SYSTEM", env.git_config_system)
    ∷ (codes "GIT_CONFIG_NOSYSTEM", env.git_config_nosystem)
    ∷ (codes "GIT_CONFIG_COUNT", env.git_config_count)
    ∷ (codes "GIT_CONFIG_PARAMETERS", env.git_config_parameters)
    ∷ (codes "GIT_DIR", env.git_dir)
    ∷ (codes "GIT_CEILING_DIRECTORIES", env.git_ceiling_directories)
    ∷ []

-- A status 1 says that no file has an entry.
abbrev pub read_status : Option ℤ → Bytes → Result Bytes
read_status none stdout = err (git_config_failed (negsuc 0))
read_status (some (pos zero)) stdout = ok stdout
read_status (some (pos (suc zero))) stdout = ok []
read_status (some (pos (suc (suc n)))) stdout = err (git_config_failed (pos (suc (suc n))))
read_status (some (negsuc n)) stdout = err (git_config_failed (negsuc n))

abbrev pub list_args : List Bytes
list_args = codes "config" ∷ codes "--list" ∷ codes "-z" ∷ codes "--show-origin" ∷ []

-- What is handed to the operating system: the program, its arguments, its variables, the `PATH` it
-- gets if there is one, and the directory it starts in.
pub record Spawn : Type 0 where
  pub program : Bytes
  pub args : List Bytes
  pub vars : List (Bytes × Option Bytes)
  pub path : Option Bytes
  pub current_dir : Option Bytes

unfoldable pub apply_env : Bytes → List Bytes → Env → Spawn
apply_env program args env = record {
  program = program;
  args = args;
  vars = applied_env env;
  path = env.path;
  current_dir = env.cwd;
}

module _ (fs : Files) (v : Values) (run : Spawn → Option Output) where
  abbrev pub from_output : Env → Reason → Option Output → Result ConfigSnapshot
  from_output env reason none = err git_spawn
  from_output env reason (some output) = read_status output.code output.stdout >>= λ listing.
      ok (from_listing v env fs.is_utf8 listing reason)

  abbrev pub with_program : Env → Reason → Option Bytes → Result ConfigSnapshot
  with_program env reason none = err git_required
  with_program env reason (some program) =
      from_output env reason (run (apply_env program list_args env))

  unfoldable pub load : Env → Reason → Result ConfigSnapshot
  load env reason = with_program env reason (resolve_git_program fs env)
