-- ===== src/Config.antt =====
-- src/config.rs: the configuration of a process. This file has the data; the children read booleans,
-- decide on the backend, build the snapshot and resolve roots.
pub mod Boolean
pub mod Triggers
pub mod Snapshot
pub mod Roots
pub mod Sources
pub mod GitBackend
pub mod Entries
pub mod Search
use scap.Base.{ℕ, Bool, Option, List}
use scap.Base.Bytes.{Bytes}
use scap.Base.Int.{ℤ}

pub data Backend : Type 0 where
  in_process git : Backend

pub data Reason : Type 0 where
  plain url_sections git_config_count git_config_parameters : Reason
  includeif_unevaluated system_probe_ambiguous env_override : Reason

pub data ConfigError : Type 0 where
  git_spawn : ConfigError
  git_config_failed : ℤ → ConfigError
  no_home_dir invalid_utf8 git_required parse : ConfigError

pub data Result (X : Type 0) : Type 0 where
  err : ConfigError → Result X
  ok : X → Result X

infixl 5 ◌>>=◌
-- The `?` operator: an error ends the run.
abbrev pub ◌>>=◌ : {X Y : Type 0} → Result X → (X → Result Y) → Result Y
err why >>= next = err why
ok x >>= next = next x

-- The process's environment, as it is read once.
pub record Env : Type 0 where
  pub home : Option Bytes
  pub xdg_config_home : Option Bytes
  pub git_config_global : Option Bytes
  pub git_config_system : Option Bytes
  pub git_config_nosystem : Option Bytes
  pub git_config_count : Option Bytes
  pub git_config_parameters : Option Bytes
  pub git_dir : Option Bytes
  pub git_ceiling_directories : Option Bytes
  pub scap_root : Option Bytes
  pub scap_list_exclude : Option Bytes
  pub scap_list_cache : Option Bytes
  pub scap_config_backend : Option Bytes
  pub cwd : Option Bytes
  pub path : Option Bytes
  pub system_probe_candidates : List Bytes

pub record ConfigSnapshot : Type 0 where
  pub env : Env
  pub roots : List Bytes
  pub url_scoped_roots : List Bytes
  pub user : Option Bytes
  pub complete_user : Bool
  pub list_exclude : List Bytes
  pub list_cache : Bool
  pub backend : Backend
  pub reason : Reason

-- A section of a parsed gitconfig, as the `gix_config` crate answers for it.
pub record GixSection : Type 0 where
  pub name : Bytes
  pub subsection : Option Bytes
  pub value_implicit : Bytes → Option (Option Bytes)
  pub values : Bytes → List Bytes

pub record GixFile : Type 0 where
  pub sections : List GixSection
  pub strings : Bytes → Option (List Bytes)
  pub string : Bytes → Option Bytes
