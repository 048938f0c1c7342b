-- ===== src/Listing.antt =====
-- src/cmd/list.rs: what `scap list` prints of the repositories that were found.
pub mod Naming
pub mod Filter
pub mod Unique
pub mod Run
use scap.Base.{ℕ, Bool, Option, List}
use scap.Base.Bytes.{Bytes}

-- One repository: the absolute path, the path below the root that names it, and whether that root
-- is the first one.
pub record Repo : Type 0 where
  pub abs : Bytes
  pub rel : Bytes
  pub under_primary : Bool

pub record ListArgs : Type 0 where
  pub exact : Bool
  pub vcs : Option Bytes
  pub full_path : Bool
  pub unique : Bool
  pub bare : Bool
  pub cache : Bool
  pub no_cache : Bool
  pub cache_check : Bool
  pub query : Option Bytes
