-- ===== src/Url.antt =====
-- src/url.rs: what the user types becomes a `Repo`. This file has the data; the children recognise
-- CodeCommit refs, bring other spellings to a URL, and put both together in `from_input`.
pub mod Codecommit
pub mod Normalize
pub mod SchemeLaws
pub mod Input
use scap.Base.{ℕ, Option}
use scap.Base.Bytes.{Bytes}

pub record Repo : Type 0 where
  pub host : Bytes
  pub owner : Bytes
  pub name : Bytes
  pub vcs_hint : Option Bytes
  pub https_url : Bytes
  pub ssh_url : Bytes
  pub original_input : Bytes

-- The reason texts, as data: what each is formatted from.
pub data Reason : Type 0 where
  parse_error : Bytes → Reason
  expected_owner_repo : Bytes → Reason
  bare_segments : ℕ → Reason

pub data UrlError : Type 0 where
  empty : UrlError
  path_traversal : Bytes → UrlError
  malformed : Bytes → Reason → UrlError
  unknown_user : Bytes → UrlError
  missing_host : Bytes → UrlError
  missing_path : Bytes → UrlError
  missing_codecommit_region : UrlError

pub data Result (X : Type 0) : Type 0 where
  err : UrlError → Result X
  ok : X → Result X

infixl 5 ◌>>=◌
-- The `?` operator: an error ends the run.
abbrev pub ◌>>=◌ : {X Y : Type 0} → Result X → (X → Result Y) → Result Y
err why >>= next = err why
ok x >>= next = next x

-- The two variables and the `aws configure get region` that a region can come from.
pub record Aws : Type 0 where
  pub region : Option Bytes
  pub default_region : Option Bytes
  pub lookup : Option Bytes

-- The URL schemes that the source tells apart.
pub data Scheme : Type 0 where
  file : Scheme
  ext : Bytes → Scheme
  other : Scheme

-- What the `gix_url` crate makes of a URL, and how it fails.
pub record GixUrl : Type 0 where
  pub scheme : Scheme
  pub user : Option Bytes
  pub host : Option Bytes
  pub path : Bytes

pub data Parsed : Type 0 where
  url : GixUrl → Parsed
  failed : Bytes → Parsed
