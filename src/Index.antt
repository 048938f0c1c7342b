-- ===== src/Index.antt =====
-- src/index.rs: the opt-in repository index. This file has its data; the children have the byte
-- cursor, the file format, the validation pass and the file's life on disk.
pub mod Word
pub mod Reader
pub mod Codec
pub mod Tree
pub mod Layout
pub mod RoundTrip
pub mod Yields
pub mod Sound
pub mod Validate
pub mod Build
pub mod Cache
pub mod Write
use scap.Base.{ℕ, Bool, true, false, Option, none, some, List}
use scap.Base.Int.{ℤ}
use scap.Base.Bytes.{Bytes}

-- `list`'s use of the index.
pub data Mode : Type 0 where
  off on check : Mode

-- One remembered directory, or a repository where there is no mtime.
pub record Entry : Type 0 where
  pub rel : Bytes
  pub mtime_ns : Option ℤ
  pub children : List ℕ

abbrev pub is_repo : Entry → Bool
is_repo e = elim e.mtime_ns [ none ↦ true | some _ ↦ false ]

pub record Index : Type 0 where
  pub root : Bytes
  pub dev : ℕ
  pub ino : ℕ
  pub written_ns : ℤ
  pub exclude : List Bytes
  pub entries : List Entry

pub data Probe : Type 0 where
  dir : ℤ → Probe
  repo : Probe
  stale : Probe
