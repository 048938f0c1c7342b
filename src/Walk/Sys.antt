-- ===== src/Walk/Sys.antt =====
-- src/walk/sys.rs: the directory reader. The kernel's answers are the fields of `Os`; a descriptor is
-- whatever that kernel hands out. `none` is a panic.
use scap.Base.{
  ℕ, suc, ◌+◌, ◌-◌, ◌*◌, ◌^◌, Bool, true, false, ◌||◌, Option, none, some, List, [], ◌∷◌, ◌++◌, ltb,
  leb, if◌then◌else◌, is_empty, any, ◌>>=◌,
}
use scap.Base.Int.{ℤ, pos, negsuc}
use scap.Base.Bytes.{Bytes, codes, bytes_eq, contains}
use scap.Walk.{Record}
use scap.Walk
use scap.Walk.Arena.{Arena, no_paths}
use scap.Walk.Arena
use scap.Walk.Entries.{FileType, Kind}

pub data Errno : Type 0 where
  noent notdir loop mfile nfile acces perm io : Errno

pub data Answer (X : Type 0) : Type 0 where
  failed : Errno → Answer X
  got : X → Answer X

-- A directory stream: it cannot be made, it breaks off, it has lost its descriptor, or it is read to
-- its end.
pub data Stream : Type 0 where
  not_opened : Errno → Stream
  broken : List (Bytes × FileType) → Errno → Stream
  no_descriptor : List (Bytes × FileType) → Stream
  whole : List (Bytes × FileType) → Stream

-- The seconds and nanoseconds of `fstat`, each with its width on the platform.
pub record Mtime : Type 0 where
  pub st_mtime : ℤ
  pub st_mtime_nsec : ℤ

pub record Os : Type 1 where
  pub Fd : Type 0
  pub open_rel : Bytes → Answer Fd
  pub open_child : Fd → Bytes → Answer Fd
  pub read_dir : Fd → Stream
  pub fstat : Fd → Option Mtime
  pub lstat : Fd → Bytes → Answer FileType
  pub stat : Fd → Bytes → Answer FileType

pub data DetectStrategy : Type 0 where
  open_scan stat_first : DetectStrategy

abbrev pub is_stat_first : DetectStrategy → Bool
is_stat_first open_scan = false
is_stat_first stat_first = true

-- `live_fds` is in the state of a run.
pub record Ctx : Type 0 where
  pub exclude : List (Bytes → Bool)
  pub detect : DetectStrategy
  pub record_index : Bool
  pub fd_cap : ℕ

pub record Out : Type 0 where
  pub arena : Arena
  pub dirs_read : ℕ
  pub excluded : ℕ
  pub records : List Record
  pub incomplete : Bool
  pub record_index : Bool

unfoldable pub new_out : Bool → Out
new_out record_index = record {
  arena = no_paths;
  dirs_read = 0;
  excluded = 0;
  records = [];
  incomplete = false;
  record_index = record_index;
}

abbrev pub shown_rel : Bytes → Bytes
shown_rel rel = if is_empty rel then codes "." else rel

-- The output behind a path that the arena has taken.
abbrev pub with_repo : Arena → Bytes → Out → Out
with_repo arena rel out = record out {
  arena = arena;
  records = if out.record_index then out.records ++ (Walk.repo rel ∷ []) else out.records;
}

unfoldable pub emit : Bytes → Out → Option Out
emit rel out = Arena.push out.arena (shown_rel rel) >>= λ arena. some (with_repo arena rel out)

abbrev pub note_incomplete : Out → Out
note_incomplete out = record out { incomplete = true }

abbrev pub note_dir : Bytes → ℤ → Out → Out
note_dir rel mtime out = record out {
  records = if out.record_index then out.records ++ (Walk.dir rel mtime ∷ []) else out.records;
}

-- The output of `other` behind that of `out`.
unfoldable pub merge_out : Out → Out → Option Out
merge_out out other = Arena.merge out.arena other.arena >>= λ arena. some (record out {
  arena = arena;
  dirs_read = out.dirs_read + other.dirs_read;
  excluded = out.excluded + other.excluded;
  records = out.records ++ other.records;
  incomplete = out.incomplete || other.incomplete;
})

abbrev pub never_valid : ℤ
never_valid = negsuc (2 ^ 63 - 1)

-- `try_into::<i64>().ok()`
unfoldable pub widen : ℤ → Option ℤ
widen (pos n) = if ltb n (2 ^ 63) then some (pos n) else none
widen (negsuc n) = if ltb n (2 ^ 63) then some (negsuc n) else none

-- The next i64: `saturating_mul` and `saturating_add` give this for a result out of range.
abbrev pub saturated : ℤ → ℤ
saturated (pos n) = if ltb n (2 ^ 63) then pos n else pos (2 ^ 63 - 1)
saturated (negsuc n) = if ltb n (2 ^ 63) then negsuc n else negsuc (2 ^ 63 - 1)

abbrev pub times_nano : ℤ → ℤ
times_nano (pos n) = pos (n * 1000000000)
times_nano (negsuc n) = negsuc (suc n * 1000000000 - 1)

abbrev pub add : ℤ → ℤ → ℤ
add (pos a) (pos b) = pos (a + b)
add (pos a) (negsuc b) = if leb (suc b) a then pos (a - suc b) else negsuc (b - a)
add (negsuc a) (pos b) = if leb (suc a) b then pos (b - suc a) else negsuc (a - b)
add (negsuc a) (negsuc b) = negsuc (suc (a + b))

abbrev or_else : Option ℤ → ℤ → ℤ
or_else none z = z
or_else (some y) z = y

unfoldable pub mtime_ns : Mtime → ℤ
mtime_ns stat = saturated (
    add (saturated (times_nano (or_else (widen stat.st_mtime) never_valid)))
      (or_else (widen stat.st_mtime_nsec) (pos 0)))

unfoldable pub drops_a_subtree : Errno → Bool
drops_a_subtree noent = false
drops_a_subtree notdir = false
drops_a_subtree loop = false
drops_a_subtree _ = true

unfoldable pub is_excluded : List (Bytes → Bool) → Bytes → Bool
is_excluded patterns rel = any (λ pattern. pattern rel) patterns

unfoldable pub join_rel : Bytes → Bytes → Bytes
join_rel rel name = if is_empty rel then name else rel ++ (codes "/" ++ name)

-- The parts in one C string; an inner NUL ends the program.
unfoldable pub cstr : Bytes → Option Bytes
cstr bytes = if contains 0 bytes then none else some bytes

abbrev pub is_got : {X : Type 0} → Answer X → Bool
is_got (failed e) = false
is_got (got x) = true

abbrev pub is_directory : FileType → Bool
is_directory FileType.directory = true
is_directory _ = false

-- What the first entry `.git` says: one that is typed and no link is there for certain.
abbrev pub decides : Bool → Kind → Bool
decides is_there Kind.symlink = is_there
decides is_there Kind.unknown = is_there
decides is_there Kind.dir = true
decides is_there Kind.other = true

unfoldable pub is_repo_dir : List (Bytes × Kind) → Bool → Bool
is_repo_dir [] is_there = false
is_repo_dir (e ∷ es) is_there =
    let rest = is_repo_dir es is_there in
    if bytes_eq e.0 (codes ".git") then decides is_there e.1 else rest
