-- ===== src/Get/Contest.antt =====
-- src/cmd/get.rs: several processes at one destination, a call on the lock file at a time. A file is
-- known by a number, which outlives its name: whoever has it open can lock it after its removal.
use scap.Base.{ℕ, suc, Option, none, some, ◌≡◌, ◌≢◌, if◌then◌else◌, ◌==◌, ◌⊎◌}

-- Where a process stands in `clone_with_lock`, with the file that it has open.
pub data At : Type 0 where
  outside : At
  has_open : ℕ → At
  cloning : ℕ → At
  unlocked : ℕ → At
  left_behind : ℕ → At
  gone : At

pub record Contest : Type 0 where
  pub lock_file : Option ℕ
  pub files : ℕ
  pub at : ℕ → At

abbrev pub moved : (ℕ → At) → ℕ → At → ℕ → At
moved at i a j = if i == j then a else at j

unfoldable pub start : Contest
start = record { lock_file = none; files = 0; at = λ i. outside }

-- A step of process `i`.
pub data Step (c : Contest) : Contest → Type 0 where
  create_lock :
      (i : ℕ)
      → c.at i ≡ outside
      → c.lock_file ≡ none
      → Step c (record {
        lock_file = some c.files;
        files = suc c.files;
        at = moved c.at i (has_open c.files);
      })
  open_lock :
      (i file : ℕ)
      → c.at i ≡ outside
      → c.lock_file ≡ some file
      → Step c (record c { at = moved c.at i (has_open file) })
  locked :
      (i file : ℕ)
      → c.at i ≡ has_open file
      → ((j : ℕ) → c.at j ≢ cloning file)
      → Step c (record c { at = moved c.at i (cloning file) })
  exit_tempfail :
      (i j file : ℕ)
      → c.at i ≡ has_open file
      → c.at j ≡ cloning file
      → Step c (record c { at = moved c.at i gone })
  unlock :
      (i file : ℕ) → c.at i ≡ cloning file → Step c (record c { at = moved c.at i (unlocked file) })
  remove_lock :
      (i file : ℕ)
      → c.at i ≡ unlocked file
      → Step c (record c { lock_file = none; at = moved c.at i gone })
  -- The result of the removal is dropped.
  remove_failed :
      (i file : ℕ)
      → c.at i ≡ unlocked file
      → Step c (record c { at = moved c.at i (left_behind file) })
  -- The end of a process from outside: the kernel drops its lock, and the file stays.
  die :
      (i file : ℕ)
      → (c.at i ≡ has_open file) ⊎ ((c.at i ≡ cloning file) ⊎ (c.at i ≡ unlocked file))
      → Step c (record c { at = moved c.at i (left_behind file) })

pub data Reach : Contest → Type 0 where
  first : Reach start
  next : {c d : Contest} → Reach c → Step c d → Reach d

-- A process that has the file: it has opened it and is not yet through with it, or it has ended
-- without removing it, since it was killed or the removal failed.
pub data Has (file : ℕ) : At → Type 0 where
  opened_it : Has file (has_open file)
  clones : Has file (cloning file)
  unlocked_it : Has file (unlocked file)
  left_it : Has file (left_behind file)

file_in : At → Option ℕ
file_in outside = none
file_in (has_open file) = some file
file_in (cloning file) = some file
file_in (unlocked file) = some file
file_in (left_behind file) = some file
file_in gone = none

-- The file that stands at the path is one that some process has.
abbrev pub IsHeld : Contest → Type 0
IsHeld c = (file : ℕ) → c.lock_file ≡ some file → (i : ℕ) × Has file (c.at i)
