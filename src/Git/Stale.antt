-- ===== src/Git/Stale.antt =====
-- src/vcs/git.rs: the directories that dead processes left next to a destination.
use scap.Base.{
  ℕ, Bool, true, false, not, Option, none, some, List, [], ◌∷◌, ◌++◌, if◌then◌else◌, ◌>>=◌, guard,
  ◌>>◌, ◌==◌,
}
use scap.Base.Bytes.{Bytes, codes, strip_prefix}
use scap.Base.Decimal.{parse_i32}
use scap.Base.Int.{ℤ, pos, negsuc}
use scap.RepoPath.{push}

-- What the kernel answers to a test of a process.
pub data Kill : Type 0 where
  signalable : Kill
  not_permitted : Kill
  no_such_process : Kill

abbrev pub exists_for : Kill → Bool
exists_for signalable = true
exists_for not_permitted = true
exists_for no_such_process = false

module _ (test_kill_process : ℕ → Kill) where
  -- On Unix.
  unfoldable pub pid_is_alive : ℤ → Bool
  pid_is_alive (pos pid) = if pid == 0 then false else exists_for (test_kill_process pid)
  pid_is_alive (negsuc n) = false

  -- The path of an entry that a dead process left, `parent` being the directory that was read.
  abbrev pub left_over : Bytes → Bytes → Bytes → Option Bytes
  left_over parent prefix file_name = strip_prefix prefix file_name >>= λ pid_str.
      parse_i32 pid_str >>= λ pid. guard (not (pid_is_alive pid)) >> some (push parent file_name)

  abbrev pub keep_some : Option Bytes → List Bytes → List Bytes
  keep_some none paths = paths
  keep_some (some path) paths = path ∷ paths

  -- `none` is an entry that could not be read, or whose name is not UTF-8.
  unfoldable pub collect_stale : Bytes → Bytes → List (Option Bytes) → List Bytes
  collect_stale parent prefix [] = []
  collect_stale parent prefix (entry ∷ entries) =
      keep_some (entry >>= left_over parent prefix) (collect_stale parent prefix entries)

  abbrev pub stale_in : Option (List (Option Bytes)) → Bytes → Bytes → List Bytes
  stale_in none parent name = []
  stale_in (some entries) parent name = collect_stale parent (name ++ codes ".tmp-") entries

  -- `read_dir` of the parent; `parent` and `file_name` are those of the destination.
  unfoldable pub stale_tmp_paths :
      (Bytes → Option (List (Option Bytes))) → Option Bytes → Option Bytes → List Bytes
  stale_tmp_paths read_dir none file_name = []
  stale_tmp_paths read_dir (some parent) none = []
  stale_tmp_paths read_dir (some parent) (some name) = stale_in (read_dir parent) parent name
