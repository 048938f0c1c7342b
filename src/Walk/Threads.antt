-- ===== src/Walk/Threads.antt =====
-- The number of worker threads that `SCAP_LIST_THREADS` selects.
use scap.Base.{ℕ, ◌≤◌, ◌≡◌, ◌&&◌, Option, none, some, leb, is_empty, arith, Bool-cases, inl, inr}
use scap.Base.Bytes.{Bytes}
use scap.Walk.Pool.{clamp_threads, max_threads}
use scap.Walk.Drive.{parse_threads, parse_usize, in_range, selected}

abbrev IsThreads : ℕ → Type 0
IsThreads n = (1 ≤ n) × (n ≤ max_threads)

in_range-IsThreads : (n : ℕ) → IsThreads (in_range n)
in_range-IsThreads n = elim (Bool-cases (leb 1 n && leb n max_threads)) [
  | inl e ↦ rw e (ground (arith, e), ground (arith, e))
  | inr e ↦ rw e (omega arith, omega arith)
]

selected-IsThreads : (parsed : Option ℕ) → IsThreads (selected parsed)
selected-IsThreads none = (omega arith, omega arith)
selected-IsThreads (some n) = in_range-IsThreads n

parse_threads-IsThreads : (value : Option Bytes) → IsThreads (parse_threads value)
unfolding parse_threads
parse_threads-IsThreads none = (omega arith, omega arith)
parse_threads-IsThreads (some value) = elim (Bool-cases (is_empty value)) [
  | inl e ↦ rw e (omega arith, omega arith)
  | inr e ↦ rw e (selected-IsThreads (parse_usize value))
]

-- Whatever the variable holds, from one to 64 threads are selected, and the pool's clamp leaves that
-- number as it is.
pub parse_threads-clamp_threads :
    (value : Option Bytes)
    → (1 ≤ parse_threads value)
      × (parse_threads value ≤ max_threads)
      × (clamp_threads (parse_threads value) ≡ parse_threads value)
unfolding clamp_threads
parse_threads-clamp_threads value =
    let h = parse_threads-IsThreads value in (h.0, h.1, ground (arith, h))
