-- ===== src/Get/Crew.antt =====
-- src/cmd/get.rs: the workers of `get --parallel`, in any interleaving. A worker takes a target, or
-- leaves once the queue is empty; what becomes of a target is left open, the end of the process that
-- a lock held by another process brings about among it.
pub mod Ends
use scap.Base.{
  ℕ, zero, suc, ◌+◌, ◌*◌, ◌≤◌, ◌<◌, Bool, true, false, List, [], ◌∷◌, ◌++◌, ◌≡◌, ◌≢◌, refl, sym, ap,
  ◌∙◌, length, length-append, append_assoc, append-nil, arith, ltb, if◌then◌else◌,
}
use scap.Base.Bytes.{Bytes}
use mathlib.Core.List.{reverse}

abbrev pub parallel_workers : ℕ
parallel_workers = 6

abbrev pub min : ℕ → ℕ → ℕ
min a b = if ltb b a then b else a

-- `PARALLEL_WORKERS.min(targets.len()).max(1)`
unfoldable pub workers_for : List Bytes → ℕ
workers_for targets = let n = min parallel_workers (length targets) in if ltb n 1 then 1 else n

-- `idle` workers stand at the head of their loop, `left` ones have left it. `started` and `ended`
-- record the targets that were taken, in order, and those whose processing returned.
pub record Crew : Type 0 where
  pub queue : List Bytes
  pub idle : ℕ
  pub busy : List Bytes
  pub left : ℕ
  pub started : List Bytes
  pub ended : List Bytes

unfoldable pub start : List Bytes → Crew
start targets = record {
  queue = reverse targets;
  idle = workers_for targets;
  busy = [];
  left = 0;
  started = [];
  ended = [];
}

-- A step as long as the process runs.
pub data Step : Crew → Crew → Type 0 where
  take :
      (queue : List Bytes) (target : Bytes) (idle : ℕ) (busy : List Bytes) (left : ℕ)
      (started ended : List Bytes)
      → Step
          (record {
            queue = queue ++ (target ∷ []);
            idle = suc idle;
            busy = busy;
            left = left;
            started = started;
            ended = ended;
          })
          (record {
            queue = queue;
            idle = idle;
            busy = target ∷ busy;
            left = left;
            started = started ++ (target ∷ []);
            ended = ended;
          })
  process :
      (queue : List Bytes) (idle : ℕ) (front : List Bytes) (target : Bytes) (back : List Bytes)
      (left : ℕ) (started ended : List Bytes)
      → Step
          (record {
            queue = queue;
            idle = idle;
            busy = front ++ (target ∷ back);
            left = left;
            started = started;
            ended = ended;
          })
          (record {
            queue = queue;
            idle = suc idle;
            busy = front ++ back;
            left = left;
            started = started;
            ended = target ∷ ended;
          })
  leave :
      (idle : ℕ) (busy : List Bytes) (left : ℕ) (started ended : List Bytes)
      → Step
          (record {
            queue = [];
            idle = suc idle;
            busy = busy;
            left = left;
            started = started;
            ended = ended;
          })
          (record {
            queue = [];
            idle = idle;
            busy = busy;
            left = suc left;
            started = started;
            ended = ended;
          })

pub data Steps : ℕ → Crew → Crew → Type 0 where
  done : {c : Crew} → Steps 0 c c
  more : {n : ℕ} {c d e : Crew} → Steps n c d → Step d e → Steps (suc n) c e
