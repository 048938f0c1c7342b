-- ===== src/Walk/Park.antt =====
-- src/walk/pool.rs: when a worker parks, wakes up and leaves. A worker that has no turn looks for a
-- job, is parked or has left.
use scap.Base.{ℕ, suc, ◌+◌, ◌<◌, ◌≡◌, ◌≢◌, ap, List, [], ◌∷◌, arith, length, length-append}
use scap.Base.Bytes.{Bytes}
use scap.Walk.Pool
use scap.Walk.Pool.{
  Pool, IsCounted, Step-IsCounted, all_owed, all_owed-append, all_owed-zero, length-zero,
  clamp_threads, reading, pushing,
}

pub record Workers : Type 0 where
  pub pool : Pool
  pub looking : ℕ
  pub parked : ℕ
  pub left : ℕ

unfoldable pub start : List Bytes → ℕ → Workers
unfolding Pool.start
start initial threads = record {
  pool = Pool.start initial;
  looking = clamp_threads threads;
  parked = 0;
  left = 0;
}

-- A step of one worker. Whoever takes a job stops looking, and whoever retires one looks again. The
-- wait ends when the worker is notified or after the time.
pub data Step : Workers → Workers → Type 0 where
  works :
      {p q : Pool} (looking looking' parked left : ℕ)
      → Pool.Step p q
      → looking + length p.turns ≡ looking' + length q.turns
      → Step
          (record { pool = p; looking = looking; parked = parked; left = left })
          (record { pool = q; looking = looking'; parked = parked; left = left })
  parks :
      (p : Pool) (looking parked left : ℕ)
      → p.in_flight ≢ 0
      → Step
          (record { pool = p; looking = suc looking; parked = parked; left = left })
          (record { pool = p; looking = looking; parked = suc parked; left = left })
  wakes :
      (p : Pool) (looking parked left : ℕ)
      → Step
          (record { pool = p; looking = looking; parked = suc parked; left = left })
          (record { pool = p; looking = suc looking; parked = parked; left = left })
  leaves :
      (p : Pool) (looking parked left : ℕ)
      → p.in_flight ≡ 0
      → Step
          (record { pool = p; looking = suc looking; parked = parked; left = left })
          (record { pool = p; looking = looking; parked = parked; left = suc left })

pub data Steps : Workers → Workers → Type 0 where
  done : {w : Workers} → Steps w w
  more : {v w x : Workers} → Steps v w → Step w x → Steps v x

-- A step of the pool is about a directory in flight.
Step-busy : {p q : Pool} → Pool.Step p q → 0 < length p.queued + all_owed p.turns
Step-busy (Pool.find_job n front back turns job) = omega (arith, length-append front (job ∷ back))
Step-busy (Pool.count_children n queued front back job children) =
    omega (arith, all_owed-append front (reading job ∷ back))
Step-busy (Pool.push_child n queued front back child children) =
    omega (arith, all_owed-append front (pushing (child ∷ children) ∷ back))
Step-busy (Pool.retire n queued front back) =
    omega (arith, all_owed-append front (pushing [] ∷ back))

record Inv (threads : ℕ) (w : Workers) : Type 0 where
  counted : IsCounted w.pool
  crewed : w.looking + (length w.pool.turns + (w.parked + w.left)) ≡ threads
  over : 0 < w.left → w.pool.in_flight ≡ 0

Step-Inv : {threads : ℕ} {v w : Workers} → Step v w → Inv threads v → Inv threads w
Step-Inv (works looking looking' parked left s same) inv = record {
  counted = Step-IsCounted s inv.counted;
  crewed = omega (arith, inv.crewed, same);
  over = λ h. absurd (omega (arith, Step-busy s, inv.counted, inv.over h));
}
Step-Inv (parks p looking parked left busy) inv = record {
  counted = inv.counted;
  crewed = omega (arith, inv.crewed);
  over = inv.over;
}
Step-Inv (wakes p looking parked left) inv = record {
  counted = inv.counted;
  crewed = omega (arith, inv.crewed);
  over = inv.over;
}
Step-Inv (leaves p looking parked left none_left) inv = record {
  counted = inv.counted;
  crewed = omega (arith, inv.crewed);
  over = λ h. none_left;
}

Steps-Inv : {threads : ℕ} {v w : Workers} → Steps v w → Inv threads v → Inv threads w
Steps-Inv done inv = inv
Steps-Inv (more s t) inv = Step-Inv t (Steps-Inv s inv)

-- Once a worker of a pool has left, in any interleaving, nothing is queued and no worker is at a turn,
-- so that no directory is left unread: the others are looking for a job, parked or gone.
pub Steps-left :
    (initial : List Bytes) (threads : ℕ) {w : Workers}
    → Steps (start initial threads) w
    → 0 < w.left
    → (w.pool.queued ≡ [])
      × (w.pool.turns ≡ [])
      × (w.looking + (w.parked + w.left) ≡ clamp_threads threads)
unfolding start Pool.start
Steps-left initial threads {w} s h =
    let first : Inv (clamp_threads threads) (start initial threads) = record {
      counted = omega arith;
      crewed = omega arith;
      over = λ h. absurd (omega (arith, h));
    } in
    let inv = Steps-Inv s first in
    let idle = all_owed-zero w.pool.turns (omega (arith, inv.counted, inv.over h)) in
    (
      length-zero w.pool.queued (omega (arith, inv.counted, inv.over h)),
      idle,
      omega (arith, inv.crewed, ap length idle),
    )
