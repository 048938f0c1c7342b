-- ===== src/Walk/Live.antt =====
-- The count of live descriptors from the read of the root on, whatever the kernel answers.
use scap.Base.{ℕ, ◌+◌, ◌-◌, ◌≤◌, ◌<◌, ◌≡◌, sym, Option, none, some, [], arith}
use scap.Base.Bytes.{Bytes}
use scap.Walk.Sys.{Os, Ctx, Out}
use scap.Walk.Reader.{Reading, read_dir}
use scap.Walk.Workers.{fresh}
use scap.Walk.Descriptors.{parked, IsKept, Keeps, read_dir-Keeps}
use scap.Walk.Parking.{
  Parking, start, Step, load_below, open_child, open_failed, fetch_add, push_job, take_job,
  fetch_sub, Steps, at_first, then_next,
}

-- What holds at every moment for a number of workers and a cap.
pub record IsBounded (workers fd_cap : ℕ) (p : Parking) : Type 0 where
  pub at_work : ((((p.free + p.cleared) + p.opened) + p.added) + p.taken) ≡ workers
  pub counted : p.live_fds ≡ (p.queued + p.added) + p.taken
  pub bounded : (p.live_fds + p.cleared) + p.opened < fd_cap + workers

Step-IsBounded :
    {workers fd_cap : ℕ} {p q : Parking}
    → Step fd_cap p q
    → IsBounded workers fd_cap p
    → IsBounded workers fd_cap q
Step-IsBounded (load_below p free low) h = record {
  at_work = omega (arith, h.at_work);
  counted = omega (arith, h.counted);
  bounded = omega (arith, h.at_work, low);
}
Step-IsBounded (open_child p cleared) h = record {
  at_work = omega (arith, h.at_work);
  counted = omega (arith, h.counted);
  bounded = omega (arith, h.bounded);
}
Step-IsBounded (open_failed p cleared) h = record {
  at_work = omega (arith, h.at_work);
  counted = omega (arith, h.counted);
  bounded = omega (arith, h.bounded);
}
Step-IsBounded (fetch_add p opened) h = record {
  at_work = omega (arith, h.at_work);
  counted = omega (arith, h.counted);
  bounded = omega (arith, h.bounded);
}
Step-IsBounded (push_job p added) h = record {
  at_work = omega (arith, h.at_work);
  counted = omega (arith, h.counted);
  bounded = omega (arith, h.bounded);
}
Step-IsBounded (take_job p queued free) h = record {
  at_work = omega (arith, h.at_work);
  counted = omega (arith, h.counted);
  bounded = omega (arith, h.bounded);
}
Step-IsBounded (fetch_sub p taken) h = record {
  at_work = omega (arith, h.at_work);
  counted = omega (arith, h.counted);
  bounded = omega (arith, h.bounded);
}

Steps-IsBounded :
    {workers fd_cap : ℕ} {p q : Parking}
    → Steps fd_cap p q
    → IsBounded workers fd_cap p
    → IsBounded workers fd_cap q
Steps-IsBounded at_first h = h
Steps-IsBounded (then_next ss s) h = Step-IsBounded s (Steps-IsBounded ss h)

module _ (os : Os) (ctx : Ctx) where
  Keeps-some :
      (r : Reading os) (result : Option (Reading os)) {r' : Reading os}
      → result ≡ some r'
      → Keeps os ctx r result
      → IsKept os ctx r r'
  Keeps-some r none e h = absurd cc
  Keeps-some r (some r'') {r'} e h = let same : r'' ≡ r' = cc in rw (sym same) h

  start-IsBounded :
      (workers : ℕ) (r : Reading os)
      → 0 < workers
      → r.live_fds ≡ parked os ctx r.children
      → r.live_fds ≤ ctx.fd_cap
      → IsBounded workers ctx.fd_cap (start workers (parked os ctx r.children) r.live_fds)
  unfolding start
  start-IsBounded workers r some_workers same low = record {
    at_work = omega arith;
    counted = omega (arith, same);
    bounded = omega (arith, low, some_workers);
  }

  -- Whatever the kernel answers to the read of the root, and however the accesses of the workers to the
  -- count fall between each other, the count is the number of descriptors in queued jobs, in jobs about
  -- to be queued and in jobs just taken. Together with those that are open and not counted yet they are
  -- at most the cap and one less than the number of workers.
  pub live_fds-soft :
      (root : os.Fd) (rel : Bytes) (out : Out) (workers : ℕ) {r : Reading os} {p : Parking}
      → read_dir os ctx root rel (fresh os ctx out [] 0) ≡ some r
      → 0 < workers
      → Steps ctx.fd_cap (start workers (parked os ctx r.children) r.live_fds) p
      → (p.live_fds ≡ (p.queued + p.added) + p.taken)
        × (p.live_fds + p.opened ≤ ctx.fd_cap + (workers - 1))
  live_fds-soft root rel out workers {r} e some_workers ss =
      let kept =
        Keeps-some (fresh os ctx out [] 0) _ e
          (read_dir-Keeps os ctx root rel (fresh os ctx out [] 0)) in
      let h =
        Steps-IsBounded ss
          (start-IsBounded workers r some_workers (omega (arith, kept.0)) (kept.1 (omega arith))) in
      (h.counted, omega (arith, h.bounded, some_workers))
