-- ===== src/Walk/Parking.antt =====
-- src/walk/sys.rs, `queue_child` and `Walker::run`: the count of live descriptors under workers whose
-- checks, opens and updates of the count fall between each other in any order.
use scap.Base.{ℕ, suc, ◌-◌, ◌<◌}

-- How many workers stand where, the count, and the queued jobs that hold a descriptor. `cleared` ones
-- have found the count below the cap, `opened` ones have a descriptor that is not counted yet, `added`
-- ones have counted it and not yet queued it, and `taken` ones hold the descriptor of a job that is
-- still counted. All others are `free`.
pub record Parking : Type 0 where
  pub live_fds : ℕ
  pub queued : ℕ
  pub free : ℕ
  pub cleared : ℕ
  pub opened : ℕ
  pub added : ℕ
  pub taken : ℕ

-- The workers start with what the read of the root has queued and counted.
unfoldable pub start : ℕ → ℕ → ℕ → Parking
start workers queued live_fds = record {
  live_fds = live_fds;
  queued = queued;
  free = workers;
  cleared = 0;
  opened = 0;
  added = 0;
  taken = 0;
}

-- One worker's next access. A child that is queued by its path, and a job without a descriptor, change
-- nothing here.
pub data Step (fd_cap : ℕ) : Parking → Parking → Type 0 where
  load_below :
      (p : Parking) (free : ℕ)
      → p.live_fds < fd_cap
      → Step fd_cap
          (record p { free = suc free })
          (record p { free = free; cleared = suc p.cleared })
  open_child :
      (p : Parking) (cleared : ℕ)
      → Step fd_cap
          (record p { cleared = suc cleared })
          (record p { cleared = cleared; opened = suc p.opened })
  open_failed :
      (p : Parking) (cleared : ℕ)
      → Step fd_cap
          (record p { cleared = suc cleared })
          (record p { cleared = cleared; free = suc p.free })
  fetch_add :
      (p : Parking) (opened : ℕ)
      → Step fd_cap
          (record p { opened = suc opened })
          (record p { opened = opened; live_fds = suc p.live_fds; added = suc p.added })
  push_job :
      (p : Parking) (added : ℕ)
      → Step fd_cap
          (record p { added = suc added })
          (record p { added = added; queued = suc p.queued; free = suc p.free })
  take_job :
      (p : Parking) (queued free : ℕ)
      → Step fd_cap
          (record p { queued = suc queued; free = suc free })
          (record p { queued = queued; free = free; taken = suc p.taken })
  fetch_sub :
      (p : Parking) (taken : ℕ)
      → Step fd_cap
          (record p { taken = suc taken })
          (record p { taken = taken; live_fds = p.live_fds - 1; free = suc p.free })

pub data Steps (fd_cap : ℕ) : Parking → Parking → Type 0 where
  at_first : {p : Parking} → Steps fd_cap p p
  then_next : {p q r : Parking} → Steps fd_cap p q → Step fd_cap q r → Steps fd_cap p r
