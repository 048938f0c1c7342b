-- ===== src/Walk/Workers.antt =====
-- src/walk/pool.rs over the reader of src/walk/sys.rs: the workers of one walk, each with its own
-- output, and a turn in which one of them takes any queued directory and reads it. A turn is one step:
-- how the accesses to the count of live descriptors fall between each other is in Walk.Parking.
use scap.Base.{ℕ, suc, ◌≡◌, Option, some, List, [], ◌∷◌, ◌++◌, ◌>>=◌}
use scap.Walk.Sys.{Os, Ctx, Out, new_out, merge_out}
use scap.Walk.Reader.{Job, Reading, run}

module _ (os : Os) (ctx : Ctx) where
  -- The directories on all deques together, and the outputs of the workers.
  pub record Crew : Type 0 where
    pub outs : List Out
    pub queued : List (Job os)
    pub live_fds : ℕ

  abbrev pub fresh : Out → List (Job os) → ℕ → Reading os
  fresh out jobs live_fds = record { out = out; children = jobs; live_fds = live_fds }

  abbrev pub crew : List Out → List (Job os) → ℕ → Crew
  crew outs queued live_fds = record { outs = outs; queued = queued; live_fds = live_fds }

  -- One worker reads one directory and queues what it found there.
  pub data Turn : Crew → Crew → Type 0 where
    read_job :
        (before behind : List Out) (out : Out) (front back : List (Job os)) (job : Job os)
        (live_fds : ℕ) (r : Reading os)
        → run os ctx job (fresh out [] live_fds) ≡ some r
        → Turn
            (crew (before ++ (out ∷ behind)) (front ++ (job ∷ back)) live_fds)
            (crew (before ++ (r.out ∷ behind)) (r.children ++ (front ++ back)) r.live_fds)

  pub data Turns : Crew → Crew → Type 0 where
    none_yet : {c : Crew} → Turns c c
    then_one : {c d e : Crew} → Turns c d → Turn d e → Turns c e

  -- How many turns have been taken.
  abbrev pub taken : {c d : Crew} → Turns c d → ℕ
  taken none_yet = 0
  taken (then_one ts t) = suc (taken ts)

-- `Worker`s with nothing read.
unfoldable pub idle : ℕ → Ctx → List Out
idle ℕ.zero ctx = []
idle (suc n) ctx = new_out ctx.record_index ∷ idle n ctx

-- `for mut part in parts { out.merge(&mut part) }`
unfoldable pub merge_all : Out → List Out → Option Out
merge_all out [] = some out
merge_all out (part ∷ parts) = merge_out out part >>= λ whole. merge_all whole parts
