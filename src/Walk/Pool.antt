-- ===== src/Walk/Pool.antt =====
-- src/walk/pool.rs: the workers of one walk. The deques and the injector together are one list, from
-- which any job can be taken; a worker's turn is taken apart where another one can come between.
use scap.Base.{
  ℕ, suc, ◌+◌, ◌-◌, ◌≡◌, ◌≢◌, ◌∙◌, refl, List, [], ◌∷◌, ◌++◌, arith, length, length-append,
  if◌then◌else◌, ltb,
}
use scap.Base.Bytes.{Bytes}

abbrev pub max_threads : ℕ
max_threads = 64

-- `threads.clamp(1, MAX_THREADS)`
unfoldable pub clamp_threads : ℕ → ℕ
clamp_threads n = if ltb n 1 then 1 else if ltb max_threads n then max_threads else n

-- What a worker is at: it reads a directory, or has counted its children and pushes them.
pub data Turn : Type 0 where
  reading : Bytes → Turn
  pushing : List Bytes → Turn

pub record Pool : Type 0 where
  pub in_flight : ℕ
  pub queued : List Bytes
  pub turns : List Turn

unfoldable pub start : List Bytes → Pool
start initial = record { in_flight = length initial; queued = initial; turns = [] }

-- One step of one worker. A read answers with any list of children.
pub data Step : Pool → Pool → Type 0 where
  find_job :
      (n : ℕ) (front back : List Bytes) (turns : List Turn) (job : Bytes)
      → Step
          (record { in_flight = n; queued = front ++ (job ∷ back); turns = turns })
          (record { in_flight = n; queued = front ++ back; turns = reading job ∷ turns })
  count_children :
      (n : ℕ) (queued : List Bytes) (front back : List Turn) (job : Bytes) (children : List Bytes)
      → Step
          (record { in_flight = n; queued = queued; turns = front ++ (reading job ∷ back) })
          (record {
            in_flight = n + length children;
            queued = queued;
            turns = front ++ (pushing children ∷ back);
          })
  push_child :
      (n : ℕ) (queued : List Bytes) (front back : List Turn) (child : Bytes) (children : List Bytes)
      → Step
          (record {
            in_flight = n;
            queued = queued;
            turns = front ++ (pushing (child ∷ children) ∷ back);
          })
          (record {
            in_flight = n;
            queued = child ∷ queued;
            turns = front ++ (pushing children ∷ back);
          })
  retire :
      (n : ℕ) (queued : List Bytes) (front back : List Turn)
      → Step
          (record { in_flight = n; queued = queued; turns = front ++ (pushing [] ∷ back) })
          (record { in_flight = n - 1; queued = queued; turns = front ++ back })

pub data Steps : Pool → Pool → Type 0 where
  done : {p : Pool} → Steps p p
  more : {p q r : Pool} → Steps p q → Step q r → Steps p r

-- The directories that a turn still has to answer for: its own, and those it has counted.
abbrev pub owed : Turn → ℕ
owed (reading job) = 1
owed (pushing children) = suc (length children)

abbrev pub all_owed : List Turn → ℕ
all_owed [] = 0
all_owed (t ∷ ts) = owed t + all_owed ts

abbrev pub IsCounted : Pool → Type 0
IsCounted p = p.in_flight ≡ length p.queued + all_owed p.turns

pub all_owed-append : (ts us : List Turn) → all_owed (ts ++ us) ≡ all_owed ts + all_owed us
all_owed-append [] us = omega arith
all_owed-append (t ∷ ts) us = omega (arith, all_owed-append ts us)

pub Step-IsCounted : {p q : Pool} → Step p q → IsCounted p → IsCounted q
Step-IsCounted (find_job n front back turns job) h =
    omega (arith, h, length-append front (job ∷ back), length-append front back)
Step-IsCounted (count_children n queued front back job children) h = omega (
  arith,
  h,
  all_owed-append front (reading job ∷ back),
  all_owed-append front (pushing children ∷ back),
)
Step-IsCounted (push_child n queued front back child children) h = omega (
  arith,
  h,
  all_owed-append front (pushing (child ∷ children) ∷ back),
  all_owed-append front (pushing children ∷ back),
)
Step-IsCounted (retire n queued front back) h =
    omega (arith, h, all_owed-append front (pushing [] ∷ back), all_owed-append front back)

pub Steps-IsCounted : {p q : Pool} → Steps p q → IsCounted p → IsCounted q
Steps-IsCounted done h = h
Steps-IsCounted (more s t) h = Step-IsCounted t (Steps-IsCounted s h)

pub length-zero : (xs : List Bytes) → length xs ≡ 0 → xs ≡ []
length-zero [] h = refl
length-zero (x ∷ xs) h = absurd (omega (arith, h))

pub all_owed-zero : (ts : List Turn) → all_owed ts ≡ 0 → ts ≡ []
all_owed-zero [] h = refl
all_owed-zero (reading job ∷ ts) h = absurd (omega (arith, h))
all_owed-zero (pushing children ∷ ts) h = absurd (omega (arith, h))

-- The test on which a worker leaves, `in_flight == 0`, holds only when no directory is queued and
-- no worker is at one, whatever the interleaving and whatever the directories hold.
pub in_flight-zero :
    (initial : List Bytes) {p : Pool}
    → Steps (start initial) p
    → p.in_flight ≡ 0
    → (p.queued ≡ []) × (p.turns ≡ [])
unfolding start
in_flight-zero initial {p} s h =
    let counted : IsCounted p = Steps-IsCounted s (omega arith) in
    (
      length-zero p.queued (omega (arith, counted, h)),
      all_owed-zero p.turns (omega (arith, counted, h)),
    )

-- A turn, whatever it is at, can go on.
turn-Step :
    (n : ℕ) (queued : List Bytes) (turn : Turn) (turns : List Turn)
    → (q : Pool) × Step (record { in_flight = n; queued = queued; turns = turn ∷ turns }) q
turn-Step n queued (reading job) turns = (_, count_children n queued [] turns job [])
turn-Step n queued (pushing []) turns = (_, retire n queued [] turns)
turn-Step n queued (pushing (child ∷ children)) turns =
    (_, push_child n queued [] turns child children)

pool-Step :
    (n : ℕ) (queued : List Bytes) (turns : List Turn)
    → length queued + all_owed turns ≢ 0
    → (q : Pool) × Step (record { in_flight = n; queued = queued; turns = turns }) q
pool-Step n [] [] h = absurd (h (omega arith))
pool-Step n [] (turn ∷ turns) h = turn-Step n [] turn turns
pool-Step n (job ∷ queued) turns h = (_, find_job n [] queued turns job)

-- As long as a directory is in flight, whatever the interleaving so far, some worker has a step to
-- take: no walk is stuck.
pub in_flight-Step :
    (initial : List Bytes) {p : Pool}
    → Steps (start initial) p
    → p.in_flight ≢ 0
    → (q : Pool) × Step p q
unfolding start
in_flight-Step initial {p} s h =
    let counted : IsCounted p = Steps-IsCounted s (omega arith) in
    pool-Step p.in_flight p.queued p.turns (λ e. h (counted ∙ e))
