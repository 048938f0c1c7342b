-- ===== src/Witness/Pools.antt =====
-- The queues and the workers of a walk.
use scap.Base.{ℕ, ◌+◌, ◌≡◌, refl, ap, arith, Option, none, some, List, [], ◌∷◌}
use scap.Base.Bytes.{codes}
use scap.Walk.Jobs.{Steals, sum, Queues, find_job, IsAccounted, find_job-IsAccounted}
use scap.Walk.Park.{Workers, start, works, parks, leaves, Steps, done, more, Steps-left}
use scap.Walk.Pool
use scap.Walk.Pool.{clamp_threads}

-- A library that steals one job at a time.
abbrev steal_one : List ℕ → List ℕ → Option (ℕ × List ℕ × List ℕ)
steal_one [] into = none
steal_one (x ∷ from) into = some (x, from, into)

steal_one-kept :
    (g : ℕ → ℕ) (from into : List ℕ) (job : ℕ) (from' into' : List ℕ)
    → steal_one from into ≡ some (job, from', into')
    → g job + (sum g from' + sum g into') ≡ sum g from + sum g into
steal_one-kept g [] into job from' into' h = absurd cc
steal_one-kept g (x ∷ from) into job from' into' h =
    let same_job : x ≡ job = cc in
    let same_from : from ≡ from' = cc in
    let same_into : into ≡ into' = cc in
    omega (arith, ap g same_job, ap (sum g) same_from, ap (sum g) same_into)

steal_one-empty : (from into : List ℕ) → steal_one from into ≡ none → from ≡ []
steal_one-empty [] into h = refl
steal_one-empty (x ∷ from) into h = absurd cc

abbrev one_at_a_time : Steals ℕ
one_at_a_time = record { steal = steal_one; only_empty = steal_one-empty; kept = steal_one-kept }

-- Worker 0 has nothing, and worker 1 has two jobs.
abbrev two_queues : Queues ℕ
two_queues = record { local = []; injector = []; stealers = [] ∷ (7 ∷ 8 ∷ []) ∷ [] }

find_job-IsAccounted_example :
    IsAccounted one_at_a_time 0 (λ job. 1) two_queues (find_job one_at_a_time 0 two_queues)
find_job-IsAccounted_example = find_job-IsAccounted one_at_a_time 0 (λ job. 1) two_queues

-- Two workers and one directory: the second parks until the first is through, and the first leaves.
one_left : (w : Workers) × Steps (start (codes "d" ∷ []) 2) w × (w.left ≡ 1)
unfolding start Pool.start clamp_threads
one_left =
    let job = codes "d" in
    let a = more done (works 2 1 0 0 (Pool.find_job 1 [] [] [] job) refl) in
    let b = more a (parks _ 0 0 0 (omega arith)) in
    let c = more b (works 0 0 1 0 (Pool.count_children 1 [] [] [] job []) refl) in
    let d = more c (works 0 1 1 0 (Pool.retire 1 [] [] []) refl) in
    (_, more d (leaves _ 0 1 0 refl), refl)

Steps-left_example :
    (one_left.0.pool.queued ≡ [])
    × (one_left.0.pool.turns ≡ [])
    × (one_left.0.looking + (one_left.0.parked + one_left.0.left) ≡ clamp_threads 2)
Steps-left_example = Steps-left (codes "d" ∷ []) 2 one_left.1 (omega (arith, one_left.2))
