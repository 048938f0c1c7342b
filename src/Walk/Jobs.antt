-- ===== src/Walk/Jobs.antt =====
-- src/walk/pool.rs: `find_job`, over the queues of the workers and the queue of the first jobs. What
-- `steal_batch_and_pop` takes is left to the library of the deques; a `Retry` leaves all as it is.
use scap.Base.{
  ℕ, suc, ◌+◌, false, Option, none, some, List, [], ◌∷◌, ◌≡◌, refl, sym, inl, inr, Bool-cases,
  Option-cases, if◌then◌else◌, ◌==◌, arith,
}

module _ {A : Type 0} where
  abbrev pub sum : (A → ℕ) → List A → ℕ
  sum g [] = 0
  sum g (x ∷ xs) = g x + sum g xs

-- `steal_batch_and_pop` from one queue into another: nothing from an empty one, and otherwise one job
-- is handed out and the others are in either queue.
pub record Steals (A : Type 0) : Type 0 where
  pub steal : List A → List A → Option (A × List A × List A)
  pub only_empty : (from into : List A) → steal from into ≡ none → from ≡ []
  pub kept :
      (g : A → ℕ) (from into : List A) (job : A) (from' into' : List A)
      → steal from into ≡ some (job, from', into')
      → g job + (sum g from' + sum g into') ≡ sum g from + sum g into

-- The queues as worker `me` sees them. The list has the queue of every worker; that of `me` is `local`.
pub record Queues (A : Type 0) : Type 0 where
  pub local : List A
  pub injector : List A
  pub stealers : List (List A)

module _ {A : Type 0} (s : Steals A) (me : ℕ) where
  abbrev stolen_or :
      List (List A)
      → Option (A × List A × List (List A))
      → Option (A × List A × List A)
      → Option (A × List A × List (List A))
  stolen_or rest later none = later
  stolen_or rest later (some (job, from, into)) = some (job, into, from ∷ rest)

  abbrev keep_front :
      List A → Option (A × List A × List (List A)) → Option (A × List A × List (List A))
  keep_front queue none = none
  keep_front queue (some (job, into, rest)) = some (job, into, queue ∷ rest)

  -- `for (i, stealer) in stealers.iter().enumerate()`: the job, the worker's own queue and the others.
  unfoldable pub steal_from : ℕ → List A → List (List A) → Option (A × List A × List (List A))
  steal_from i local [] = none
  steal_from i local (queue ∷ rest) =
      let later = keep_front queue (steal_from (suc i) local rest) in
      if i == me then later else stolen_or rest later (s.steal queue local)

  abbrev from_stealers : Queues A → Option (A × List A × List (List A)) → Option (A × Queues A)
  from_stealers q none = none
  from_stealers q (some (job, into, rest)) = some (job, record q { local = into; stealers = rest })

  abbrev from_injector : Queues A → Option (A × List A × List A) → Option (A × Queues A)
  from_injector q none = from_stealers q (steal_from 0 q.local q.stealers)
  from_injector q (some (job, from, into)) = some (job, record q { local = into; injector = from })

  abbrev pop_local : Queues A → List A → Option (A × Queues A)
  pop_local q [] = from_injector q (s.steal q.injector q.local)
  pop_local q (job ∷ rest) = some (job, record q { local = rest })

  -- The worker's own queue first, from the end that it pushes to, here the head.
  unfoldable pub find_job : Queues A → Option (A × Queues A)
  find_job q = pop_local q q.local

  -- All jobs that worker `me` can get at, counted by any measure.
  abbrev pub others : (A → ℕ) → ℕ → List (List A) → ℕ
  others g i [] = 0
  others g i (queue ∷ rest) =
      let later = others g (suc i) rest in if i == me then later else sum g queue + later

  abbrev pub all_jobs : (A → ℕ) → Queues A → ℕ
  all_jobs g q = sum g q.local + (sum g q.injector + others g 0 q.stealers)

  no_job : {B : Type 0} {t : B} → none ≡ some t → ⊥
  no_job h = cc

  job_inj : {B : Type 0} {t u : B} → some t ≡ some u → t ≡ u
  job_inj h = cc

  -- A queue that is passed over stays as it is.
  keep_front-kept :
      (g : A → ℕ) (i : ℕ) (local queue : List A) (more : List (List A))
      (u : A × List A × List (List A)) {t : A × List A × List (List A)}
      → g u.0 + (sum g u.1 + others g (suc i) u.2) ≡ sum g local + others g (suc i) more
      → keep_front queue (some u) ≡ some t
      → g t.0 + (sum g t.1 + others g i t.2) ≡ sum g local + others g i (queue ∷ more)
  keep_front-kept g i local queue more u {t} ih h =
      let same = job_inj {B = A × List A × List (List A)} {u = t} h in
      rw (sym same) (elim (Bool-cases (i == me)) [
        | inl own ↦ rw own ih
        | inr other ↦ rw other (omega (arith, ih))
      ])

  stolen-kept :
      (g : A → ℕ) (i : ℕ) (local queue : List A) (more : List (List A)) (p : A × List A × List A)
      {t : A × List A × List (List A)}
      → (i == me) ≡ false
      → s.steal queue local ≡ some p
      → some (p.0, p.2, p.1 ∷ more) ≡ some t
      → g t.0 + (sum g t.1 + others g i t.2) ≡ sum g local + others g i (queue ∷ more)
  stolen-kept g i local queue more p {t} other e h =
      let same = job_inj {B = A × List A × List (List A)} {u = t} h in
      rw (sym same, other) (omega (arith, s.kept g queue local p.0 p.1 p.2 e))

  steal_from-kept :
      (g : A → ℕ) (i : ℕ) (local : List A) (queues : List (List A)) {t : A × List A × List (List A)}
      → steal_from i local queues ≡ some t
      → g t.0 + (sum g t.1 + others g i t.2) ≡ sum g local + others g i queues
  unfolding steal_from
  steal_from-kept g i local [] h = absurd (no_job h)
  steal_from-kept g i local (queue ∷ more) {t} h =
      elim (Option-cases (steal_from (suc i) local more)) [
        | inl none_later ↦ elim (Bool-cases (i == me)) [
          | inl own ↦ absurd (no_job (rw (own, none_later) at h))
          | inr other ↦ elim (Option-cases (s.steal queue local)) [
            | inl e ↦ absurd (no_job (rw (other, e, none_later) at h))
            | inr (p, e) ↦ stolen-kept g i local queue more p other e (rw (other, e) at h)
          ]
        ]
        | inr (u, found) ↦
            let ih = steal_from-kept g (suc i) local more found in
            elim (Bool-cases (i == me)) [
              | inl own ↦ keep_front-kept g i local queue more u ih (rw (own, found) at h)
              | inr other ↦ elim (Option-cases (s.steal queue local)) [
                | inl e ↦ keep_front-kept g i local queue more u ih (rw (other, e, found) at h)
                | inr (p, e) ↦ stolen-kept g i local queue more p other e (rw (other, e) at h)
              ]
            ]
      ]

  -- Where nothing can be stolen, the others have nothing.
  steal_from-none :
      (g : A → ℕ) (i : ℕ) (local : List A) (queues : List (List A))
      → steal_from i local queues ≡ none
      → others g i queues ≡ 0
  unfolding steal_from
  steal_from-none g i local [] h = refl
  steal_from-none g i local (queue ∷ more) h = elim (Option-cases (steal_from (suc i) local more)) [
    | inr (u, found) ↦ elim (Bool-cases (i == me)) [
      | inl own ↦ absurd (no_job (sym (rw (own, found) at h)))
      | inr other ↦ elim (Option-cases (s.steal queue local)) [
        | inl e ↦ absurd (no_job (sym (rw (other, e, found) at h)))
        | inr (p, e) ↦ absurd (no_job (sym (rw (other, e) at h)))
      ]
    ]
    | inl none_later ↦
        let rest = steal_from-none g (suc i) local more none_later in
        elim (Bool-cases (i == me)) [
          | inl own ↦ rw own rest
          | inr other ↦ elim (Option-cases (s.steal queue local)) [
            | inl e ↦ rw (other, s.only_empty queue local e) (omega (arith, rest))
            | inr (p, e) ↦ absurd (no_job (sym (rw (other, e) at h)))
          ]
        ]
  ]

  -- What was there before is the job and what is there behind it, or there was nothing.
  abbrev pub IsAccounted : (A → ℕ) → Queues A → Option (A × Queues A) → Type 0
  IsAccounted g q none = all_jobs g q ≡ 0
  IsAccounted g q (some t) = g t.0 + all_jobs g t.1 ≡ all_jobs g q

  IsAccounted-from_stealers :
      (g : A → ℕ) (injector : List A) (stealers : List (List A))
      → s.steal injector [] ≡ none
      → IsAccounted g
          (record { local = []; injector = injector; stealers = stealers })
          (from_stealers
            (record { local = []; injector = injector; stealers = stealers })
            (steal_from 0 [] stealers))
  IsAccounted-from_stealers g injector stealers e =
      let empty = s.only_empty injector [] e in
      elim (Option-cases (steal_from 0 [] stealers)) [
        | inl nothing ↦ rw (nothing, empty) (omega (arith, steal_from-none g 0 [] stealers nothing))
        | inr (t, found) ↦ rw (found, empty) (omega (arith, steal_from-kept g 0 [] stealers found))
      ]

  IsAccounted-pop_local :
      (g : A → ℕ) (local injector : List A) (stealers : List (List A))
      → IsAccounted g
          (record { local = local; injector = injector; stealers = stealers })
          (pop_local (record { local = local; injector = injector; stealers = stealers }) local)
  IsAccounted-pop_local g (job ∷ rest) injector stealers = omega arith
  IsAccounted-pop_local g [] injector stealers = elim (Option-cases (s.steal injector [])) [
    | inl e ↦ rw (from_injector, e) (IsAccounted-from_stealers g injector stealers e)
    | inr (p, e) ↦ rw (from_injector, e) (omega (arith, s.kept g injector [] p.0 p.1 p.2 e))
  ]

  -- A worker that finds a job takes it from one of the queues, and every other job stays in one of
  -- them, by any measure; where it finds none, all the queues are empty as it goes through them.
  pub find_job-IsAccounted : (g : A → ℕ) (q : Queues A) → IsAccounted g q (find_job q)
  unfolding find_job
  find_job-IsAccounted g q = IsAccounted-pop_local g q.local q.injector q.stealers
