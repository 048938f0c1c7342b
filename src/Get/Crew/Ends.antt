-- ===== src/Get/Crew/Ends.antt =====
-- What the workers of `get --parallel` come to, whatever their order.
use scap.Base.{
  ℕ, zero, suc, ◌+◌, ◌*◌, ◌≤◌, ◌<◌, List, [], ◌∷◌, ◌++◌, ◌≡◌, ◌≢◌, refl, sym, ap, inl, inr, ◌⊎◌,
  ◌∙◌, length, length-append, append_assoc, append-nil, append-eq-nil, arith,
}
use scap.Base.Bytes.{Bytes}
use mathlib.Core.List.{reverse, reverse-append, reverse-cons, reverse-reverse, Perm, perm_middle}
use mathlib.Core.List.Perm
use scap.Get.Crew.{Crew, start, Step, take, process, leave, Steps, done, more, workers_for}

nonempty : (queue : List Bytes) (target : Bytes) → queue ++ (target ∷ []) ≢ []
nonempty queue target h = let (front, rest) = append-eq-nil queue (target ∷ []) h in absurd cc

-- A target at the end counts as one in front.
last : (started : List Bytes) (target : Bytes) → Perm (started ++ (target ∷ [])) (target ∷ started)
last started target = let h = perm_middle {a = target} started [] in rw (append-nil started) at h

-- A target that is through is no longer with a worker.
moved :
    (ended front back : List Bytes) (target : Bytes)
    → Perm (target ∷ (ended ++ (front ++ back))) (ended ++ (front ++ (target ∷ back)))
moved ended front back target =
    let h = Perm.symm (perm_middle {a = target} (ended ++ front) back) in
    rw (append_assoc ended front back, append_assoc ended front (target ∷ back)) at h

module _ (targets : List Bytes) where
  -- The targets are started in their order, each is with a worker or through, and no worker has left
  -- before the queue was empty.
  record Inv (c : Crew) : Type 0 where
    in_order : c.started ++ reverse c.queue ≡ targets
    accounted : Perm (c.ended ++ c.busy) c.started
    crewed : c.idle + length c.busy + c.left ≡ workers_for targets
    emptied : 0 < c.left → c.queue ≡ []

  Inv-start : Inv (start targets)
  unfolding start
  Inv-start = record {
    in_order = reverse-reverse targets;
    accounted = Perm.nil;
    crewed = omega arith;
    emptied = λ h. absurd (omega (arith, h));
  }

  Inv-Step : {c d : Crew} → Step c d → Inv c → Inv d
  Inv-Step (take queue target idle busy left started ended) inv = record {
    in_order =
        append_assoc started (target ∷ []) (reverse queue)
        ∙ ap (λ ts. started ++ ts) (sym (reverse-append queue (target ∷ [])))
        ∙ inv.in_order;
    accounted =
        Perm.trans (perm_middle ended busy)
          (Perm.trans (Perm.cons target inv.accounted) (Perm.symm (last started target)));
    crewed = omega (arith, inv.crewed);
    emptied = λ h. absurd (nonempty queue target (inv.emptied h));
  }
  Inv-Step (process queue idle front target back left started ended) inv = record {
    in_order = inv.in_order;
    accounted = Perm.trans (moved ended front back target) inv.accounted;
    crewed =
        omega (arith, inv.crewed, length-append front (target ∷ back), length-append front back);
    emptied = inv.emptied;
  }
  Inv-Step (leave idle busy left started ended) inv = record {
    in_order = inv.in_order;
    accounted = inv.accounted;
    crewed = omega (arith, inv.crewed);
    emptied = λ h. refl;
  }

  Inv-Steps : {n : ℕ} {c : Crew} → Steps n (start targets) c → Inv c
  Inv-Steps done = Inv-start
  Inv-Steps (more ss s) = Inv-Step s (Inv-Steps ss)

  workers_for-pos : 0 < workers_for targets
  unfolding workers_for
  workers_for-pos = ground arith

  -- In every interleaving in which all workers of a parallel run have left their loops, each of the
  -- targets was started, in the order in which they were given, and processed to its end: the ended
  -- ones are the targets up to their order.
  pub Steps-all_left :
      {n : ℕ} {c : Crew}
      → Steps n (start targets) c
      → c.idle ≡ 0
      → c.busy ≡ []
      → (c.started ≡ targets) × Perm c.ended targets
  Steps-all_left {n} {c} ss idle busy =
      let inv = Inv-Steps ss in
      let empty : c.queue ≡ [] =
        inv.emptied (omega (arith, inv.crewed, idle, ap length busy, workers_for-pos)) in
      let all : c.started ≡ targets =
        sym (append-nil c.started) ∙ ap (λ q. c.started ++ reverse q) (sym empty) ∙ inv.in_order in
      let through : Perm (c.ended ++ []) c.started = rw busy at inv.accounted in
      (all, rw (append-nil c.ended, all) at through)

-- What is still to be done, in steps.
to_do : Crew → ℕ
to_do c = 3 * length c.queue + (2 * length c.busy + c.idle)

to_do-Step : {c d : Crew} → Step c d → to_do d < to_do c
unfolding to_do
to_do-Step (take queue target idle busy left started ended) =
    omega (arith, length-append queue (target ∷ []))
to_do-Step (process queue idle front target back left started ended) =
    omega (arith, length-append front (target ∷ back), length-append front back)
to_do-Step (leave idle busy left started ended) = omega arith

to_do-Steps : {n : ℕ} {c d : Crew} → Steps n c d → n + to_do d ≤ to_do c
to_do-Steps done = omega arith
to_do-Steps (more ss s) = omega (arith, to_do-Steps ss, to_do-Step s)

length-reverse : (ts : List Bytes) → length (reverse ts) ≡ length ts
length-reverse [] = refl
length-reverse (t ∷ ts) =
    ap length (reverse-cons t ts)
    ∙ omega (arith, length-append (reverse ts) (t ∷ []), length-reverse ts)

workers_for-le : (targets : List Bytes) → workers_for targets ≤ 6
unfolding workers_for
workers_for-le targets = ground arith

last-cases :
    (queue : List Bytes)
    → (queue ≡ []) ⊎ ((front : List Bytes) × (t : Bytes) × (queue ≡ front ++ (t ∷ [])))
last-cases [] = inl refl
last-cases (t ∷ ts) = elim (last-cases ts) [
  | inl e ↦ inr ([], t, rw e refl)
  | inr (front, u, e) ↦ inr (t ∷ front, u, rw e refl)
]

-- Every worker has left its loop.
abbrev pub IsOver : Crew → Type 0
IsOver c = (c.idle ≡ 0) × (c.busy ≡ [])

CanStep : Crew → Type 0
CanStep c = IsOver c ⊎ ((d : Crew) × Step c d)

module _ (left : ℕ) (started ended : List Bytes) where
  crew : List Bytes → ℕ → List Bytes → Crew
  crew queue idle busy = record {
    queue = queue;
    idle = idle;
    busy = busy;
    left = left;
    started = started;
    ended = ended;
  }

  taking :
      (front : List Bytes) (t : Bytes) (idle : ℕ) → CanStep (crew (front ++ (t ∷ [])) (suc idle) [])
  unfolding crew CanStep
  taking front t idle = inr (_, take front t idle [] left started ended)

  crew-CanStep :
      (queue : List Bytes) (idle : ℕ) (busy : List Bytes) → CanStep (crew queue idle busy)
  unfolding crew CanStep
  crew-CanStep queue idle (t ∷ ts) = inr (_, process queue idle [] t ts left started ended)
  crew-CanStep queue zero [] = inl (refl, refl)
  crew-CanStep queue (suc idle) [] = elim (last-cases queue) [
    | inl e ↦ rw e (inr (_, leave idle [] left started ended))
    | inr (front, t, e) ↦ rw e (taking front t idle)
  ]

-- The workers of a parallel run take at most three steps for each target and one for each of the at
-- most six workers; as long as a worker has not left its loop, there is a step to take.
pub Steps-bounded :
    (targets : List Bytes) {n : ℕ} {c : Crew}
    → Steps n (start targets) c
    → (n ≤ 3 * length targets + 6) × (IsOver c ⊎ ((d : Crew) × Step c d))
unfolding to_do start crew CanStep
Steps-bounded targets {n} {c} ss = (
  omega (arith, to_do-Steps ss, length-reverse targets, workers_for-le targets),
  crew-CanStep c.left c.started c.ended c.queue c.idle c.busy,
)
