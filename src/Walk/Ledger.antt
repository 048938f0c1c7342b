-- ===== src/Walk/Ledger.antt =====
-- What a walk of a still file system has listed and what its queued directories have still to list,
-- and what one operation of the reader adds to the two together.
use scap.Base.{
  suc, ◌≤◌, ℕ, ◌+◌, ◌^◌, ◌<◌, ◌≡◌, refl, ap, Bool, true, false, Option, none, some, List, [], ◌∷◌,
  ◌++◌, arith, ◌>>=◌, ◌⊎◌, length, length-append,
}
use scap.Base.Bytes.{Bytes, contains, split}
use scap.Base.Sort.{sum}
use scap.Walk.Arena.{iter, IsWithin, push, push-iter, push-some, pushed}
use scap.Walk.Entries.{names_length}
use scap.Walk.Sys.{
  Answer, failed, got, Mtime, Ctx, Out, DetectStrategy, stat_first, shown_rel, emit, with_repo,
}
use scap.Walk.Reader.{Job, Reading, emitted, queue, with_out}
use scap.Walk.Tree.{
  Nodes, dir, open_from, os_of, found_dir, dirs_in, AllNamed, AllReadable, stream_of,
}
use scap.Walk.Lookup.{IsAt}

pub sum-append : (f : Bytes → ℕ) (xs ys : List Bytes) → sum f (xs ++ ys) ≡ sum f xs + sum f ys
sum-append f [] ys = omega arith
sum-append f (x ∷ xs) ys = omega (arith, sum-append f xs ys)

-- The directory can be listed by the strategy: probing needs no read of it.
abbrev pub IsScannable : DetectStrategy → Nodes → Type 0
IsScannable detect ns = (detect ≡ stat_first) ⊎ AllReadable ns

abbrev pub IsSmall : Nodes → Type 0
IsSmall ns = AllNamed ns × (names_length (stream_of true ns) < 2 ^ 32)

-- The arena holds the bytes of the paths that it lists.
abbrev pub IsSound : Out → Type 0
IsSound out = IsWithin out.arena × (length out.arena.bytes ≡ sum length (iter out.arena))

module _ (root : Nodes) (typed : Bool) (fstat : Nodes → Option Mtime) (ctx : Ctx) where
  -- A directory that the reader stands in.
  abbrev pub IsPlace : Bytes → Nodes → Type 0
  IsPlace rel ns =
      (contains 0 rel ≡ false) × IsAt root rel ns × IsSmall ns × IsScannable ctx.detect ns

  abbrev pub opened_root : Bytes → Answer Nodes
  opened_root rel = open_from (some (dir true root)) (split b'/' rel)

  abbrev pub answered : Bytes → Answer Nodes → List Bytes
  answered rel (failed e) = []
  answered rel (got ns) = found_dir ctx.exclude rel ns

  -- What a job has to list.
  abbrev pub to_list : Option Nodes → Bytes → List Bytes
  to_list (some ns) rel = found_dir ctx.exclude rel ns
  to_list none rel = answered rel (opened_root rel)

  abbrev pub IsJob : Option Nodes → Bytes → Type 0
  IsJob (some ns) rel = IsPlace rel ns
  IsJob none rel =
      (contains 0 rel ≡ false) × ((ns : Nodes) → opened_root rel ≡ got ns → IsPlace rel ns)

  abbrev pub AllJobs : List (Job (os_of root typed fstat)) → Type 0
  AllJobs [] = Unit
  AllJobs (j ∷ js) = IsJob j.fd j.rel × AllJobs js

  abbrev pub owed : (Bytes → ℕ) → List (Job (os_of root typed fstat)) → ℕ
  owed f [] = 0
  owed f (j ∷ js) = sum f (to_list j.fd j.rel) + owed f js

  -- How many directories a job reads behind its own, at most.
  abbrev pub behind_answer : Answer Nodes → ℕ
  behind_answer (failed e) = 0
  behind_answer (got ns) = dirs_in ns

  abbrev pub behind_job : Option Nodes → Bytes → ℕ
  behind_job (some ns) rel = dirs_in ns
  behind_job none rel = behind_answer (opened_root rel)

  abbrev pub weight : List (Job (os_of root typed fstat)) → ℕ
  weight [] = 0
  weight (j ∷ js) = suc (behind_job j.fd j.rel) + weight js

  pub weight-append :
      (js ks : List (Job (os_of root typed fstat))) → weight (js ++ ks) ≡ weight js + weight ks
  weight-append [] ks = omega arith
  weight-append (j ∷ js) ks = omega (arith, weight-append js ks)

  pub owed-append :
      (f : Bytes → ℕ) (js ks : List (Job (os_of root typed fstat)))
      → owed f (js ++ ks) ≡ owed f js + owed f ks
  owed-append f [] ks = omega arith
  owed-append f (j ∷ js) ks = omega (arith, owed-append f js ks)

  pub AllJobs-append :
      (js ks : List (Job (os_of root typed fstat))) → AllJobs js → AllJobs ks → AllJobs (js ++ ks)
  AllJobs-append [] ks h k = k
  AllJobs-append (j ∷ js) ks h k = (h.0, AllJobs-append js ks h.1 k)

  abbrev pub IsFine : Reading (os_of root typed fstat) → Type 0
  IsFine r = IsSound r.out × AllJobs r.children

  abbrev pub tally : (Bytes → ℕ) → Reading (os_of root typed fstat) → ℕ
  tally f r = sum f (iter r.out.arena) + owed f r.children

  -- The operation ends in a reading that has `paths` listed or still to list beyond those of `r`, and
  -- at most `n` directories more to read.
  abbrev pub Adds :
      ℕ
      → Reading (os_of root typed fstat)
      → List Bytes
      → Option (Reading (os_of root typed fstat))
      → Type 0
  Adds n r paths result =
      (r' : Reading (os_of root typed fstat)) × (result ≡ some r')
      × IsFine r'
      × ((f : Bytes → ℕ) → tally f r' ≡ tally f r + sum f paths)
      × (weight r'.children ≤ weight r.children + n)

  -- There is room for the paths.
  abbrev pub HasRoom : Reading (os_of root typed fstat) → List Bytes → Type 0
  HasRoom r paths = tally length r + sum length paths < 2 ^ 32

  -- A change of the counters and the records alone.
  pub Adds-same :
      (n : ℕ) (r r' : Reading (os_of root typed fstat))
      → IsFine r'
      → ((f : Bytes → ℕ) → tally f r' ≡ tally f r)
      → weight r'.children ≡ weight r.children
      → Adds n r [] (some r')
  Adds-same n r r' h same kept = (r', refl, h, λ f. omega (arith, same f), omega (arith, kept))

  pub Adds-emitted :
      (n : ℕ) (rel : Bytes) (r : Reading (os_of root typed fstat))
      → IsFine r
      → HasRoom r (shown_rel rel ∷ [])
      → Adds n r (shown_rel rel ∷ []) (emitted (os_of root typed fstat) rel r)
  unfolding emit
  Adds-emitted n rel r h room =
      let arena = r.out.arena in
      let path = shown_rel rel in
      let e : push arena path ≡ some (pushed arena path) =
        push-some arena path (omega (arith, room, h.0.1)) in
      let (listed, within) = push-iter arena path h.0.0 e in
      let sums : (f : Bytes → ℕ) → sum f (iter (pushed arena path)) ≡ sum f (iter arena) + f path =
        λ f. omega (arith, ap (sum f) listed, sum-append f (iter arena) (path ∷ [])) in
      (
        with_out (os_of root typed fstat) (with_repo (pushed arena path) rel r.out) r,
        rw e refl,
        ((within, omega (arith, length-append arena.bytes path, h.0.1, sums length)), h.1),
        λ f. omega (arith, sums f),
        omega arith,
      )

  pub Adds-queued :
      {n : ℕ} (fd : Option Nodes) (rel : Bytes) (live : ℕ) (r : Reading (os_of root typed fstat))
      → IsFine r
      → IsJob fd rel
      → behind_job fd rel < n
      → Adds n r
          (to_list fd rel)
          (some (record (queue (os_of root typed fstat) fd rel r) { live_fds = live }))
  Adds-queued fd rel live r h job low =
      let last : List (Job (os_of root typed fstat)) = record { fd = fd; rel = rel } ∷ [] in
      (
        record (queue (os_of root typed fstat) fd rel r) { live_fds = live },
        refl,
        (h.0, AllJobs-append r.children last h.1 (job, tt)),
        λ f. omega (arith, owed-append f r.children last),
        omega (arith, low, weight-append r.children last),
      )

  pub Adds->>= :
      (n m : ℕ) (r : Reading (os_of root typed fstat)) (xs ys : List Bytes)
      (result : Option (Reading (os_of root typed fstat)))
      (next : Reading (os_of root typed fstat) → Option (Reading (os_of root typed fstat)))
      → HasRoom r (xs ++ ys)
      → Adds n r xs result
      → ((r' : Reading (os_of root typed fstat))
          → IsFine r'
          → HasRoom r' ys
          → Adds m r' ys (next r'))
      → Adds (n + m) r (xs ++ ys) (result >>= next)
  Adds->>= n m r xs ys result next room (r', e, h, tallied, low) more =
      let room' : HasRoom r' ys = omega (arith, room, tallied length, sum-append length xs ys) in
      let (r'', e', h', tallied', low') = more r' h room' in
      (
        r'',
        rw e e',
        h',
        λ f. omega (arith, tallied f, tallied' f, sum-append f xs ys),
        omega (arith, low, low'),
      )
