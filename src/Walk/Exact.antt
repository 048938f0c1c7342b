-- ===== src/Walk/Exact.antt =====
-- A walk of a still tree by any number of workers in any order: every directory read returns, and the
-- merged output is the listing that the rules give.
use scap.Base.{
  Bool, if◌then◌else◌, ℕ, ◌+◌, ◌^◌, ◌<◌, ◌≡◌, refl, sym, Option, some, List, [], ◌∷◌, ◌++◌, arith,
  length,
}
use scap.Base.Bytes.{Bytes, bytes_eq}
use scap.Walk.Arena.{iter, slices}
use scap.Walk.Sys.{Mtime, Os, Ctx, Out, new_out}
use scap.Walk.Reader.{Job, Reading, run, read_dir}
use scap.Walk.Tree.{Nodes, os_of, found_dir, dirs_in}
use scap.Walk.Workers.{
  Crew, fresh, crew, Turn, read_job, Turns, none_yet, then_one, idle, merge_all,
}
use scap.Base.Sort.{sum, times}
use scap.Walk.Ledger.{
  behind_job, IsScannable, IsSmall, IsSound, AllJobs, AllJobs-append, Adds, owed, owed-append,
  to_list,
}
use scap.Walk.Reads.{read_dir-Adds, run-Adds}
use scap.Walk.Merge.{
  listed, AllSound, listed-append, AllSound-split, AllSound-append, merge_all-listed, idle-AllSound,
  idle-listed,
}

module _ (root : Nodes) (typed : Bool) (fstat : Nodes → Option Mtime) (ctx : Ctx) where
  abbrev disk : Os
  disk = os_of root typed fstat

  AllJobs-split :
      (front back : List (Job disk))
      → AllJobs root typed fstat ctx (front ++ back)
      → AllJobs root typed fstat ctx front × AllJobs root typed fstat ctx back
  AllJobs-split [] back h = (tt, h)
  AllJobs-split (j ∷ front) back h =
      let (these, those) = AllJobs-split front back h.1 in ((h.0, these), those)

  -- What was listed first, what the workers list and what is queued are `total` together.
  abbrev pub Accounts : List Bytes → List Bytes → Crew disk ctx → Type 0
  Accounts base total c =
      AllSound c.outs
      × AllJobs root typed fstat ctx c.queued
      × ((f : Bytes → ℕ)
          → sum f base + listed f c.outs + owed root typed fstat ctx f c.queued ≡ sum f total)

  -- Any worker can read any queued directory: the read returns.
  pub run-some :
      (base total : List Bytes) (before behind : List Out) (out : Out)
      (front back : List (Job disk)) (job : Job disk) (live_fds : ℕ)
      → sum length total < 2 ^ 32
      → Accounts base total
          (crew disk ctx (before ++ (out ∷ behind)) (front ++ (job ∷ back)) live_fds)
      → Adds root typed fstat ctx
          (behind_job root typed fstat ctx job.fd job.rel)
          (fresh disk ctx out [] live_fds)
          (to_list root typed fstat ctx job.fd job.rel)
          (run disk ctx job (fresh disk ctx out [] live_fds))
  run-some base total before behind out front back job live_fds small h =
      let (jobs, (is_job, later)) = AllJobs-split front (job ∷ back) h.1 in
      let (outs, (sound, others)) = AllSound-split before (out ∷ behind) h.0 in
      run-Adds root typed fstat ctx job (fresh disk ctx out [] live_fds) is_job (sound, tt)
        (omega (
          arith,
          small,
          h.2 length,
          listed-append length before (out ∷ behind),
          owed-append root typed fstat ctx length front (job ∷ back),
        ))

  Turn-Accounts :
      (base total : List Bytes) {c d : Crew disk ctx}
      → sum length total < 2 ^ 32
      → Turn disk ctx c d
      → Accounts base total c
      → Accounts base total d
  Turn-Accounts base total small (read_job before behind out front back job live_fds r e) h =
      let (r', e', fine, tallied, low) =
        run-some base total before behind out front back job live_fds small h in
      let same : r' ≡ r = cc in
      let (jobs, (is_job, later)) = AllJobs-split front (job ∷ back) h.1 in
      let (outs, (sound, others)) = AllSound-split before (out ∷ behind) h.0 in
      rw (sym same) (
        AllSound-append before (r'.out ∷ behind) outs (fine.0, others),
        AllJobs-append root typed fstat ctx r'.children (front ++ back) fine.1
            (AllJobs-append root typed fstat ctx front back jobs later),
        λ f. omega (
          arith,
          h.2 f,
          tallied f,
          listed-append f before (out ∷ behind),
          listed-append f before (r'.out ∷ behind),
          owed-append root typed fstat ctx f front (job ∷ back),
          owed-append root typed fstat ctx f front back,
          owed-append root typed fstat ctx f r'.children (front ++ back),
        ),
      )

  pub Turns-Accounts :
      (base total : List Bytes) {c d : Crew disk ctx}
      → sum length total < 2 ^ 32
      → Turns disk ctx c d
      → Accounts base total c
      → Accounts base total d
  Turns-Accounts base total small none_yet h = h
  Turns-Accounts base total small (then_one ts t) h =
      Turn-Accounts base total small t (Turns-Accounts base total small ts h)

  -- The accounts when the root has been read and no worker has begun.
  pub start-Accounts :
      (workers live_fds : ℕ) {r : Reading disk}
      → IsSmall root
      → IsScannable ctx.detect root
      → sum length (found_dir ctx.exclude [] root) < 2 ^ 32
      → read_dir disk ctx root [] (fresh disk ctx (new_out ctx.record_index) [] live_fds) ≡ some r
      → IsSound r.out
        × Accounts
            (iter r.out.arena)
            (found_dir ctx.exclude [] root)
            (crew disk ctx (idle workers ctx) r.children r.live_fds)
  unfolding iter slices new_out
  start-Accounts workers live_fds {r} small able room e =
      let (r', e', fine, tallied, low) =
        read_dir-Adds root typed fstat ctx [] root
          (fresh disk ctx (new_out ctx.record_index) [] live_fds) (refl, refl, small, able)
          ((tt, refl), tt) (omega (arith, room)) in
      let same : r' ≡ r = cc in
      rw (sym same) (
        fine.0,
        (
          idle-AllSound ctx workers,
          fine.1,
          λ f. omega (arith, tallied f, idle-listed ctx f workers),
        ),
      )

  -- The root's own directory is read whatever the strategy.
  pub read_dir-root :
      (live_fds : ℕ)
      → IsSmall root
      → IsScannable ctx.detect root
      → sum length (found_dir ctx.exclude [] root) < 2 ^ 32
      → Adds root typed fstat ctx
          (dirs_in root)
          (fresh disk ctx (new_out ctx.record_index) [] live_fds)
          (found_dir ctx.exclude [] root)
          (read_dir disk ctx root [] (fresh disk ctx (new_out ctx.record_index) [] live_fds))
  unfolding iter slices new_out
  read_dir-root live_fds small able room =
      read_dir-Adds root typed fstat ctx [] root
        (fresh disk ctx (new_out ctx.record_index) [] live_fds) (refl, refl, small, able)
        ((tt, refl), tt) (omega (arith, room))

  -- While a still tree is walked, whatever the order so far, the read of any queued directory by any
  -- worker returns: no worker panics.
  pub Turns-run :
      (workers live_fds : ℕ) {r : Reading disk} (before behind : List Out) (out : Out)
      (front back : List (Job disk)) (job : Job disk) (now : ℕ)
      → IsSmall root
      → IsScannable ctx.detect root
      → sum length (found_dir ctx.exclude [] root) < 2 ^ 32
      → read_dir disk ctx root [] (fresh disk ctx (new_out ctx.record_index) [] live_fds) ≡ some r
      → Turns disk ctx
          (crew disk ctx (idle workers ctx) r.children r.live_fds)
          (crew disk ctx (before ++ (out ∷ behind)) (front ++ (job ∷ back)) now)
      → (r' : Reading disk) × (run disk ctx job (fresh disk ctx out [] now) ≡ some r')
  Turns-run workers live_fds {r} before behind out front back job now small able room e ts =
      let (sound, start) = start-Accounts workers live_fds small able room e in
      let (r', e', fine, tallied, low) =
        run-some (iter r.out.arena) (found_dir ctx.exclude [] root) before behind out front back job
          now room
          (Turns-Accounts (iter r.out.arena) (found_dir ctx.exclude [] root) room ts start) in
      (r', e')

  -- The outputs that a pool ends with, merged behind the root's, list what the rules find.
  pub merged-times :
      (workers live_fds : ℕ) {r : Reading disk} (outs : List Out) (now : ℕ)
      → IsSmall root
      → IsScannable ctx.detect root
      → sum length (found_dir ctx.exclude [] root) < 2 ^ 32
      → read_dir disk ctx root [] (fresh disk ctx (new_out ctx.record_index) [] live_fds) ≡ some r
      → Turns disk ctx
          (crew disk ctx (idle workers ctx) r.children r.live_fds)
          (crew disk ctx outs [] now)
      → (whole : Out) × (merge_all r.out outs ≡ some whole)
        × ((path : Bytes)
            → times path (iter whole.arena) ≡ times path (found_dir ctx.exclude [] root))
  merged-times workers live_fds {r} outs now small able room e ts =
      let (sound, start) = start-Accounts workers live_fds small able room e in
      let (parts, jobs, counted) =
        Turns-Accounts (iter r.out.arena) (found_dir ctx.exclude [] root) room ts start in
      let (whole, f, same) =
        merge_all-listed r.out outs sound parts (omega (arith, room, counted length)) in
      (
        whole,
        f,
        λ path. omega (
          arith,
          same (λ p. if bytes_eq p path then 1 else 0),
          counted (λ p. if bytes_eq p path then 1 else 0),
        ),
      )
