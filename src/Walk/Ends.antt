-- ===== src/Walk/Ends.antt =====
-- A walk of a still tree ends: each turn has fewer directories to read behind it.
use scap.Base.{
  ℕ, ◌+◌, ◌^◌, ◌<◌, ◌≤◌, ◌≡◌, sym, Bool, Option, some, List, [], ◌∷◌, ◌++◌, arith, length,
}
use scap.Base.Bytes.{Bytes}
use scap.Base.Sort.{sum}
use scap.Walk.Arena.{iter}
use scap.Walk.Sys.{Mtime, Os, Ctx, new_out}
use scap.Walk.Reader.{Job, Reading, read_dir}
use scap.Walk.Tree.{Nodes, os_of, found_dir, dirs_in}
use scap.Walk.Workers.{Crew, fresh, crew, Turn, read_job, Turns, none_yet, then_one, idle, taken}
use scap.Walk.Ledger.{IsScannable, IsSmall, weight, weight-append}
use scap.Walk.Exact.{Accounts, run-some, Turns-Accounts, start-Accounts, read_dir-root}

module _ (root : Nodes) (typed : Bool) (fstat : Nodes → Option Mtime) (ctx : Ctx) where
  abbrev disk : Os
  disk = os_of root typed fstat

  length-weight : (jobs : List (Job disk)) → length jobs ≤ weight root typed fstat ctx jobs
  length-weight [] = omega arith
  length-weight (j ∷ js) = omega (arith, length-weight js)

  Turn-weight :
      (base total : List Bytes) {c d : Crew disk ctx}
      → sum length total < 2 ^ 32
      → Turn disk ctx c d
      → Accounts root typed fstat ctx base total c
      → weight root typed fstat ctx d.queued < weight root typed fstat ctx c.queued
  Turn-weight base total small (read_job before behind out front back job live_fds r e) h =
      let (r', e', fine, tallied, low) =
        run-some root typed fstat ctx base total before behind out front back job live_fds small
          h in
      let same : r' ≡ r = cc in
      rw (sym same) (
        omega (
          arith,
          low,
          weight-append root typed fstat ctx front (job ∷ back),
          weight-append root typed fstat ctx front back,
          weight-append root typed fstat ctx r'.children (front ++ back),
        ))

  Turns-weight :
      (base total : List Bytes) {c d : Crew disk ctx}
      → sum length total < 2 ^ 32
      → (ts : Turns disk ctx c d) → Accounts root typed fstat ctx base total c
      → taken disk ctx ts + weight root typed fstat ctx d.queued
        ≤ weight root typed fstat ctx c.queued
  Turns-weight base total small none_yet h = omega arith
  Turns-weight base total small (then_one ts t) h = omega (
    arith,
    Turns-weight base total small ts h,
    Turn-weight base total small t (Turns-Accounts root typed fstat ctx base total small ts h),
  )

  -- The workers of a walk take, together and in whatever order, at most one turn for each directory
  -- below the root, and those that are still queued are among the ones left over.
  pub taken-dirs_in :
      (workers live_fds : ℕ) {r : Reading disk} {c : Crew disk ctx}
      → IsSmall root
      → IsScannable ctx.detect root
      → sum length (found_dir ctx.exclude [] root) < 2 ^ 32
      → read_dir disk ctx root [] (fresh disk ctx (new_out ctx.record_index) [] live_fds) ≡ some r
      → (ts : Turns disk ctx (crew disk ctx (idle workers ctx) r.children r.live_fds) c)
      → taken disk ctx ts + length c.queued ≤ dirs_in root
  taken-dirs_in workers live_fds {r} {c} small able room e ts =
      let (r', e', fine, tallied, low) =
        read_dir-root root typed fstat ctx live_fds small able room in
      let same : r' ≡ r = cc in
      let start_low : weight root typed fstat ctx r.children ≤ 0 + dirs_in root = rw same at low in
      let (sound, start) = start-Accounts root typed fstat ctx workers live_fds small able room e in
      omega (
        arith,
        start_low,
        Turns-weight (iter r.out.arena) (found_dir ctx.exclude [] root) room ts start,
        length-weight c.queued,
      )
