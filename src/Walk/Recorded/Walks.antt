-- ===== src/Walk/Recorded/Walks.antt =====
-- A listing that a walk hands on to the index, against the records in it.
use scap.Base.{
  ℕ, ◌≡◌, refl, sym, ap, Bool, true, false, Option, none, some, List, [], ◌∷◌, ◌++◌, if◌then◌else◌,
  >>=-eq-some, not,
}
use scap.Base.Bytes.{Bytes, contains}
use scap.Walk.{RootListing}
use scap.Walk.Arena.{iter, slices}
use scap.Walk.Records.{listed}
use scap.Walk.Sys.{Answer, failed, got, Os, Ctx, Out, new_out, emit, merge_out}
use scap.Walk.Reader.{Job, Reading, read_dir, run}
use scap.Walk.Workers.{Crew, fresh, crew, read_job, Turns, none_yet, then_one, idle, merge_all}
use scap.Walk.Drive.{
  Kernel, WalkOptions, Walked, invalid_root, listing, walk_root_capped, ctx_of, from_out,
  unreadable, root_is_walkable, is_bare_root, parts_of, read_root, finished,
}
use scap.Walk.Recorded.{IsRecorded, HoldsOut, emit-Holds, new_out-IsRecorded, merge_out-IsRecorded}
use scap.Walk.Recorded.Reads.{Holds, read_dir-Holds, run-Holds}

abbrev pub AllRecorded : List Out → Type 0
AllRecorded [] = Unit
AllRecorded (out ∷ outs) = IsRecorded out × AllRecorded outs

AllRecorded-replace :
    (before : List Out) (out out' : Out) (behind : List Out)
    → AllRecorded (before ++ (out ∷ behind))
    → (IsRecorded out → IsRecorded out')
    → AllRecorded (before ++ (out' ∷ behind))
AllRecorded-replace [] out out' behind h k = (k h.0, h.1)
AllRecorded-replace (x ∷ before) out out' behind h k =
    (h.0, AllRecorded-replace before out out' behind h.1 k)

merge_all-IsRecorded :
    (out : Out) (parts : List Out) {end : Out}
    → IsRecorded out
    → AllRecorded parts
    → merge_all out parts ≡ some end
    → IsRecorded end
unfolding merge_all
merge_all-IsRecorded out [] {end} h k e = let same : out ≡ end = cc in rw same at h
merge_all-IsRecorded out (part ∷ parts) h k e =
    let (both, f, rest) = >>=-eq-some (merge_out out part) _ e in
    merge_all-IsRecorded both parts (merge_out-IsRecorded out part h k.0 f) k.1 rest

module _ (os : Os) (ctx : Ctx) where
  Holds-some :
      (result : Option (Reading os)) {r : Reading os}
      → result ≡ some r
      → Holds os ctx result
      → IsRecorded r.out
  Holds-some none e h = absurd cc
  Holds-some (some r') {r} e h = let same : r' ≡ r = cc in rw (ap (λ x. x.out) (sym same)) h

  Turns-AllRecorded :
      {c d : Crew os ctx} → Turns os ctx c d → AllRecorded c.outs → AllRecorded d.outs
  Turns-AllRecorded none_yet h = h
  Turns-AllRecorded (then_one ts (read_job before behind out front back job live_fds r e)) h =
      AllRecorded-replace before out r.out behind (Turns-AllRecorded ts h) (λ k.
        Holds-some (run os ctx job (fresh os ctx out [] live_fds)) e
          (run-Holds os ctx job (fresh os ctx out [] live_fds) k))

  idle-AllRecorded : (n : ℕ) → ctx.record_index ≡ true → AllRecorded (idle n ctx)
  unfolding idle
  idle-AllRecorded ℕ.zero e = tt
  idle-AllRecorded (ℕ.suc n) e = (rw e new_out-IsRecorded, idle-AllRecorded n e)

-- A listing with the two together.
abbrev ListsRecords : Option Walked → Type 0
ListsRecords none = Unit
ListsRecords (some invalid_root) = Unit
ListsRecords (some (listing l)) = iter l.arena ≡ listed l.records

ListsRecords-if :
    (t : Bool) (a b : Option Walked)
    → ListsRecords a
    → ListsRecords b
    → ListsRecords (if t then a else b)
ListsRecords-if true a b h k = h
ListsRecords-if false a b h k = k

ListsRecords-finished :
    (out : Option Out)
    → ((end : Out) → out ≡ some end → IsRecorded end)
    → ListsRecords (finished out)
unfolding from_out
ListsRecords-finished none h = tt
ListsRecords-finished (some end) h = (h end refl).paths

ListsRecords-listing :
    (walked : Option Walked) {l : RootListing}
    → ListsRecords walked
    → walked ≡ some (listing l)
    → iter l.arena ≡ listed l.records
ListsRecords-listing walked h e = rw e at h

HoldsOut-some : (out : Option Out) {end : Out} → HoldsOut out → out ≡ some end → IsRecorded end
HoldsOut-some out h e = rw e at h

module _ (k : Kernel) (file_name : Bytes → Option Bytes) (opts : WalkOptions) (cap : ℕ) where
  abbrev ctx : Ctx
  ctx = ctx_of opts cap

  abbrev started : Reading k.os
  started = fresh k.os ctx (new_out opts.record_index) [] 0

  parts-AllRecorded :
      (pool : List (Job k.os) → ℕ → List Out) (children : List (Job k.os)) (live_fds : ℕ)
      → AllRecorded (pool children live_fds)
      → AllRecorded (parts_of k file_name pool children live_fds)
  parts-AllRecorded pool [] live_fds h = tt
  parts-AllRecorded pool (job ∷ jobs) live_fds h = h

  read_root-ListsRecords :
      (pool : List (Job k.os) → ℕ → List Out) (fd : k.os.Fd) (r : Reading k.os)
      (base : Answer (Unit {0}))
      → IsRecorded r.out
      → AllRecorded (pool r.children r.live_fds)
      → read_dir k.os ctx fd [] started ≡ some r
      → ListsRecords (read_root k file_name pool ctx base (got fd))
  unfolding unreadable listed iter slices
  read_root-ListsRecords pool fd r (failed e) h parts read = refl
  read_root-ListsRecords pool fd r (got base) h parts read = rw read (
      ListsRecords-finished (merge_all r.out (parts_of k file_name pool r.children r.live_fds))
        (λ end e.
          merge_all-IsRecorded r.out (parts_of k file_name pool r.children r.live_fds) h
            (parts-AllRecorded pool r.children r.live_fds parts) e))

  -- Whatever the kernel answers, a walk that keeps records lists exactly the repositories among them,
  -- in the order of the records, if the pool gives the outputs that its workers have after turns in
  -- any order.
  pub walk_root_capped-listed :
      (pool : List (Job k.os) → ℕ → List Out) (path : Bytes) (fd : k.os.Fd) (workers now : ℕ)
      {r : Reading k.os} {l : RootListing}
      → opts.record_index ≡ true
      → k.open_read ≡ got fd
      → read_dir k.os ctx fd [] started ≡ some r
      → Turns k.os ctx
          (crew k.os ctx (idle workers ctx) r.children r.live_fds)
          (crew k.os ctx (pool r.children r.live_fds) [] now)
      → walk_root_capped k file_name pool path opts cap ≡ some (listing l)
      → iter l.arena ≡ listed l.records
  unfolding walk_root_capped listed iter slices
  walk_root_capped-listed pool path fd workers now {r} {l} on opened read ts e =
      let begun : IsRecorded (new_out opts.record_index) = rw on new_out-IsRecorded in
      let first : IsRecorded r.out =
        Holds-some k.os ctx (read_dir k.os ctx fd [] started) read
          (read_dir-Holds k.os ctx fd [] started begun) in
      let parts : AllRecorded (pool r.children r.live_fds) =
        Turns-AllRecorded k.os ctx ts (idle-AllRecorded k.os ctx workers on) in
      ListsRecords-listing (walk_root_capped k file_name pool path opts cap)
        (ListsRecords-if (contains 0 path) _ _ tt (
          ListsRecords-if (not (root_is_walkable k)) _ _ refl (
            ListsRecords-if (is_bare_root (file_name path)) _ _
              (ListsRecords-finished (emit [] (new_out opts.record_index)) (λ end.
                HoldsOut-some (emit [] (new_out opts.record_index))
                  (emit-Holds [] (new_out opts.record_index) begun)))
              (rw opened (read_root-ListsRecords pool fd r k.open_base first parts read)))))
        e
