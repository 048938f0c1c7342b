-- ===== src/Walk/Recorded/Reads.antt =====
-- A directory read keeps the records and the arena of an output together.
use scap.Base.{
  ℕ, Bool, true, false, Option, none, some, List, [], ◌∷◌, ◌++◌, if◌then◌else◌, ◌>>=◌, not, leb,
}
use scap.Base.Bytes.{Bytes, codes, ends_with}
use scap.Walk.Entries.{FileType, Kind, from_file_type, no_entries, push_all, entries}
use scap.Walk.Sys.{
  noent, notdir, loop, mfile, nfile, acces, perm, io, Answer, failed, got, Stream, not_opened,
  broken, no_descriptor, whole, Os, Ctx, Out, emit, cstr, is_excluded, is_stat_first,
  drops_a_subtree, is_directory, join_rel, is_repo_dir, is_got,
}
use scap.Walk.Reader.{
  Job, Reading, Child, repository, settled, dropped, emitted, has_git, forbidden, opened,
  queue_child, after_child, read_child_dir, linked, read_symlink, read_kind, read_typed, read_entry,
  read_entries, read_whole, read_stream, read_dir, reopened, with_out, recorded, note_read,
  incomplete, run_from, run,
}
use scap.Walk.Recorded.{IsRecorded, HoldsOut, emit-Holds, note_dir-IsRecorded}

module _ (os : Os) (ctx : Ctx) where
  abbrev pub Holds : Option (Reading os) → Type 0
  Holds none = Unit
  Holds (some r) = IsRecorded r.out

  Holds-if : (t : Bool) (a b : Option (Reading os)) → Holds a → Holds b → Holds (if t then a else b)
  Holds-if true a b h k = h
  Holds-if false a b h k = k

  Holds->>= :
      (result : Option (Reading os)) (next : Reading os → Option (Reading os))
      → Holds result
      → ((r : Reading os) → IsRecorded r.out → Holds (next r))
      → Holds (result >>= next)
  Holds->>= none next h k = tt
  Holds->>= (some r) next h k = k r h

  Holds-any :
      {X : Type 0} (answer : Option X) (next : X → Option (Reading os))
      → ((x : X) → Holds (next x))
      → Holds (answer >>= next)
  Holds-any none next h = tt
  Holds-any (some x) next h = h x

  emitted-Holds : (rel : Bytes) (r : Reading os) → IsRecorded r.out → Holds (emitted os rel r)
  emitted-Holds rel r h = at (emit rel r.out) (emit-Holds rel r.out h)
    where
      at : (out : Option Out) → HoldsOut out → Holds (out >>= λ grown. some (with_out os grown r))
      at none k = tt
      at (some out) k = k

  -- Whatever a child comes to, its consequence keeps the two together.
  abbrev HoldsChild : Option (Child os × Reading os) → Type 0
  HoldsChild none = Unit
  HoldsChild (some (child, r)) = IsRecorded r.out

  incomplete-IsRecorded : (r : Reading os) → IsRecorded r.out → IsRecorded (incomplete os ctx r).out
  incomplete-IsRecorded r h = record {
    within = h.within;
    records_on = h.records_on;
    paths = h.paths;
  }

  settle-Holds :
      (rel : Bytes) (found : Option (Child os × Reading os))
      → HoldsChild found
      → Holds (found >>= after_child os ctx rel)
  settle-Holds rel none h = tt
  settle-Holds rel (some (repository, r)) h = emitted-Holds rel r h
  settle-Holds rel (some (settled, r)) h = h
  settle-Holds rel (some (dropped, r)) h = incomplete-IsRecorded r h

  HoldsChild-any :
      {X : Type 0} (answer : Option X) (next : X → Option (Child os × Reading os))
      → ((x : X) → HoldsChild (next x))
      → HoldsChild (answer >>= next)
  HoldsChild-any none next h = tt
  HoldsChild-any (some x) next h = h x

  forbidden-HoldsChild :
      (dirfd : os.Fd) (name rel : Bytes) (r : Reading os)
      → IsRecorded r.out
      → HoldsChild (forbidden os dirfd name r)
  forbidden-HoldsChild dirfd name rel r h = HoldsChild-any (has_git os dirfd name) _ (λ there. h)

  opened-HoldsChild :
      (dirfd : os.Fd) (name rel : Bytes) (r : Reading os) (answer : Answer os.Fd)
      → IsRecorded r.out
      → HoldsChild (opened os dirfd name rel r answer)
  unfolding opened
  opened-HoldsChild dirfd name rel r (got fd) h = h
  opened-HoldsChild dirfd name rel r (failed mfile) h = h
  opened-HoldsChild dirfd name rel r (failed nfile) h = h
  opened-HoldsChild dirfd name rel r (failed acces) h = forbidden-HoldsChild dirfd name rel r h
  opened-HoldsChild dirfd name rel r (failed perm) h = forbidden-HoldsChild dirfd name rel r h
  opened-HoldsChild dirfd name rel r (failed noent) h = h
  opened-HoldsChild dirfd name rel r (failed notdir) h = h
  opened-HoldsChild dirfd name rel r (failed loop) h = h
  opened-HoldsChild dirfd name rel r (failed io) h = h

  queue_child-HoldsChild :
      (dirfd : os.Fd) (name rel : Bytes) (r : Reading os)
      → IsRecorded r.out
      → HoldsChild (queue_child os ctx dirfd name rel r)
  unfolding queue_child
  queue_child-HoldsChild dirfd name rel r h = at (leb ctx.fd_cap r.live_fds) (cstr name)
    where
      at :
          (full : Bool) (path : Option Bytes)
          → HoldsChild (
              if full
              then some (
                settled,
                record r { children = r.children ++ (record { fd = none; rel = rel } ∷ []) },
              )
              else path >>= λ p. opened os dirfd name rel r (os.open_child dirfd p))
      at true path = h
      at false path =
          HoldsChild-any path _ (λ p. opened-HoldsChild dirfd name rel r (os.open_child dirfd p) h)

  read_child_dir-Holds :
      (dirfd : os.Fd) (name rel : Bytes) (r : Reading os)
      → IsRecorded r.out
      → Holds (read_child_dir os ctx dirfd name rel r)
  unfolding read_child_dir
  read_child_dir-Holds dirfd name rel r h =
      let queued =
        settle-Holds rel (queue_child os ctx dirfd name rel r)
          (queue_child-HoldsChild dirfd name rel r h) in
      let left : IsRecorded (record r.out { excluded = ℕ.suc r.out.excluded }) = record {
        within = h.within;
        records_on = h.records_on;
        paths = h.paths;
      } in
      Holds-if (is_excluded ctx.exclude rel) _ _ left (
        Holds-if (ends_with (codes ".git") name) _ _ (emitted-Holds rel r h) (
          Holds-if (is_stat_first ctx.detect) _ _
            (Holds-any (has_git os dirfd name) _
              (λ there. Holds-if there _ _ (emitted-Holds rel r h) queued))
            queued))

  linked-Holds :
      (dirfd : os.Fd) (name rel : Bytes) (r : Reading os) (answer : Answer FileType)
      → IsRecorded r.out
      → Holds (linked os ctx dirfd name rel r answer)
  linked-Holds dirfd name rel r (failed e) h = h
  linked-Holds dirfd name rel r (got type) h = Holds-if (not (is_directory type)) _ _ h (
      Holds-if (ends_with (codes ".git") name) _ _ (emitted-Holds rel r h) (
        Holds-any (has_git os dirfd name) _
          (λ there. Holds-if there _ _ (emitted-Holds rel r h) h)))

  read_kind-Holds :
      (dirfd : os.Fd) (rel name : Bytes) (kind : Kind) (r : Reading os)
      → IsRecorded r.out
      → Holds (read_kind os ctx dirfd rel name kind r)
  unfolding read_symlink
  read_kind-Holds dirfd rel name Kind.dir r h =
      read_child_dir-Holds dirfd name (join_rel rel name) r h
  read_kind-Holds dirfd rel name Kind.symlink r h =
      let left : IsRecorded (record r.out { excluded = ℕ.suc r.out.excluded }) = record {
        within = h.within;
        records_on = h.records_on;
        paths = h.paths;
      } in
      Holds-if (is_excluded ctx.exclude (join_rel rel name)) _ _ left (
        Holds-any (cstr name) _
          (λ path. linked-Holds dirfd name (join_rel rel name) r (os.stat dirfd path) h))
  read_kind-Holds dirfd rel name Kind.other r h = h
  read_kind-Holds dirfd rel name Kind.unknown r h = h

  read_typed-Holds :
      (dirfd : os.Fd) (rel name : Bytes) (answer : Answer FileType) (r : Reading os)
      → IsRecorded r.out
      → Holds (read_typed os ctx dirfd rel name answer r)
  read_typed-Holds dirfd rel name (failed e) r h = h
  read_typed-Holds dirfd rel name (got type) r h =
      read_kind-Holds dirfd rel name (from_file_type type) r h

  read_entry-Holds :
      (dirfd : os.Fd) (rel name : Bytes) (kind : Kind) (r : Reading os)
      → IsRecorded r.out
      → Holds (read_entry os ctx dirfd rel (name, kind) r)
  unfolding read_entry
  read_entry-Holds dirfd rel name Kind.unknown r h =
      Holds-any (cstr name) _ (λ path. read_typed-Holds dirfd rel name (os.lstat dirfd path) r h)
  read_entry-Holds dirfd rel name Kind.dir r h = read_kind-Holds dirfd rel name Kind.dir r h
  read_entry-Holds dirfd rel name Kind.symlink r h = read_kind-Holds dirfd rel name Kind.symlink r h
  read_entry-Holds dirfd rel name Kind.other r h = read_kind-Holds dirfd rel name Kind.other r h

  read_entries-Holds :
      (dirfd : os.Fd) (rel : Bytes) (es : List (Bytes × Kind)) (r : Reading os)
      → IsRecorded r.out
      → Holds (read_entries os ctx dirfd rel es r)
  unfolding read_entries
  read_entries-Holds dirfd rel [] r h = h
  read_entries-Holds dirfd rel (e ∷ es) r h =
      Holds->>= (read_entry os ctx dirfd rel e r) _ (read_entry-Holds dirfd rel e.0 e.1 r h)
        (read_entries-Holds dirfd rel es)

  given_up :
      (t : Bool) (r : Reading os)
      → IsRecorded r.out
      → IsRecorded (if t then incomplete os ctx r else r).out
  given_up true r h = incomplete-IsRecorded r h
  given_up false r h = h

  read_stream-Holds :
      (fd : os.Fd) (rel : Bytes) (stream : Stream) (r : Reading os)
      → IsRecorded r.out
      → Holds (read_stream os ctx fd rel stream r)
  unfolding read_whole
  read_stream-Holds fd rel (not_opened e) r h = given_up (drops_a_subtree e) r h
  read_stream-Holds fd rel (broken es e) r h =
      Holds-any (push_all no_entries es) _ (λ buf. incomplete-IsRecorded r h)
  read_stream-Holds fd rel (no_descriptor es) r h =
      Holds-any (push_all no_entries es) _ (λ buf. incomplete-IsRecorded r h)
  read_stream-Holds fd rel (whole es) r h =
      let begun : IsRecorded (note_read os ctx r).out = record {
        within = h.within;
        records_on = h.records_on;
        paths = h.paths;
      } in
      Holds-any (push_all no_entries es) _ (λ buf. Holds-any (entries buf) _ (λ found.
        Holds-if (is_repo_dir found (is_got (os.stat fd (codes ".git")))) _ _
          (emitted-Holds rel (note_read os ctx r) begun)
          (read_entries-Holds fd rel found _
            (note_dir-IsRecorded rel (recorded os ctx fd) (note_read os ctx r).out begun))))

  pub read_dir-Holds :
      (fd : os.Fd) (rel : Bytes) (r : Reading os)
      → IsRecorded r.out
      → Holds (read_dir os ctx fd rel r)
  unfolding read_dir
  read_dir-Holds fd rel r h = read_stream-Holds fd rel (os.read_dir fd) r h

  reopened-Holds :
      (rel : Bytes) (answer : Answer os.Fd) (r : Reading os)
      → IsRecorded r.out
      → Holds (reopened os ctx rel answer r)
  reopened-Holds rel (got fd) r h = read_dir-Holds fd rel r h
  reopened-Holds rel (failed mfile) r h = incomplete-IsRecorded r h
  reopened-Holds rel (failed nfile) r h = incomplete-IsRecorded r h
  reopened-Holds rel (failed noent) r h = given_up (drops_a_subtree noent) r h
  reopened-Holds rel (failed notdir) r h = given_up (drops_a_subtree notdir) r h
  reopened-Holds rel (failed loop) r h = given_up (drops_a_subtree loop) r h
  reopened-Holds rel (failed acces) r h = given_up (drops_a_subtree acces) r h
  reopened-Holds rel (failed perm) r h = given_up (drops_a_subtree perm) r h
  reopened-Holds rel (failed io) r h = given_up (drops_a_subtree io) r h

  pub run-Holds : (job : Job os) (r : Reading os) → IsRecorded r.out → Holds (run os ctx job r)
  unfolding run
  run-Holds job r h = at job.fd
    where
      at : (fd : Option os.Fd) → Holds (run_from os ctx fd job.rel r)
      at (some fd) = read_dir-Holds fd job.rel _ h
      at none = Holds-any (cstr job.rel) _ (λ path. reopened-Holds job.rel (os.open_rel path) r h)
