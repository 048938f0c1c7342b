-- ===== src/Walk/Reader.antt =====
-- src/walk/sys.rs, `Walker`: one directory read, its entries classified, its children queued.
use scap.Base.{
  ℕ, suc, ◌-◌, Bool, not, Option, none, some, List, [], ◌∷◌, ◌++◌, leb, if◌then◌else◌, ◌>>=◌,
}
use scap.Base.Int.{ℤ}
use scap.Base.Bytes.{Bytes, codes, ends_with}
use scap.Walk.Entries.{FileType, Kind, from_file_type, no_entries, push_all, entries}
use scap.Walk.Sys.{
  Errno, Answer, failed, got, Stream, not_opened, broken, no_descriptor, whole, Os, Ctx, Out,
  is_stat_first, emit, note_incomplete, note_dir, never_valid, mtime_ns, drops_a_subtree,
  is_excluded, join_rel, cstr, is_got, is_directory, is_repo_dir,
}

module _ (os : Os) where
  -- A directory that was found: with the descriptor that its parent has opened, or by its path alone.
  pub record Job : Type 0 where
    pub fd : Option os.Fd
    pub rel : Bytes

  -- What a read changes: the output, the children that it queues, and the parked descriptors.
  pub record Reading : Type 0 where
    pub out : Out
    pub children : List Job
    pub live_fds : ℕ

  pub data Child : Type 0 where
    repository settled dropped : Child

  abbrev pub queue : Option os.Fd → Bytes → Reading → Reading
  queue fd rel r = record r { children = r.children ++ (record { fd = fd; rel = rel } ∷ []) }

  abbrev pub with_out : Out → Reading → Reading
  with_out out r = record r { out = out }

  abbrev pub emitted : Bytes → Reading → Option Reading
  emitted rel r = emit rel r.out >>= λ out. some (with_out out r)

  abbrev pub exclude_one : Reading → Reading
  exclude_one r = with_out (record r.out { excluded = suc r.out.excluded }) r

  -- `statat(dirfd, "<name>/.git")`, links followed.
  abbrev pub has_git : os.Fd → Bytes → Option Bool
  has_git dirfd name = cstr (name ++ codes "/.git") >>= λ path. some (is_got (os.stat dirfd path))

  -- An error that forbids the read leaves a repository that can still be seen.
  abbrev pub forbidden : os.Fd → Bytes → Reading → Option (Child × Reading)
  forbidden dirfd name r =
      has_git dirfd name >>= λ there. some (if there then repository else dropped, r)

  -- What the `openat` of a child comes to.
  unfoldable pub opened : os.Fd → Bytes → Bytes → Reading → Answer os.Fd → Option (Child × Reading)
  opened dirfd name rel r (got fd) =
      some (settled, record (queue (some fd) rel r) { live_fds = suc r.live_fds })
  opened dirfd name rel r (failed Errno.mfile) = some (settled, queue none rel r)
  opened dirfd name rel r (failed Errno.nfile) = some (settled, queue none rel r)
  opened dirfd name rel r (failed Errno.acces) = forbidden dirfd name r
  opened dirfd name rel r (failed Errno.perm) = forbidden dirfd name r
  opened dirfd name rel r (failed Errno.noent) = some (settled, r)
  opened dirfd name rel r (failed Errno.notdir) = some (settled, r)
  opened dirfd name rel r (failed Errno.loop) = some (settled, r)
  opened dirfd name rel r (failed Errno.io) = some (dropped, r)

  module _ (ctx : Ctx) where
    unfoldable pub queue_child : os.Fd → Bytes → Bytes → Reading → Option (Child × Reading)
    queue_child dirfd name rel r =
        let path = cstr name in
        if leb ctx.fd_cap r.live_fds
        then some (settled, queue none rel r)
        else path >>= λ p. opened dirfd name rel r (os.open_child dirfd p)

    abbrev pub after_child : Bytes → Child × Reading → Option Reading
    after_child rel (repository, r) = emitted rel r
    after_child rel (settled, r) = some r
    after_child rel (dropped, r) = some (with_out (note_incomplete r.out) r)

    -- Rules (viii) and (ii), the strategy's look at `.git`, and the queue.
    unfoldable pub read_child_dir : os.Fd → Bytes → Bytes → Reading → Option Reading
    read_child_dir dirfd name rel r =
        let queued = queue_child dirfd name rel r >>= after_child rel in
        let looked = has_git dirfd name >>= λ there. if there then emitted rel r else queued in
        if is_excluded ctx.exclude rel
        then some (exclude_one r)
        else if ends_with (codes ".git") name
        then emitted rel r
        else if is_stat_first ctx.detect
        then looked
        else queued

    -- A link to a directory is listed by its own name or by the `.git` behind it.
    abbrev pub linked : os.Fd → Bytes → Bytes → Reading → Answer FileType → Option Reading
    linked dirfd name rel r (failed e) = some r
    linked dirfd name rel r (got type) =
        let looked = has_git dirfd name >>= λ there. if there then emitted rel r else some r in
        if not (is_directory type)
        then some r
        else if ends_with (codes ".git") name
        then emitted rel r
        else looked

    unfoldable pub read_symlink : os.Fd → Bytes → Bytes → Reading → Option Reading
    read_symlink dirfd name rel r =
        let target = cstr name >>= λ path. linked dirfd name rel r (os.stat dirfd path) in
        if is_excluded ctx.exclude rel then some (exclude_one r) else target

    abbrev pub read_kind : os.Fd → Bytes → Bytes → Kind → Reading → Option Reading
    read_kind dirfd rel name Kind.dir r = read_child_dir dirfd name (join_rel rel name) r
    read_kind dirfd rel name Kind.symlink r = read_symlink dirfd name (join_rel rel name) r
    read_kind dirfd rel name Kind.other r = some r
    read_kind dirfd rel name Kind.unknown r = some r

    abbrev pub read_typed : os.Fd → Bytes → Bytes → Answer FileType → Reading → Option Reading
    read_typed dirfd rel name (failed e) r = some r
    read_typed dirfd rel name (got type) r = read_kind dirfd rel name (from_file_type type) r

    -- One entry; an untyped one is looked at, links not followed.
    unfoldable pub read_entry : os.Fd → Bytes → Bytes × Kind → Reading → Option Reading
    read_entry dirfd rel (name, Kind.unknown) r =
        cstr name >>= λ path. read_typed dirfd rel name (os.lstat dirfd path) r
    read_entry dirfd rel (name, Kind.dir) r = read_kind dirfd rel name Kind.dir r
    read_entry dirfd rel (name, Kind.symlink) r = read_kind dirfd rel name Kind.symlink r
    read_entry dirfd rel (name, Kind.other) r = read_kind dirfd rel name Kind.other r

    unfoldable pub read_entries : os.Fd → Bytes → List (Bytes × Kind) → Reading → Option Reading
    read_entries dirfd rel [] r = some r
    read_entries dirfd rel (e ∷ es) r = read_entry dirfd rel e r >>= read_entries dirfd rel es

    abbrev pub recorded : os.Fd → ℤ
    recorded fd =
        if ctx.record_index
        then elim (os.fstat fd) [ none ↦ never_valid | some stat ↦ mtime_ns stat ]
        else never_valid

    abbrev pub note_read : Reading → Reading
    note_read r = with_out (record r.out { dirs_read = suc r.out.dirs_read }) r

    -- A whole entry list: rule (i) decides before any child is looked at.
    unfoldable pub read_whole : os.Fd → Bytes → List (Bytes × Kind) → Reading → Option Reading
    read_whole fd rel es r =
        let listed = emitted rel (note_read r) in
        let noted = with_out (note_dir rel (recorded fd) (note_read r).out) (note_read r) in
        let walked = read_entries fd rel es noted in
        if is_repo_dir es (is_got (os.stat fd (codes ".git"))) then listed else walked

    abbrev pub incomplete : Reading → Reading
    incomplete r = with_out (note_incomplete r.out) r

    abbrev pub read_stream : os.Fd → Bytes → Stream → Reading → Option Reading
    read_stream fd rel (not_opened e) r = some (if drops_a_subtree e then incomplete r else r)
    read_stream fd rel (broken es e) r = push_all no_entries es >>= λ buf. some (incomplete r)
    read_stream fd rel (no_descriptor es) r = push_all no_entries es >>= λ buf. some (incomplete r)
    read_stream fd rel (whole es) r =
        push_all no_entries es >>= λ buf. entries buf >>= λ es. read_whole fd rel es r

    unfoldable pub read_dir : os.Fd → Bytes → Reading → Option Reading
    read_dir fd rel r = read_stream fd rel (os.read_dir fd) r

    -- A job without a descriptor is opened from the root; one that cannot be is given up.
    abbrev pub reopened : Bytes → Answer os.Fd → Reading → Option Reading
    reopened rel (got fd) r = read_dir fd rel r
    reopened rel (failed Errno.mfile) r = some (incomplete r)
    reopened rel (failed Errno.nfile) r = some (incomplete r)
    reopened rel (failed e) r = some (if drops_a_subtree e then incomplete r else r)

    abbrev pub run_from : Option os.Fd → Bytes → Reading → Option Reading
    run_from (some fd) rel r = read_dir fd rel (record r { live_fds = r.live_fds - 1 })
    run_from none rel r = cstr rel >>= λ path. reopened rel (os.open_rel path) r

    unfoldable pub run : Job → Reading → Option Reading
    run job r = run_from job.fd job.rel r
