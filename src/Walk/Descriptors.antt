-- ===== src/Walk/Descriptors.antt =====
-- The descriptors that a read parks in the queue, whatever the kernel answers.
use scap.Base.{
  ℕ, ◌+◌, ◌≤◌, ◌≡◌, refl, Bool, true, false, Option, none, some, List, [], ◌∷◌, ◌++◌, if◌then◌else◌,
  arith, ◌>>=◌, inl, inr, leb, Bool-cases, Option-cases, not,
}
use scap.Base.Bytes.{Bytes, codes, ends_with}
use scap.Walk.Entries.{FileType, Kind, from_file_type, no_entries, push_all, entries}
use scap.Walk.Sys.{
  noent, notdir, loop, mfile, nfile, acces, perm, io, Answer, failed, got, Stream, not_opened,
  broken, no_descriptor, whole, Os, Ctx, note_dir, emit, cstr, is_excluded, is_stat_first,
  drops_a_subtree, is_directory, join_rel, is_repo_dir, is_got,
}
use scap.Walk.Reader.{
  Job, Reading, Child, repository, settled, dropped, emitted, has_git, forbidden, opened,
  queue_child, after_child, read_child_dir, linked, read_symlink, read_kind, read_typed, read_entry,
  read_entries, read_whole, read_stream, read_dir, with_out, recorded, note_read, incomplete,
}

module _ (os : Os) (ctx : Ctx) where
  abbrev pub held : Option os.Fd → ℕ
  held none = 0
  held (some fd) = 1

  -- The descriptors in a queue.
  abbrev pub parked : List (Job os) → ℕ
  parked [] = 0
  parked (j ∷ js) = held j.fd + parked js

  pub parked-append : (js ks : List (Job os)) → parked (js ++ ks) ≡ parked js + parked ks
  parked-append [] ks = omega arith
  parked-append (j ∷ js) ks = omega (arith, parked-append js ks)

  -- Each descriptor is counted when it is parked, and none is parked at the cap.
  abbrev pub IsKept : Reading os → Reading os → Type 0
  IsKept r r' =
      (parked r'.children + r.live_fds ≡ parked r.children + r'.live_fds)
      × (r.live_fds ≤ ctx.fd_cap → r'.live_fds ≤ ctx.fd_cap)

  abbrev pub Keeps : Reading os → Option (Reading os) → Type 0
  Keeps r none = Unit
  Keeps r (some r') = IsKept r r'

  IsKept-refl : (r : Reading os) → IsKept r r
  IsKept-refl r = (refl, λ h. h)

  Keeps-if :
      (t : Bool) (r : Reading os) (a b : Option (Reading os))
      → Keeps r a
      → Keeps r b
      → Keeps r (if t then a else b)
  Keeps-if true r a b h k = h
  Keeps-if false r a b h k = k

  Keeps->>= :
      (r : Reading os) (result : Option (Reading os)) (next : Reading os → Option (Reading os))
      → Keeps r result
      → ((r' : Reading os) → Keeps r' (next r'))
      → Keeps r (result >>= next)
  Keeps->>= r none next h k = tt
  Keeps->>= r (some r') next h k = onward (next r') (k r')
    where
      onward : (end : Option (Reading os)) → Keeps r' end → Keeps r end
      onward none h' = tt
      onward (some r'') h' = (omega (arith, h.0, h'.0), λ low. h'.1 (h.1 low))

  pub Keeps-any :
      {X : Type 0} (r : Reading os) (answer : Option X) (next : X → Option (Reading os))
      → ((x : X) → Keeps r (next x))
      → Keeps r (answer >>= next)
  Keeps-any r none next h = tt
  Keeps-any r (some x) next h = h x

  emitted-Keeps : (rel : Bytes) (r : Reading os) → Keeps r (emitted os rel r)
  emitted-Keeps rel r = Keeps-any r (emit rel r.out) _ (λ out. IsKept-refl r)

  -- What a child has come to, behind its consequence.
  settle-Keeps :
      (rel : Bytes) (r r' : Reading os) (child : Child os)
      → IsKept r r'
      → Keeps r (after_child os ctx rel (child, r'))
  settle-Keeps rel r r' repository h = Keeps->>= r (some r') (emitted os rel) h (emitted-Keeps rel)
  settle-Keeps rel r r' settled h = h
  settle-Keeps rel r r' dropped h = h

  queued-IsKept :
      (rel : Bytes) (r : Reading os)
      → IsKept r (record r { children = r.children ++ (record { fd = none; rel = rel } ∷ []) })
  queued-IsKept rel r =
      (omega (arith, parked-append r.children (record { fd = none; rel = rel } ∷ [])), λ h. h)

  forbidden-Keeps :
      (dirfd : os.Fd) (name rel : Bytes) (r : Reading os)
      → Keeps r (forbidden os dirfd name r >>= after_child os ctx rel)
  forbidden-Keeps dirfd name rel r = elim (Option-cases (has_git os dirfd name)) [
    | inl e ↦ rw e tt
    | inr (there, e) ↦
        rw e (settle-Keeps rel r r (if there then repository else dropped) (IsKept-refl r))
  ]

  opened-Keeps :
      (dirfd : os.Fd) (name rel : Bytes) (r : Reading os) (answer : Answer os.Fd)
      → leb ctx.fd_cap r.live_fds ≡ false
      → Keeps r (opened os dirfd name rel r answer >>= after_child os ctx rel)
  unfolding opened
  opened-Keeps dirfd name rel r (got fd) h = (
    omega (arith, parked-append r.children (record { fd = some fd; rel = rel } ∷ [])),
    λ low. ground (arith, h),
  )
  opened-Keeps dirfd name rel r (failed mfile) h = queued-IsKept rel r
  opened-Keeps dirfd name rel r (failed nfile) h = queued-IsKept rel r
  opened-Keeps dirfd name rel r (failed acces) h = forbidden-Keeps dirfd name rel r
  opened-Keeps dirfd name rel r (failed perm) h = forbidden-Keeps dirfd name rel r
  opened-Keeps dirfd name rel r (failed noent) h = IsKept-refl r
  opened-Keeps dirfd name rel r (failed notdir) h = IsKept-refl r
  opened-Keeps dirfd name rel r (failed loop) h = IsKept-refl r
  opened-Keeps dirfd name rel r (failed io) h = IsKept-refl r

  queue_child-Keeps :
      (dirfd : os.Fd) (name rel : Bytes) (r : Reading os)
      → Keeps r (queue_child os ctx dirfd name rel r >>= after_child os ctx rel)
  unfolding queue_child
  queue_child-Keeps dirfd name rel r = elim (Bool-cases (leb ctx.fd_cap r.live_fds)) [
    | inl full ↦ rw full (queued-IsKept rel r)
    | inr free ↦ rw free (at (cstr name) free)
  ]
    where
      at :
          (path : Option Bytes)
          → leb ctx.fd_cap r.live_fds ≡ false
          → Keeps r (
              (path >>= λ p. opened os dirfd name rel r (os.open_child dirfd p))
              >>= after_child os ctx rel)
      at none free = tt
      at (some p) free = opened-Keeps dirfd name rel r (os.open_child dirfd p) free

  read_child_dir-Keeps :
      (dirfd : os.Fd) (name rel : Bytes) (r : Reading os)
      → Keeps r (read_child_dir os ctx dirfd name rel r)
  unfolding read_child_dir
  read_child_dir-Keeps dirfd name rel r =
      let queued = queue_child-Keeps dirfd name rel r in
      Keeps-if (is_excluded ctx.exclude rel) r _ _ (IsKept-refl r) (
        Keeps-if (ends_with (codes ".git") name) r _ _ (emitted-Keeps rel r) (
          Keeps-if (is_stat_first ctx.detect) r _ _
            (Keeps-any r (has_git os dirfd name) _
              (λ there. Keeps-if there r _ _ (emitted-Keeps rel r) queued))
            queued))

  linked-Keeps :
      (dirfd : os.Fd) (name rel : Bytes) (r : Reading os) (answer : Answer FileType)
      → Keeps r (linked os ctx dirfd name rel r answer)
  linked-Keeps dirfd name rel r (failed e) = IsKept-refl r
  linked-Keeps dirfd name rel r (got type) =
      Keeps-if (not (is_directory type)) r _ _ (IsKept-refl r) (
        Keeps-if (ends_with (codes ".git") name) r _ _ (emitted-Keeps rel r) (
          Keeps-any r (has_git os dirfd name) _
            (λ there. Keeps-if there r _ _ (emitted-Keeps rel r) (IsKept-refl r))))

  read_kind-Keeps :
      (dirfd : os.Fd) (rel name : Bytes) (kind : Kind) (r : Reading os)
      → Keeps r (read_kind os ctx dirfd rel name kind r)
  unfolding read_symlink
  read_kind-Keeps dirfd rel name Kind.dir r = read_child_dir-Keeps dirfd name (join_rel rel name) r
  read_kind-Keeps dirfd rel name Kind.symlink r =
      Keeps-if (is_excluded ctx.exclude (join_rel rel name)) r _ _ (IsKept-refl r) (
        Keeps-any r (cstr name) _
          (λ path. linked-Keeps dirfd name (join_rel rel name) r (os.stat dirfd path)))
  read_kind-Keeps dirfd rel name Kind.other r = IsKept-refl r
  read_kind-Keeps dirfd rel name Kind.unknown r = IsKept-refl r

  read_typed-Keeps :
      (dirfd : os.Fd) (rel name : Bytes) (answer : Answer FileType) (r : Reading os)
      → Keeps r (read_typed os ctx dirfd rel name answer r)
  read_typed-Keeps dirfd rel name (failed e) r = IsKept-refl r
  read_typed-Keeps dirfd rel name (got type) r =
      read_kind-Keeps dirfd rel name (from_file_type type) r

  read_entry-Keeps :
      (dirfd : os.Fd) (rel name : Bytes) (kind : Kind) (r : Reading os)
      → Keeps r (read_entry os ctx dirfd rel (name, kind) r)
  unfolding read_entry
  read_entry-Keeps dirfd rel name Kind.unknown r =
      Keeps-any r (cstr name) _ (λ path. read_typed-Keeps dirfd rel name (os.lstat dirfd path) r)
  read_entry-Keeps dirfd rel name Kind.dir r = read_kind-Keeps dirfd rel name Kind.dir r
  read_entry-Keeps dirfd rel name Kind.symlink r = read_kind-Keeps dirfd rel name Kind.symlink r
  read_entry-Keeps dirfd rel name Kind.other r = read_kind-Keeps dirfd rel name Kind.other r

  read_entries-Keeps :
      (dirfd : os.Fd) (rel : Bytes) (es : List (Bytes × Kind)) (r : Reading os)
      → Keeps r (read_entries os ctx dirfd rel es r)
  unfolding read_entries
  read_entries-Keeps dirfd rel [] r = IsKept-refl r
  read_entries-Keeps dirfd rel (e ∷ es) r =
      Keeps->>= r (read_entry os ctx dirfd rel e r) _ (read_entry-Keeps dirfd rel e.0 e.1 r)
        (read_entries-Keeps dirfd rel es)

  abbrev noted : os.Fd → Bytes → Reading os → Reading os
  noted fd rel r =
      with_out os (note_dir rel (recorded os ctx fd) (note_read os ctx r).out) (note_read os ctx r)

  given_up : (t : Bool) (r : Reading os) → IsKept r (if t then incomplete os ctx r else r)
  given_up true r = IsKept-refl r
  given_up false r = IsKept-refl r

  read_stream-Keeps :
      (fd : os.Fd) (rel : Bytes) (stream : Stream) (r : Reading os)
      → Keeps r (read_stream os ctx fd rel stream r)
  unfolding read_whole
  read_stream-Keeps fd rel (not_opened e) r = given_up (drops_a_subtree e) r
  read_stream-Keeps fd rel (broken es e) r =
      Keeps-any r (push_all no_entries es) _ (λ buf. IsKept-refl r)
  read_stream-Keeps fd rel (no_descriptor es) r =
      Keeps-any r (push_all no_entries es) _ (λ buf. IsKept-refl r)
  read_stream-Keeps fd rel (whole es) r = Keeps-any r (push_all no_entries es) _ (λ buf.
      Keeps-any r (entries buf) _ (λ found.
        Keeps-if (is_repo_dir found (is_got (os.stat fd (codes ".git")))) r _ _
          (Keeps-any r (emit rel (note_read os ctx r).out) _ (λ out. IsKept-refl r))
          (Keeps->>= r (some (noted fd rel r)) (read_entries os ctx fd rel found) (IsKept-refl r)
            (read_entries-Keeps fd rel found))))

  pub read_dir-Keeps :
      (fd : os.Fd) (rel : Bytes) (r : Reading os) → Keeps r (read_dir os ctx fd rel r)
  unfolding read_dir
  read_dir-Keeps fd rel r = read_stream-Keeps fd rel (os.read_dir fd) r
