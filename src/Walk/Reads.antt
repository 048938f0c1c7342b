-- ===== src/Walk/Reads.antt =====
-- The reader at the entries of a directory of the still tree, at a whole directory, and at a job.
use scap.Base.{
  ◌-◌, ◌^◌, ◌<◌, ◌≡◌, refl, ap, ◌∙◌, Bool, true, false, Option, none, some, [], arith, ◌⊎◌, inl,
  inr, length, Bool-cases,
}
use scap.Base.Bytes.{Bytes, codes}
use scap.Walk.Entries.{from_file_type, push_all-kept, names_length}
use scap.Walk.Sys.{
  Answer, failed, got, noent, Mtime, Os, Ctx, stat_first, is_got, join_rel, is_repo_dir, note_dir,
  drops_a_subtree, Errno, notdir, loop, mfile, nfile, acces, perm, io,
}
use scap.Walk.Reader.{
  Job, Reading, read_kind, read_entry, read_entries, read_whole, read_dir, note_read, recorded, run,
  run_from, with_out, reopened,
}
use scap.Walk.Tree.{
  dirs_in, dirs_of, Nodes, Node, dir, link, file, nil, entry, find, stat_path, os_of, git_there,
  found_in, found_node, found_dir, IsName, IsNamed, AllNamed, IsReadable, AllReadable, reported,
  type_of, stream_of,
}
use scap.Walk.Lookup.{
  is_got-stat_path-git, cstr-some, AllFound, AllNamed-AllFound, kinds, kept-stream_of,
  names_length-listing, is_repo_dir-git_there,
}
use scap.Walk.Ledger.{
  behind_job, behind_answer, IsScannable, IsPlace, to_list, IsJob, IsFine, Adds, HasRoom, Adds-same,
  Adds-emitted, Adds->>=, opened_root, answered, sum-append,
}
use scap.Walk.Children.{read_child_dir-Adds}
use scap.Walk.Links.{read_symlink-Adds}

module _ (root : Nodes) (typed : Bool) (fstat : Nodes → Option Mtime) (ctx : Ctx) where
  abbrev disk : Os
  disk = os_of root typed fstat

  abbrev pub IsAble : Node → Type 0
  IsAble node = (ctx.detect ≡ stat_first) ⊎ IsReadable node

  -- An untyped entry is looked at, and then read as a typed one is.
  read_entry-typed :
      (reports : Bool) (rel name : Bytes) (ns : Nodes) (node : Node) (r : Reading disk)
      → IsName name
      → find ns name ≡ some node
      → read_entry disk ctx ns rel (name, from_file_type (reported reports (type_of node))) r
        ≡ read_kind disk ctx ns rel name (from_file_type (type_of node)) r
  unfolding read_entry
  read_entry-typed true rel name ns (dir readable below) r named here = refl
  read_entry-typed true rel name ns (link target) r named here = refl
  read_entry-typed true rel name ns file r named here = refl
  read_entry-typed false rel name ns node r named here = rw (cstr-some name named.2, here) refl

  read_kind-Adds :
      (rel name : Bytes) (ns : Nodes) (node : Node) (r : Reading disk)
      → IsPlace root typed fstat ctx rel ns
      → IsName name
      → find ns name ≡ some node
      → IsNamed node
      → IsAble node
      → IsFine root typed fstat ctx r
      → HasRoom root typed fstat ctx r (found_node ctx.exclude (join_rel rel name) name node)
      → Adds root typed fstat ctx
          (dirs_of node)
          r
          (found_node ctx.exclude (join_rel rel name) name node)
          (read_kind disk ctx ns rel name (from_file_type (type_of node)) r)
  unfolding IsNamed found_node dirs_of
  read_kind-Adds rel name ns (dir readable below) r place named here small able h room =
      read_child_dir-Adds root typed fstat ctx rel name ns below readable r place named here small
        able h room
  read_kind-Adds rel name ns (link target) r place named here small able h room =
      read_symlink-Adds root typed fstat ctx (join_rel rel name) name ns target r named here h room
  read_kind-Adds rel name ns file r place named here small able h room =
      Adds-same root typed fstat ctx _ r r h (λ f. refl) refl

  IsAble-entry :
      (name : Bytes) (node : Node) (rest : Nodes)
      → IsScannable ctx.detect (entry name node rest)
      → IsAble node × IsScannable ctx.detect rest
  unfolding AllReadable
  IsAble-entry name node rest (inl first) = (inl first, inl first)
  IsAble-entry name node rest (inr able) = (inr able.0, inr able.1)

  read_entries-Adds :
      (rel : Bytes) (ns es : Nodes) (r : Reading disk)
      → IsPlace root typed fstat ctx rel ns
      → AllFound ns es
      → AllNamed es
      → IsScannable ctx.detect es
      → IsFine root typed fstat ctx r
      → HasRoom root typed fstat ctx r (found_in ctx.exclude rel es)
      → Adds root typed fstat ctx
          (dirs_in es)
          r
          (found_in ctx.exclude rel es)
          (read_entries disk ctx ns rel (kinds typed es) r)
  unfolding read_entries found_in AllNamed dirs_in
  read_entries-Adds rel ns nil r place found named able h room =
      Adds-same root typed fstat ctx _ r r h (λ f. refl) refl
  read_entries-Adds rel ns (entry name node rest) r place found named able h room =
      let (able_here, able_rest) = IsAble-entry name node rest able in
      let first_room : HasRoom root typed fstat ctx r
          (found_node ctx.exclude (join_rel rel name) name node) =
        omega (
          arith,
          room,
          sum-append length (found_node ctx.exclude (join_rel rel name) name node)
              (found_in ctx.exclude rel rest),
        ) in
      Adds->>= root typed fstat ctx (dirs_of node) (dirs_in rest) r
        (found_node ctx.exclude (join_rel rel name) name node) (found_in ctx.exclude rel rest) _ _
        room
        (rw (read_entry-typed typed rel name ns node r named.0 found.0)
          (read_kind-Adds rel name ns node r place named.0 found.0 named.2 able_here h first_room))
        (λ r' h' room'. read_entries-Adds rel ns rest r' place found.1 named.3 able_rest h' room')

  read_whole-Adds :
      (rel : Bytes) (ns : Nodes) (r : Reading disk)
      → IsPlace root typed fstat ctx rel ns
      → IsFine root typed fstat ctx r
      → HasRoom root typed fstat ctx r (found_dir ctx.exclude rel ns)
      → Adds root typed fstat ctx
          (dirs_in ns)
          r
          (found_dir ctx.exclude rel ns)
          (read_whole disk ctx ns rel (kinds typed ns) r)
  unfolding read_whole found_dir
  read_whole-Adds rel ns r place h room =
      let probe : is_repo_dir (kinds typed ns) (is_got (stat_path ns (codes ".git")))
          ≡ git_there ns =
        ap (is_repo_dir (kinds typed ns)) (is_got-stat_path-git ns)
        ∙ is_repo_dir-git_there typed ns in
      elim (Bool-cases (git_there ns)) [
        | inl git ↦
            rw (probe ∙ git, git)
              (Adds-emitted root typed fstat ctx _ rel (note_read disk ctx r) h
                (rw (found_dir, git) at room))
        | inr none_there ↦
            rw (probe ∙ none_there, none_there)
              (read_entries-Adds rel ns ns
                (with_out disk (note_dir rel (recorded disk ctx ns) (note_read disk ctx r).out)
                  (note_read disk ctx r))
                place (AllNamed-AllFound ns place.2.0) place.2.0 place.3 h
                (rw (found_dir, none_there) at room))
      ]

  pub read_dir-Adds :
      (rel : Bytes) (ns : Nodes) (r : Reading disk)
      → IsPlace root typed fstat ctx rel ns
      → IsFine root typed fstat ctx r
      → HasRoom root typed fstat ctx r (found_dir ctx.exclude rel ns)
      → Adds root typed fstat ctx
          (dirs_in ns)
          r
          (found_dir ctx.exclude rel ns)
          (read_dir disk ctx ns rel r)
  unfolding read_dir
  read_dir-Adds rel ns r place h room =
      let short : names_length (stream_of typed ns) < 2 ^ 32 =
        omega (arith, place.2.1, names_length-listing typed ns) in
      let (buf, filled, read) = push_all-kept (stream_of typed ns) short in
      rw (filled, read ∙ ap some (kept-stream_of typed ns place.2.0))
        (read_whole-Adds rel ns r place h room)

  reopened-Adds :
      (rel : Bytes) (answer : Answer Nodes) (r : Reading disk)
      → ((ns : Nodes) → answer ≡ got ns → IsPlace root typed fstat ctx rel ns)
      → IsFine root typed fstat ctx r
      → HasRoom root typed fstat ctx r (answered root typed fstat ctx rel answer)
      → Adds root typed fstat ctx
          (behind_answer root typed fstat ctx answer)
          r
          (answered root typed fstat ctx rel answer)
          (reopened disk ctx rel answer r)
  unfolding drops_a_subtree
  reopened-Adds rel (got ns) r place h room = read_dir-Adds rel ns r (place ns refl) h room
  reopened-Adds rel (failed e) r place h room = given_up e
    where
      given_up : (e : Errno) → Adds root typed fstat ctx 0 r [] (reopened disk ctx rel (failed e) r)
      given_up noent = Adds-same root typed fstat ctx _ r r h (λ f. refl) refl
      given_up notdir = Adds-same root typed fstat ctx _ r r h (λ f. refl) refl
      given_up loop = Adds-same root typed fstat ctx _ r r h (λ f. refl) refl
      given_up mfile = Adds-same root typed fstat ctx _ r _ h (λ f. refl) refl
      given_up nfile = Adds-same root typed fstat ctx _ r _ h (λ f. refl) refl
      given_up acces = Adds-same root typed fstat ctx _ r _ h (λ f. refl) refl
      given_up perm = Adds-same root typed fstat ctx _ r _ h (λ f. refl) refl
      given_up io = Adds-same root typed fstat ctx _ r _ h (λ f. refl) refl

  run_from-Adds :
      (fd : Option Nodes) (rel : Bytes) (r : Reading disk)
      → IsJob root typed fstat ctx fd rel
      → IsFine root typed fstat ctx r
      → HasRoom root typed fstat ctx r (to_list root typed fstat ctx fd rel)
      → Adds root typed fstat ctx
          (behind_job root typed fstat ctx fd rel)
          r
          (to_list root typed fstat ctx fd rel)
          (run_from disk ctx fd rel r)
  run_from-Adds (some ns) rel r place h room =
      read_dir-Adds rel ns (record r { live_fds = r.live_fds - 1 }) place h room
  run_from-Adds none rel r job h room =
      rw (cstr-some rel job.0)
        (reopened-Adds rel (opened_root root typed fstat ctx rel) r job.1 h room)

  -- A job adds what it has to list.
  pub run-Adds :
      (job : Job disk) (r : Reading disk)
      → IsJob root typed fstat ctx job.fd job.rel
      → IsFine root typed fstat ctx r
      → HasRoom root typed fstat ctx r (to_list root typed fstat ctx job.fd job.rel)
      → Adds root typed fstat ctx
          (behind_job root typed fstat ctx job.fd job.rel)
          r
          (to_list root typed fstat ctx job.fd job.rel)
          (run disk ctx job r)
  unfolding run
  run-Adds job r is_job h room = run_from-Adds job.fd job.rel r is_job h room
