-- ===== src/Walk/Recorded.antt =====
-- The records of a walk against its arena, whatever the kernel answers.
pub mod Reads
pub mod Walks
use scap.Base.{
  ℕ, ◌+◌, ◌≡◌, refl, sym, ap, ◌∙◌, Bool, true, false, Option, none, some, List, [], ◌∷◌, ◌++◌,
  if◌then◌else◌, ◌>>=◌, >>=-eq-some, inl, inr, not, Bool-cases, append_assoc, append-nil, leb,
}
use scap.Base.Bytes.{Bytes, codes, ends_with}
use scap.Base.Int.{ℤ}
use scap.Walk.{Record, dir, repo, is_repo, shown}
use scap.Walk.Records.{listed}
use scap.Walk.Arena.{iter, IsWithin, push, push-iter, merge, merge-iter, slices}
use scap.Walk.Entries.{FileType, Kind, from_file_type, no_entries, push_all, entries}
use scap.Walk.Sys.{
  noent, notdir, loop, mfile, nfile, acces, perm, io, Answer, failed, got, Stream, not_opened,
  broken, no_descriptor, whole, Os, Ctx, Out, new_out, note_dir, emit, shown_rel, with_repo, cstr,
  is_excluded, is_stat_first, drops_a_subtree, is_directory, join_rel, is_repo_dir, is_got,
  merge_out,
}
use scap.Walk.Reader.{
  Job, Reading, Child, repository, settled, dropped, emitted, has_git, forbidden, opened,
  queue_child, after_child, read_child_dir, linked, read_symlink, read_kind, read_typed, read_entry,
  read_entries, read_whole, read_stream, read_dir, reopened, with_out, recorded, note_read,
  incomplete, run_from, run,
}
use scap.Walk.Workers.{
  Crew, fresh, crew, Turn, read_job, Turns, none_yet, then_one, idle, merge_all,
}

pub listed-append : (xs ys : List Record) → listed (xs ++ ys) ≡ listed xs ++ listed ys
unfolding listed
listed-append [] ys = refl
listed-append (x ∷ xs) ys = elim (Bool-cases (is_repo x)) [
  | inl e ↦ rw (e, listed-append xs ys) refl
  | inr e ↦ rw (e, listed-append xs ys) refl
]

-- The arena of an output that keeps records lists the repositories among them.
pub record IsRecorded (out : Out) : Type 0 where
  pub within : IsWithin out.arena
  pub records_on : out.record_index ≡ true
  pub paths : iter out.arena ≡ listed out.records

pub new_out-IsRecorded : IsRecorded (new_out true)
unfolding new_out iter slices listed
new_out-IsRecorded = record { within = tt; records_on = refl; paths = refl }

abbrev pub HoldsOut : Option Out → Type 0
HoldsOut none = Unit
HoldsOut (some out) = IsRecorded out

pub emit-Holds : (rel : Bytes) (out : Out) → IsRecorded out → HoldsOut (emit rel out)
unfolding emit listed
emit-Holds rel out h = at (push out.arena (shown_rel rel)) refl
  where
    at :
        (grown : Option _)
        → push out.arena (shown_rel rel) ≡ grown
        → HoldsOut (grown >>= λ arena. some (with_repo arena rel out))
    at none e = tt
    at (some arena) e =
        let (same, v) = push-iter out.arena (shown_rel rel) h.within e in
        record {
          within = v;
          records_on = h.records_on;
          paths =
              same
              ∙ ap (λ xs. xs ++ (shown_rel rel ∷ [])) h.paths
              ∙ sym (listed-append out.records (repo rel ∷ []))
              ∙ ap (λ t. listed (if t then out.records ++ (repo rel ∷ []) else out.records))
                  (sym h.records_on);
        }

pub note_dir-IsRecorded :
    (rel : Bytes) (mtime : ℤ) (out : Out) → IsRecorded out → IsRecorded (note_dir rel mtime out)
unfolding listed
note_dir-IsRecorded rel mtime out h = record {
  within = h.within;
  records_on = h.records_on;
  paths =
      h.paths
      ∙ sym (append-nil (listed out.records))
      ∙ sym (listed-append out.records (dir rel mtime ∷ []))
      ∙ ap (λ t. listed (if t then out.records ++ (dir rel mtime ∷ []) else out.records))
          (sym h.records_on);
}

pub merge_out-IsRecorded :
    (out other : Out) {both : Out}
    → IsRecorded out
    → IsRecorded other
    → merge_out out other ≡ some both
    → IsRecorded both
unfolding merge_out
merge_out-IsRecorded out other {both} h k e =
    let (arena, f, same) = >>=-eq-some (merge out.arena other.arena) _ e in
    let (paths, v) = merge-iter out.arena other.arena h.within k.within f in
    let joined : arena ≡ both.arena = cc in
    let records : out.records ++ other.records ≡ both.records = cc in
    let on : out.record_index ≡ both.record_index = cc in
    record {
      within = rw joined at v;
      records_on = sym on ∙ h.records_on;
      paths =
          ap iter (sym joined)
          ∙ paths
          ∙ rw (h.paths, k.paths) (sym (listed-append out.records other.records))
          ∙ ap listed records;
    }
