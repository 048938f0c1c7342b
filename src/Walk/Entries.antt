-- ===== src/Walk/Entries.antt =====
-- src/walk/sys.rs, `EntryBuf`: the entries of one directory, their names in one byte vector.
use scap.Base.{
  slice-append, take-all, drop-length-append, All-append, ℕ, ◌+◌, ◌-◌, ◌^◌, ◌≤◌, ◌<◌, ◌≡◌, refl, ap,
  sym, ◌∙◌, Bool, true, ◌||◌, ◌&&◌, Option, none, some, List, [], ◌∷◌, ◌++◌, arith, ltb,
  if◌then◌else◌, length, take, drop, All, append_assoc, append-nil, Bool-cases, inl, inr, ◌>>=◌,
  length-append,
}
use scap.Base.Bytes.{Bytes, codes, bytes_eq}

-- What `readdir` or `statat` reports of an entry.
pub data FileType : Type 0 where
  directory symlink regular untyped : FileType

pub data Kind : Type 0 where
  dir symlink other unknown : Kind

abbrev pub from_file_type : FileType → Kind
from_file_type FileType.directory = Kind.dir
from_file_type FileType.symlink = Kind.symlink
from_file_type FileType.regular = Kind.other
from_file_type FileType.untyped = Kind.unknown

pub record Ent : Type 0 where
  pub off : ℕ
  pub len : ℕ
  pub kind : Kind

pub record EntryBuf : Type 0 where
  pub names : Bytes
  pub ents : List Ent

-- `clear`
abbrev pub no_entries : EntryBuf
no_entries = record { names = []; ents = [] }

abbrev pub is_dots : Bytes → Bool
is_dots name = bytes_eq name (codes ".") || bytes_eq name (codes "..")

abbrev pub checked_u32 : ℕ → Option ℕ
checked_u32 n = if ltb n (2 ^ 32) then some n else none

-- `.` and `..` are passed over; an offset or a length that is no u32 ends the program.
unfoldable pub push : EntryBuf → Bytes → Kind → Option EntryBuf
push buf name kind = if is_dots name then some buf else do
  off ← checked_u32 (length buf.names)
  len ← checked_u32 (length name)
  some (record {
    names = buf.names ++ name;
    ents = buf.ents ++ (record { off = off; len = len; kind = kind } ∷ []);
  })

-- `while let Some(entry) = dir.read()`
unfoldable pub push_all : EntryBuf → List (Bytes × FileType) → Option EntryBuf
push_all buf [] = some buf
push_all buf (e ∷ es) = push buf e.0 (from_file_type e.1) >>= λ grown. push_all grown es

-- `name(i)` and `kind(i)` of each entry, in order.
abbrev pub name_of : Bytes → Ent → Bytes
name_of names e = take ((e.off + e.len) - e.off) (drop e.off names)

unfoldable pub entries_from : Bytes → List Ent → List (Bytes × Kind)
entries_from names [] = []
entries_from names (e ∷ es) = (name_of names e, e.kind) ∷ entries_from names es

abbrev pub ends_fit : List Ent → Bool
ends_fit [] = true
ends_fit (e ∷ es) = ltb (e.off + e.len) (2 ^ 32) && ends_fit es

-- All names together. One whose end is no u32, which only the last can be, ends the program; the code
-- comes to that name unless an earlier `.git` settles the directory.
unfoldable pub entries : EntryBuf → Option (List (Bytes × Kind))
entries buf = if ends_fit buf.ents then some (entries_from buf.names buf.ents) else none

-- The entries of a stream, without `.` and `..`.
unfoldable pub kept : List (Bytes × FileType) → List (Bytes × Kind)
kept [] = []
kept (e ∷ es) = let rest = kept es in if is_dots e.0 then rest else (e.0, from_file_type e.1) ∷ rest

abbrev pub names_length : List (Bytes × FileType) → ℕ
names_length [] = 0
names_length (e ∷ es) = length e.0 + names_length es

abbrev pub IsFilled : EntryBuf → Type 0
IsFilled buf = All (λ (e : Ent). e.off + e.len ≤ length buf.names) buf.ents

abbrev appended : EntryBuf → Bytes → Kind → EntryBuf
appended buf name kind = record {
  names = buf.names ++ name;
  ents = buf.ents ++ (record { off = length buf.names; len = length name; kind = kind } ∷ []);
}

entries_from-append_names :
    (names more : Bytes) (es : List Ent)
    → All (λ (e : Ent). e.off + e.len ≤ length names) es
    → entries_from (names ++ more) es ≡ entries_from names es
unfolding entries_from
entries_from-append_names names more [] h = refl
entries_from-append_names names more (e ∷ es) h = rw (
  slice-append names more e.off (e.off + e.len) (omega arith) h.0,
  entries_from-append_names names more es h.1,
)

entries_from-append :
    (names : Bytes) (es fs : List Ent)
    → entries_from names (es ++ fs) ≡ entries_from names es ++ entries_from names fs
unfolding entries_from
entries_from-append names [] fs = refl
entries_from-append names (e ∷ es) fs =
    ap (◌∷◌ (name_of names e, e.kind)) (entries_from-append names es fs)

entries-appended :
    (buf : EntryBuf) (name : Bytes) (kind : Kind)
    → IsFilled buf
    → entries_from (buf.names ++ name) (appended buf name kind).ents
      ≡ entries_from buf.names buf.ents ++ ((name, kind) ∷ [])
unfolding entries_from
entries-appended buf name kind h =
    let width : (length buf.names + length name) - length buf.names ≡ length name = omega arith in
    entries_from-append (buf.names ++ name) buf.ents _
    ∙ rw (
      entries_from-append_names buf.names name buf.ents h,
      width,
      drop-length-append buf.names name,
      take-all name,
    )

IsFilled-appended :
    (buf : EntryBuf) (name : Bytes) (kind : Kind) → IsFilled buf → IsFilled (appended buf name kind)
IsFilled-appended buf name kind h =
    let longer = length-append buf.names name in
    All-append (λ (e : Ent). e.off + e.len ≤ length (buf.names ++ name)) buf.ents _
      (wider buf.ents h) (omega (arith, longer), tt)
  where
    wider :
        (es : List Ent)
        → All (λ (e : Ent). e.off + e.len ≤ length buf.names) es
        → All (λ (e : Ent). e.off + e.len ≤ length (buf.names ++ name)) es
    wider [] k = tt
    wider (e ∷ es) k = (omega (arith, k.0, length-append buf.names name), wider es k.1)

-- What a buffer holds once a stream is pushed.
abbrev HasPushed : EntryBuf → List (Bytes × FileType) → EntryBuf → Type 0
HasPushed buf stream grown =
    (push_all buf stream ≡ some grown)
    × (entries_from grown.names grown.ents ≡ entries_from buf.names buf.ents ++ kept stream)
    × IsFilled grown
    × (length grown.names ≤ length buf.names + names_length stream)

push_all-from :
    (buf : EntryBuf) (stream : List (Bytes × FileType))
    → IsFilled buf
    → length buf.names + names_length stream < 2 ^ 32
    → (grown : EntryBuf) × HasPushed buf stream grown
unfolding push_all push kept
push_all-from buf [] h small =
    (buf, (refl, sym (append-nil (entries_from buf.names buf.ents)), h, omega arith))
push_all-from buf (e ∷ es) h small = elim (Bool-cases (is_dots e.0)) [
  | inl dots ↦
      let (grown, (run, same, filled, short)) = push_all-from buf es h (omega (arith, small)) in
      (grown, (rw (push_all, push, dots) run, rw (kept, dots) same, filled, omega (arith, short)))
  | inr name ↦
      let next = appended buf e.0 (from_file_type e.1) in
      let fits : ltb (length buf.names) (2 ^ 32) ≡ true = ground (arith, small) in
      let short : ltb (length e.0) (2 ^ 32) ≡ true = ground (arith, small) in
      let longer = length-append buf.names e.0 in
      let (grown, (run, same, filled, within)) =
        push_all-from next es (IsFilled-appended buf e.0 (from_file_type e.1) h)
          (omega (arith, small, longer)) in
      (
        grown,
        (
          rw (push_all, push, name, fits, short) run,
          rw (kept, name)
              (same
                ∙ rw (entries-appended buf e.0 (from_file_type e.1) h) (
                    append_assoc (entries_from buf.names buf.ents) ((e.0, from_file_type e.1) ∷ [])
                      (kept es))),
          filled,
          omega (arith, within, longer),
        ),
      )
]

ends_fit-IsFilled :
    (total : ℕ) (es : List Ent)
    → total < 2 ^ 32
    → All (λ (e : Ent). e.off + e.len ≤ total) es
    → ends_fit es ≡ true
ends_fit-IsFilled total [] small h = refl
ends_fit-IsFilled total (e ∷ es) small h =
    ground (arith, small, h.0, ends_fit-IsFilled total es small h.1)

-- A stream whose names come to fewer than 2^32 bytes is buffered, and what is read of the buffer are its
-- entries in order, less `.` and `..`.
pub push_all-kept :
    (stream : List (Bytes × FileType))
    → names_length stream < 2 ^ 32
    → (buf : EntryBuf) × (push_all no_entries stream ≡ some buf)
      × (entries buf ≡ some (kept stream))
unfolding entries entries_from
push_all-kept stream small =
    let (buf, (run, same, filled, short)) =
      push_all-from no_entries stream tt (omega (arith, small)) in
    let fit = ends_fit-IsFilled (length buf.names) buf.ents (omega (arith, short, small)) filled in
    (buf, run, rw (fit, same) refl)
