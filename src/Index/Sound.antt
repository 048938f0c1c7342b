-- ===== src/Index/Sound.antt =====
-- What `decode` has checked of an index that it returns.
use scap.Base.{
  ◌≡◌, refl, ◌≢◌, ◌⊎◌, inl, inr, Bool, true, false, not, ◌||◌, Option, none, some, List, [], ◌∷◌,
  arith, ◌==◌, length, All, all, drop, Bool-cases, and-eq_true,
}
use mathlib.Core.Bool.{false≢true}
use scap.Base.Bytes.{Bytes, codes, bytes_eq_iff, contains, split}
use scap.Index.{Entry, Index}
use scap.Index.Reader.{Reader}
use scap.Index.Codec.{is_safe_rel, is_odd_part, starts_at_root, read_fields, check_whole, decode}
use scap.Index.Tree.{IsTree}
use scap.Index.Tree.Marks.{marks-all-drop}
use scap.Index.Tree.Claims.{after_all, AllFresh-IsForward, covered-claims}
use scap.Index.Yields.{Post, IsEntry, EntryOk, FieldsRead, read_fields-Yields}

-- No part of the path leaves the directory that it is resolved in.
pub record IsInside (rel : Bytes) : Type 0 where
  pub no_nul : contains 0 rel ≡ false
  pub no_odd : All (λ part. (part ≢ []) × (part ≢ codes ".") × (part ≢ codes "..")) (split b'/' rel)

is_odd_part-false :
    (part : Bytes)
    → not (is_odd_part part) ≡ true
    → (part ≢ []) × (part ≢ codes ".") × (part ≢ codes "..")
is_odd_part-false part h = (
  λ e. ground (arith, (bytes_eq_iff part []).1 e),
  λ e. ground (arith, (bytes_eq_iff part (codes ".")).1 e),
  λ e. ground (arith, (bytes_eq_iff part (codes "..")).1 e),
)

all-is_odd_part :
    (parts : List Bytes)
    → all (λ part. not (is_odd_part part)) parts ≡ true
    → All (λ part. (part ≢ []) × (part ≢ codes ".") × (part ≢ codes "..")) parts
all-is_odd_part [] h = tt
all-is_odd_part (p ∷ ps) h =
    let (here, rest) = and-eq_true (not (is_odd_part p)) _ h in
    (is_odd_part-false p here, all-is_odd_part ps rest)

-- A path that passes the check is the root's, or stays inside it.
pub is_safe_rel-IsInside : (rel : Bytes) → is_safe_rel rel ≡ true → (rel ≡ []) ⊎ IsInside rel
unfolding is_safe_rel
is_safe_rel-IsInside [] h = inl refl
is_safe_rel-IsInside (b ∷ bs) h = elim (Bool-cases (b == b'/' || contains 0 (b ∷ bs))) [
  | inl bad ↦ absurd (false≢true (rw bad at h))
  | inr good ↦
      let clean : contains 0 (b ∷ bs) ≡ false = ground arith in
      inr (record { no_nul = clean; no_odd = all-is_odd_part _ (rw good at h) })
]

rooted-check_whole :
    (r : Reader) (ix : Index) (ps : List Bool) {jx : Index}
    → check_whole r ix ps ≡ some jx
    → (r.at ≡ length r.bytes)
      × (starts_at_root ix.entries ≡ true)
      × (all (λ b. b) (drop 1 ps) ≡ true)
      × (ix ≡ jx)
rooted-check_whole r ix ps h = ground arith

-- What a decoded index is: a tree whose paths stay inside the root.
pub record IsSound (ix : Index) : Type 0 where
  pub tree : IsTree ix.entries
  pub entries :
      All (λ e. ((e.rel ≡ []) ⊎ IsInside e.rel) × IsEntry e.mtime_ns e.children) ix.entries

EntryOk-IsInside :
    (es : List Entry)
    → All EntryOk es
    → All (λ e. ((e.rel ≡ []) ⊎ IsInside e.rel) × IsEntry e.mtime_ns e.children) es
EntryOk-IsInside [] h = tt
EntryOk-IsInside (e ∷ es) h =
    ((is_safe_rel-IsInside e.rel (h.0).0, (h.0).1), EntryOk-IsInside es h.1)

FieldsRead-IsSound :
    (r : Reader) (ix jx : Index) (ps : List Bool)
    → FieldsRead (ix, ps)
    → check_whole r ix ps ≡ some jx
    → IsSound jx
FieldsRead-IsSound r ix jx ps f h =
    let (end, rooted, marked, same) = rooted-check_whole r ix ps h in
    let es = ix.entries in
    let (ahead, once) = AllFresh-IsForward es f.1 in
    let tree : IsTree es = record {
      rooted = rooted;
      forward = ahead;
      once = once;
      covered = λ j p q.
          covered-claims es j
            (marks-all-drop (length es) (after_all [] es) (rw f.2 at marked) j p q);
    } in
    rw (← same) (record { tree = tree; entries = EntryOk-IsInside es f.0 })

-- Whatever bytes the file holds, an index that is decoded from them is a tree of entries: child
-- indices go forward and name entries, no entry has two parents, all but the first have one, the
-- first is the root's. Every path is empty or has no NUL and no part that is empty, "." or "..",
-- and an entry without a time has no children.
pub decode-IsSound : (bytes : Bytes) (ix : Index) → decode bytes ≡ some ix → IsSound ix
unfolding decode
decode-IsSound bytes ix h = go (read_fields start) (read_fields-Yields start) h
  where
    start : Reader
    start = record { bytes = bytes; at = 0 }

    go :
        (o : Option ((Index × List Bool) × Reader))
        → Post FieldsRead o
        → ◌≡◌ {A = Option Index}
            (elim o [ none ↦ none | some ((jx, ps), r) ↦ check_whole r jx ps ])
            (some ix)
        → IsSound ix
    go none f e = cc
    go (some ((jx, ps), r)) f e = FieldsRead-IsSound r jx ix ps f e
