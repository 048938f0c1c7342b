-- ===== src/Index/RoundTrip.antt =====
-- `decode` reads back what `encode` wrote, piece by piece.
use scap.Base.{
  ℕ, suc, ◌*◌, ◌^◌, ◌≤◌, ◌<◌, ◌≡◌, sym, Bool, true, false, not, Option, none, some, List, [], ◌∷◌,
  ◌++◌, append-nil, arith, ltb, ◌==◌, length, length-append, replicate, All, lt→ltb, ==_refl,
}
use scap.Base.Int.{ℤ}
use scap.Base.Bytes.{Bytes, bytes_eq_refl, contains}
use scap.Index.{Entry, Index}
use scap.Index.Word.{le_bytes, i64_bits, length-le_bytes}
use scap.Index.Reader.{
  Reader, ◌>>=◌, ◌>>◌, ret, ensure, take_bytes, u8, u32, u64, i64, byte_string, count, Reads, Ready,
  Reads-ret, Reads-bind, Reads-guard, Reads-map, Reads-take_bytes, Reads-u8, Reads-u32, Reads-u64,
  Reads-i64, Reads-byte_string, Reads-count,
}
use scap.Index.Codec.{
  magic, version, min_entry_bytes, kind_byte, encode, is_bad_child, read_children, read_dir,
  read_entries, read_patterns, read_fields, decode, check_whole,
}
use scap.Index.Layout.{
  string_bytes, pattern_bytes, child_bytes, dir_bytes, entries_bytes, index_bytes, FitsMtime,
  FitsEntry, FitsString, Fits, encode-index_bytes,
}
use scap.Index.Tree.{IsTree}
use scap.Index.Tree.Marks.{marks, replicate-marks, set-marks, claimed-marks, all-drop-marks}
use scap.Index.Tree.Claims.{IsFresh, after, AllFresh, after_all, IsTree-AllFresh, IsTree-covered}

Reads-patterns :
    (ps : List Bytes) → All FitsString ps → Reads (read_patterns (length ps)) (pattern_bytes ps) ps
unfolding read_patterns
Reads-patterns [] h = Reads-ret []
Reads-patterns (p ∷ ps) h =
    Reads-bind byte_string _ (string_bytes p) _ (Reads-byte_string p h.0)
      (Reads-map (read_patterns (length ps)) (◌∷◌ p) _ (Reads-patterns ps h.1))

is_bad_child-fresh :
    (i total : ℕ) (seen : List ℕ) (c : ℕ)
    → i < c
    → c < total
    → contains c seen ≡ false
    → not (is_bad_child i total (marks total seen) c) ≡ true
is_bad_child-fresh i total seen c h k e = ground (arith, claimed-marks total c seen k)

Reads-children :
    (i total : ℕ) (seen cs : List ℕ)
    → total ≤ 2 ^ 32
    → IsFresh i total seen cs
    → Reads
        (read_children i total (length cs) (marks total seen))
        (child_bytes cs)
        (cs, marks total (after seen cs))
unfolding read_children
Reads-children i total seen [] small h = Reads-ret _
Reads-children i total seen (c ∷ cs) small h =
    let rest = Reads-children i total (c ∷ seen) cs small h.3 in
    Reads-bind u32 _ (le_bytes 4 c) _ (Reads-u32 c (omega arith)) (
      Reads-guard _ _ _ (is_bad_child-fresh i total seen c h.0 h.1 h.2) (
        rw (set-marks total c seen) (
          Reads-map (read_children i total (length cs) (marks total (c ∷ seen)))
            (λ (p : List ℕ × List Bool). (c ∷ p.0, p.1)) _ rest)))

length-child_bytes : (cs : List ℕ) → length cs * 4 ≤ length (child_bytes cs)
length-child_bytes [] = omega arith
length-child_bytes (c ∷ cs) = omega (
  arith,
  length-append (le_bytes 4 c) (child_bytes cs),
  length-le_bytes 4 c,
  length-child_bytes cs,
)

Reads-dir :
    (i total : ℕ) (seen : List ℕ) (m : Option ℤ) (cs : List ℕ)
    → total ≤ 2 ^ 32
    → FitsMtime m cs
    → IsFresh i total seen cs
    → Reads
        (read_dir i total (marks total seen) (kind_byte m))
        (dir_bytes m cs)
        (m, cs, marks total (after seen cs))
unfolding read_dir
Reads-dir i total seen none [] small f h = Reads-ret _
Reads-dir i total seen none (c ∷ cs) small f h = cc
Reads-dir i total seen (some m) cs small f h =
    Reads-bind i64 _ (le_bytes 8 (i64_bits m)) _ (Reads-i64 m f.0) (
      Reads-count 4 (length cs) _ (child_bytes cs) f.1 (length-child_bytes cs) (
        Reads-map (read_children i total (length cs) (marks total seen))
          (λ (p : List ℕ × List Bool). (some m, p.0, p.1)) _
          (Reads-children i total seen cs small h)))

Reads-entries :
    (i total : ℕ) (seen : List ℕ) (es : List Entry)
    → total ≤ 2 ^ 32
    → All FitsEntry es
    → AllFresh i total seen es
    → Reads
        (read_entries i total (length es) (marks total seen))
        (entries_bytes es)
        (es, marks total (after_all seen es))
unfolding read_entries
Reads-entries i total seen [] small f h = Reads-ret _
Reads-entries i total seen (e ∷ es) small f h =
    Reads-bind u8 _ (kind_byte e.mtime_ns ∷ []) _ (Reads-u8 _) (
      Reads-bind byte_string _ (string_bytes e.rel) _ (Reads-byte_string e.rel (f.0).0) (
        Reads-guard _ _ _ (f.0).1 (
          Reads-bind (read_dir i total (marks total seen) (kind_byte e.mtime_ns)) _
            (dir_bytes e.mtime_ns e.children) _
            (Reads-dir i total seen e.mtime_ns e.children small (f.0).2 h.0)
            (Reads-map
              (read_entries (suc i) total (length es) (marks total (after seen e.children)))
              (λ (p : List Entry × List Bool). (e ∷ p.0, p.1)) _
              (Reads-entries (suc i) total (after seen e.children) es small f.1 h.1)))))

length-pattern_bytes : (ps : List Bytes) → length ps * 4 ≤ length (pattern_bytes ps)
length-pattern_bytes [] = omega arith
length-pattern_bytes (p ∷ ps) = omega (
  arith,
  length-append (string_bytes p) (pattern_bytes ps),
  length-append (le_bytes 4 (length p)) p,
  length-le_bytes 4 (length p),
  length-pattern_bytes ps,
)

length-entries_bytes : (es : List Entry) → length es * min_entry_bytes ≤ length (entries_bytes es)
length-entries_bytes [] = omega arith
length-entries_bytes (e ∷ es) = omega (
  arith,
  length-append (string_bytes e.rel) (dir_bytes e.mtime_ns e.children ++ entries_bytes es),
  length-append (le_bytes 4 (length e.rel)) e.rel,
  length-le_bytes 4 (length e.rel),
  length-append (dir_bytes e.mtime_ns e.children) (entries_bytes es),
  length-entries_bytes es,
)

-- From the list of exclusions on.
read_lists :
    (ix : Index)
    → Fits ix
    → IsTree ix.entries
    → Reads {A = Index × List Bool}
        (do
          exclude_count ← count 4
          exclude ← read_patterns exclude_count
          total ← count min_entry_bytes
          ensure (ltb total (2 ^ 32))
          (entries, parents) ← read_entries 0 total total (replicate total false)
          ret (record ix { exclude = exclude; entries = entries }, parents))
        (le_bytes 4 (length ix.exclude)
          ++ (pattern_bytes ix.exclude
              ++ (le_bytes 4 (length ix.entries) ++ entries_bytes ix.entries)))
        (ix, marks (length ix.entries) (after_all [] ix.entries))
read_lists ix f t =
    let total : ℕ = length ix.entries in
    let room : length ix.exclude * 4
        ≤ length (pattern_bytes ix.exclude ++ (le_bytes 4 total ++ entries_bytes ix.entries)) =
      omega (
        arith,
        length-pattern_bytes ix.exclude,
        length-append (pattern_bytes ix.exclude) (le_bytes 4 total ++ entries_bytes ix.entries),
      ) in
    let all_entries =
      Reads-entries 0 total [] ix.entries (omega (arith, f.entry_count)) f.entries
        (IsTree-AllFresh ix.entries t) in
    Reads-count 4 (length ix.exclude) _ _ f.pattern_count room (
      Reads-bind (read_patterns (length ix.exclude)) _ (pattern_bytes ix.exclude) _
        (Reads-patterns ix.exclude f.patterns)
        (Reads-count min_entry_bytes total _ _ f.entry_count (length-entries_bytes ix.entries) (
          Reads-guard _ _ _ (lt→ltb _ _ f.entry_count) (
            rw (replicate-marks total) (
              Reads-map (read_entries 0 total total (marks total []))
                (λ (p : List Entry × List Bool).
                  let q : Index × List Bool = (record ix { entries = p.0 }, p.1) in q)
                _ all_entries)))))

Reads-fields :
    (ix : Index)
    → Fits ix
    → IsTree ix.entries
    → Reads read_fields (index_bytes ix) (ix, marks (length ix.entries) (after_all [] ix.entries))
unfolding read_fields
Reads-fields ix f t = Reads-bind (take_bytes (length magic)) _ magic _ (Reads-take_bytes magic) (
    Reads-guard _ _ _ (bytes_eq_refl magic) (
      Reads-bind u32 _ (le_bytes 4 version) _ (Reads-u32 version (omega arith)) (
        Reads-guard _ _ _ (==_refl version) (
          Reads-bind byte_string _ (string_bytes ix.root) _ (Reads-byte_string ix.root f.root) (
            Reads-bind u64 _ (le_bytes 8 ix.dev) _ (Reads-u64 ix.dev f.dev) (
              Reads-bind u64 _ (le_bytes 8 ix.ino) _ (Reads-u64 ix.ino f.ino) (
                Reads-bind i64 _ (le_bytes 8 (i64_bits ix.written_ns)) _ (Reads-i64 _ f.written)
                  (read_lists ix f t))))))))

check_whole-eq-some :
    (r : Reader) (ix : Index)
    → Ready r []
    → IsTree ix.entries
    → check_whole r ix (marks (length ix.entries) (after_all [] ix.entries)) ≡ some ix
check_whole-eq-some r ix h t =
    let end : (r.at == length r.bytes) ≡ true = ground (arith, h.split) in
    let covered =
      all-drop-marks (length ix.entries) (after_all [] ix.entries) (IsTree-covered ix.entries t) in
    rw (end, t.rooted, covered)

-- An index is read back from its own bytes if its entries form a tree, each has a path that stays below
-- the root and a repository no children, the numbers and lengths fit the fields of the format, and the
-- bytes are fewer than 2^64.
pub decode-encode :
    (ix : Index)
    → Fits ix
    → IsTree ix.entries
    → length (encode ix) < 2 ^ 64
    → decode (encode ix) ≡ some ix
unfolding decode
decode-encode ix f t small =
    let bs = index_bytes ix in
    let start : Reader = record { bytes = bs; at = 0 } in
    let sized : length bs < 2 ^ 64 = rw (encode-index_bytes ix f) at small in
    let ready : Ready start (bs ++ []) = record {
      split = rw append-nil (omega arith);
      ahead = sym (append-nil bs);
      sized = sized;
    } in
    let (r, e, h) = Reads-fields ix f t start [] ready in
    rw (encode-index_bytes ix f) (rw (e, decode) (check_whole-eq-some r ix h t))
