-- ===== src/Index/Layout.antt =====
-- The bytes that `encode` writes, piece by piece, and the indices that the format can hold.
use scap.Base.{
  ℕ, ◌^◌, ◌<◌, ◌≡◌, sym, ap, ◌∙◌, true, Option, none, some, List, [], ◌∷◌, ◌++◌, append_assoc,
  append-nil, length, All, lt→ltb,
}
use scap.Base.Int.{ℤ, IsI64}
use scap.Base.Bytes.{Bytes}
use scap.Index.{Entry, Index}
use scap.Index.Word.{le_bytes, i64_bits}
use scap.Index.Codec.{
  magic, version, push_len, push_bytes, push_patterns, push_children, push_dir, kind_byte,
  push_entries, encode, is_safe_rel,
}

-- What each push appends.
abbrev pub string_bytes : Bytes → Bytes
string_bytes s = le_bytes 4 (length s) ++ s

abbrev pub pattern_bytes : List Bytes → Bytes
pattern_bytes [] = []
pattern_bytes (p ∷ ps) = string_bytes p ++ pattern_bytes ps

abbrev pub child_bytes : List ℕ → Bytes
child_bytes [] = []
child_bytes (c ∷ cs) = le_bytes 4 c ++ child_bytes cs

abbrev pub dir_bytes : Option ℤ → List ℕ → Bytes
dir_bytes none cs = []
dir_bytes (some m) cs = le_bytes 8 (i64_bits m) ++ (le_bytes 4 (length cs) ++ child_bytes cs)

abbrev pub entries_bytes : List Entry → Bytes
entries_bytes [] = []
entries_bytes (e ∷ es) =
    (kind_byte e.mtime_ns ∷ [])
    ++ (string_bytes e.rel ++ (dir_bytes e.mtime_ns e.children ++ entries_bytes es))

-- What the format can hold: each length is a u32 and each time an i64, a repository has no children, and
-- each path is one that `decode` takes, which stays below the root.
abbrev pub FitsMtime : Option ℤ → List ℕ → Type 0
FitsMtime none cs = cs ≡ []
FitsMtime (some m) cs = IsI64 m × (length cs < 2 ^ 32)

abbrev pub FitsEntry : Entry → Type 0
FitsEntry e = (length e.rel < 2 ^ 32) × (is_safe_rel e.rel ≡ true) × FitsMtime e.mtime_ns e.children

abbrev pub FitsString : Bytes → Type 0
FitsString s = length s < 2 ^ 32

pub record Fits (ix : Index) : Type 0 where
  pub root : FitsString ix.root
  pub dev : ix.dev < 2 ^ 64
  pub ino : ix.ino < 2 ^ 64
  pub written : IsI64 ix.written_ns
  pub pattern_count : length ix.exclude < 2 ^ 32
  pub patterns : All FitsString ix.exclude
  pub entry_count : length ix.entries < 2 ^ 32
  pub entries : All FitsEntry ix.entries

push_len-eq : (n : ℕ) → n < 2 ^ 32 → (buf : Bytes) → push_len buf n ≡ buf ++ le_bytes 4 n
unfolding push_len
push_len-eq n h buf = rw (lt→ltb n _ h)

push_bytes-eq :
    (s : Bytes) → FitsString s → (buf : Bytes) → push_bytes buf s ≡ buf ++ string_bytes s
unfolding push_bytes
push_bytes-eq s h buf =
    ap (λ x. x ++ s) (push_len-eq _ h buf) ∙ append_assoc buf (le_bytes 4 (length s)) s

push_patterns-eq :
    (ps : List Bytes)
    → All FitsString ps
    → (buf : Bytes) → push_patterns buf ps ≡ buf ++ pattern_bytes ps
unfolding push_patterns
push_patterns-eq [] h buf = sym (append-nil buf)
push_patterns-eq (p ∷ ps) h buf =
    push_patterns-eq ps h.1 (push_bytes buf p)
    ∙ ap (λ x. x ++ pattern_bytes ps) (push_bytes-eq p h.0 buf)
    ∙ append_assoc buf (string_bytes p) (pattern_bytes ps)

push_children-eq : (cs : List ℕ) (buf : Bytes) → push_children buf cs ≡ buf ++ child_bytes cs
unfolding push_children
push_children-eq [] buf = sym (append-nil buf)
push_children-eq (c ∷ cs) buf =
    push_children-eq cs (buf ++ le_bytes 4 c) ∙ append_assoc buf (le_bytes 4 c) (child_bytes cs)

push_dir-eq :
    (m : Option ℤ) (cs : List ℕ)
    → FitsMtime m cs
    → (buf : Bytes) → push_dir buf m cs ≡ buf ++ dir_bytes m cs
unfolding push_dir
push_dir-eq none cs h buf = sym (append-nil buf)
push_dir-eq (some m) cs h buf =
    push_children-eq cs _ ∙ ap (λ x. x ++ child_bytes cs) (push_len-eq _ h.1 _) ∙ simp append_assoc

push_entries-eq :
    (es : List Entry)
    → All FitsEntry es
    → (buf : Bytes) → push_entries buf es ≡ buf ++ entries_bytes es
unfolding push_entries
push_entries-eq [] h buf = sym (append-nil buf)
push_entries-eq (e ∷ es) h buf =
    push_entries-eq es h.1 _
    ∙ ap (λ x. x ++ entries_bytes es) (push_dir-eq e.mtime_ns e.children (h.0).2 _)
    ∙ ap (λ x. (x ++ dir_bytes e.mtime_ns e.children) ++ entries_bytes es)
        (push_bytes-eq e.rel (h.0).0 _)
    ∙ simp append_assoc

abbrev pub index_bytes : Index → Bytes
index_bytes ix =
    magic
    ++ (le_bytes 4 version
        ++ (string_bytes ix.root
            ++ (le_bytes 8 ix.dev
                ++ (le_bytes 8 ix.ino
                    ++ (le_bytes 8 (i64_bits ix.written_ns)
                        ++ (le_bytes 4 (length ix.exclude)
                            ++ (pattern_bytes ix.exclude
                                ++ (le_bytes 4 (length ix.entries)
                                    ++ entries_bytes ix.entries))))))))

pub encode-index_bytes : (ix : Index) → Fits ix → encode ix ≡ index_bytes ix
unfolding encode
encode-index_bytes ix f = simp (
  push_entries-eq ix.entries f.entries,
  push_len-eq (length ix.entries) f.entry_count,
  push_patterns-eq ix.exclude f.patterns,
  push_len-eq (length ix.exclude) f.pattern_count,
  push_bytes-eq ix.root f.root,
  append_assoc,
)
