-- ===== src/Index/Codec.antt =====
-- The file format: `encode`, `decode` and `is_safe_rel`.
use scap.Base.{
  ℕ, zero, suc, ◌+◌, ◌-◌, ◌^◌, Bool, true, false, not, ◌||◌, Option, none, some, List, [], ◌∷◌,
  ◌++◌, ltb, leb, ◌==◌, if◌then◌else◌, length, get_elem?, set, replicate, all, drop,
}
use scap.Base.Int.{ℤ}
use scap.Base.Bytes.{Bytes, codes, bytes_eq, contains, split}
use scap.Index.{Entry, Index}
use scap.Index.Word.{le_bytes, i64_bits}
use scap.Index.Reader.{
  Reader, Read, ◌>>=◌, ◌>>◌, ret, ensure, take_bytes, u8, u32, u64, i64, byte_string, count,
}

abbrev pub magic : Bytes
magic = codes "SCAPIDX" ++ (0 ∷ [])

abbrev pub version : ℕ
version = 1

abbrev pub min_entry_bytes : ℕ
min_entry_bytes = 1 + 4

-- A length prefix, saturated at `u32::MAX`.
unfoldable pub push_len : Bytes → ℕ → Bytes
push_len buf len = buf ++ le_bytes 4 (if ltb len (2 ^ 32) then len else 2 ^ 32 - 1)

unfoldable pub push_bytes : Bytes → Bytes → Bytes
push_bytes buf bytes = push_len buf (length bytes) ++ bytes

-- `for pattern in &index.exclude`
unfoldable pub push_patterns : Bytes → List Bytes → Bytes
push_patterns buf [] = buf
push_patterns buf (p ∷ ps) = push_patterns (push_bytes buf p) ps

-- `for child in &entry.children`
unfoldable pub push_children : Bytes → List ℕ → Bytes
push_children buf [] = buf
push_children buf (c ∷ cs) = push_children (buf ++ le_bytes 4 c) cs

-- What `if let Some(mtime)` writes of a directory.
unfoldable pub push_dir : Bytes → Option ℤ → List ℕ → Bytes
push_dir buf none children = buf
push_dir buf (some mtime) children =
    push_children (push_len (buf ++ le_bytes 8 (i64_bits mtime)) (length children)) children

abbrev pub kind_byte : Option ℤ → ℕ
kind_byte none = 0
kind_byte (some mtime) = 1

unfoldable pub push_entries : Bytes → List Entry → Bytes
push_entries buf [] = buf
push_entries buf (e ∷ es) =
    push_entries
      (push_dir (push_bytes (buf ++ (kind_byte e.mtime_ns ∷ [])) e.rel) e.mtime_ns e.children) es

unfoldable pub encode : Index → Bytes
encode index =
    let header = push_bytes (magic ++ le_bytes 4 version) index.root in
    let identity = (header ++ le_bytes 8 index.dev) ++ le_bytes 8 index.ino in
    let written = identity ++ le_bytes 8 (i64_bits index.written_ns) in
    let patterns = push_patterns (push_len written (length index.exclude)) index.exclude in
    push_entries (push_len patterns (length index.entries)) index.entries

-- `""`, `"."` and `".."`.
abbrev pub is_odd_part : Bytes → Bool
is_odd_part part = bytes_eq part [] || (bytes_eq part (codes ".") || bytes_eq part (codes ".."))

unfoldable pub is_safe_rel : Bytes → Bool
is_safe_rel [] = true
is_safe_rel (b ∷ bs) =
    if b == b'/' || contains 0 (b ∷ bs)
    then false
    else all (λ part. not (is_odd_part part)) (split b'/' (b ∷ bs))

-- `parents[child]`; the list has `total` items, and the call is made below `total` only.
abbrev pub claimed : List Bool → ℕ → Bool
claimed parents child = elim (get_elem? parents child) [ none ↦ true | some b ↦ b ]

-- `child as usize <= i || child >= total || parents[child as usize]`
abbrev pub is_bad_child : ℕ → ℕ → List Bool → ℕ → Bool
is_bad_child i total parents child = leb child i || (leb total child || claimed parents child)

-- `for _ in 0..n`: the children and the marks.
unfoldable pub read_children : ℕ → ℕ → ℕ → List Bool → Read (List ℕ × List Bool)
read_children i total zero parents = ret ([], parents)
read_children i total (suc n) parents = do
  child ← u32
  ensure (not (is_bad_child i total parents child))
  (cs, parents') ← read_children i total n (set parents child true)
  ret (child ∷ cs, parents')

-- What the kind byte selects.
unfoldable pub read_dir : ℕ → ℕ → List Bool → ℕ → Read (Option ℤ × List ℕ × List Bool)
read_dir i total parents zero = ret (none, [], parents)
read_dir i total parents (suc zero) = do
  mtime ← i64
  n ← count 4
  (children, parents') ← read_children i total n parents
  ret (some mtime, children, parents')
read_dir i total parents (suc (suc k)) = λ r. none

-- `for i in 0..count`, from entry `i` on.
unfoldable pub read_entries : ℕ → ℕ → ℕ → List Bool → Read (List Entry × List Bool)
read_entries i total zero parents = ret ([], parents)
read_entries i total (suc n) parents = do
  kind ← u8
  rel ← byte_string
  ensure (is_safe_rel rel)
  (mtime, children, parents') ← read_dir i total parents kind
  (entries, parents'') ← read_entries (suc i) total n parents'
  ret (record { rel = rel; mtime_ns = mtime; children = children } ∷ entries, parents'')

unfoldable pub read_patterns : ℕ → Read (List Bytes)
read_patterns zero = ret []
read_patterns (suc n) = do p ← byte_string; ps ← read_patterns n; ret (p ∷ ps)

-- Entry 0 is the root's.
abbrev pub starts_at_root : List Entry → Bool
starts_at_root [] = false
starts_at_root (e ∷ es) = bytes_eq e.rel []

-- All that `decode` reads: the index, and the marks of its children.
unfoldable pub read_fields : Read (Index × List Bool)
read_fields = do
  m ← take_bytes (length magic)
  ensure (bytes_eq m magic)
  v ← u32
  ensure (v == version)
  root ← byte_string
  dev ← u64
  ino ← u64
  written_ns ← i64
  exclude_count ← count 4
  exclude ← read_patterns exclude_count
  total ← count min_entry_bytes
  ensure (ltb total (2 ^ 32))
  (entries, parents) ← read_entries 0 total total (replicate total false)
  ret (
    record {
      root = root;
      dev = dev;
      ino = ino;
      written_ns = written_ns;
      exclude = exclude;
      entries = entries;
    },
    parents,
  )

-- The checks behind the last entry: the file ends here, and the children form a tree.
abbrev pub check_whole : Reader → Index → List Bool → Option Index
check_whole r index parents =
    if not (r.at == length r.bytes)
    then none
    else if not (starts_at_root index.entries) || not (all (λ b. b) (drop 1 parents))
    then none
    else some index

unfoldable pub decode : Bytes → Option Index
decode bytes = elim (read_fields (record { bytes = bytes; at = 0 })) [
  | none ↦ none
  | some ((index, parents), r) ↦ check_whole r index parents
]
