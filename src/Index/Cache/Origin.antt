-- ===== src/Index/Cache/Origin.antt =====
-- The index that an answer of the cache stands on.
use scap.Base.{
  true, false, Option, none, some, List, [], ◌∷◌, arith, ◌≡◌, refl, ap, ◌∙◌, Bool-cases, inl, inr,
}
use scap.Base.Bytes.{Bytes, bytes_eq, bytes_eq→≡}
use scap.Index.{Index}
use scap.Index.Codec.{decode}
use scap.Index.Build.{Stat, ident}
use scap.Walk.{RootListing}
use scap.Index.Cache.{
  ok, Root, patterns_eq, describes, load, from_parts, cached_listing, not-listed,
}

patterns_eq→≡ : (ps qs : List Bytes) → patterns_eq ps qs ≡ true → ps ≡ qs
patterns_eq→≡ [] [] h = refl
patterns_eq→≡ [] (q ∷ qs) h = cc
patterns_eq→≡ (p ∷ ps) [] h = cc
patterns_eq→≡ (p ∷ ps) (q ∷ qs) h = elim (Bool-cases (bytes_eq p q)) [
  | inl e ↦
      let rest : patterns_eq ps qs ≡ true = rw e at h in
      ap (λ b. b ∷ ps) (bytes_eq→≡ p q e) ∙ ap (◌∷◌ q) (patterns_eq→≡ ps qs rest)
  | inr e ↦ let no : false ≡ true = rw e at h in absurd cc
]

-- An index that was read of the index file of this root, at this path and directory and with these
-- exclude patterns.
pub record IsOf (r : Root) (index : Index) : Type 0 where
  pub bytes : Bytes
  pub stat : Stat
  pub stored : r.index_file ≡ some bytes
  pub decoded : decode bytes ≡ some index
  pub opened : r.opened ≡ some stat
  pub same_root : index.root ≡ r.path
  pub same_dev : index.dev ≡ ident stat.st_dev
  pub same_ino : index.ino ≡ ident stat.st_ino
  pub same_exclude : index.exclude ≡ r.exclude

load-some :
    (r : Root) {index : Index}
    → load r ≡ some index
    → (bytes : Bytes) × (r.index_file ≡ some bytes) × (decode bytes ≡ some index)
unfolding load
load-some r {index} h = go r.index_file refl h
  where
    go :
        (file : Option Bytes)
        → r.index_file ≡ file
        → elim file [ none ↦ none | some bytes ↦ decode bytes ] ≡ some index
        → (bytes : Bytes) × (r.index_file ≡ some bytes) × (decode bytes ≡ some index)
    go none e k = absurd cc
    go (some bytes) e k = (bytes, e, k)

describes-IsOf :
    (r : Root) (index : Index) (stat : Stat)
    → load r ≡ some index
    → r.opened ≡ some stat
    → describes index r.path stat r.exclude ≡ true
    → IsOf r index
unfolding describes
describes-IsOf r index stat e f h =
    let (bytes, stored, decoded) = load-some r e in
    record {
      bytes = bytes;
      stat = stat;
      stored = stored;
      decoded = decoded;
      opened = f;
      same_root = bytes_eq→≡ index.root r.path (ground (arith, h));
      same_dev = ground (arith, h);
      same_ino = ground (arith, h);
      same_exclude = patterns_eq→≡ index.exclude r.exclude (ground (arith, h));
    }

-- An answer from the index file stands on an index that `decode` accepted of that file, and whose
-- path, device and inode are those of the root, and whose exclude patterns are those of this run.
pub cached_listing-IsOf :
    (r : Root) {listing : RootListing}
    → cached_listing r ≡ ok (some listing)
    → (index : Index) × IsOf r index
unfolding cached_listing
cached_listing-IsOf r {listing} h = go (load r) r.opened refl refl h
  where
    go :
        (o : Option Index) (p : Option Stat)
        → load r ≡ o
        → r.opened ≡ p
        → from_parts r o p ≡ ok (some listing)
        → (index : Index) × IsOf r index
    go none p e f k = absurd (not-listed k)
    go (some index) none e f k = absurd (not-listed k)
    go (some index) (some stat) e f k = elim (Bool-cases (describes index r.path stat r.exclude)) [
      | inl same ↦ (index, describes-IsOf r index stat e f same)
      | inr other ↦ absurd (not-listed (rw other at k))
    ]
