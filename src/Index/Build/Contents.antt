-- ===== src/Index/Build/Contents.antt =====
-- What an index that `build` makes holds.
use scap.Base.{
  ℕ, zero, suc, none, some, List, [], ◌∷◌, ◌≡◌, refl, sym, ap, ◌∙◌, inl, inr, Bool-cases,
  >>=-eq-some, map, is_empty, if◌then◌else◌, ltb, ◌^◌,
}
use scap.Base.Bytes.{Bytes}
use scap.Base.Int.{ℤ}
use scap.Index.{Entry, Index}
use scap.Index.Build.{Stat, ident, unlinked, add_child, link, position, build, build_from, sorted}
use scap.Index.Build.Adding.{add_child-suc}
use scap.Index.Validate.{parent_of}
use scap.Index.Validate.Unchanged.{record_of}
use scap.Walk.{Record}

records-add_child :
    (es : List Entry) (at c : ℕ) → map record_of (add_child es at c) ≡ map record_of es
records-add_child [] at c = refl
records-add_child (e ∷ es) zero c = refl
records-add_child (e ∷ es) (suc at) c =
    rw (add_child-suc e es at c) (ap (◌∷◌ (record_of e)) (records-add_child es at c))

records-link :
    (all : List Record) (i : ℕ) (rs : List Record) (es : List Entry) {linked : List Entry}
    → link all i rs es ≡ some linked
    → map record_of linked ≡ map record_of es
unfolding link
records-link all i [] es {linked} h = let same : es ≡ linked = cc in ap (map record_of) (sym same)
records-link all i (r ∷ rs) es {linked} h =
    let (at, found, h1) = >>=-eq-some (position (parent_of r.rel) all) _ h in
    let (c, child, h2) = >>=-eq-some (if ltb i (2 ^ 32) then some i else none) _ h1 in
    records-link all (suc i) rs (add_child es at c) {linked = linked} h2 ∙ records-add_child es at c

records-unlinked : (rs : List Record) → map record_of (unlinked rs) ≡ rs
records-unlinked [] = refl
records-unlinked (r ∷ rs) = ap (◌∷◌ r) (records-unlinked rs)

-- The index names the root, its identity, the time and the patterns, and its entries hold the records.
pub record Contents (root : Bytes) (exclude : List Bytes) (now : ℤ) (stat : Stat) (rs : List Record)
    (index : Index) : Type 0 where
  pub same_root : index.root ≡ root
  pub same_dev : index.dev ≡ ident stat.st_dev
  pub same_ino : index.ino ≡ ident stat.st_ino
  pub same_time : index.written_ns ≡ now
  pub same_exclude : index.exclude ≡ exclude
  pub same_records : map record_of index.entries ≡ rs

some_inj : {a b : Index} → some a ≡ some b → a ≡ b
some_inj h = cc

nothing : {a : Index} → none ≡ some a → ⊥
nothing h = cc

build_from-Contents :
    (root : Bytes) (exclude : List Bytes) (now : ℤ) (stat : Stat) (rs : List Record) {index : Index}
    → build_from root exclude now stat rs ≡ some index
    → Contents root exclude now stat rs index
unfolding build_from
build_from-Contents root exclude now stat [] h = absurd (nothing h)
build_from-Contents root exclude now stat (first ∷ rest) {index} h =
    elim (Bool-cases (is_empty first.rel)) [
      | inl e ↦
          let (es, linked, h1) =
            >>=-eq-some (link (first ∷ rest) 1 rest (unlinked (first ∷ rest))) _ (rw e at h) in
          let same = some_inj h1 in
          rw (sym same) (record {
            same_root = refl;
            same_dev = refl;
            same_ino = refl;
            same_time = refl;
            same_exclude = refl;
            same_records =
                records-link (first ∷ rest) 1 rest (unlinked (first ∷ rest)) linked
                ∙ records-unlinked (first ∷ rest);
          })
      | inr e ↦ absurd (nothing (rw e at h))
    ]

-- An index that is built names the root, its identity, the time and the patterns that it was built
-- for, and its entries hold the sorted records.
pub build-Contents :
    (root : Bytes) (exclude : List Bytes) (now : ℤ) (stat : Stat) (records : List Record)
    {index : Index}
    → build root exclude now (some stat) records ≡ some index
    → Contents root exclude now stat (sorted records) index
unfolding build
build-Contents root exclude now stat records h =
    build_from-Contents root exclude now stat (sorted records) h
