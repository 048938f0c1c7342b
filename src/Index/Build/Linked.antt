-- ===== src/Index/Build/Linked.antt =====
-- The entries that `build` links form a tree.
use scap.Base.{
  ℕ, suc, ◌<◌, ◌^◌, true, ◌&&◌, Option, none, some, List, [], ◌∷◌, ◌++◌, ◌≡◌, ◌≢◌, refl, sym, ap,
  ◌∙◌, inl, inr, Bool-cases, length, All, ltb, is_empty, arith, if◌then◌else◌, >>=-eq-some,
  length-append, append_assoc,
}
use scap.Base.Bytes.{Bytes, contains}
use scap.Index.{Entry, Index}
use scap.Base.Int.{ℤ}
use scap.Index.Build.{
  Stat, build, build_from, sorted, bytes_lt, unlinked, add_child, link, position,
}
use scap.Index.Build.Order.{AreBehind, IsAscending, sorted-IsAscending, position-parent_of_lt}
use scap.Index.Codec.{starts_at_root}
use scap.Index.Tree.{claims, IsForward, IsDistinct, IsTree}
use scap.Index.Validate.{parent_of}
use scap.Walk.{Record}
use scap.Index.Build.Adding.{
  length-add_child, starts_at_root-add_child, contains-add_child, IsForward-add_child,
  IsDistinct-add_child,
}

-- The entries when the records before `i` are linked.
record Linked (i total : ℕ) (es : List Entry) : Type 0 where
  sized : length es ≡ total
  rooted : starts_at_root es ≡ true
  forward : IsForward 0 total es
  once : IsDistinct (claims es)
  numbered : (j : ℕ) → contains j (claims es) ≡ (ltb 0 j && ltb j i)

Linked-add_child :
    (i total : ℕ) (es : List Entry) (at : ℕ)
    → Linked i total es
    → at < i
    → 0 < i
    → i < total
    → Linked (suc i) total (add_child es at i)
Linked-add_child i total es at l h p t =
    let inside : at < length es = omega (arith, h, t, l.sized) in
    record {
      sized = length-add_child es at i ∙ l.sized;
      rooted = starts_at_root-add_child es at i ∙ l.rooted;
      forward = IsForward-add_child 0 total es at i l.forward (omega (arith, h)) t;
      once = IsDistinct-add_child es at i inside l.once (ground (arith, l.numbered i));
      numbered = λ j. ground (arith, p, contains-add_child es at i j inside, l.numbered j);
    }

u32-of : (i : ℕ) {c : ℕ} → (if ltb i (2 ^ 32) then some i else none) ≡ some c → c ≡ i
u32-of i {c} h = elim (Bool-cases (ltb i (2 ^ 32))) [
  | inl e ↦ let r : some i ≡ some c = rw e at h in cc
  | inr e ↦ let r : none ≡ some c = rw e at h in cc
]

link-Linked :
    (all front rs : List Record) (es : List Entry) {linked : List Entry}
    → all ≡ front ++ rs
    → IsAscending all
    → All (λ r. r.rel ≢ []) rs
    → 0 < length front
    → Linked (length front) (length all) es
    → link all (length front) rs es ≡ some linked
    → Linked (length all) (length all) linked
unfolding link
link-Linked all front [] es {linked} e asc ne p l h =
    let len : length front ≡ length all = omega (arith, ap length e, length-append front []) in
    let same : es ≡ linked = cc in rw (len, same) at l
link-Linked all front (r ∷ rs) es e asc ne p l h =
    let (at, found, h1) = >>=-eq-some (position (parent_of r.rel) all) _ h in
    let (c, child, h2) =
      >>=-eq-some (if ltb (length front) (2 ^ 32) then some (length front) else none) _ h1 in
    let same : c ≡ length front = u32-of (length front) child in
    let before : at < length front =
      position-parent_of_lt front r rs (rw e at asc) ne.0 (rw e at found) in
    let longer : length (front ++ (r ∷ [])) ≡ suc (length front) =
      omega (arith, length-append front (r ∷ [])) in
    let room : length front < length all =
      omega (arith, ap length e, length-append front (r ∷ rs)) in
    link-Linked all (front ++ (r ∷ [])) rs (add_child es at (length front))
      (e ∙ sym (append_assoc front (r ∷ []) rs)) asc ne.1 (omega (arith, longer))
      (rw longer (Linked-add_child (length front) (length all) es at l before p room))
      (rw longer (ap (λ k. link all (suc (length front)) rs (add_child es at k)) (sym same) ∙ h2))

length-unlinked : (rs : List Record) → length (unlinked rs) ≡ length rs
length-unlinked [] = refl
length-unlinked (r ∷ rs) = ap suc (length-unlinked rs)

claims-unlinked : (rs : List Record) → claims (unlinked rs) ≡ []
claims-unlinked [] = refl
claims-unlinked (r ∷ rs) = claims-unlinked rs

IsForward-unlinked : (k total : ℕ) (rs : List Record) → IsForward k total (unlinked rs)
IsForward-unlinked k total [] = tt
IsForward-unlinked k total (r ∷ rs) = (tt, IsForward-unlinked (suc k) total rs)

Linked-unlinked :
    (first : Record) (rest : List Record)
    → first.rel ≡ []
    → Linked 1 (length (first ∷ rest)) (unlinked (first ∷ rest))
Linked-unlinked first rest e = record {
  sized = length-unlinked (first ∷ rest);
  rooted = rw e refl;
  forward = IsForward-unlinked 0 _ (first ∷ rest);
  once = rw (claims-unlinked rest) tt;
  numbered = λ j. rw (claims-unlinked rest) (ground arith);
}

Linked-IsTree : (total : ℕ) (es : List Entry) → Linked total total es → IsTree es
Linked-IsTree total es l = record {
  rooted = l.rooted;
  forward = rw l.sized l.forward;
  once = l.once;
  covered = λ j p q. ground (arith, l.numbered j, l.sized);
}

no_less : (rel : Bytes) → bytes_lt rel [] ≢ true
no_less [] h = cc
no_less (x ∷ rel) h = cc

AreBehind-nonempty : (rel : Bytes) (rs : List Record) → AreBehind rel rs → All (λ r. r.rel ≢ []) rs
AreBehind-nonempty rel [] h = tt
AreBehind-nonempty rel (r ∷ rs) h =
    (λ e. no_less rel (ap (bytes_lt rel) (sym e) ∙ h.0), AreBehind-nonempty rel rs h.1)

empty-nil : (rel : Bytes) → is_empty rel ≡ true → rel ≡ []
empty-nil [] h = refl
empty-nil (x ∷ rel) h = cc

entries_or : List Entry → Option Index → List Entry
entries_or es none = es
entries_or es (some index) = index.entries

not-built : {index : Index} → none ≡ some index → ⊥
not-built h = cc

from_sorted :
    (root : Bytes) (exclude : List Bytes) (now : ℤ) (stat : Stat) (rs : List Record) {index : Index}
    → IsAscending rs
    → build_from root exclude now stat rs ≡ some index
    → IsTree index.entries
unfolding build_from entries_or
from_sorted root exclude now stat [] asc h = absurd cc
from_sorted root exclude now stat (first ∷ rest) {index} asc h =
    elim (Bool-cases (is_empty first.rel)) [
      | inl e ↦
          let (es, linked, h1) =
            >>=-eq-some (link (first ∷ rest) 1 rest (unlinked (first ∷ rest))) _ (rw e at h) in
          let same : es ≡ index.entries = ap (entries_or es) h1 in
          rw (sym same) (
            Linked-IsTree (length (first ∷ rest)) es (
              link-Linked (first ∷ rest) (first ∷ []) rest (unlinked (first ∷ rest)) refl asc
                (AreBehind-nonempty first.rel rest asc.0) (omega arith)
                (Linked-unlinked first rest (empty-nil first.rel e)) linked))
      | inr e ↦ absurd (not-built (rw e at h))
    ]

-- The index that is built of any records, if one is, has a tree of entries.
pub build-IsTree :
    (root : Bytes) (exclude : List Bytes) (now : ℤ) (stat : Option Stat) (records : List Record)
    {index : Index}
    → build root exclude now stat records ≡ some index
    → IsTree index.entries
unfolding build
build-IsTree root exclude now stat records h =
    let (s, e, h1) = >>=-eq-some stat _ h in
    from_sorted root exclude now s (sorted records) (sorted-IsAscending records) h1
