-- ===== src/Index/Build/Adding.antt =====
-- What `add_child` changes in the entries of an index: the list of one entry gets one more number.
use scap.Base.{
  ℕ, zero, suc, ◌+◌, ◌<◌, false, ◌||◌, List, [], ◌∷◌, ◌++◌, ◌≡◌, refl, ap, inl, inr, Option-cases,
  length, All-append, ◌==◌, arith, get_elem?,
}
use scap.Base.Bytes.{contains}
use scap.Base.Split.{contains-append}
use scap.Index.{Entry}
use scap.Index.Build.{add_child}
use scap.Index.Codec.{starts_at_root}
use scap.Index.Tree.{claims, IsForward, IsDistinct}

pub add_child-suc :
    (e : Entry) (es : List Entry) (at c : ℕ) → add_child (e ∷ es) (suc at) c ≡ e ∷ add_child es at c
add_child-suc e es at c = elim (Option-cases (get_elem? es at)) [
  | inl h ↦ rw (add_child, h) refl
  | inr (x, h) ↦ rw (add_child, h) refl
]

pub length-add_child : (es : List Entry) (at c : ℕ) → length (add_child es at c) ≡ length es
length-add_child [] at c = refl
length-add_child (e ∷ es) zero c = refl
length-add_child (e ∷ es) (suc at) c =
    rw (add_child-suc e es at c) (ap suc (length-add_child es at c))

pub starts_at_root-add_child :
    (es : List Entry) (at c : ℕ) → starts_at_root (add_child es at c) ≡ starts_at_root es
starts_at_root-add_child [] at c = refl
starts_at_root-add_child (e ∷ es) zero c = refl
starts_at_root-add_child (e ∷ es) (suc at) c = rw (add_child-suc e es at c) refl

-- A child is numbered once it is added.
pub contains-add_child :
    (es : List Entry) (at c j : ℕ)
    → at < length es
    → contains j (claims (add_child es at c)) ≡ (contains j (claims es) || (c == j))
contains-add_child [] at c j h = absurd (omega (arith, h))
contains-add_child (e ∷ es) zero c j h = ground (
  arith,
  contains-append j (e.children ++ (c ∷ [])) (claims es),
  contains-append j e.children (c ∷ []),
  contains-append j e.children (claims es),
)
contains-add_child (e ∷ es) (suc at) c j h = rw (add_child-suc e es at c) (
    ground (
      arith,
      contains-append j e.children (claims (add_child es at c)),
      contains-append j e.children (claims es),
      contains-add_child es at c j (omega (arith, h)),
    ))

pub IsForward-add_child :
    (k total : ℕ) (es : List Entry) (at c : ℕ)
    → IsForward k total es
    → k + at < c
    → c < total
    → IsForward k total (add_child es at c)
IsForward-add_child k total [] at c f h t = tt
IsForward-add_child k total (e ∷ es) zero c f h t =
    (All-append _ e.children (c ∷ []) f.0 ((omega (arith, h), t), tt), f.1)
IsForward-add_child k total (e ∷ es) (suc at) c f h t =
    rw (add_child-suc e es at c)
      (f.0, IsForward-add_child (suc k) total es at c f.1 (omega (arith, h)) t)

-- A new claim between others.
IsDistinct-between :
    (c : ℕ) (xs ys : List ℕ)
    → IsDistinct (xs ++ ys)
    → contains c (xs ++ ys) ≡ false
    → IsDistinct ((xs ++ (c ∷ [])) ++ ys)
IsDistinct-between c [] ys d h = (h, d)
IsDistinct-between c (x ∷ xs) ys d h = (
  ground (
    arith,
    h,
    d.0,
    contains-append x (xs ++ (c ∷ [])) ys,
    contains-append x xs (c ∷ []),
    contains-append x xs ys,
  ),
  IsDistinct-between c xs ys d.1 (ground (arith, h)),
)

-- A new claim behind others.
IsDistinct-behind :
    (c : ℕ) (xs ys zs : List ℕ)
    → IsDistinct (xs ++ ys)
    → IsDistinct zs
    → ((j : ℕ) → contains j zs ≡ (contains j ys || (c == j)))
    → contains c (xs ++ ys) ≡ false
    → IsDistinct (xs ++ zs)
IsDistinct-behind c [] ys zs d e k h = e
IsDistinct-behind c (x ∷ xs) ys zs d e k h = (
  ground (arith, h, d.0, contains-append x xs zs, contains-append x xs ys, k x),
  IsDistinct-behind c xs ys zs d.1 e k (ground (arith, h)),
)

IsDistinct-tail : (xs ys : List ℕ) → IsDistinct (xs ++ ys) → IsDistinct ys
IsDistinct-tail [] ys d = d
IsDistinct-tail (x ∷ xs) ys d = IsDistinct-tail xs ys d.1

pub IsDistinct-add_child :
    (es : List Entry) (at c : ℕ)
    → at < length es
    → IsDistinct (claims es)
    → contains c (claims es) ≡ false
    → IsDistinct (claims (add_child es at c))
IsDistinct-add_child [] at c l d h = tt
IsDistinct-add_child (e ∷ es) zero c l d h = IsDistinct-between c e.children (claims es) d h
IsDistinct-add_child (e ∷ es) (suc at) c l d h =
    let inner : at < length es = omega (arith, l) in
    rw (add_child-suc e es at c) (
      IsDistinct-behind c e.children (claims es) (claims (add_child es at c)) d
        (IsDistinct-add_child es at c inner (IsDistinct-tail e.children (claims es) d)
          (ground (arith, h, contains-append c e.children (claims es))))
        (λ j. contains-add_child es at c j inner) h)
