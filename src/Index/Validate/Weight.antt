-- ===== src/Index/Validate/Weight.antt =====
-- The weight of an index: the size of the subtree below it, for any size of entries. The root weighs
-- what all entries are in size, since every other entry has one parent.
use scap.Base.{
  ℕ, zero, suc, ◌+◌, ◌≤◌, ◌<◌, ◌≡◌, sym, ap, ◌∙◌, true, false, some, List, [], ◌∷◌, arith, ◌==◌,
  length, get_elem?, All, ==_refl, if◌then◌else◌, All-append,
}
use scap.Index.{Entry}
use scap.Index.Tree.{claims, IsForward, IsTree}
use scap.Index.Validate.Sums.{
  sum_of, sum_from, sum_of-congr, sum_from-congr, sum_of-append, kept_from-all, sum_of-le,
}

-- The bounds of the children of the entries from `k` on.
forward_above :
    (i total : ℕ) (cs : List ℕ) → All (λ c. (i < c) × (c < total)) cs → All (λ c. i < c) cs
forward_above i total [] h = tt
forward_above i total (c ∷ cs) h = ((h.0).0, forward_above i total cs h.1)

IsForward-claims :
    (k j total : ℕ) (es : List Entry) → k ≤ j → IsForward j total es → All (λ c. k < c) (claims es)
IsForward-claims k j total [] le f = tt
IsForward-claims k j total (e ∷ es) le f =
    All-append (λ c. k < c) e.children (claims es) (above e.children f.0)
      (IsForward-claims k (suc j) total es (omega (arith, le)) f.1)
  where
    above : (cs : List ℕ) → All (λ c. (j < c) × (c < total)) cs → All (λ c. k < c) cs
    above [] h = tt
    above (c ∷ cs) h = (omega (arith, le, (h.0).0), above cs h.1)

-- The children of the entry at a position, and the weight that it has from them.
children_forward :
    (k total : ℕ) (es : List Entry) (j : ℕ) {e : Entry}
    → IsForward k total es
    → get_elem? es j ≡ some e
    → All (λ c. (k + j < c) × (c < total)) e.children
children_forward k total [] j f h = cc
children_forward k total (d ∷ es) zero {e} f h =
    let same : d ≡ e = cc in rw (← same) (rw (plus_zero k) f.0)
  where
    plus_zero : (n : ℕ) → n + 0 ≡ n
    plus_zero n = omega arith
children_forward k total (d ∷ es) (suc j) {e} f h =
    let shift : k + suc j ≡ suc k + j = omega arith in
    rw shift (children_forward (suc k) total es j {e = e} f.1 h)

-- All claims of a tree are among the indices from 1 on.
claims_between :
    (k j total : ℕ) (es : List Entry)
    → k ≤ j
    → IsForward j total es
    → All (λ c. (suc k ≤ c) × (c < total)) (claims es)
claims_between k j total [] le f = tt
claims_between k j total (e ∷ es) le f =
    All-append (λ c. (suc k ≤ c) × (c < total)) e.children (claims es) (near e.children f.0)
      (claims_between k (suc j) total es (omega (arith, le)) f.1)
  where
    near :
        (cs : List ℕ)
        → All (λ c. (j < c) × (c < total)) cs
        → All (λ c. (suc k ≤ c) × (c < total)) cs
    near [] h = tt
    near (c ∷ cs) h = ((omega (arith, le, (h.0).0), (h.0).1), near cs h.1)

pub children_at :
    (es : List Entry) (i : ℕ) {e : Entry}
    → IsTree es
    → get_elem? es i ≡ some e
    → All (λ c. (i < c) × (c < length es)) e.children
children_at es i {e} t h =
    let start : 0 + i ≡ i = omega arith in
    rw start at (children_forward 0 (length es) es i {e = e} t.forward h)

-- The sizes of all entries.
abbrev pub total_of : (Entry → ℕ) → List Entry → ℕ
total_of size [] = 0
total_of size (e ∷ es) = size e + total_of size es

module _ (size : Entry → ℕ) where
  -- The weight of an index among the entries from `k` on: its entry's size, and the weights of its children.
  unfoldable pub weight : ℕ → List Entry → ℕ → ℕ
  weight k [] i = 0
  weight k (e ∷ es) i =
      let later = weight (suc k) es i in
      if i == k then size e + sum_of (weight (suc k) es) e.children else later

  weight-suc :
      (k : ℕ) (e : Entry) (es : List Entry) (i : ℕ)
      → k < i
      → weight k (e ∷ es) i ≡ weight (suc k) es i
  unfolding weight
  weight-suc k e es i h = let other : (i == k) ≡ false = ground (arith, h) in rw other

  -- Together the entries weigh their sizes, and what their children weigh.
  sum_from-weight :
      (k total : ℕ) (es : List Entry)
      → IsForward k total es
      → sum_from (weight k es) k (length es) ≡ total_of size es + sum_of (weight k es) (claims es)
  unfolding weight
  sum_from-weight k total [] f = omega arith
  sum_from-weight k total (e ∷ es) f =
      let later = weight-suc k e es in
      let rest = sum_from-weight (suc k) total es f.1 in
      let own : weight k (e ∷ es) k ≡ size e + sum_of (weight (suc k) es) e.children =
        rw (==_refl k) in
      let a =
        sum_from-congr (weight k (e ∷ es)) (weight (suc k) es) k (suc k) (length es) later
          (omega arith) in
      let b =
        sum_of-congr (weight k (e ∷ es)) (weight (suc k) es) k e.children later
          (forward_above k total e.children f.0) in
      let c =
        sum_of-congr (weight k (e ∷ es)) (weight (suc k) es) k (claims es) later
          (IsForward-claims k (suc k) total es (omega arith) f.1) in
      let d = sum_of-append (weight k (e ∷ es)) e.children (claims es) in
      omega (arith, rest, own, a, b, c, d)

  weight-children :
      (k total : ℕ) (es : List Entry) (j : ℕ) {e : Entry}
      → IsForward k total es
      → get_elem? es j ≡ some e
      → weight k es (k + j) ≡ size e + sum_of (weight k es) e.children
  unfolding weight
  weight-children k total [] j f h = cc
  weight-children k total (d ∷ es) zero {e} f h =
      let same : d ≡ e = cc in
      let here : (k + 0 == k) ≡ true = ground arith in
      let b =
        sum_of-congr (weight k (d ∷ es)) (weight (suc k) es) k d.children (weight-suc k d es)
          (forward_above k total d.children f.0) in
      rw (here, ← same, b)
  weight-children k total (d ∷ es) (suc j) {e} f h =
      let shift : k + suc j ≡ suc k + j = omega arith in
      let b =
        sum_of-congr (weight k (d ∷ es)) (weight (suc k) es) k e.children (weight-suc k d es)
          (far e.children (children_forward (suc k) total es j {e = e} f.1 h)) in
      weight-suc k d es (k + suc j) (omega arith)
      ∙ ap (weight (suc k) es) shift
      ∙ weight-children (suc k) total es j {e = e} f.1 h
      ∙ ap (λ n. size e + n) (sym b)
    where
      far : (cs : List ℕ) → All (λ c. (suc k + j < c) × (c < total)) cs → All (λ c. k < c) cs
      far [] a = tt
      far (c ∷ cs) a = (omega (arith, (a.0).0), far cs a.1)

  pub weight_at :
      (es : List Entry) (i : ℕ) {e : Entry}
      → IsTree es
      → get_elem? es i ≡ some e
      → weight 0 es i ≡ size e + sum_of (weight 0 es) e.children
  weight_at es i {e} t h =
      let start : 0 + i ≡ i = omega arith in
      rw start at (weight-children 0 (length es) es i {e = e} t.forward h)

  pub weight_root : (es : List Entry) → IsTree es → weight 0 es 0 ≡ total_of size es
  weight_root [] t = absurd (false_true t.rooted)
    where
      false_true : false ≡ true → ⊥
      false_true e = cc
  weight_root (e ∷ es) t =
      let w = weight 0 (e ∷ es) in
      let together = sum_from-weight 0 (length (e ∷ es)) (e ∷ es) t.forward in
      let inside = claims_between 0 0 (length (e ∷ es)) (e ∷ es) (omega arith) t.forward in
      let reach : 1 + length es ≡ length (e ∷ es) = omega arith in
      let kept = sum_of-le w (claims (e ∷ es)) 1 (length es) t.once (rw reach inside) in
      let all =
        kept_from-all w (claims (e ∷ es)) 1 (length es)
          (λ j from to. t.covered j (omega (arith, from)) (omega (arith, to))) in
      omega (arith, together, kept, all)
