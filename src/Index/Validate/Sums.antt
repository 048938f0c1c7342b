-- ===== src/Index/Validate/Sums.antt =====
-- Sums of weights: over a list of indices, over a range of them, and over the listed ones of a range.
use scap.Base.{
  ℕ, zero, suc, ◌+◌, ◌≤◌, ◌<◌, ◌≡◌, refl, sym, ap, ◌∙◌, inl, inr, true, false, List, [], ◌∷◌, ◌++◌,
  arith, ◌==◌, All, Bool-cases, if◌then◌else◌,
}
use scap.Base.Bytes.{contains}
use scap.Index.Tree.{IsDistinct}

-- The weights of a list of indices together.
abbrev pub sum_of : (ℕ → ℕ) → List ℕ → ℕ
sum_of w [] = 0
sum_of w (x ∷ xs) = w x + sum_of w xs

-- The first `n` weights from `k` on.
abbrev pub sum_from : (ℕ → ℕ) → ℕ → ℕ → ℕ
sum_from w k zero = 0
sum_from w k (suc n) = w k + sum_from w (suc k) n

pub sum_of-congr :
    (v w : ℕ → ℕ) (k : ℕ) (xs : List ℕ)
    → ((i : ℕ) → k < i → v i ≡ w i)
    → All (λ c. k < c) xs
    → sum_of v xs ≡ sum_of w xs
sum_of-congr v w k [] h a = refl
sum_of-congr v w k (x ∷ xs) h a = rw (h x a.0, sum_of-congr v w k xs h a.1)

pub sum_from-congr :
    (v w : ℕ → ℕ) (k j n : ℕ)
    → ((i : ℕ) → k < i → v i ≡ w i)
    → k < j
    → sum_from v j n ≡ sum_from w j n
sum_from-congr v w k j zero h a = refl
sum_from-congr v w k j (suc n) h a = rw (h j a, sum_from-congr v w k (suc j) n h (omega (arith, a)))

pub sum_of-append : (w : ℕ → ℕ) (xs ys : List ℕ) → sum_of w (xs ++ ys) ≡ sum_of w xs + sum_of w ys
sum_of-append w [] ys = omega arith
sum_of-append w (x ∷ xs) ys = omega (arith, sum_of-append w xs ys)

-- The weights of the listed ones among the first `n` indices from `j` on.
abbrev pub kept_from : (ℕ → ℕ) → List ℕ → ℕ → ℕ → ℕ
kept_from w xs j zero = 0
kept_from w xs j (suc n) = (if contains j xs then w j else 0) + kept_from w xs (suc j) n

pub kept_from-all :
    (w : ℕ → ℕ) (xs : List ℕ) (j n : ℕ)
    → ((i : ℕ) → j ≤ i → i < j + n → contains i xs ≡ true)
    → kept_from w xs j n ≡ sum_from w j n
kept_from-all w xs j zero h = refl
kept_from-all w xs j (suc n) h =
    let rest =
      kept_from-all w xs (suc j) n (λ i from to. h i (omega (arith, from)) (omega (arith, to))) in
    rw (h j (omega arith) (omega arith), rest) refl

kept_from-nil : (w : ℕ → ℕ) (j n : ℕ) → kept_from w [] j n ≡ 0
kept_from-nil w j zero = refl
kept_from-nil w j (suc n) = omega (arith, kept_from-nil w (suc j) n)

-- An index below the range adds nothing; one in it adds its weight.
kept_from-below :
    (w : ℕ → ℕ) (x : ℕ) (xs : List ℕ) (j n : ℕ)
    → x < j
    → kept_from w (x ∷ xs) j n ≡ kept_from w xs j n
kept_from-below w x xs j zero h = refl
kept_from-below w x xs j (suc n) h =
    let other : (x == j) ≡ false = ground (arith, h) in
    rw (other, kept_from-below w x xs (suc j) n (omega (arith, h)))

kept_from-cons :
    (w : ℕ → ℕ) (x : ℕ) (xs : List ℕ) (j n : ℕ)
    → contains x xs ≡ false
    → j ≤ x
    → x < j + n
    → kept_from w (x ∷ xs) j n ≡ w x + kept_from w xs j n
kept_from-cons w x xs j zero fresh h k = absurd (omega (arith, h, k))
kept_from-cons w x xs j (suc n) fresh h k = elim (Bool-cases (x == j)) [
  | inl here ↦
      let same : x ≡ j = ground arith in
      let away : contains j xs ≡ false = ap (λ i. contains i xs) (sym same) ∙ fresh in
      rw (here, away)
        (omega (arith, kept_from-below w x xs (suc j) n (omega (arith, same)), ap w same))
  | inr later ↦
      let ahead : suc j ≤ x = ground (arith, h) in
      rw later (omega (arith, kept_from-cons w x xs (suc j) n fresh ahead (omega (arith, k))))
]

pub sum_of-le :
    (w : ℕ → ℕ) (xs : List ℕ) (j n : ℕ)
    → IsDistinct xs
    → All (λ c. (j ≤ c) × (c < j + n)) xs
    → sum_of w xs ≡ kept_from w xs j n
sum_of-le w [] j n d a = sym (kept_from-nil w j n)
sum_of-le w (x ∷ xs) j n d a =
    omega (arith, kept_from-cons w x xs j n d.0 (a.0).0 (a.0).1, sum_of-le w xs j n d.1 a.1)
