-- ===== src/Index/Tree/Marks.antt =====
-- `parents[k]` says whether `k` was claimed so far: the list of marks against the list of claims.
use scap.Base.{
  ℕ, zero, suc, ◌+◌, ◌≤◌, ◌<◌, ◌≡◌, refl, sym, ap, ◌∙◌, inl, inr, Bool, true, false, List, [], ◌∷◌,
  arith, ◌==◌, set, replicate, all, drop, Bool-cases,
}
use scap.Base.Bytes.{contains}
use scap.Index.Codec.{claimed}

unfoldable pub marks_from : ℕ → ℕ → List ℕ → List Bool
marks_from i zero seen = []
marks_from i (suc n) seen = contains i seen ∷ marks_from (suc i) n seen

abbrev pub marks : ℕ → List ℕ → List Bool
marks total seen = marks_from 0 total seen

marks_from-nil : (i n : ℕ) → replicate n false ≡ marks_from i n []
unfolding marks_from
marks_from-nil i zero = refl
marks_from-nil i (suc n) = ap (◌∷◌ false) (marks_from-nil (suc i) n)

marks_from_skip :
    (i n x : ℕ) (seen : List ℕ) → x < i → marks_from i n (x ∷ seen) ≡ marks_from i n seen
unfolding marks_from
marks_from_skip i zero x seen h = refl
marks_from_skip i (suc n) x seen h = ground (arith, marks_from_skip (suc i) n x seen (omega arith))

set-marks_from :
    (i n k : ℕ) (seen : List ℕ) → set (marks_from i n seen) k true ≡ marks_from i n ((i + k) ∷ seen)
unfolding marks_from
set-marks_from i zero k seen = refl
set-marks_from i (suc n) zero seen =
    ground (arith, marks_from_skip (suc i) n (i + 0) seen (omega arith))
set-marks_from i (suc n) (suc k) seen =
    let here : (i + suc k == i) ≡ false = ground arith in
    let there : i + suc k ≡ suc i + k = omega arith in
    rw here (
      ap (◌∷◌ (contains i seen))
        (set-marks_from (suc i) n k seen ∙ ap (λ x. marks_from (suc i) n (x ∷ seen)) (sym there)))

claimed-marks_from :
    (i n k : ℕ) (seen : List ℕ) → k < n → claimed (marks_from i n seen) k ≡ contains (i + k) seen
unfolding marks_from
claimed-marks_from i zero k seen h = elim h [ ]
claimed-marks_from i (suc n) zero seen h = ap (λ x. contains x seen) (omega arith)
claimed-marks_from i (suc n) (suc k) seen h =
    claimed-marks_from (suc i) n k seen (omega arith) ∙ ap (λ x. contains x seen) (omega arith)

all-marks_from :
    (i n : ℕ) (seen : List ℕ)
    → ((j : ℕ) → i ≤ j → j < i + n → contains j seen ≡ true)
    → all (λ b. b) (marks_from i n seen) ≡ true
unfolding marks_from
all-marks_from i zero seen h = refl
all-marks_from i (suc n) seen h =
    rw (h i (omega arith) (omega arith))
      (all-marks_from (suc i) n seen (λ j p q. h j (omega arith) (omega arith)))

marks_from-all :
    (i n : ℕ) (seen : List ℕ)
    → all (λ b. b) (marks_from i n seen) ≡ true
    → (j : ℕ) → i ≤ j
    → j < i + n
    → contains j seen ≡ true
unfolding marks_from
marks_from-all i zero seen h j p q = absurd (omega arith)
marks_from-all i (suc n) seen h j p q = elim (Bool-cases (i == j)) [
  | inl e ↦ ground arith
  | inr e ↦ marks_from-all (suc i) n seen (ground arith) j (ground arith) (omega arith)
]

pub replicate-marks : (total : ℕ) → replicate total false ≡ marks total []
replicate-marks total = marks_from-nil 0 total

pub set-marks :
    (total k : ℕ) (seen : List ℕ) → set (marks total seen) k true ≡ marks total (k ∷ seen)
set-marks total k seen =
    set-marks_from 0 total k seen ∙ ap (λ x. marks total (x ∷ seen)) (omega arith)

pub claimed-marks :
    (total k : ℕ) (seen : List ℕ) → k < total → claimed (marks total seen) k ≡ contains k seen
claimed-marks total k seen h =
    claimed-marks_from 0 total k seen h ∙ ap (λ x. contains x seen) (omega arith)

pub all-drop-marks :
    (total : ℕ) (seen : List ℕ)
    → ((j : ℕ) → 0 < j → j < total → contains j seen ≡ true)
    → all (λ b. b) (drop 1 (marks total seen)) ≡ true
unfolding marks_from
all-drop-marks zero seen h = refl
all-drop-marks (suc n) seen h = all-marks_from 1 n seen (λ j p q. h j p (omega arith))

pub marks-all-drop :
    (total : ℕ) (seen : List ℕ)
    → all (λ b. b) (drop 1 (marks total seen)) ≡ true
    → (j : ℕ) → 0 < j
    → j < total
    → contains j seen ≡ true
unfolding marks_from
marks-all-drop zero seen h j p q = elim q [ ]
marks-all-drop (suc n) seen h j p q = marks_from-all 1 n seen h j p (omega arith)
