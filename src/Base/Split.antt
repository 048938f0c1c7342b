-- ===== src/Base/Split.antt =====
-- Laws of the functions that take a byte string apart.
use Prim.Native.Nat.{ℕ}
use mathlib.Core.Path.{◌≡◌, refl, sym, ap, ◌∙◌}
use mathlib.Core.Logic.{◌≢◌, inl, inr}
use mathlib.Core.Bool.{Bool, true, false, ◌||◌}
use mathlib.Core.Option.{none, some}
use mathlib.Core.List.{List, [], ◌∷◌, ◌++◌}
use native.Mathlib.Omega.{arith}
use scap.Base.Tests.{◌==◌, Bool-cases, Option-cases}
use scap.Base.Lists.{length, length-append, any}
use scap.Base.Bytes.{
  Bytes, bytes_eq, bytes_eq_refl, bytes_eq→≡, contains, strip_prefix, starts_with, strip_suffix,
  split_once, rsplit_once, split_on, split, join, cons_head,
}

pub strip_prefix-append : (p r : Bytes) → strip_prefix p (p ++ r) ≡ some r
strip_prefix-append [] r = refl
strip_prefix-append (x ∷ p) r = ground (arith, strip_prefix-append p r)

pub strip_prefix-eq_some : (p s : Bytes) {r : Bytes} → strip_prefix p s ≡ some r → s ≡ p ++ r
strip_prefix-eq_some [] s h = ground arith
strip_prefix-eq_some (x ∷ p) [] h = cc
strip_prefix-eq_some (x ∷ p) (y ∷ s) {r} h = ground (arith, strip_prefix-eq_some p s {r = r})

pub starts_with-append : (p r : Bytes) → starts_with p (p ++ r) ≡ true
starts_with-append [] r = refl
starts_with-append (x ∷ p) r = ground (arith, starts_with-append p r)

pub starts_with-eq_true : (p s : Bytes) → starts_with p s ≡ true → (r : Bytes) × (s ≡ p ++ r)
starts_with-eq_true [] s h = (s, refl)
starts_with-eq_true (x ∷ p) [] h = cc
starts_with-eq_true (x ∷ p) (y ∷ s) h =
    let same : x ≡ y = ground arith in
    let (r, e) = starts_with-eq_true p s (ground arith) in (r, cc)

pub contains-append :
    (c : ℕ) (xs ys : Bytes) → contains c (xs ++ ys) ≡ (contains c xs || contains c ys)
contains-append c [] ys = refl
contains-append c (x ∷ xs) ys = ground (arith, contains-append c xs ys)

pub split_once-append :
    (c : ℕ) (front back : Bytes)
    → contains c front ≡ false
    → split_once c (front ++ (c ∷ back)) ≡ some (front, back)
split_once-append c [] back h = ground arith
split_once-append c (x ∷ front) back h =
    let here : (x == c) ≡ false = ground arith in
    let rest = split_once-append c front back (ground arith) in rw (here, rest)

pub split_once-none : (c : ℕ) (s : Bytes) → contains c s ≡ false → split_once c s ≡ none
split_once-none c [] h = refl
split_once-none c (x ∷ s) h =
    let here : (x == c) ≡ false = ground arith in
    let rest = split_once-none c s (ground arith) in rw (here, rest)

pub split_once-eq_some :
    (c : ℕ) (s : Bytes) {p : Bytes × Bytes}
    → split_once c s ≡ some p
    → (s ≡ p.0 ++ (c ∷ p.1)) × (contains c p.0 ≡ false)
split_once-eq_some c [] h = cc
split_once-eq_some c (x ∷ s) {p} h = elim (Bool-cases (x == c)) [
  | inl here ↦ ground arith
  | inr later ↦ elim (Option-cases (split_once c s)) [
    | inl away ↦ ground arith
    | inr (q, e) ↦ ground (arith, split_once-eq_some c s {p = q} e)
  ]
]

pub rsplit_once-none : (c : ℕ) (s : Bytes) → contains c s ≡ false → rsplit_once c s ≡ none
rsplit_once-none c [] h = refl
rsplit_once-none c (x ∷ s) h =
    let here : (x == c) ≡ false = ground arith in
    let rest = rsplit_once-none c s (ground arith) in rw (rest, here)

pub rsplit_once-append :
    (c : ℕ) (front back : Bytes)
    → contains c back ≡ false
    → rsplit_once c (front ++ (c ∷ back)) ≡ some (front, back)
rsplit_once-append c [] back h = rw (rsplit_once-none c back h) (ground arith)
rsplit_once-append c (x ∷ front) back h = rw (rsplit_once-append c front back h)

pub rsplit_once-eq_none : (c : ℕ) (s : Bytes) → rsplit_once c s ≡ none → contains c s ≡ false
rsplit_once-eq_none c [] h = refl
rsplit_once-eq_none c (x ∷ s) h = elim (Option-cases (rsplit_once c s)) [
  | inl away ↦ ground (arith, rsplit_once-eq_none c s away)
  | inr (q, e) ↦ ground arith
]

pub rsplit_once-eq_some :
    (c : ℕ) (s : Bytes) {p : Bytes × Bytes}
    → rsplit_once c s ≡ some p
    → (s ≡ p.0 ++ (c ∷ p.1)) × (contains c p.1 ≡ false)
rsplit_once-eq_some c [] h = cc
rsplit_once-eq_some c (x ∷ s) {p} h = elim (Option-cases (rsplit_once c s)) [
  | inl away ↦ ground (arith, rsplit_once-eq_none c s away)
  | inr (q, e) ↦ ground (arith, rsplit_once-eq_some c s {p = q} e)
]

-- A suffix that is not empty is taken off the end.
pub strip_suffix-append : (front p : Bytes) → p ≢ [] → strip_suffix p (front ++ p) ≡ some front
strip_suffix-append [] [] ne = absurd (ne refl)
strip_suffix-append [] (x ∷ p) ne = rw (bytes_eq_refl (x ∷ p))
strip_suffix-append (y ∷ front) p ne =
    let longer : bytes_eq p (y ∷ (front ++ p)) ≡ false =
      elim (Bool-cases (bytes_eq p (y ∷ (front ++ p)))) [
        | inl same ↦
            absurd (
              omega
                (arith, ap length (bytes_eq→≡ p (y ∷ (front ++ p)) same), length-append front p))
        | inr other ↦ other
      ] in
    rw (longer, strip_suffix-append front p ne)

pub split_on-cons :
    (p : ℕ → Bool) (s : Bytes) → (f : Bytes) × (r : List Bytes) × (split_on p s ≡ f ∷ r)
split_on-cons p [] = ([], [], refl)
split_on-cons p (x ∷ s) =
    let (f, r, e) = split_on-cons p s in
    elim (Bool-cases (p x)) [
      | inl here ↦ ([], split_on p s, rw here)
      | inr later ↦ (x ∷ f, r, rw (later, e))
    ]

join-cons_head :
    (sep : Bytes) (x : ℕ) (f : Bytes) (r : List Bytes)
    → join sep (cons_head x (f ∷ r)) ≡ x ∷ join sep (f ∷ r)
join-cons_head sep x f [] = refl
join-cons_head sep x f (g ∷ r) = refl

-- Joining what was split gives the text again.
pub join-split : (c : ℕ) (s : Bytes) → join (c ∷ []) (split c s) ≡ s
join-split c [] = refl
join-split c (x ∷ s) =
    let (f, r, e) = split_on-cons (λ y. y == c) s in
    elim (Bool-cases (x == c)) [
      | inl here ↦
          let same : x ≡ c = ground arith in
          rw (here, e) (ap (λ t. c ∷ t) (rw e at (join-split c s)) ∙ ap (λ y. y ∷ s) (sym same))
      | inr later ↦
          rw (later, e) (join-cons_head (c ∷ []) x f r ∙ ap (◌∷◌ x) (rw e at (join-split c s)))
    ]

-- A text with no separator is one piece; one in front of a separator is the first piece.
pub split_on-none : (p : ℕ → Bool) (s : Bytes) → any p s ≡ false → split_on p s ≡ s ∷ []
split_on-none p [] h = refl
split_on-none p (x ∷ s) h =
    let here : p x ≡ false = ground arith in
    let rest = split_on-none p s (ground arith) in rw (here, rest)

pub split_on-append :
    (p : ℕ → Bool) (s : Bytes) (c : ℕ) (t : Bytes)
    → any p s ≡ false
    → p c ≡ true
    → split_on p (s ++ (c ∷ t)) ≡ s ∷ split_on p t
split_on-append p [] c t h k = rw k
split_on-append p (x ∷ s) c t h k =
    let here : p x ≡ false = ground arith in
    let rest = split_on-append p s c t (ground arith) k in rw (here, rest)
