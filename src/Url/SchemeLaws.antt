-- ===== src/Url/SchemeLaws.antt =====
-- `has_scheme` against a description of the inputs that it accepts.
use scap.Base.{
  ℕ, true, false, [], ◌∷◌, ◌++◌, ◌≡◌, refl, ap, ◌↔◌, inl, inr, arith, ◌==◌, All, Bool-cases,
}
use scap.Base.Bytes.{Bytes, codes}
use scap.Base.Split.{starts_with-eq_true}
use scap.Url.Normalize.{has_scheme, is_scheme_byte}

-- The input begins with letters, digits, `+`, `-` and `.`, and then `://`.
abbrev pub HasScheme : Bytes → Type 0
HasScheme s =
    (front : Bytes) × (back : Bytes) × (s ≡ front ++ (codes "://" ++ back))
    × All (λ c. is_scheme_byte c ≡ true) front

not_colon : (c : ℕ) → is_scheme_byte c ≡ true → (c == b':') ≡ false
not_colon c h = ground arith

has_scheme-of :
    (front back : Bytes)
    → All (λ c. is_scheme_byte c ≡ true) front
    → has_scheme (front ++ (codes "://" ++ back)) ≡ true
unfolding has_scheme
has_scheme-of [] back h = refl
has_scheme-of (c ∷ front) back h = rw (not_colon c h.0, h.0, has_scheme-of front back h.1)

has_scheme-HasScheme : (s : Bytes) → has_scheme s ≡ true → HasScheme s
unfolding has_scheme
has_scheme-HasScheme [] h = cc
has_scheme-HasScheme (c ∷ rest) h = elim (Bool-cases (c == b':')) [
  | inl colon ↦
      let (back, e) = starts_with-eq_true (codes "//") rest (rw colon at h) in
      ([], back, ground arith, tt)
  | inr other ↦
      let scheme : is_scheme_byte c ≡ true = ground arith in
      let (front, back, e, f) = has_scheme-HasScheme rest (ground arith) in
      (c ∷ front, back, ap (◌∷◌ c) e, (scheme, f))
]

-- `has_scheme` accepts exactly the inputs that begin with a run of letters, digits, `+`, `-` and
-- `.` (possibly empty) followed by `://`.
pub has_scheme_iff : (s : Bytes) → (has_scheme s ≡ true) ↔ HasScheme s
has_scheme_iff s =
    (has_scheme-HasScheme s, λ (front, back, e, f). rw e (has_scheme-of front back f))
