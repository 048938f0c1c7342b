-- ===== src/Listing/Naming/Roots.antt =====
-- Which root names a repository.
use scap.Base.{
  ℕ, suc, ◌+◌, ◌≡◌, ◌≢◌, refl, sym, ap, inl, inr, ◌↔◌, true, false, none, some, List, [], ◌∷◌, ◌++◌,
  append-nil, arith, ◌==◌, if◌then◌else◌, ==_iff, length, length-append, get_elem?, All, Bool-cases,
  Option-cases,
}
use mathlib.Core.Path.{subst}
use scap.Base.Bytes.{Bytes, codes, starts_with, ends_with}
use scap.Base.Split.{starts_with-append, starts_with-eq_true}
use scap.Listing.Naming.{root_prefix, slash_at, find_root}

-- `root` contains `abs` at a component boundary, and `cut` bytes of it name `root`.
pub data Within (root : Bytes) : Bytes → ℕ → Type 0 where
  self : {cut : ℕ} → cut ≡ length root → Within root root cut
  below_slash :
      {abs : Bytes} {cut : ℕ} (rest : Bytes)
      → abs ≡ root ++ rest
      → rest ≢ []
      → ends_with (codes "/") root ≡ true
      → cut ≡ length root
      → Within root abs cut
  below :
      {abs : Bytes} {cut : ℕ} (rest : Bytes)
      → abs ≡ root ++ (codes "/" ++ rest)
      → ends_with (codes "/") root ≡ false
      → cut ≡ length root + 1
      → Within root abs cut

-- The first candidate that contains the path, and what of the path names it.
pub find_root-Within :
    (i : ℕ) (roots : List Bytes) (abs : Bytes) {p : ℕ × ℕ}
    → find_root i roots abs ≡ some p
    → (root : Bytes) × (front : List Bytes) × (back : List Bytes) × (roots ≡ front ++ (root ∷ back))
      × (p.0 ≡ i + length front)
      × (root_prefix root abs ≡ some p.1)
      × All (λ r. root_prefix r abs ≡ none) front
unfolding find_root
find_root-Within i [] abs h = cc
find_root-Within i (root ∷ roots) abs {p} h = elim (Option-cases (root_prefix root abs)) [
  | inr (cut, e) ↦
      let same : (i, cut) ≡ p = cc in rw (← same) (root, [], roots, refl, omega arith, e, tt)
  | inl away ↦
      let (r, front, back, split, n, e, none_before) =
        find_root-Within (suc i) roots abs {p = p} (rw (away, find_root) at h) in
      (r, root ∷ front, back, ap (◌∷◌ root) split, omega arith, e, (away, none_before))
]

get_elem?-length :
    (xs : Bytes) (c : ℕ) (ys : Bytes) → get_elem? (xs ++ (c ∷ ys)) (length xs) ≡ some c
get_elem?-length [] c ys = refl
get_elem?-length (x ∷ xs) c ys = get_elem?-length xs c ys

longer : (xs : Bytes) (c : ℕ) (ys : Bytes) → (length (xs ++ (c ∷ ys)) == length xs) ≡ false
longer xs c ys = ground (arith, length-append xs (c ∷ ys))

root_prefix_self : (root : Bytes) → root_prefix root (root ++ []) ≡ some (length root)
unfolding root_prefix
root_prefix_self root =
    let same : (length (root ++ []) == length root) ≡ true =
      ground (arith, length-append root []) in
    rw (starts_with-append root [], same) (ap some (omega (arith, length-append root [])))

-- Of a path that is longer than the root, the next byte and the root's last decide.
root_prefix-longer :
    (root : Bytes) (c : ℕ) (rest : Bytes)
    → root_prefix root (root ++ (c ∷ rest)) ≡ (
        if ends_with (codes "/") root
        then some (length root)
        else if c == b'/'
        then some (length root + 1)
        else none)
unfolding root_prefix
root_prefix-longer root c rest =
    rw (starts_with-append root (c ∷ rest), longer root c rest)
      (rw (get_elem?-length root c rest, slash_at))

Within-root_prefix :
    (root abs : Bytes) (cut : ℕ) → Within root abs cut → root_prefix root abs ≡ some cut
Within-root_prefix root abs cut (self e) = rw e (rw append-nil at (root_prefix_self root))
Within-root_prefix root abs cut (below_slash [] e ne s l) = absurd (ne refl)
Within-root_prefix root abs cut (below_slash (c ∷ rest) e ne s l) =
    rw (e, root_prefix-longer root c rest, s, l)
Within-root_prefix root abs cut (below rest e s l) = rw (e, root_prefix-longer root b'/' rest, s, l)

Within-of_longer :
    (root : Bytes) (c : ℕ) (rest : Bytes) (cut : ℕ)
    → root_prefix root (root ++ (c ∷ rest)) ≡ some cut
    → Within root (root ++ (c ∷ rest)) cut
Within-of_longer root c rest cut h = elim (Bool-cases (ends_with (codes "/") root)) [
  | inl slash ↦
      let e : some (length root) ≡ some cut = rw (root_prefix-longer root c rest, slash) at h in
      below_slash (c ∷ rest) refl (λ k. cc) slash cc
  | inr plain ↦ elim (Bool-cases (c == b'/')) [
    | inl here ↦
        let e : some (length root + 1) ≡ some cut =
          rw (root_prefix-longer root c rest, plain, here) at h in
        let same : c ≡ b'/' = (==_iff c _).0 here in
        below rest (ap (λ x. root ++ (x ∷ rest)) same) plain cc
    | inr other ↦
        let e : none ≡ some cut = rw (root_prefix-longer root c rest, plain, other) at h in cc
  ]
]

no_prefix : (root abs : Bytes) → starts_with root abs ≡ false → root_prefix root abs ≡ none
unfolding root_prefix
no_prefix root abs e = rw e

root_self : (root : Bytes) → root_prefix root root ≡ some (length root)
root_self root = rw append-nil at (root_prefix_self root)

some_inj : {a b : ℕ} → some a ≡ some b → b ≡ a
some_inj e = cc

root_prefix-Within :
    (root abs : Bytes) (cut : ℕ) → root_prefix root abs ≡ some cut → Within root abs cut
root_prefix-Within root abs cut h = elim (Bool-cases (starts_with root abs)) [
  | inl front ↦
      let (r, e) = starts_with-eq_true root abs front in
      subst (λ a. Within root a cut) (sym e) (go r (rw e at h))
  | inr other ↦ cc (no_prefix root abs other)
]
  where
    go : (r : Bytes) → root_prefix root (root ++ r) ≡ some cut → Within root (root ++ r) cut
    go [] k = rw append-nil (self (some_inj (rw (append-nil, root_self root) at k)))
    go (c ∷ r) k = Within-of_longer root c r cut k

-- `root_prefix` finds `root` around `abs` exactly when `abs` is `root`, or goes on behind `root` at
-- a component boundary, and the bytes that it drops are those of `root` and of the separator.
pub root_prefix_iff :
    (root abs : Bytes) (cut : ℕ) → (root_prefix root abs ≡ some cut) ↔ Within root abs cut
root_prefix_iff root abs cut = (root_prefix-Within root abs cut, Within-root_prefix root abs cut)
