-- ===== src/Index/Validate/Ends.antt =====
-- The validation pass ends: a turn takes one from the weight of the stack, so that a turn for each
-- entry is enough for an index that `decode` accepts.
use scap.Base.{
  ℕ, zero, suc, ◌+◌, ◌≤◌, ◌<◌, ◌≡◌, refl, ap, true, some, List, [], ◌∷◌, arith, length, get_elem?,
  All,
}
use scap.Base.Bytes.{Bytes}
use scap.Index.{Entry, Index, Probe}
use scap.Index.Tree.{IsTree}
use scap.Index.Codec.{starts_at_root}
use scap.Index.Tree.Claims.{after}
use scap.Index.Validate.{
  Verdict, holds_repo, holds_dir, too_young, is_stale, verdict, settle, Outcome, walk_from,
  walk_index, Stats, probe_all,
}
use scap.Index.Validate.Sums.{sum_of}
use scap.Index.Validate.Weight.{weight, weight_at, children_at, weight_root, total_of}

abbrev one : Entry → ℕ
one e = 1

total_of-one : (es : List Entry) → total_of one es ≡ length es
total_of-one [] = refl
total_of-one (e ∷ es) = omega (arith, total_of-one es)

pub sum_of-after :
    (w : ℕ → ℕ) (stack cs : List ℕ) → sum_of w (after stack cs) ≡ sum_of w cs + sum_of w stack
sum_of-after w stack [] = omega arith
sum_of-after w stack (c ∷ cs) = omega (arith, sum_of-after w (c ∷ stack) cs)

pub after-below :
    (i n : ℕ) (stack cs : List ℕ)
    → All (λ c. c < n) stack
    → All (λ c. (i < c) × (c < n)) cs
    → All (λ c. c < n) (after stack cs)
after-below i n stack [] h k = h
after-below i n stack (c ∷ cs) h k = after-below i n (c ∷ stack) cs ((k.0).1, h) k.1

pub get_elem?-below :
    {A : Type 0} (xs : List A) (i : ℕ) → i < length xs → (x : A) × (get_elem? xs i ≡ some x)
get_elem?-below [] i h = elim h [ ]
get_elem?-below (x ∷ xs) zero h = (x, refl)
get_elem?-below (x ∷ xs) (suc i) h = get_elem?-below xs i (omega (arith, h))

-- Behind one entry the stack weighs no more than it did below it, and the entry's children.
settle-below :
    (w : ℕ → ℕ) (i n : ℕ) (e : Entry) (v : Verdict) (stack : List ℕ) (out : Outcome)
    → All (λ c. c < n) stack
    → All (λ c. (i < c) × (c < n)) e.children
    → (sum_of w (settle e v stack out).0 ≤ sum_of w e.children + sum_of w stack)
      × All (λ c. c < n) (settle e v stack out).0
unfolding settle
settle-below w i n e holds_repo stack out h k = (omega arith, h)
settle-below w i n e too_young stack out h k = (omega arith, h)
settle-below w i n e is_stale stack out h k = (omega arith, h)
settle-below w i n e (holds_dir observed) stack out h k =
    (omega (arith, sum_of-after w stack e.children), after-below i n stack e.children h k)

module _ (ix : Index) (probes : List Probe) (t : IsTree ix.entries)
    (sized : length probes ≡ length ix.entries) where
  walk_from-some :
      (fuel : ℕ) (stack : List ℕ) (out : Outcome)
      → All (λ c. c < length ix.entries) stack
      → sum_of (weight one 0 ix.entries) stack ≤ fuel
      → (r : Outcome) × (walk_from fuel ix probes stack out ≡ some r)
  unfolding walk_from
  walk_from-some fuel [] out h small = (out, refl)
  walk_from-some zero (i ∷ stack) out h small =
      let (e, found) = get_elem?-below ix.entries i h.0 in
      absurd (omega (arith, small, weight_at one ix.entries i {e = e} t found))
  walk_from-some (suc fuel) (i ∷ stack) out h small =
      let w = weight one 0 ix.entries in
      let (e, found) = get_elem?-below ix.entries i h.0 in
      let (p, probed) = get_elem?-below probes i (omega (arith, h.0, sized)) in
      let here = weight_at one ix.entries i {e = e} t found in
      let below = children_at ix.entries i {e = e} t found in
      let v = verdict ix.written_ns p e.mtime_ns in
      let (lighter, inside) = settle-below w i (length ix.entries) e v stack out h.1 below in
      let (r, rest) =
        walk_from-some fuel (settle e v stack out).0 (settle e v stack out).1 inside
          (omega (arith, small, here, lighter)) in
      (r, rw (walk_from, found, probed) rest)

length-probe_all :
    (stats : Stats) (es : List Entry) (root_name : Bytes)
    → length (probe_all stats es root_name) ≡ length es
unfolding probe_all
length-probe_all stats [] root_name = refl
length-probe_all stats (e ∷ es) root_name = ap suc (length-probe_all stats es root_name)

-- For a tree of entries, the validation pass over what `probe_all` answers ends with an outcome: it
-- neither runs out of turns nor looks up an entry or a probe out of range.
pub walk_index-probe_all :
    (ix : Index) (stats : Stats) (root_name : Bytes)
    → IsTree ix.entries
    → (r : Outcome) × (walk_index ix (probe_all stats ix.entries root_name) ≡ some r)
unfolding walk_index
walk_index-probe_all ix stats root_name t =
    walk_from-some ix (probe_all stats ix.entries root_name) t
      (length-probe_all stats ix.entries root_name) (length ix.entries) (0 ∷ []) _
      (nonempty ix.entries t.rooted, tt)
      (omega (arith, weight_root one ix.entries t, total_of-one ix.entries))
  where
    nonempty : (es : List Entry) → starts_at_root es ≡ true → 0 < length es
    nonempty [] e = cc
    nonempty (x ∷ es) e = omega arith
