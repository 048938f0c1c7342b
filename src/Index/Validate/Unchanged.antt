-- ===== src/Index/Validate/Unchanged.antt =====
-- The validation pass where nothing has changed: every entry holds.
use scap.Base.{
  ℕ, zero, suc, ◌+◌, ◌<◌, ◌≡◌, refl, ap, sym, ◌∙◌, true, false, none, some, List, [], ◌∷◌, ◌++◌,
  arith, length, get_elem?, All, map,
}
use scap.Base.Bytes.{Bytes}
use scap.Base.Int.{ℤ, int_eq_refl}
use scap.Index.{Entry, Index, Probe}
use scap.Index.Codec.{starts_at_root}
use scap.Index.Tree.{IsTree}
use scap.Index.Tree.Claims.{after}
use scap.Index.Validate.{verdict, is_racy, settle, Outcome, walk_from, walk_index, Stats, probe_all}
use scap.Index.Validate.Ends.{sum_of-after, after-below, get_elem?-below, walk_index-probe_all}
use scap.Index.Validate.Sums.{sum_of}
use scap.Index.Validate.Weight.{weight, weight_at, children_at, weight_root, total_of}
use scap.Walk.{Record}

-- The record that an entry was made from.
abbrev pub record_of : Entry → Record
record_of e = record { rel = e.rel; mtime_ns = e.mtime_ns }

-- A repository that is still there, or a directory with its recorded time, which is old enough.
pub data Holds (written_ns : ℤ) (e : Entry) : Probe → Type 0 where
  repo_holds : e.mtime_ns ≡ none → e.children ≡ [] → Holds written_ns e Probe.repo
  dir_holds :
      (observed : ℤ)
      → e.mtime_ns ≡ some observed
      → is_racy observed written_ns ≡ false
      → Holds written_ns e (Probe.dir observed)

pub data AllHold (written_ns : ℤ) : List Entry → List Probe → Type 0 where
  no_entry : AllHold written_ns [] []
  entry_holds :
      {e : Entry} {p : Probe} {es : List Entry} {ps : List Probe}
      → Holds written_ns e p
      → AllHold written_ns es ps
      → AllHold written_ns (e ∷ es) (p ∷ ps)

AllHold-at :
    (written_ns : ℤ) (es : List Entry) (ps : List Probe) (i : ℕ) (e : Entry)
    → AllHold written_ns es ps
    → get_elem? es i ≡ some e
    → (p : Probe) × (get_elem? ps i ≡ some p) × Holds written_ns e p
AllHold-at w es ps i e no_entry h = absurd cc
AllHold-at w es ps zero e (entry_holds {e = d} {p = p} h hs) k =
    let same : d ≡ e = cc in (p, refl, rw same at h)
AllHold-at w es ps (suc i) e (entry_holds h hs) k = AllHold-at w _ _ i e hs k

abbrev pub total : (Record → ℕ) → List Record → ℕ
total g [] = 0
total g (r ∷ rs) = g r + total g rs

total-append : (g : Record → ℕ) (rs ss : List Record) → total g (rs ++ ss) ≡ total g rs + total g ss
total-append g [] ss = omega arith
total-append g (r ∷ rs) ss = omega (arith, total-append g rs ss)

total_of-record_of :
    (g : Record → ℕ) (es : List Entry)
    → total_of (λ e. g (record_of e)) es ≡ total g (map record_of es)
total_of-record_of g [] = refl
total_of-record_of g (e ∷ es) = omega (arith, total_of-record_of g es)

-- An entry that holds is fresh, none is stale for it, and its children are put on the stack.
Holds-settle :
    (written_ns : ℤ) (e : Entry) (p : Probe) (stack : List ℕ) (out : Outcome)
    → Holds written_ns e p
    → ((settle e (verdict written_ns p e.mtime_ns) stack out).0 ≡ after stack e.children)
      × ((settle e (verdict written_ns p e.mtime_ns) stack out).1.stale ≡ out.stale)
      × ((settle e (verdict written_ns p e.mtime_ns) stack out).1.fresh
          ≡ out.fresh ++ (record_of e ∷ []))
unfolding settle verdict
Holds-settle w e p stack out (repo_holds m c) = rw (m, c) (refl, refl, refl)
Holds-settle w e p stack out (dir_holds observed m young) =
    rw (m, int_eq_refl observed, young) (refl, refl, refl)

module _ (ix : Index) (probes : List Probe) (t : IsTree ix.entries)
    (hold : AllHold ix.written_ns ix.entries probes) (g : Record → ℕ) where
  abbrev size : Entry → ℕ
  size e = g (record_of e)

  -- What becomes of the outcome on the way through a stack.
  walk_from-fresh :
      (fuel : ℕ) (stack : List ℕ) (out : Outcome) {r : Outcome}
      → All (λ c. c < length ix.entries) stack
      → walk_from fuel ix probes stack out ≡ some r
      → (r.stale ≡ out.stale)
        × (total g r.fresh ≡ total g out.fresh + sum_of (weight size 0 ix.entries) stack)
  unfolding walk_from
  walk_from-fresh fuel [] out {r} h e =
      let same : out ≡ r = cc in
      (ap (λ o. o.stale) (sym same), ap (λ o. total g o.fresh) (sym same) ∙ omega arith)
  walk_from-fresh zero (i ∷ stack) out h e = absurd cc
  walk_from-fresh (suc fuel) (i ∷ stack) out {r} h e =
      let (d, found) = get_elem?-below ix.entries i h.0 in
      let (p, probed, holds) = AllHold-at ix.written_ns ix.entries probes i d hold found in
      let (pushed, stale, fresh) = Holds-settle ix.written_ns d p stack out holds in
      let v = verdict ix.written_ns p d.mtime_ns in
      let below =
        after-below i (length ix.entries) stack d.children h.1
          (children_at ix.entries i {e = d} t found) in
      let (same, sized) =
        walk_from-fresh fuel (settle d v stack out).0 (settle d v stack out).1 {r = r}
          (rw pushed below) (rw (walk_from, found, probed) at e) in
      let w = weight size 0 ix.entries in
      (
        same ∙ stale,
        omega (
          arith,
          sized,
          ap (sum_of w) pushed,
          sum_of-after w stack d.children,
          weight_at size ix.entries i {e = d} t found,
          ap (total g) fresh,
          total-append g out.fresh (record_of d ∷ []),
        ),
      )

nonempty : (es : List Entry) → starts_at_root es ≡ true → 0 < length es
nonempty [] e = cc
nonempty (x ∷ es) e = omega arith

-- Where every entry of a tree holds, the validation pass finds nothing stale, and each record that an
-- entry was made from is fresh as often as it is among the entries, whatever is counted of them.
pub walk_index-AllHold :
    (ix : Index) (stats : Stats) (root_name : Bytes)
    → IsTree ix.entries
    → AllHold ix.written_ns ix.entries (probe_all stats ix.entries root_name)
    → (r : Outcome) × (walk_index ix (probe_all stats ix.entries root_name) ≡ some r)
      × (r.stale ≡ [])
      × ((g : Record → ℕ) → total g r.fresh ≡ total g (map record_of ix.entries))
unfolding walk_index
walk_index-AllHold ix stats root_name t hold =
    let probes = probe_all stats ix.entries root_name in
    let (r, e) = walk_index-probe_all ix stats root_name t in
    let through = λ (g : Record → ℕ).
      walk_from-fresh ix probes t hold g (length ix.entries) (0 ∷ []) _ {r = r}
        (nonempty ix.entries t.rooted, tt) e in
    (
      r,
      e,
      (through (λ x. 0)).0,
      λ g. omega (
        arith,
        (through g).1,
        weight_root (λ e. g (record_of e)) ix.entries t,
        total_of-record_of g ix.entries,
      ),
    )
