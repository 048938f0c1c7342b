-- ===== src/Listing/Naming/Buffer.antt =====
-- The shared buffer of paths against a plain list of repositories.
use mathlib.Core.List.{map-append}
use scap.Base.{
  ℕ, zero, suc, ◌+◌, ◌≤◌, ◌≡◌, refl, sym, ap, ◌∙◌, inl, inr, true, none, some, List, [], ◌∷◌, ◌++◌,
  map, append_assoc, append-nil, arith, ◌==◌, length, length-append, take, drop, All, All-append,
  Bool-cases, Option-cases, take-length-append, drop-length-append, drop-drop,
}
use scap.Base.Bytes.{Bytes, codes, bytes_eq, ends_with}
use scap.Listing.{Repo}
use scap.Listing.Naming.{
  Naming, push_full_path, root_prefix, find_root, name_listing, name_from, name_repositories,
  repo_at, or_dot,
}
use scap.Listing.Naming.Roots.{root_prefix_iff, Within, self, below_slash, below}

-- `<root>/<rel>`, on its own.
abbrev pub full_path : Bytes → Bytes → Bytes
full_path root rel = push_full_path [] root rel

push_full_path-append :
    (sink root rel : Bytes) → push_full_path sink root rel ≡ sink ++ full_path root rel
unfolding push_full_path
push_full_path-append sink root rel = elim (Bool-cases (bytes_eq rel (codes "."))) [
  | inl dot ↦ rw dot
  | inr other ↦ elim (Bool-cases (ends_with (codes "/") root)) [
    | inl slash ↦ rw (other, slash) (append_assoc sink root rel)
    | inr plain ↦ rw (other, plain) (append_assoc sink root (codes "/" ++ rel))
  ]
]

-- The walked root contains every path that its own walk produced.
full_path-Within : (root rel : Bytes) → (cut : ℕ) × Within root (full_path root rel) cut
unfolding push_full_path
full_path-Within root rel = elim (Bool-cases (bytes_eq rel (codes "."))) [
  | inl dot ↦ (length root, rw dot (self refl))
  | inr other ↦ elim (Bool-cases (ends_with (codes "/") root)) [
    | inr plain ↦ (length root + 1, rw (other, plain) (below rel refl plain refl))
    | inl slash ↦ (length root, rw (other, slash) (go rel slash))
  ]
]
  where
    go : (r : Bytes) → ends_with (codes "/") root ≡ true → Within root (root ++ r) (length root)
    go [] e = rw append-nil (self refl)
    go (c ∷ r) e = below_slash (c ∷ r) refl (λ k. cc) e refl

find_root-some :
    (i : ℕ) (front : List Bytes) (root abs : Bytes) (cut : ℕ)
    → root_prefix root abs ≡ some cut
    → (p : ℕ × ℕ) × (find_root i (front ++ (root ∷ [])) abs ≡ some p)
unfolding find_root
find_root-some i [] root abs cut h = ((i, cut), rw (h, find_root))
find_root-some i (r ∷ front) root abs cut h = elim (Option-cases (root_prefix r abs)) [
  | inr (k, e) ↦ ((i, k), rw (e, find_root))
  | inl away ↦
      let (p, e) = find_root-some (suc i) front root abs cut h in (p, rw (away, find_root) e)
]

abbrev named : Bytes → ℕ × ℕ → Repo
named abs p = record { abs = abs; rel = or_dot (drop p.1 abs); under_primary = p.0 == 0 }

-- The repositories of one root, with no buffer: each is named by the first candidate around it.
abbrev pub plain_listing : List Bytes → Bytes → List Bytes → List Repo
plain_listing candidates root [] = []
plain_listing candidates root (rel ∷ rels) = elim (find_root 0 candidates (full_path root rel)) [
  | none ↦ []
  | some p ↦ named (full_path root rel) p ∷ plain_listing candidates root rels
]

abbrev pub plain_from : List Bytes → ℕ → List Bytes → List (List Bytes) → List Repo
plain_from all_roots walked [] listings = []
plain_from all_roots walked (root ∷ roots) [] = []
plain_from all_roots walked (root ∷ roots) (rels ∷ listings) =
    plain_listing (take (suc walked) all_roots) root rels
    ++ plain_from all_roots (suc walked) roots listings

take-append_le : (n : ℕ) (xs ys : Bytes) → n ≤ length xs → take n (xs ++ ys) ≡ take n xs
take-append_le zero xs ys h = refl
take-append_le (suc n) [] ys h = elim h [ ]
take-append_le (suc n) (x ∷ xs) ys h = ap (◌∷◌ x) (take-append_le n xs ys (omega arith))

take_all : (xs : Bytes) → take (length xs) xs ≡ xs
take_all xs = rw append-nil at (take-length-append xs [])

abbrev EndsIn : Bytes → Naming → Type 0
EndsIn paths s = s.end ≤ length paths

repo_at-append :
    (paths more : Bytes) (s : Naming) → EndsIn paths s → repo_at (paths ++ more) s ≡ repo_at paths s
unfolding repo_at
repo_at-append paths more s h = rw (take-append_le s.end paths more h)

map-repo_at :
    (paths more : Bytes) (spans : List Naming)
    → All (EndsIn paths) spans
    → map (repo_at (paths ++ more)) spans ≡ map (repo_at paths) spans
map-repo_at paths more [] h = refl
map-repo_at paths more (s ∷ spans) h =
    cc (repo_at-append paths more s h.0, map-repo_at paths more spans h.1)

EndsIn-append :
    (paths more : Bytes) (spans : List Naming)
    → All (EndsIn paths) spans
    → All (EndsIn (paths ++ more)) spans
EndsIn-append paths more [] h = tt
EndsIn-append paths more (s ∷ spans) h =
    (omega (arith, length-append paths more, h.0), EndsIn-append paths more spans h.1)

new_span :
    (paths abs : Bytes) (i cut : ℕ) (span : Naming)
    → span ≡ record {
      start = length paths;
      rel = length paths + cut;
      end = length (paths ++ abs);
      under_primary = i == 0;
    }
    → repo_at (paths ++ abs) span ≡ named abs (i, cut)
unfolding repo_at
new_span paths abs i cut span e = rw e (
    rw (take_all (paths ++ abs), drop-drop (length paths) cut (paths ++ abs))
      (rw (drop-length-append paths abs)))

-- What the loop over one root adds to buffer and spans.
record Added (paths : Bytes) (spans : List Naming) (found : List Repo) (p : Bytes × List Naming)
    : Type 0 where
  more : Bytes
  grown : p.0 ≡ paths ++ more
  ends : All (EndsIn p.0) p.1
  repos : map (repo_at p.0) p.1 ≡ map (repo_at paths) spans ++ found

plain_listing-cons :
    (candidates : List Bytes) (root rel : Bytes) (rels : List Bytes) {p : ℕ × ℕ}
    → find_root 0 candidates (full_path root rel) ≡ some p
    → plain_listing candidates root (rel ∷ rels)
      ≡ named (full_path root rel) p ∷ plain_listing candidates root rels
plain_listing-cons candidates root rel rels e = rw (e, plain_listing)

name_listing-Added :
    (done : List Bytes) (root : Bytes) (rels : List Bytes) (paths : Bytes) (spans : List Naming)
    → All (EndsIn paths) spans
    → (p : Bytes × List Naming) × (name_listing (done ++ (root ∷ [])) root rels paths spans
        ≡ some p)
      × Added paths spans (plain_listing (done ++ (root ∷ [])) root rels) p
unfolding name_listing
name_listing-Added done root [] paths spans h = (
  (paths, spans),
  refl,
  record { more = []; grown = sym (append-nil paths); ends = h; repos = sym (append-nil _) },
)
name_listing-Added done root (rel ∷ rels) paths spans h =
    let abs = full_path root rel in
    let (cut, w) = full_path-Within root rel in
    let ((i, k), e) = find_root-some 0 done root abs cut ((root_prefix_iff root abs cut).1 w) in
    let span : Naming = record {
      start = length paths;
      rel = length paths + k;
      end = length (paths ++ abs);
      under_primary = i == 0;
    } in
    let fits =
      All-append (EndsIn (paths ++ abs)) spans (span ∷ []) (EndsIn-append paths abs spans h)
        (omega arith, tt) in
    let (p, run, a) =
      name_listing-Added done root rels (paths ++ abs) (spans ++ (span ∷ [])) fits in
    let step : map (repo_at (paths ++ abs)) (spans ++ (span ∷ []))
        ≡ map (repo_at paths) spans ++ (named abs (i, k) ∷ []) =
      map-append (repo_at (paths ++ abs)) spans (span ∷ [])
      ∙ rw (map-repo_at paths abs spans h, new_span paths abs i k span refl) in
    (
      p,
      rw (push_full_path-append paths root rel, drop-length-append paths abs, e) run,
      record {
        more = abs ++ a.more;
        grown = a.grown ∙ append_assoc paths abs a.more;
        ends = a.ends;
        repos =
            a.repos
            ∙ ap (λ x. x ++ plain_listing (done ++ (root ∷ [])) root rels) step
            ∙ append_assoc (map (repo_at paths) spans) (named abs (i, k) ∷ []) _
            ∙ ap (λ x. map (repo_at paths) spans ++ x) (sym (plain_listing-cons _ root rel rels e));
      },
    )

take_done :
    (done : List Bytes) (root : Bytes) (roots : List Bytes)
    → take (suc (length done)) (done ++ (root ∷ roots)) ≡ done ++ (root ∷ [])
take_done [] root roots = refl
take_done (d ∷ done) root roots = ap (◌∷◌ d) (take_done done root roots)

name_from-Added :
    (done roots : List Bytes) (listings : List (List Bytes)) (paths : Bytes) (spans : List Naming)
    → All (EndsIn paths) spans
    → (p : Bytes × List Naming) × (name_from
          (done ++ roots)
          (length done)
          roots
          listings
          paths
          spans
        ≡ some p)
      × Added paths spans (plain_from (done ++ roots) (length done) roots listings) p
unfolding name_from
name_from-Added done [] listings paths spans h = (
  (paths, spans),
  refl,
  record { more = []; grown = sym (append-nil paths); ends = h; repos = sym (append-nil _) },
)
name_from-Added done (root ∷ roots) [] paths spans h = (
  (paths, spans),
  refl,
  record { more = []; grown = sym (append-nil paths); ends = h; repos = sym (append-nil _) },
)
name_from-Added done (root ∷ roots) (rels ∷ listings) paths spans h =
    let (p, run, a) = name_listing-Added done root rels paths spans h in
    let (q, run2, b) = name_from-Added (done ++ (root ∷ [])) roots listings p.0 p.1 a.ends in
    let next : length (done ++ (root ∷ [])) ≡ suc (length done) =
      omega (arith, length-append done (root ∷ [])) in
    let whole : (done ++ (root ∷ [])) ++ roots ≡ done ++ (root ∷ roots) =
      append_assoc done (root ∷ []) roots in
    (
      q,
      rw (take_done done root roots, run) (rw (next, whole) at run2),
      record {
        more = a.more ++ b.more;
        grown = b.grown ∙ ap (λ x. x ++ b.more) a.grown ∙ append_assoc paths a.more b.more;
        ends = b.ends;
        repos =
            b.repos
            ∙ rw (next, whole, take_done done root roots, a.repos)
                (append_assoc (map (repo_at paths) spans) _ _);
      },
    )

-- Naming never panics, and what the shared buffer holds is, repository for repository, the plain
-- list: the absolute path, and what stands of it behind the first of the roots up to the walked one
-- that contains it.
pub name_repositories-plain :
    (roots : List Bytes) (listings : List (List Bytes))
    → (p : Bytes × List Naming) × (name_repositories roots listings ≡ some p)
      × (map (repo_at p.0) p.1 ≡ plain_from roots 0 roots listings)
unfolding name_repositories
name_repositories-plain roots listings =
    let (p, run, a) = name_from-Added [] roots listings [] [] tt in (p, run, a.repos)
