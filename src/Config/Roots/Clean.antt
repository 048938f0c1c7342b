-- ===== src/Config/Roots/Clean.antt =====
-- `clean_path` against its description on a stack of components.
use scap.Base.{
  ℕ, false, none, List, [], ◌∷◌, ◌++◌, if◌then◌else◌, is_empty, ◌==◌, ◌≡◌, refl, ap, arith, inl,
  inr, ◌⊎◌, Bool-cases, All,
}
use scap.Base.Bytes.{
  Bytes, codes, bytes_eq, contains, starts_with, ends_with, split, cons_head, strip_suffix,
}
use scap.Base.Split.{rsplit_once-append, rsplit_once-none}
use scap.RepoPath.{push}
use scap.Config.Roots.{is_skipped, is_parent, pop, clean_onto, or_dot, root_dir, clean_path}

-- The components that stay, the innermost first: `..` takes one away, and at the start nothing.
abbrev parents_of : List Bytes → List Bytes
parents_of [] = []
parents_of (s ∷ stack) = stack

unfoldable pub surviving : List Bytes → List Bytes → List Bytes
surviving stack [] = stack
surviving stack (s ∷ ss) =
    surviving (if is_skipped s then stack else if is_parent s then parents_of stack else s ∷ stack)
      ss

unfoldable pub render : Bytes → List Bytes → Bytes
render root [] = root
render root (s ∷ []) = root ++ s
render root (s ∷ t ∷ stack) = render root (t ∷ stack) ++ (codes "/" ++ s)

-- A component: not empty, and without a separator.
unfoldable pub IsPiece : Bytes → Type 0
IsPiece s = (is_empty s ≡ false) × (contains b'/' s ≡ false)

-- A path starts at the root or at nothing.
unfoldable pub IsRoot : Bytes → Type 0
IsRoot root = (root ≡ []) ⊎ (root ≡ codes "/")

root_dir-IsRoot : (p : Bytes) → IsRoot (root_dir p)
unfolding IsRoot
root_dir-IsRoot p = elim (Bool-cases (starts_with (codes "/") p)) [
  | inl e ↦ inr (rw e)
  | inr e ↦ inl (rw e)
]

starts_with-piece : (s : Bytes) → IsPiece s → starts_with (codes "/") s ≡ false
unfolding IsPiece
starts_with-piece [] h = refl
starts_with-piece (x ∷ s) h = let apart = h.1 in ground arith

strip_suffix-none : (s : Bytes) → contains b'/' s ≡ false → strip_suffix (codes "/") s ≡ none
strip_suffix-none [] h = refl
strip_suffix-none (x ∷ s) h =
    let other : (b'/' == x) ≡ false = ground arith in
    let rest = strip_suffix-none s (ground arith) in rw (other, rest)

is_empty-append : (front s : Bytes) → is_empty s ≡ false → is_empty (front ++ s) ≡ false
is_empty-append [] s h = h
is_empty-append (x ∷ front) s h = refl

bytes_eq-nil : (s : Bytes) → is_empty s ≡ false → bytes_eq [] s ≡ false
bytes_eq-nil [] h = cc
bytes_eq-nil (x ∷ s) h = refl

strip_suffix-behind :
    (front s : Bytes)
    → is_empty s ≡ false
    → strip_suffix (codes "/") s ≡ none
    → strip_suffix (codes "/") (front ++ s) ≡ none
strip_suffix-behind [] s h k = k
strip_suffix-behind (x ∷ front) s h k =
    let longer = bytes_eq-nil (front ++ s) (is_empty-append front s h) in
    let rest = strip_suffix-behind front s h k in
    elim (Bool-cases (b'/' == x)) [ inl e ↦ rw (e, longer, rest) | inr e ↦ rw (e, rest) ]

is_empty-render :
    (root s : Bytes) (stack : List Bytes) → IsPiece s → is_empty (render root (s ∷ stack)) ≡ false
unfolding IsPiece render
is_empty-render root s [] h = is_empty-append root s h.0
is_empty-render root s (t ∷ stack) h =
    is_empty-append (render root (t ∷ stack)) (codes "/" ++ s) refl

pop-render :
    (root s : Bytes) (stack : List Bytes)
    → IsRoot root
    → All IsPiece (s ∷ stack)
    → pop (render root (s ∷ stack)) ≡ render root stack
unfolding IsPiece IsRoot render
pop-render root s [] (inl e) h = rw e (rw (pop, rsplit_once-none b'/' s (h.0).1))
pop-render root s [] (inr e) h = rw e (rw (pop, rsplit_once-none b'/' s (h.0).1))
pop-render root s (t ∷ stack) at_root h = rw (
  pop,
  rsplit_once-append b'/' (render root (t ∷ stack)) s (h.0).1,
  is_empty-render root t stack (h.1).0,
)

strip_suffix-render :
    (root s : Bytes) (stack : List Bytes)
    → IsPiece s
    → strip_suffix (codes "/") (render root (s ∷ stack)) ≡ none
unfolding IsPiece render
strip_suffix-render root s [] h = strip_suffix-behind root s h.0 (strip_suffix-none s h.1)
strip_suffix-render root s (t ∷ stack) h =
    strip_suffix-behind (render root (t ∷ stack)) (codes "/" ++ s) refl
      (strip_suffix-behind (codes "/") s h.0 (strip_suffix-none s h.1))

push-render :
    (root s : Bytes) (stack : List Bytes)
    → IsRoot root
    → IsPiece s
    → All IsPiece stack
    → push (render root stack) s ≡ render root (s ∷ stack)
unfolding IsPiece IsRoot render
push-render root s [] (inl e) h hs = rw e (rw (starts_with-piece s h))
push-render root s [] (inr e) h hs = rw e (rw (starts_with-piece s h))
push-render root s (t ∷ stack) at_root h hs = rw (
  starts_with-piece s h,
  is_empty-render root t stack hs.0,
  ends_with,
  strip_suffix-render root t stack hs.0,
)

-- What a split leaves has no separator, so that a piece that is not skipped is a component.
cons_head-without :
    (x : ℕ) (ss : List Bytes)
    → (x == b'/') ≡ false
    → All (λ s. contains b'/' s ≡ false) ss
    → All (λ s. contains b'/' s ≡ false) (cons_head x ss)
cons_head-without x [] e h = (rw e, tt)
cons_head-without x (s ∷ ss) e h = (rw (e, h.0), h.1)

split-without : (s : Bytes) → All (λ t. contains b'/' t ≡ false) (split b'/' s)
split-without [] = (refl, tt)
split-without (x ∷ s) = elim (Bool-cases (x == b'/')) [
  | inl e ↦ rw e (refl, split-without s)
  | inr e ↦ rw e (cons_head-without x (split b'/' s) e (split-without s))
]

kept-IsPiece : (s : Bytes) → is_skipped s ≡ false → contains b'/' s ≡ false → IsPiece s
unfolding IsPiece
kept-IsPiece s h k = (ground arith, k)

parents_of-All : (stack : List Bytes) → All IsPiece stack → All IsPiece (parents_of stack)
parents_of-All [] h = tt
parents_of-All (s ∷ stack) h = h.1

pop-parents_of :
    (root : Bytes) (stack : List Bytes)
    → IsRoot root
    → All IsPiece stack
    → pop (render root stack) ≡ render root (parents_of stack)
unfolding IsRoot render
pop-parents_of root [] (inl e) h = rw e
pop-parents_of root [] (inr e) h = rw e
pop-parents_of root (s ∷ stack) at_root h = pop-render root s stack at_root h

clean_onto-render :
    (root : Bytes) (stack ss : List Bytes)
    → IsRoot root
    → All IsPiece stack
    → All (λ s. contains b'/' s ≡ false) ss
    → clean_onto (render root stack) ss ≡ render root (surviving stack ss)
unfolding surviving
clean_onto-render root stack [] at_root h hs = refl
clean_onto-render root stack (s ∷ ss) at_root h hs = elim (Bool-cases (is_skipped s)) [
  | inl skip ↦ rw skip (clean_onto-render root stack ss at_root h hs.1)
  | inr keep ↦ elim (Bool-cases (is_parent s)) [
    | inl up ↦
        rw (keep, up, pop-parents_of root stack at_root h)
          (clean_onto-render root (parents_of stack) ss at_root (parents_of-All stack h) hs.1)
    | inr down ↦
        let piece = kept-IsPiece s keep hs.0 in
        rw (keep, down, push-render root s stack at_root piece h)
          (clean_onto-render root (s ∷ stack) ss at_root (piece, h) hs.1)
  ]
]

-- `clean_path` pushes and pops on a byte string; the result is that of keeping the components on a
-- stack, where `..` drops the innermost and does nothing at the start, and writing out what is left
-- behind the root, or `.` if that is nothing.
pub clean_path_lem :
    (p : Bytes) → clean_path p ≡ or_dot (render (root_dir p) (surviving [] (split b'/' p)))
unfolding clean_path render
clean_path_lem p =
    ap or_dot
      (clean_onto-render (root_dir p) [] (split b'/' p) (root_dir-IsRoot p) tt (split-without p))
