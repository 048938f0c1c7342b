-- ===== src/Base/Sort.antt =====
-- `sort_unstable` on byte strings: the order of their bytes, as an insertion sort.
use scap.Base.Tests.{ltb, ◌==◌, if◌then◌else◌, Bool-cases}
use scap.Base.Bytes.{Bytes, bytes_eq}
use Prim.Native.Nat.{ℕ, ◌+◌}
use mathlib.Core.Path.{◌≡◌, refl}
use mathlib.Core.Logic.{inl, inr}
use mathlib.Core.Bool.{Bool, true, false, ◌&&◌, ◌||◌}
use mathlib.Core.List.{List, [], ◌∷◌}
use native.Mathlib.Omega.{arith}

-- Byte by byte; a prefix comes first.
abbrev pub bytes_le : Bytes → Bytes → Bool
bytes_le [] ys = true
bytes_le (x ∷ xs) [] = false
bytes_le (x ∷ xs) (y ∷ ys) = ltb x y || ((x == y) && bytes_le xs ys)

abbrev pub insert : Bytes → List Bytes → List Bytes
insert x [] = x ∷ []
insert x (y ∷ ys) = let rest = insert x ys in if bytes_le x y then x ∷ y ∷ ys else y ∷ rest

abbrev pub sort_unstable : List Bytes → List Bytes
sort_unstable [] = []
sort_unstable (x ∷ xs) = insert x (sort_unstable xs)

abbrev pub IsAfter : Bytes → List Bytes → Type 0
IsAfter x [] = Unit
IsAfter x (y ∷ ys) = bytes_le x y ≡ true

-- Each line is at most the next.
abbrev pub IsSorted : List Bytes → Type 0
IsSorted [] = Unit
IsSorted (x ∷ xs) = IsAfter x xs × IsSorted xs

bytes_le_total : (xs ys : Bytes) → bytes_le xs ys ≡ false → bytes_le ys xs ≡ true
bytes_le_total [] ys h = absurd cc
bytes_le_total (x ∷ xs) [] h = refl
bytes_le_total (x ∷ xs) (y ∷ ys) h = ground (arith, h, bytes_le_total xs ys)

insert-IsAfter :
    (y x : Bytes) (ys : List Bytes) → bytes_le y x ≡ true → IsAfter y ys → IsAfter y (insert x ys)
insert-IsAfter y x [] h k = h
insert-IsAfter y x (z ∷ zs) h k = elim (Bool-cases (bytes_le x z)) [
  | inl le ↦ rw le h
  | inr gt ↦ rw gt k
]

insert-IsSorted : (x : Bytes) (ys : List Bytes) → IsSorted ys → IsSorted (insert x ys)
insert-IsSorted x [] h = (tt, tt)
insert-IsSorted x (y ∷ ys) h = elim (Bool-cases (bytes_le x y)) [
  | inl le ↦ rw le (le, h)
  | inr gt ↦ rw gt (insert-IsAfter y x ys (bytes_le_total x y gt) h.0, insert-IsSorted x ys h.1)
]

pub sort_unstable-IsSorted : (xs : List Bytes) → IsSorted (sort_unstable xs)
sort_unstable-IsSorted [] = tt
sort_unstable-IsSorted (x ∷ xs) = insert-IsSorted x (sort_unstable xs) (sort_unstable-IsSorted xs)

-- The sum of a measure over a list.
abbrev pub sum : (Bytes → ℕ) → List Bytes → ℕ
sum f [] = 0
sum f (x ∷ xs) = f x + sum f xs

-- How often a path is in a list.
abbrev pub times : Bytes → List Bytes → ℕ
times path = sum (λ p. if bytes_eq p path then 1 else 0)

insert-sum : (f : Bytes → ℕ) (x : Bytes) (ys : List Bytes) → sum f (insert x ys) ≡ f x + sum f ys
insert-sum f x [] = refl
insert-sum f x (y ∷ ys) = elim (Bool-cases (bytes_le x y)) [
  | inl le ↦ rw le refl
  | inr gt ↦ rw gt (omega (arith, insert-sum f x ys))
]

pub sort_unstable-sum : (f : Bytes → ℕ) (xs : List Bytes) → sum f (sort_unstable xs) ≡ sum f xs
sort_unstable-sum f [] = refl
sort_unstable-sum f (x ∷ xs) =
    omega (arith, insert-sum f x (sort_unstable xs), sort_unstable-sum f xs)
