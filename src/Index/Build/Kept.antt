-- ===== src/Index/Build/Kept.antt =====
-- The sort of the records keeps records of different paths.
use scap.Base.{
  ℕ, ◌+◌, Bool, true, false, List, [], ◌∷◌, ◌≡◌, refl, inl, inr, Bool-cases, All, arith,
}
use scap.Base.Bytes.{bytes_eq}
use scap.Index.Build.{bytes_lt, insert, sorted}
use scap.Index.Validate.Unchanged.{total}
use scap.Walk.{Record}

-- No record of the list has the path of `r`.
abbrev pub IsNew : Record → List Record → Type 0
IsNew r = All (λ s. bytes_eq r.rel s.rel ≡ false)

-- The records have different paths.
abbrev pub AreDistinct : List Record → Type 0
AreDistinct [] = Unit
AreDistinct (r ∷ rs) = IsNew r rs × AreDistinct rs

insert-IsNew :
    (r t : Record) (rs : List Record)
    → bytes_eq r.rel t.rel ≡ false
    → IsNew r rs
    → IsNew r (insert t rs)
unfolding insert
insert-IsNew r t [] h k = (h, tt)
insert-IsNew r t (s ∷ ss) h k = elim (Bool-cases (bytes_lt t.rel s.rel)) [
  | inl lt ↦ rw lt (h, k)
  | inr ge ↦ elim (Bool-cases (bytes_eq t.rel s.rel)) [
    | inl same ↦ rw (ge, same) (h, k.1)
    | inr gt ↦ rw (ge, gt) (k.0, insert-IsNew r t ss h k.1)
  ]
]

sorted-IsNew : (r : Record) (rs : List Record) → IsNew r rs → IsNew r (sorted rs)
unfolding sorted
sorted-IsNew r [] h = tt
sorted-IsNew r (s ∷ ss) h = insert-IsNew r s (sorted ss) h.0 (sorted-IsNew r ss h.1)

clash : {b : Bool} → b ≡ true → b ≡ false → ⊥
clash h k = cc

total-insert :
    (g : Record → ℕ) (r : Record) (rs : List Record)
    → IsNew r rs
    → total g (insert r rs) ≡ g r + total g rs
unfolding insert
total-insert g r [] h = refl
total-insert g r (s ∷ ss) h = elim (Bool-cases (bytes_lt r.rel s.rel)) [
  | inl lt ↦ rw lt refl
  | inr ge ↦ elim (Bool-cases (bytes_eq r.rel s.rel)) [
    | inl same ↦ absurd (clash same h.0)
    | inr gt ↦ rw (ge, gt) (omega (arith, total-insert g r ss h.1))
  ]
]

-- Sorted, records of different paths are the same ones, by any measure.
pub total-sorted :
    (g : Record → ℕ) (rs : List Record) → AreDistinct rs → total g (sorted rs) ≡ total g rs
unfolding sorted
total-sorted g [] h = refl
total-sorted g (r ∷ rs) h =
    omega (arith, total-insert g r (sorted rs) (sorted-IsNew r rs h.0), total-sorted g rs h.1)
