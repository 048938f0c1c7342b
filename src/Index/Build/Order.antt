-- ===== src/Index/Build/Order.antt =====
-- The order of the records of an index, and what it says of parents.
use scap.Base.{
  ℕ, suc, ◌<◌, Bool, true, false, none, some, List, [], ◌∷◌, ◌++◌, ◌≡◌, ◌≢◌, refl, sym, ap, ◌∙◌,
  inl, inr, Bool-cases, Option-cases, length, All, arith,
}
use scap.Base.Bytes.{rsplit_once, Bytes, bytes_eq, bytes_eq→≡}
use scap.Base.Split.{rsplit_once-eq_some}
use scap.Index.Build.{bytes_lt, insert, sorted, position}
use scap.Index.Validate.{parent_of}
use scap.Walk.{Record}

bytes_lt_trans : (a b c : Bytes) → bytes_lt a b ≡ true → bytes_lt b c ≡ true → bytes_lt a c ≡ true
bytes_lt_trans [] b [] h k = ground (arith, h, k)
bytes_lt_trans [] b (z ∷ c) h k = refl
bytes_lt_trans (x ∷ a) [] c h k = absurd cc
bytes_lt_trans (x ∷ a) (y ∷ b) [] h k = absurd cc
bytes_lt_trans (x ∷ a) (y ∷ b) (z ∷ c) h k = ground (arith, h, k, bytes_lt_trans a b c)

bytes_lt_total : (a b : Bytes) → bytes_lt a b ≡ false → bytes_eq a b ≡ false → bytes_lt b a ≡ true
bytes_lt_total [] [] h k = absurd cc
bytes_lt_total [] (y ∷ b) h k = absurd cc
bytes_lt_total (x ∷ a) [] h k = refl
bytes_lt_total (x ∷ a) (y ∷ b) h k = ground (arith, h, k, bytes_lt_total a b)

bytes_lt_irrefl : (a : Bytes) → bytes_lt a a ≡ false
bytes_lt_irrefl [] = refl
bytes_lt_irrefl (x ∷ a) = ground (arith, bytes_lt_irrefl a)

-- A proper prefix comes first.
bytes_lt-append : (a : Bytes) (x : ℕ) (b : Bytes) → bytes_lt a (a ++ (x ∷ b)) ≡ true
bytes_lt-append [] x b = refl
bytes_lt-append (y ∷ a) x b = ground (arith, bytes_lt-append a x b)

-- Every record of the list comes behind `rel`.
abbrev pub AreBehind : Bytes → List Record → Type 0
AreBehind rel = All (λ r. bytes_lt rel r.rel ≡ true)

abbrev pub IsAscending : List Record → Type 0
IsAscending [] = Unit
IsAscending (r ∷ rs) = AreBehind r.rel rs × IsAscending rs

AreBehind-trans :
    (a b : Bytes) (rs : List Record) → bytes_lt a b ≡ true → AreBehind b rs → AreBehind a rs
AreBehind-trans a b [] h k = tt
AreBehind-trans a b (r ∷ rs) h k = (bytes_lt_trans a b r.rel h k.0, AreBehind-trans a b rs h k.1)

insert-AreBehind :
    (rel : Bytes) (r : Record) (rs : List Record)
    → bytes_lt rel r.rel ≡ true
    → AreBehind rel rs
    → AreBehind rel (insert r rs)
unfolding insert
insert-AreBehind rel r [] h k = (h, tt)
insert-AreBehind rel r (s ∷ ss) h k = elim (Bool-cases (bytes_lt r.rel s.rel)) [
  | inl lt ↦ rw lt (h, k)
  | inr ge ↦ elim (Bool-cases (bytes_eq r.rel s.rel)) [
    | inl same ↦ rw (ge, same) (h, k.1)
    | inr gt ↦ rw (ge, gt) (k.0, insert-AreBehind rel r ss h k.1)
  ]
]

insert-IsAscending : (r : Record) (rs : List Record) → IsAscending rs → IsAscending (insert r rs)
unfolding insert
insert-IsAscending r [] h = (tt, tt)
insert-IsAscending r (s ∷ ss) h = elim (Bool-cases (bytes_lt r.rel s.rel)) [
  | inl lt ↦ rw lt ((lt, AreBehind-trans r.rel s.rel ss lt h.0), h)
  | inr ge ↦ elim (Bool-cases (bytes_eq r.rel s.rel)) [
    | inl same ↦
        rw (ge, same)
          (let e : s.rel ≡ r.rel = sym (bytes_eq→≡ r.rel s.rel same) in (rw e at h.0, h.1))
    | inr gt ↦
        rw (ge, gt)
          (
            insert-AreBehind s.rel r ss (bytes_lt_total r.rel s.rel ge gt) h.0,
            insert-IsAscending r ss h.1,
          )
  ]
]

pub sorted-IsAscending : (rs : List Record) → IsAscending (sorted rs)
unfolding sorted
sorted-IsAscending [] = tt
sorted-IsAscending (r ∷ rs) = insert-IsAscending r (sorted rs) (sorted-IsAscending rs)

-- The parent of a path but the root comes before it.
parent_of_lt : (rel : Bytes) → rel ≢ [] → bytes_lt (parent_of rel) rel ≡ true
parent_of_lt [] h = absurd (h refl)
parent_of_lt (x ∷ s) h = elim (Option-cases (rsplit_once b'/' (x ∷ s))) [
  | inl e ↦ rw (parent_of, e) refl
  | inr (p, e) ↦
      rw (parent_of, e)
        (ap (bytes_lt p.0) (rsplit_once-eq_some b'/' (x ∷ s) e).0 ∙ bytes_lt-append p.0 b'/' p.1)
]

position-none :
    (rel : Bytes) (rs : List Record)
    → All (λ r. bytes_eq r.rel rel ≡ false) rs
    → position rel rs ≡ none
position-none rel [] h = refl
position-none rel (r ∷ rs) h = rw (h.0, position-none rel rs h.1) refl

clash : {b : Bool} → b ≡ false → b ≡ true → ⊥
clash h k = cc

absent : {i : ℕ} → none ≡ some i → ⊥
absent h = cc

-- What is found, and does not stand behind, stands in front.
position-lt :
    (rel : Bytes) (front back : List Record) {at : ℕ}
    → All (λ r. bytes_eq r.rel rel ≡ false) back
    → position rel (front ++ back) ≡ some at
    → at < length front
position-lt rel [] back h e = absurd (absent (sym (position-none rel back h) ∙ e))
position-lt rel (r ∷ front) back {at} h e = elim (Bool-cases (bytes_eq r.rel rel)) [
  | inl here ↦
      let first : some 0 ≡ some at = rw here at e in
      let zero_at : 0 ≡ at = cc in omega (arith, zero_at)
  | inr other ↦ elim (Option-cases (position rel (front ++ back))) [
    | inl none_left ↦ absurd (absent (rw (other, none_left) at e))
    | inr (i, found) ↦
        let next : some (suc i) ≡ some at = rw (other, found) at e in
        let same : suc i ≡ at = cc in omega (arith, same, position-lt rel front back h found)
  ]
]

AreBehind-ne :
    (rel : Bytes) (rs : List Record) → AreBehind rel rs → All (λ r. bytes_eq r.rel rel ≡ false) rs
AreBehind-ne rel [] h = tt
AreBehind-ne rel (r ∷ rs) h = (
  elim (Bool-cases (bytes_eq r.rel rel)) [
    | inl e ↦
        let same : bytes_lt rel rel ≡ true =
          sym (ap (bytes_lt rel) (bytes_eq→≡ r.rel rel e)) ∙ h.0 in
        absurd (clash (bytes_lt_irrefl rel) same)
    | inr e ↦ e
  ],
  AreBehind-ne rel rs h.1,
)

IsAscending-append : (front back : List Record) → IsAscending (front ++ back) → IsAscending back
IsAscending-append [] back h = h
IsAscending-append (r ∷ front) back h = IsAscending-append front back h.1

-- In ascending records, the parent of a record but the root stands before it.
pub position-parent_of_lt :
    (front : List Record) (r : Record) (rs : List Record) {at : ℕ}
    → IsAscending (front ++ (r ∷ rs))
    → r.rel ≢ []
    → position (parent_of r.rel) (front ++ (r ∷ rs)) ≡ some at
    → at < length front
position-parent_of_lt front r rs asc ne e =
    let below = parent_of_lt r.rel ne in
    let behind = (IsAscending-append front (r ∷ rs) asc).0 in
    position-lt (parent_of r.rel) front (r ∷ rs)
      (AreBehind-ne (parent_of r.rel) (r ∷ rs)
        (below, AreBehind-trans (parent_of r.rel) r.rel rs below behind))
      e
