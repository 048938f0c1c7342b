-- ===== src/Index/Tree/Claims.antt =====
-- What `decode` checks of one child after the other, against the tree that all of them describe.
use scap.Base.{
  ℕ, suc, ◌<◌, ◌≡◌, refl, ◌∙◌, inl, inr, true, false, ◌||◌, List, [], ◌∷◌, ◌++◌, arith, ◌==◌,
  length, All, Bool-cases,
}
use scap.Base.Bytes.{contains}
use scap.Index.{Entry}
use scap.Index.Tree.{claims, IsForward, IsDistinct, IsTree}

-- The children `cs` of entry `i` are in range and not yet claimed, one after the other.
abbrev pub IsFresh : ℕ → ℕ → List ℕ → List ℕ → Type 0
IsFresh i total seen [] = Unit
IsFresh i total seen (c ∷ cs) =
    (i < c) × (c < total) × (contains c seen ≡ false) × IsFresh i total (c ∷ seen) cs

abbrev pub after : List ℕ → List ℕ → List ℕ
after seen [] = seen
after seen (c ∷ cs) = after (c ∷ seen) cs

abbrev pub after_all : List ℕ → List Entry → List ℕ
after_all seen [] = seen
after_all seen (e ∷ es) = after_all (after seen e.children) es

abbrev pub AllFresh : ℕ → ℕ → List ℕ → List Entry → Type 0
AllFresh i total seen [] = Unit
AllFresh i total seen (e ∷ es) =
    IsFresh i total seen e.children × AllFresh (suc i) total (after seen e.children) es

-- No claim of the first list is among the second.
abbrev IsApart : List ℕ → List ℕ → Type 0
IsApart cs seen = (c : ℕ) → contains c cs ≡ true → contains c seen ≡ false

contains-append :
    (c : ℕ) (xs ys : List ℕ) → contains c (xs ++ ys) ≡ (contains c xs || contains c ys)
contains-append c [] ys = refl
contains-append c (x ∷ xs) ys = ground (arith, contains-append c xs ys)

contains-after :
    (c : ℕ) (seen cs : List ℕ) → contains c (after seen cs) ≡ (contains c cs || contains c seen)
contains-after c seen [] = refl
contains-after c seen (x ∷ cs) = ground (arith, contains-after c (x ∷ seen) cs)

contains-after_all :
    (c : ℕ) (seen : List ℕ) (es : List Entry)
    → contains c (after_all seen es) ≡ (contains c (claims es) || contains c seen)
contains-after_all c seen [] = refl
contains-after_all c seen (e ∷ es) = ground (
  arith,
  contains-after_all c (after seen e.children) es,
  contains-after c seen e.children,
  contains-append c e.children (claims es),
)

IsApart-cons :
    (c : ℕ) (cs seen : List ℕ)
    → contains c cs ≡ false
    → IsApart (c ∷ cs) seen
    → IsApart cs (c ∷ seen)
IsApart-cons c cs seen h k d e = elim (Bool-cases (c == d)) [
  | inl same ↦ ground arith
  | inr other ↦ ground (arith, k d)
]

IsApart-cons_back :
    (c : ℕ) (cs seen : List ℕ)
    → contains c seen ≡ false
    → IsApart cs (c ∷ seen)
    → (contains c cs ≡ false) × IsApart (c ∷ cs) seen
IsApart-cons_back c cs seen h k = (absent, kept)
  where
    absent : contains c cs ≡ false
    absent = elim (Bool-cases (contains c cs)) [
      | inl there ↦ ground (arith, k c there)
      | inr away ↦ away
    ]

    kept : IsApart (c ∷ cs) seen
    kept d e = elim (Bool-cases (c == d)) [
      | inl same ↦ ground arith
      | inr other ↦ ground (arith, k d)
    ]

-- `rest` are the claims behind the list.
IsFresh-of_IsDistinct :
    (i total : ℕ) (seen cs rest : List ℕ)
    → All (λ c. (i < c) × (c < total)) cs
    → IsDistinct (cs ++ rest)
    → IsApart (cs ++ rest) seen
    → IsFresh i total seen cs × IsDistinct rest × IsApart rest (after seen cs)
IsFresh-of_IsDistinct i total seen [] rest f d a = (tt, d, a)
IsFresh-of_IsDistinct i total seen (c ∷ cs) rest f d a =
    let (fresh, once, apart) =
      IsFresh-of_IsDistinct i total (c ∷ seen) cs rest f.1 d.1
        (IsApart-cons c (cs ++ rest) seen d.0 a) in
    (((f.0).0, (f.0).1, ground (arith, a c), fresh), once, apart)

IsFresh-IsDistinct :
    (i total : ℕ) (seen cs rest : List ℕ)
    → IsFresh i total seen cs
    → IsDistinct rest
    → IsApart rest (after seen cs)
    → All (λ c. (i < c) × (c < total)) cs × IsDistinct (cs ++ rest) × IsApart (cs ++ rest) seen
IsFresh-IsDistinct i total seen [] rest f d a = (tt, d, a)
IsFresh-IsDistinct i total seen (c ∷ cs) rest f d a =
    let (ahead, once, apart) = IsFresh-IsDistinct i total (c ∷ seen) cs rest f.3 d a in
    let (absent, kept) = IsApart-cons_back c (cs ++ rest) seen f.2 apart in
    (((f.0, f.1), ahead), (absent, once), kept)

AllFresh-of_IsDistinct :
    (i total : ℕ) (seen : List ℕ) (es : List Entry)
    → IsForward i total es
    → IsDistinct (claims es)
    → IsApart (claims es) seen
    → AllFresh i total seen es
AllFresh-of_IsDistinct i total seen [] f d a = tt
AllFresh-of_IsDistinct i total seen (e ∷ es) f d a =
    let (fresh, once, apart) = IsFresh-of_IsDistinct i total seen e.children (claims es) f.0 d a in
    (fresh, AllFresh-of_IsDistinct (suc i) total (after seen e.children) es f.1 once apart)

AllFresh-IsDistinct :
    (i total : ℕ) (seen : List ℕ) (es : List Entry)
    → AllFresh i total seen es
    → IsForward i total es × IsDistinct (claims es) × IsApart (claims es) seen
AllFresh-IsDistinct i total seen [] f = (tt, tt, λ c e. cc)
AllFresh-IsDistinct i total seen (e ∷ es) f =
    let (ahead, once, apart) = AllFresh-IsDistinct (suc i) total (after seen e.children) es f.1 in
    let (here, all_once, all_apart) =
      IsFresh-IsDistinct i total seen e.children (claims es) f.0 once apart in
    ((here, ahead), all_once, all_apart)

pub IsTree-AllFresh : (es : List Entry) → IsTree es → AllFresh 0 (length es) [] es
IsTree-AllFresh es t = AllFresh-of_IsDistinct 0 (length es) [] es t.forward t.once (λ c e. refl)

pub IsTree-covered :
    (es : List Entry)
    → IsTree es
    → (j : ℕ) → 0 < j
    → j < length es
    → contains j (after_all [] es) ≡ true
IsTree-covered es t j p q = contains-after_all j [] es ∙ rw (t.covered j p q)

pub AllFresh-IsForward :
    (es : List Entry)
    → AllFresh 0 (length es) [] es
    → IsForward 0 (length es) es × IsDistinct (claims es)
AllFresh-IsForward es f =
    let (ahead, once, apart) = AllFresh-IsDistinct 0 (length es) [] es f in (ahead, once)

pub covered-claims :
    (es : List Entry) (j : ℕ) → contains j (after_all [] es) ≡ true → contains j (claims es) ≡ true
covered-claims es j h = ground (arith, contains-after_all j [] es)
