-- ===== src/Index/Tree.antt =====
-- The tree that the child lists of an index describe, and the marks that `decode` keeps of it.
pub mod Marks
pub mod Claims
use scap.Base.{ℕ, zero, suc, ◌<◌, ◌≡◌, true, false, List, [], ◌∷◌, ◌++◌, length, All}
use scap.Base.Bytes.{contains}
use scap.Index.{Entry}
use scap.Index.Codec.{starts_at_root}

-- All child indices, in order.
abbrev pub claims : List Entry → List ℕ
claims [] = []
claims (e ∷ es) = e.children ++ claims es

-- Every child index is greater than its parent's, and names an entry.
abbrev pub IsForward : ℕ → ℕ → List Entry → Type 0
IsForward i total [] = Unit
IsForward i total (e ∷ es) =
    All (λ c. (i < c) × (c < total)) e.children × IsForward (suc i) total es

abbrev pub IsDistinct : List ℕ → Type 0
IsDistinct [] = Unit
IsDistinct (x ∷ xs) = (contains x xs ≡ false) × IsDistinct xs

-- The edges go forward, no entry has two parents, and every entry but the first has one.
pub record IsTree (es : List Entry) : Type 0 where
  pub rooted : starts_at_root es ≡ true
  pub forward : IsForward 0 (length es) es
  pub once : IsDistinct (claims es)
  pub covered : (j : ℕ) → 0 < j → j < length es → contains j (claims es) ≡ true
