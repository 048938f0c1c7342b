-- ===== src/Base/Bytes.antt =====
-- Byte strings, and what the source calls of `str`, `[u8]` and `memchr` on them.
use Prim.Native.Char.{code}
use Prim.Native.String.{String}
use Prim.Native.Nat.{ℕ, ◌+◌}
use mathlib.Core.Path.{◌≡◌, refl, ap, ◌∙◌, sym}
use mathlib.Core.Logic.{◌↔◌}
use mathlib.Core.Bool.{Bool, true, false, ◌&&◌, ◌||◌}
use mathlib.Core.Option
use mathlib.Core.Option.{Option, none, some}
use mathlib.Core.List.{List, [], ◌∷◌, ◌++◌}
use native.Mathlib.Omega.{arith}
use scap.Base.Tests.{leb, ◌==◌, if◌then◌else◌}

abbrev pub Bytes : Type 0
Bytes = List ℕ

-- The code points of a text: its bytes, if it is ASCII.
abbrev pub codes : String → Bytes
codes String.[] = []
codes (String.◌∷◌ c s) = code c ∷ codes s

abbrev pub bytes_eq : Bytes → Bytes → Bool
bytes_eq [] [] = true
bytes_eq [] (b ∷ bs) = false
bytes_eq (a ∷ as') [] = false
bytes_eq (a ∷ as') (b ∷ bs) = (a == b) && bytes_eq as' bs

pub bytes_eq_refl : (a : Bytes) → bytes_eq a a ≡ true
bytes_eq_refl [] = refl
bytes_eq_refl (x ∷ xs) = ground (arith, bytes_eq_refl xs)

pub bytes_eq→≡ : (a b : Bytes) → bytes_eq a b ≡ true → a ≡ b
bytes_eq→≡ [] [] h = refl
bytes_eq→≡ [] (b ∷ bs) h = cc
bytes_eq→≡ (a ∷ as') [] h = cc
bytes_eq→≡ (a ∷ as') (b ∷ bs) h = ground (arith, bytes_eq→≡ as' bs)

pub bytes_eq_iff : (a b : Bytes) → (bytes_eq a b ≡ true) ↔ (a ≡ b)
bytes_eq_iff a b = (bytes_eq→≡ a b, λ e. ap (bytes_eq a) (sym e) ∙ bytes_eq_refl a)

-- `slice::contains` of one byte.
abbrev pub contains : ℕ → Bytes → Bool
contains c [] = false
contains c (x ∷ xs) = (x == c) || contains c xs

-- `strip_prefix`
abbrev pub strip_prefix : Bytes → Bytes → Option Bytes
strip_prefix [] s = some s
strip_prefix (p ∷ ps) [] = none
strip_prefix (p ∷ ps) (x ∷ xs) = let r = strip_prefix ps xs in if p == x then r else none

abbrev pub starts_with : Bytes → Bytes → Bool
starts_with [] s = true
starts_with (p ∷ ps) [] = false
starts_with (p ∷ ps) (x ∷ xs) = (p == x) && starts_with ps xs

-- `strip_suffix`: the front of `s` if `s` ends with `p`.
abbrev pub strip_suffix : Bytes → Bytes → Option Bytes
strip_suffix p [] = if bytes_eq p [] then some [] else none
strip_suffix p (x ∷ xs) =
    let r = Option.map (◌∷◌ x) (strip_suffix p xs) in if bytes_eq p (x ∷ xs) then some [] else r

abbrev pub ends_with : Bytes → Bytes → Bool
ends_with p s = elim (strip_suffix p s) [ none ↦ false | some _ ↦ true ]

-- `find` of one byte: what stands before the first one and what stands behind it.
abbrev pub split_once : ℕ → Bytes → Option (Bytes × Bytes)
split_once c [] = none
split_once c (x ∷ xs) =
    let r =
      Option.map (λ (p : Bytes × Bytes). let q : Bytes × Bytes = (x ∷ p.0, p.1) in q)
        (split_once c xs) in
    if x == c then some ([], xs) else r

-- `rfind` and `memrchr`: the same at the last one.
abbrev pub rsplit_once : ℕ → Bytes → Option (Bytes × Bytes)
rsplit_once c [] = none
rsplit_once c (x ∷ xs) = elim (rsplit_once c xs) [
  | some p ↦ some (x ∷ p.0, p.1)
  | none ↦ if x == c then some ([], xs) else none
]

-- `split(c)`: never the empty list.
abbrev pub cons_head : ℕ → List Bytes → List Bytes
cons_head x [] = (x ∷ []) ∷ []
cons_head x (s ∷ ss) = (x ∷ s) ∷ ss

abbrev pub split_on : (ℕ → Bool) → Bytes → List Bytes
split_on p [] = [] ∷ []
split_on p (x ∷ xs) = let r = split_on p xs in if p x then [] ∷ r else cons_head x r

abbrev pub split : ℕ → Bytes → List Bytes
split c = split_on (λ x. x == c)

-- `join`
abbrev pub join : Bytes → List Bytes → Bytes
join sep [] = []
join sep (s ∷ []) = s
join sep (s ∷ t ∷ ss) = s ++ (sep ++ join sep (t ∷ ss))

-- `trim_start_matches`, `trim_end_matches`, `trim_matches` of a set of bytes.
abbrev pub trim_start : (ℕ → Bool) → Bytes → Bytes
trim_start p [] = []
trim_start p (x ∷ xs) = let r = trim_start p xs in if p x then r else x ∷ xs

abbrev pub trim_end : (ℕ → Bool) → Bytes → Bytes
trim_end p [] = []
trim_end p (x ∷ xs) = elim (trim_end p xs) [ [] ↦ if p x then [] else x ∷ [] | y ∷ ys ↦ x ∷ y ∷ ys ]

abbrev pub trim_matches : (ℕ → Bool) → Bytes → Bytes
trim_matches p s = trim_end p (trim_start p s)

abbrev pub is_slash : ℕ → Bool
is_slash c = c == b'/'

abbrev pub is_lower : ℕ → Bool
is_lower c = leb b'a' c && leb c b'z'

abbrev pub is_upper : ℕ → Bool
is_upper c = leb b'A' c && leb c b'Z'

abbrev pub is_digit : ℕ → Bool
is_digit c = leb b'0' c && leb c b'9'

abbrev pub is_alnum : ℕ → Bool
is_alnum c = is_lower c || (is_upper c || is_digit c)

-- `to_ascii_lowercase`
abbrev pub lower_byte : ℕ → ℕ
lower_byte c = if is_upper c then c + 32 else c

abbrev pub to_ascii_lowercase : Bytes → Bytes
to_ascii_lowercase [] = []
to_ascii_lowercase (x ∷ xs) = lower_byte x ∷ to_ascii_lowercase xs

-- `eq_ignore_ascii_case`
abbrev pub eq_ignore_ascii_case : Bytes → Bytes → Bool
eq_ignore_ascii_case a b = bytes_eq (to_ascii_lowercase a) (to_ascii_lowercase b)
