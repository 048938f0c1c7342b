-- ===== src/Config/Boolean.antt =====
-- git's booleans and integers: `git_boolean` and `parse_git_int`. The bytes of a value that is not
-- UTF-8 are no digits and no suffix, so they are refused as `to_str` refuses them.
use scap.Base.{
  ℕ, ◌+◌, ◌-◌, ◌*◌, ◌^◌, Bool, true, false, not, ◌&&◌, ◌||◌, Option, none, some, List, [], ◌∷◌, ltb,
  leb, ◌==◌, if◌then◌else◌, is_empty, ◌>>=◌, ◌>>◌, guard,
}
use scap.Base.Bytes.{
  Bytes, codes, bytes_eq, strip_prefix, is_digit, is_lower, is_upper, trim_start,
  eq_ignore_ascii_case,
}
use scap.Base.Int.{ℤ, pos, negsuc}
use scap.Base.Decimal.{take_sign, signed}

-- `char::to_digit`, with 36 for no digit.
abbrev pub digit_value : ℕ → ℕ
digit_value c =
    if is_digit c
    then c - b'0'
    else if is_lower c
    then c - b'a' + 10
    else if is_upper c
    then c - b'A' + 10
    else 36

abbrev pub is_radix_digit : ℕ → ℕ → Bool
is_radix_digit radix c = ltb (digit_value c) radix

-- The digits in front, and what stands behind them.
unfoldable pub span_digits : ℕ → Bytes → Bytes × Bytes
span_digits radix [] = ([], [])
span_digits radix (c ∷ s) =
    let p = span_digits radix s in if is_radix_digit radix c then (c ∷ p.0, p.1) else ([], c ∷ s)

-- `i64::from_str_radix` of digits.
unfoldable pub digits_value : ℕ → ℕ → Bytes → ℕ
digits_value radix acc [] = acc
digits_value radix acc (c ∷ s) = digits_value radix (acc * radix + digit_value c) s

-- An i64, if the value is one.
abbrev pub checked : ℕ → Option ℕ
checked n = if ltb n (2 ^ 63) then some n else none

abbrev is_one_of : ℕ → ℕ → Bytes → Bool
is_one_of lower upper s = bytes_eq s (lower ∷ []) || bytes_eq s (upper ∷ [])

abbrev pub unit_factor : Bytes → Option ℕ
unit_factor suffix =
    if is_empty suffix
    then some 1
    else if is_one_of b'k' b'K' suffix
    then some 1024
    else if is_one_of b'm' b'M' suffix
    then some (1024 * 1024)
    else if is_one_of b'g' b'G' suffix
    then some (1024 * 1024 * 1024)
    else none

abbrev pub is_c_space : ℕ → Bool
is_c_space c = c == b' ' || (leb 9 c && leb c 13)

abbrev octal_or_decimal : Bytes → ℕ × Bytes
octal_or_decimal [] = (10, [])
octal_or_decimal (c ∷ []) = (10, c ∷ [])
octal_or_decimal (c ∷ d ∷ s) = if c == b'0' then (8, d ∷ s) else (10, c ∷ d ∷ s)

abbrev pub take_radix : Bytes → ℕ × Bytes
take_radix body = elim (strip_prefix (codes "0x") body) [
  | some hex ↦ (16, hex)
  | none ↦ elim (strip_prefix (codes "0X") body) [
    | some hex ↦ (16, hex)
    | none ↦ octal_or_decimal body
  ]
]

abbrev pub magnitude : ℕ → Bytes × Bytes → Option ℕ
magnitude radix p = guard (not (is_empty p.0)) >> checked (digits_value radix 0 p.0) >>= λ m.
    unit_factor p.1 >>= λ factor. checked (m * factor)

unfoldable pub parse_git_int : Bytes → Option ℤ
parse_git_int text =
    let (negative, body) = take_sign (trim_start is_c_space text) in
    let (radix, digits) = take_radix body in
    magnitude radix (span_digits radix digits) >>= λ value. some (signed negative value)

abbrev pub int_is_zero : ℤ → Bool
int_is_zero (pos n) = n == 0
int_is_zero (negsuc n) = false

abbrev pub is_word_of : List Bytes → Bytes → Bool
is_word_of [] value = false
is_word_of (w ∷ ws) value = eq_ignore_ascii_case value w || is_word_of ws value

abbrev pub yes_words : List Bytes
yes_words = codes "yes" ∷ codes "on" ∷ codes "true" ∷ []

abbrev pub no_words : List Bytes
no_words = codes "no" ∷ codes "off" ∷ codes "false" ∷ []

abbrev int_is_true : Option ℤ → Bool
int_is_true none = false
int_is_true (some z) = not (int_is_zero z)

unfoldable pub git_boolean : Option Bytes → Bool
git_boolean none = true
git_boolean (some value) =
    if is_word_of yes_words value
    then true
    else if is_word_of no_words value || is_empty value
    then false
    else int_is_true (parse_git_int value)
