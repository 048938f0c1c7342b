-- ===== src/Base/Decimal.antt =====
-- What the standard library prints for a `u32` and reads as an `i32`, in decimal.
use Prim.Native.Nat.{ℕ, zero, suc, ◌+◌, ◌-◌, ◌*◌, ◌/◌, ◌%◌, ◌^◌, ◌<◌}
use mathlib.Core.Path.{◌≡◌, refl, ◌∙◌, ap, sym}
use mathlib.Core.Logic.{inl, inr}
use mathlib.Core.Bool.{Bool, true, false, ◌&&◌, ◌||◌}
use mathlib.Core.Option.{Option, none, some}
use mathlib.Core.List.{[], ◌∷◌}
use native.Mathlib.Omega.{arith}
use scap.Base.Tests.{ltb, ◌==◌, if◌then◌else◌, ◌>>=◌, Bool-cases}
use scap.Base.Lists.{is_empty}
use scap.Base.Bytes.{Bytes, is_digit}
use scap.Base.Int.{ℤ, pos, negsuc}

-- The last digit first, in front of `out`.
digits : ℕ → ℕ → Bytes → Bytes
digits zero n out = out
digits (suc k) n out =
    let more = digits k (n / 10) ((b'0' + n % 10) ∷ out) in
    if ltb n 10 then (b'0' + n % 10) ∷ out else more

-- `format!("{n}")` of a `u32`: no more than ten digits.
unfoldable pub decimal : ℕ → Bytes
unfolding digits
decimal n = digits 10 n []

unfoldable pub scan : ℕ → Bytes → Option ℕ
scan acc [] = some acc
scan acc (c ∷ s) = let r = scan (acc * 10 + (c - b'0')) s in if is_digit c then r else none

abbrev pub take_sign : Bytes → Bool × Bytes
take_sign [] = (false, [])
take_sign (c ∷ s) =
    if c == b'-' then (true, s) else if c == b'+' then (false, s) else (false, c ∷ s)

abbrev pub signed : Bool → ℕ → ℤ
signed false n = pos n
signed true zero = pos 0
signed true (suc n) = negsuc n

abbrev pub i32_of : Bool → ℕ → Option ℤ
i32_of negative n =
    if ltb n (2 ^ 31) || (negative && n == 2 ^ 31) then some (signed negative n) else none

-- `str::parse::<i32>`
unfoldable pub parse_i32 : Bytes → Option ℤ
parse_i32 text =
    let (negative, body) = take_sign text in
    if is_empty body then none else scan 0 body >>= i32_of negative

starts_digit : Bytes → Bool
starts_digit [] = false
starts_digit (c ∷ s) = is_digit c

digits-starts_digit :
    (k n : ℕ) (out : Bytes) → starts_digit out ≡ true → starts_digit (digits k n out) ≡ true
unfolding digits starts_digit
digits-starts_digit zero n out h = h
digits-starts_digit (suc k) n out h =
    ground (arith, digits-starts_digit k (n / 10) ((b'0' + n % 10) ∷ out))

power : ℕ → ℕ
power zero = 1
power (suc k) = 10 * power k

scan-digits : (k n : ℕ) (out : Bytes) → n < power k → scan 0 (digits k n out) ≡ scan n out
unfolding digits scan power
scan-digits zero n out h = ap (λ m. scan m out) (omega arith)
scan-digits (suc k) n out h = ground (arith, scan-digits k (n / 10) ((b'0' + n % 10) ∷ out))

take_sign-digit :
    (s : Bytes) → starts_digit s ≡ true → (take_sign s ≡ (false, s)) × (is_empty s ≡ false)
unfolding starts_digit
take_sign-digit [] h = cc
take_sign-digit (c ∷ s) h = ground arith

last_digit : (n : ℕ) → is_digit (b'0' + n % 10) ≡ true
last_digit n = ground arith

decimal-starts_digit : (n : ℕ) → starts_digit (decimal n) ≡ true
unfolding decimal digits starts_digit
decimal-starts_digit n =
    let last : is_digit (b'0' + n % 10) ≡ true = last_digit n in
    elim (Bool-cases (ltb n 10)) [
      | inl e ↦ rw e last
      | inr e ↦ rw e (digits-starts_digit 9 (n / 10) ((b'0' + n % 10) ∷ []) last)
    ]

scan-decimal : (n : ℕ) → n < 2 ^ 32 → scan 0 (decimal n) ≡ some n
unfolding decimal scan power
scan-decimal n h = scan-digits 10 n [] (omega (arith, h))

-- The print of a `u32` is read back if it is an `i32`, and refused if it is none.
pub parse_i32-decimal : (n : ℕ) → n < 2 ^ 32 → parse_i32 (decimal n) ≡ i32_of false n
unfolding parse_i32
parse_i32-decimal n h =
    let (signs, full) = take_sign-digit (decimal n) (decimal-starts_digit n) in
    rw (signs, full, scan-decimal n h) refl

pub decimal_inj : (a b : ℕ) → a < 2 ^ 32 → b < 2 ^ 32 → decimal a ≡ decimal b → a ≡ b
decimal_inj a b ha hb h =
    let same : some a ≡ some b = sym (scan-decimal a ha) ∙ ap (scan 0) h ∙ scan-decimal b hb in cc
