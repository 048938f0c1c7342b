-- ===== src/Walk/Times.antt =====
-- The modification time that an index entry carries: nanoseconds in an i64.
use scap.Base.{
  ℕ, suc, ◌+◌, ◌-◌, ◌*◌, ◌^◌, ◌≤◌, ◌<◌, ◌≡◌, refl, true, false, some, ltb, arith, Bool-cases, inl,
  inr,
}
use scap.Base.Int.{ℤ, pos, negsuc, IsI64}
use scap.Walk.Sys.{Mtime, mtime_ns, widen, saturated, never_valid, add}

abbrev pub stat_of : ℤ → ℤ → Mtime
stat_of secs nsecs = record { st_mtime = secs; st_mtime_nsec = nsecs }

saturated-IsI64 : (z : ℤ) → IsI64 (saturated z)
saturated-IsI64 (pos n) = elim (Bool-cases (ltb n (2 ^ 63))) [
  | inl e ↦ rw e (ground (arith, e))
  | inr e ↦ rw e (omega arith)
]
saturated-IsI64 (negsuc n) = elim (Bool-cases (ltb n (2 ^ 63))) [
  | inl e ↦ rw e (ground (arith, e))
  | inr e ↦ rw e (omega arith)
]

-- Saturating twice is saturating once.
saturated-add : (a n : ℕ) → saturated (add (saturated (pos a)) (pos n)) ≡ saturated (pos (a + n))
saturated-add a n = elim (Bool-cases (ltb a (2 ^ 63))) [
  | inl e ↦ rw e refl
  | inr e ↦ let over : ltb (a + n) (2 ^ 63) ≡ false = ground (arith, e) in rw (e, over) (at_top n)
]
  where
    at_top : (n : ℕ) → saturated (pos ((2 ^ 63 - 1) + n)) ≡ pos (2 ^ 63 - 1)
    at_top ℕ.zero = refl
    at_top (suc m) =
        let over : ltb ((2 ^ 63 - 1) + suc m) (2 ^ 63) ≡ false = ground arith in rw over refl

widen-pos : (n : ℕ) → n < 2 ^ 63 → widen (pos n) ≡ some (pos n)
unfolding widen
widen-pos n h = let e : ltb n (2 ^ 63) ≡ true = ground (arith, h) in rw e refl

-- From the epoch on, the time of a stat whose fields are i64s is an i64: its count of
-- nanoseconds, or the greatest i64 where that is none.
pub mtime_ns-pos :
    (secs nsecs : ℕ)
    → secs < 2 ^ 63
    → nsecs < 2 ^ 63
    → (mtime_ns (stat_of (pos secs) (pos nsecs)) ≡ saturated (pos (secs * 1000000000 + nsecs)))
      × IsI64 (mtime_ns (stat_of (pos secs) (pos nsecs)))
unfolding mtime_ns
mtime_ns-pos secs nsecs h k =
    rw (widen-pos secs h, widen-pos nsecs k)
      (
        saturated-add (secs * 1000000000) nsecs,
        saturated-IsI64 (add (saturated (pos (secs * 1000000000))) (pos nsecs)),
      )

-- A time of 9223372037 seconds or more before the epoch, to the second, is the value that stands for a
-- stat that failed.
pub mtime_ns-never_valid :
    (back : ℕ)
    → 9223372036 ≤ back
    → back < 2 ^ 63
    → mtime_ns (stat_of (negsuc back) (pos 0)) ≡ never_valid
unfolding mtime_ns widen
mtime_ns-never_valid back far h =
    let fits : ltb back (2 ^ 63) ≡ true = ground (arith, h) in
    let over : ltb (suc back * 1000000000 - 1) (2 ^ 63) ≡ false = ground (arith, far) in
    rw (fits, over) refl
