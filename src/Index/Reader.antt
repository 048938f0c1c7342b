-- ===== src/Index/Reader.antt =====
-- The bounds-checked cursor of `decode`: every accessor answers `none` past the end.
use scap.Base.{
  ℕ, zero, suc, ◌+◌, ◌-◌, ◌*◌, ◌^◌, ◌≤◌, ◌<◌, ◌≡◌, refl, sym, ap, ◌∙◌, Bool, true, Option, none,
  some, List, [], ◌∷◌, ◌++◌, append_assoc, append-nil, arith, ltb, leb, if◌then◌else◌, length, take,
  drop, length-append, take-length-append, drop-length-append, drop-drop, lt→ltb, le→leb,
}
use scap.Base
use scap.Base.Int.{ℤ, IsI64}
use scap.Base.Bytes.{Bytes}
use scap.Index.Word.{
  le_bytes, from_le, i64_bits, bits_i64, length-le_bytes, from_le-u32, from_le-u64,
  bits_i64-i64_bits, i64_bits-lt,
}

pub record Reader : Type 0 where
  pub bytes : Bytes
  pub at : ℕ

-- An accessor moves the cursor, or answers `none` and ends the decoding.
abbrev pub Read : Type 0 → Type 0
Read A = Reader → Option (A × Reader)

infixl 5 ◌>>=◌ ◌>>◌
abbrev pub ◌>>=◌ : {A B : Type 0} → Read A → (A → Read B) → Read B
◌>>=◌ m f r = elim (m r) [ none ↦ none | some (a, r') ↦ f a r' ]

abbrev pub ◌>>◌ : {A B : Type 0} → Read A → Read B → Read B
m >> k = m >>= λ _. k

abbrev pub ret : {A : Type 0} → A → Read A
ret a r = some (a, r)

-- `return None` unless the test holds.
abbrev pub ensure : Bool → Read (Unit {0})
ensure t r = if t then some (tt, r) else none

-- `usize` has 64 bits.
abbrev checked_add : ℕ → ℕ → Option ℕ
checked_add a b = if ltb (a + b) (2 ^ 64) then some (a + b) else none

abbrev checked_mul : ℕ → ℕ → Option ℕ
checked_mul a b = if ltb (a * b) (2 ^ 64) then some (a * b) else none

-- `bytes.get(from..to)`, here always with `from ≤ to`.
get_range : Bytes → ℕ → ℕ → Option Bytes
get_range bs from to = if leb to (length bs) then some (take (to - from) (drop from bs)) else none

unfoldable pub take_bytes : ℕ → Read Bytes
unfolding get_range
take_bytes n r =
    Base.◌>>=◌ (checked_add r.at n) (λ end.
      Base.◌>>=◌ (get_range r.bytes r.at end) (λ slice. some (slice, record r { at = end })))

unfoldable pub u8 : Read ℕ
u8 = take_bytes 1 >>= λ s. elim s [ [] ↦ λ r. none | b ∷ bs ↦ ret b ]

unfoldable pub u32 : Read ℕ
u32 = do s ← take_bytes 4; ret (from_le s)

unfoldable pub u64 : Read ℕ
u64 = do s ← take_bytes 8; ret (from_le s)

unfoldable pub i64 : Read ℤ
i64 = do s ← take_bytes 8; ret (bits_i64 (from_le s))

unfoldable pub byte_string : Read Bytes
byte_string = do len ← u32; take_bytes len

-- The comparison on the bytes that remain, behind the count.
fits : ℕ → ℕ → Read ℕ
fits each count r =
    Base.◌>>=◌ (checked_mul count each)
      (λ need. if leb need (length r.bytes - r.at) then some (count, r) else none)

unfoldable pub count : ℕ → Read ℕ
unfolding fits
count each = do n ← u32; fits each n

-- The cursor stands before `rest`, and the file's size is a `usize`.
pub record Ready (r : Reader) (rest : Bytes) : Type 0 where
  pub split : r.at + length rest ≡ length r.bytes
  pub ahead : drop r.at r.bytes ≡ rest
  pub sized : length r.bytes < 2 ^ 64

-- `m` consumes exactly `s` and returns `a`, whatever stands behind `s`.
abbrev pub Reads : {A : Type 0} → Read A → Bytes → A → Type 0
Reads m s a =
    (r : Reader) (rest : Bytes)
    → Ready r (s ++ rest)
    → (r' : Reader) × (m r ≡ some (a, r')) × Ready r' rest

pub Reads-ret : {A : Type 0} (a : A) → Reads (ret a) [] a
Reads-ret a r rest h = (r, refl, h)

pub Reads-bind :
    {A B : Type 0} (m : Read A) (f : A → Read B) (s t : Bytes) {a : A} {b : B}
    → Reads m s a
    → Reads (f a) t b
    → Reads (m >>= f) (s ++ t) b
Reads-bind m f s t hm hf r rest h =
    let (r1, e1, h1) = hm r (t ++ rest) (rw append_assoc at h) in
    let (r2, e2, h2) = hf r1 rest h1 in (r2, rw (e1, ◌>>=◌) e2, h2)

Reads-ensure : (b : Bool) → b ≡ true → Reads (ensure b) [] tt
Reads-ensure b e r rest h = (r, rw e, h)

-- A last step that only returns.
pub Reads-map :
    {A B : Type 0} (m : Read A) (g : A → B) (s : Bytes) {a : A}
    → Reads m s a
    → Reads (m >>= λ x. ret (g x)) s (g a)
Reads-map m g s hm r rest h = let (r1, e1, h1) = hm r rest h in (r1, rw (e1, ◌>>=◌), h1)

pub Reads-guard :
    {A : Type 0} (b : Bool) (k : Read A) (s : Bytes) {a : A}
    → b ≡ true
    → Reads k s a
    → Reads (ensure b >> k) s a
Reads-guard b k s e hk = Reads-bind (ensure b) (λ _. k) [] s (Reads-ensure b e) hk

drop_more : (n : ℕ) (bs s rest : Bytes) → drop n bs ≡ s ++ rest → drop (n + length s) bs ≡ rest
drop_more n bs s rest e = drop-drop n (length s) bs ∙ rw e (drop-length-append s rest)

pub Reads-take_bytes : (s : Bytes) → Reads (take_bytes (length s)) s s
unfolding take_bytes
Reads-take_bytes s r rest h =
    let fit : r.at + length s + length rest ≡ length r.bytes =
      omega (arith, length-append s rest) in
    let small : ltb (r.at + length s) (2 ^ 64) ≡ true = lt→ltb _ _ (omega arith) in
    let inside : leb (r.at + length s) (length r.bytes) ≡ true = le→leb _ _ (omega arith) in
    let width : r.at + length s - r.at ≡ length s = omega arith in
    (
      record r { at = r.at + length s },
      rw (small, inside, width, h.ahead, take-length-append) refl,
      record { split = fit; ahead = drop_more r.at r.bytes s rest h.ahead; sized = h.sized },
    )

pub Reads-u8 : (b : ℕ) → Reads u8 (b ∷ []) b
unfolding u8
Reads-u8 b =
    Reads-bind (take_bytes 1) _ (b ∷ []) [] {a = b ∷ []} (Reads-take_bytes (b ∷ [])) (Reads-ret b)

-- A word of `w` bytes behind a bind that ends the accessor.
Reads-word :
    {A : Type 0} (w n : ℕ) (f : Bytes → A) {a : A}
    → f (le_bytes w n) ≡ a
    → Reads (take_bytes w >>= λ s. ret (f s)) (le_bytes w n) a
Reads-word w n f e =
    let taken : Reads (take_bytes w) (le_bytes w n) (le_bytes w n) =
      rw (length-le_bytes w n) at (Reads-take_bytes (le_bytes w n)) in
    rw e at (Reads-map (take_bytes w) f (le_bytes w n) taken)

pub Reads-u32 : (n : ℕ) → n < 2 ^ 32 → Reads u32 (le_bytes 4 n) n
unfolding u32
Reads-u32 n h = Reads-word 4 n from_le (from_le-u32 n h)

pub Reads-u64 : (n : ℕ) → n < 2 ^ 64 → Reads u64 (le_bytes 8 n) n
unfolding u64
Reads-u64 n h = Reads-word 8 n from_le (from_le-u64 n h)

pub Reads-i64 : (z : ℤ) → IsI64 z → Reads i64 (le_bytes 8 (i64_bits z)) z
unfolding i64
Reads-i64 z h =
    Reads-word 8 (i64_bits z) (λ s. bits_i64 (from_le s))
      (rw (from_le-u64 (i64_bits z) (i64_bits-lt z h)) (bits_i64-i64_bits z h))

pub Reads-byte_string :
    (s : Bytes) → length s < 2 ^ 32 → Reads byte_string (le_bytes 4 (length s) ++ s) s
unfolding byte_string
Reads-byte_string s h =
    Reads-bind u32 take_bytes (le_bytes 4 (length s)) s (Reads-u32 _ h) (Reads-take_bytes s)

fits-eq-some :
    (each n : ℕ) (r : Reader) (t rest : Bytes)
    → n * each ≤ length t
    → Ready r (t ++ rest)
    → fits each n r ≡ some (n, r)
unfolding fits
fits-eq-some each n r t rest room h =
    let there : length r.bytes - r.at ≡ length t + length rest =
      omega (arith, h.split, length-append t rest) in
    let small : ltb (n * each) (2 ^ 64) ≡ true =
      lt→ltb _ _ (omega (arith, h.split, h.sized, length-append t rest)) in
    let holds : leb (n * each) (length r.bytes - r.at) ≡ true = le→leb _ _ (omega (arith, there)) in
    rw (small, holds)

count-eq-some :
    (each n : ℕ) (r r1 : Reader)
    → u32 r ≡ some (n, r1)
    → fits each n r1 ≡ some (n, r1)
    → count each r ≡ some (n, r1)
unfolding count
count-eq-some each n r r1 e f = rw (e, ◌>>=◌) f

-- A count passes its check when the bytes that the items take are there.
pub Reads-count :
    {A : Type 0} (each n : ℕ) (f : ℕ → Read A) (t : Bytes) {a : A}
    → n < 2 ^ 32
    → n * each ≤ length t
    → Reads (f n) t a
    → Reads (count each >>= f) (le_bytes 4 n ++ t) a
Reads-count each n f t h room hf r rest k =
    let (r1, e1, k1) = Reads-u32 n h r (t ++ rest) (rw append_assoc at k) in
    let (r2, e2, k2) = hf r1 rest k1 in
    let counted = count-eq-some each n r r1 e1 (fits-eq-some each n r1 t rest room k1) in
    (r2, rw (counted, ◌>>=◌) e2, k2)
