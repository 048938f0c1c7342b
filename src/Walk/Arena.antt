-- ===== src/Walk/Arena.antt =====
-- src/walk/arena.rs: paths in one byte vector, each named by a range of offsets.
use scap.Base.{
  slice-append, take-all, drop-behind, ℕ, ◌+◌, ◌-◌, ◌^◌, ◌≤◌, ◌<◌, ◌≡◌, refl, ap, sym, ◌∙◌, true,
  Option, none, some, List, [], ◌∷◌, ◌++◌, arith, ltb, if◌then◌else◌, length, take, drop, All,
  length-append, drop-length-append, ◌>>=◌, >>=-eq-some,
}
use scap.Base.Bytes.{Bytes}

pub record Handle : Type 0 where
  pub start : ℕ
  pub end : ℕ

pub record Arena : Type 0 where
  pub bytes : Bytes
  pub repos : List Handle

abbrev pub no_paths : Arena
no_paths = record { bytes = []; repos = [] }

-- An offset that is no u32 ends the program.
unfoldable pub offset : ℕ → Option ℕ
offset len = if ltb len (2 ^ 32) then some len else none

unfoldable pub push : Arena → Bytes → Option Arena
push arena path = do
  start ← offset (length arena.bytes)
  end ← offset (length (arena.bytes ++ path))
  some (record {
    bytes = arena.bytes ++ path;
    repos = arena.repos ++ (record { start = start; end = end } ∷ []);
  })

abbrev pub slice : Bytes → Handle → Bytes
slice bytes h = take (h.end - h.start) (drop h.start bytes)

unfoldable pub slices : Bytes → List Handle → List Bytes
slices bytes [] = []
slices bytes (h ∷ hs) = slice bytes h ∷ slices bytes hs

unfoldable pub iter : Arena → List Bytes
iter arena = slices arena.bytes arena.repos

unfoldable pub shift_all : ℕ → List Handle → List Handle
shift_all shift [] = []
shift_all shift (h ∷ hs) =
    record { start = h.start + shift; end = h.end + shift } ∷ shift_all shift hs

unfoldable pub merge : Arena → Arena → Option Arena
merge arena other = do
  shift ← offset (length arena.bytes)
  end ← offset (length (arena.bytes ++ other.bytes))
  some (record {
    bytes = arena.bytes ++ other.bytes;
    repos = arena.repos ++ shift_all shift other.repos;
  })

-- The handles name ranges of the bytes.
abbrev pub AllWithin : ℕ → List Handle → Type 0
AllWithin total hs = All (λ h. (h.start ≤ h.end) × (h.end ≤ total)) hs

abbrev pub IsWithin : Arena → Type 0
IsWithin arena = AllWithin (length arena.bytes) arena.repos

slices-append_bytes :
    (xs ys : Bytes) (hs : List Handle)
    → AllWithin (length xs) hs
    → slices (xs ++ ys) hs ≡ slices xs hs
unfolding slices
slices-append_bytes xs ys [] h = refl
slices-append_bytes xs ys (k ∷ hs) h =
    rw (slice-append xs ys k.start k.end (h.0).0 (h.0).1, slices-append_bytes xs ys hs h.1)

slices-append :
    (bytes : Bytes) (hs ks : List Handle)
    → slices bytes (hs ++ ks) ≡ slices bytes hs ++ slices bytes ks
unfolding slices
slices-append bytes [] ks = refl
slices-append bytes (h ∷ hs) ks = ap (◌∷◌ (slice bytes h)) (slices-append bytes hs ks)

slices-shift_all :
    (xs ys : Bytes) (hs : List Handle) → slices (xs ++ ys) (shift_all (length xs) hs) ≡ slices ys hs
unfolding slices shift_all
slices-shift_all xs ys [] = refl
slices-shift_all xs ys (h ∷ hs) =
    let width : (h.end + length xs) - (h.start + length xs) ≡ h.end - h.start = omega arith in
    rw (width, drop-behind xs ys h.start, slices-shift_all xs ys hs)

AllWithin-le : (n m : ℕ) (hs : List Handle) → n ≤ m → AllWithin n hs → AllWithin m hs
AllWithin-le n m [] h k = tt
AllWithin-le n m (x ∷ hs) h k = (((k.0).0, omega (arith, (k.0).1)), AllWithin-le n m hs h k.1)

AllWithin-append :
    (n : ℕ) (hs ks : List Handle) → AllWithin n hs → AllWithin n ks → AllWithin n (hs ++ ks)
AllWithin-append n [] ks h k = k
AllWithin-append n (x ∷ hs) ks h k = (h.0, AllWithin-append n hs ks h.1 k)

AllWithin-shift_all :
    (n shift : ℕ) (hs : List Handle) → AllWithin n hs → AllWithin (shift + n) (shift_all shift hs)
unfolding shift_all
AllWithin-shift_all n shift [] h = tt
AllWithin-shift_all n shift (x ∷ hs) h =
    ((omega (arith, (h.0).0), omega (arith, (h.0).1)), AllWithin-shift_all n shift hs h.1)

offset-eq_some : (len : ℕ) {k : ℕ} → offset len ≡ some k → len ≡ k
unfolding offset
offset-eq_some len h = ground arith

abbrev pub pushed : Arena → Bytes → Arena
pushed arena path = record {
  bytes = arena.bytes ++ path;
  repos =
      arena.repos
      ++ (record { start = length arena.bytes; end = length (arena.bytes ++ path) } ∷ []);
}

abbrev pub merged : Arena → Arena → Arena
merged arena other = record {
  bytes = arena.bytes ++ other.bytes;
  repos = arena.repos ++ shift_all (length arena.bytes) other.repos;
}

pub push-eq_some :
    (arena : Arena) (path : Bytes) {grown : Arena}
    → push arena path ≡ some grown
    → pushed arena path ≡ grown
unfolding push
push-eq_some arena path h =
    let (start, e, h') = >>=-eq-some (offset (length arena.bytes)) _ h in
    let (end, f, h'') = >>=-eq-some (offset (length (arena.bytes ++ path))) _ h' in
    rw (offset-eq_some (length arena.bytes) e, offset-eq_some (length (arena.bytes ++ path)) f) cc

merge-eq_some :
    (arena other : Arena) {grown : Arena}
    → merge arena other ≡ some grown
    → merged arena other ≡ grown
unfolding merge
merge-eq_some arena other h =
    let (shift, e, h') = >>=-eq-some (offset (length arena.bytes)) _ h in
    let (end, f, h'') = >>=-eq-some (offset (length (arena.bytes ++ other.bytes))) _ h' in
    rw (offset-eq_some (length arena.bytes) e) cc

iter-pushed :
    (arena : Arena) (path : Bytes)
    → IsWithin arena
    → iter (pushed arena path) ≡ iter arena ++ (path ∷ [])
unfolding iter slices
iter-pushed arena path w =
    let width : length (arena.bytes ++ path) - length arena.bytes ≡ length path =
      omega (arith, length-append arena.bytes path) in
    slices-append (arena.bytes ++ path) arena.repos _
    ∙ rw (
      slices-append_bytes arena.bytes path arena.repos w,
      width,
      drop-length-append arena.bytes path,
      take-all path,
    )

-- A push appends its path to the sequence that the arena stands for, and the handles stay within
-- the bytes.
pub push-iter :
    (arena : Arena) (path : Bytes) {grown : Arena}
    → IsWithin arena
    → push arena path ≡ some grown
    → (iter grown ≡ iter arena ++ (path ∷ [])) × IsWithin grown
push-iter arena path w h =
    let same = push-eq_some arena path h in
    rw (sym same) (
      iter-pushed arena path w,
      AllWithin-append (length (arena.bytes ++ path)) arena.repos _
          (AllWithin-le (length arena.bytes) (length (arena.bytes ++ path)) arena.repos
            (omega (arith, length-append arena.bytes path)) w)
          ((omega (arith, length-append arena.bytes path), omega arith), tt),
    )

-- A merge of two arenas stands for the one sequence behind the other, which is what the shift of
-- the handles is for.
pub merge-iter :
    (arena other : Arena) {grown : Arena}
    → IsWithin arena
    → IsWithin other
    → merge arena other ≡ some grown
    → (iter grown ≡ iter arena ++ iter other) × IsWithin grown
unfolding iter
merge-iter arena other w v h =
    let same = merge-eq_some arena other h in
    let longer = length-append arena.bytes other.bytes in
    rw (sym same) (
      slices-append (arena.bytes ++ other.bytes) arena.repos _
          ∙ rw (
            slices-append_bytes arena.bytes other.bytes arena.repos w,
            slices-shift_all arena.bytes other.bytes other.repos,
          ),
      AllWithin-append (length (arena.bytes ++ other.bytes)) arena.repos _
          (AllWithin-le (length arena.bytes) (length (arena.bytes ++ other.bytes)) arena.repos
            (omega (arith, longer)) w)
          (rw longer (AllWithin-shift_all (length other.bytes) (length arena.bytes) other.repos v)),
    )

-- There is room for a path if all bytes together stay below 2^32.
pub push-some :
    (arena : Arena) (path : Bytes)
    → length arena.bytes + length path < 2 ^ 32
    → push arena path ≡ some (pushed arena path)
unfolding push offset
push-some arena path room =
    let start : ltb (length arena.bytes) (2 ^ 32) ≡ true = ground (arith, room) in
    let end : ltb (length (arena.bytes ++ path)) (2 ^ 32) ≡ true =
      ground (arith, room, length-append arena.bytes path) in
    rw (start, end) refl

pub merge-some :
    (arena other : Arena)
    → length arena.bytes + length other.bytes < 2 ^ 32
    → merge arena other ≡ some (merged arena other)
unfolding merge offset
merge-some arena other room =
    let start : ltb (length arena.bytes) (2 ^ 32) ≡ true = ground (arith, room) in
    let end : ltb (length (arena.bytes ++ other.bytes)) (2 ^ 32) ≡ true =
      ground (arith, room, length-append arena.bytes other.bytes) in
    rw (start, end) refl
