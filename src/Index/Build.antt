-- ===== src/Index/Build.antt =====
-- The index that a listing is stored as, and the name of its file.
pub mod Adding
pub mod Contents
pub mod Kept
pub mod Linked
pub mod Order
use scap.Base.{
  ℕ, zero, suc, ◌+◌, ◌-◌, ◌*◌, ◌%◌, ◌/◌, ◌^◌, Bool, true, false, not, ◌&&◌, ◌||◌, Option, none,
  some, List, [], ◌∷◌, ◌++◌, if◌then◌else◌, ltb, is_empty, get_elem?, set, ◌==◌, ◌>>=◌,
}
use scap.Base.Int.{ℤ, pos, negsuc}
use scap.Base.Bytes.{Bytes, codes, bytes_eq, starts_with}
use scap.Index.{Entry, Index}
use scap.Index.Validate.{parent_of}
use scap.RepoPath.{push}
use scap.Walk.{Record}

-- The order of byte strings: `a < b`.
abbrev pub bytes_lt : Bytes → Bytes → Bool
bytes_lt [] [] = false
bytes_lt [] (b ∷ bs) = true
bytes_lt (a ∷ as') [] = false
bytes_lt (a ∷ as') (b ∷ bs) = ltb a b || ((a == b) && bytes_lt as' bs)

-- `sort_unstable_by` on the paths and `dedup_by` together: of equal paths one stays.
unfoldable pub insert : Record → List Record → List Record
insert r [] = r ∷ []
insert r (s ∷ ss) =
    let rest = insert r ss in
    if bytes_lt r.rel s.rel then r ∷ s ∷ ss else if bytes_eq r.rel s.rel then r ∷ ss else s ∷ rest

unfoldable pub sorted : List Record → List Record
sorted [] = []
sorted (r ∷ rs) = insert r (sorted rs)

-- `binary_search_by` among different paths: the position, if there is one.
abbrev pub position : Bytes → List Record → Option ℕ
position rel [] = none
position rel (r ∷ rs) =
    let rest : Option ℕ = elim (position rel rs) [ none ↦ none | some i ↦ some (suc i) ] in
    if bytes_eq r.rel rel then some 0 else rest

abbrev pub unlinked : List Record → List Entry
unlinked [] = []
unlinked (r ∷ rs) = record { rel = r.rel; mtime_ns = r.mtime_ns; children = [] } ∷ unlinked rs

-- `entries[at].children.push(child)`
abbrev pub add_child : List Entry → ℕ → ℕ → List Entry
add_child entries at child = elim (get_elem? entries at) [
  | none ↦ entries
  | some e ↦ set entries at (record e { children = e.children ++ (child ∷ []) })
]

-- `for i in 1..entries.len()`, over the records from `i` on.
unfoldable pub link : List Record → ℕ → List Record → List Entry → Option (List Entry)
link all i [] entries = some entries
link all i (r ∷ rs) entries = do
  at ← position (parent_of r.rel) all
  child ← (if ltb i (2 ^ 32) then some i else none)
  link all (suc i) rs (add_child entries at child)

-- The identity of the root at the time.
pub record Stat : Type 0 where
  pub st_dev : ℤ
  pub st_ino : ℤ

-- `try_into::<u64>().unwrap_or(u64::MAX)`
unfoldable pub ident : ℤ → ℕ
ident (pos n) = if ltb n (2 ^ 64) then n else 2 ^ 64 - 1
ident (negsuc n) = 2 ^ 64 - 1

-- The root's own record comes first, or there is nothing to store.
unfoldable pub build_from : Bytes → List Bytes → ℤ → Stat → List Record → Option Index
build_from root exclude now stat [] = none
build_from root exclude now stat (first ∷ rest) =
    let entries = link (first ∷ rest) 1 rest (unlinked (first ∷ rest)) in
    if not (is_empty first.rel)
    then none
    else (entries >>= λ es. some (record {
      root = root;
      dev = ident stat.st_dev;
      ino = ident stat.st_ino;
      written_ns = now;
      exclude = exclude;
      entries = es;
    }))

unfoldable pub build : Bytes → List Bytes → ℤ → Option Stat → List Record → Option Index
build root exclude now stat records = stat >>= λ s. build_from root exclude now s (sorted records)

-- Exclusive or, bit by bit from the lowest, on words of `w` bits.
unfoldable pub xor : ℕ → ℕ → ℕ → ℕ
xor zero a b = 0
xor (suc w) a b = (if a % 2 == b % 2 then 0 else 1) + 2 * xor w (a / 2) (b / 2)

abbrev pub fnv_offset : ℕ
fnv_offset = 14695981039346656037

abbrev pub fnv_prime : ℕ
fnv_prime = 1099511628211

unfoldable pub fnv1a64_from : ℕ → Bytes → ℕ
fnv1a64_from hash [] = hash
fnv1a64_from hash (b ∷ bs) = fnv1a64_from ((xor 64 hash b * fnv_prime) % 2 ^ 64) bs

unfoldable pub fnv1a64 : Bytes → ℕ
fnv1a64 bytes = fnv1a64_from fnv_offset bytes

abbrev hex_digit : ℕ → ℕ
hex_digit d = if ltb d 10 then b'0' + d else b'a' + (d - 10)

-- `{:016x}`
unfoldable pub hex : ℕ → ℕ → Bytes
hex zero n = []
hex (suc w) n = hex w (n / 16) ++ (hex_digit (n % 16) ∷ [])

unfoldable pub path_for : Option Bytes → Bytes → Option Bytes
path_for dir root =
    dir >>= λ d. some (push d (codes "index-" ++ (hex 16 (fnv1a64 root) ++ codes ".bin")))

abbrev under_home : Option Bytes → Option Bytes
under_home home = home >>= λ h. some (push (push h (codes ".cache")) (codes "scap"))

-- An `XDG_CACHE_HOME` that is not absolute is passed over, as an empty one is.
unfoldable pub cache_dir_from : Option Bytes → Option Bytes → Option Bytes
cache_dir_from none home = under_home home
cache_dir_from (some xdg) home =
    if starts_with (codes "/") xdg then some (push xdg (codes "scap")) else under_home home
