-- ===== src/Index/Cache.antt =====
-- `Cache`: a listing through the index file of a root, and the check of the one against the other.
pub mod Origin
pub mod Unchanged
pub mod Walked
use scap.Base.{
  Bool, true, false, not, ◌&&◌, Option, none, some, List, [], ◌∷◌, ◌++◌, if◌then◌else◌, is_empty,
  any, arith, ◌==◌, ◌≡◌, refl, sym, ap, ◌∙◌, Bool-cases, inl, inr,
}
use scap.Base.Int.{ℤ}
use scap.Base.Bytes.{Bytes, bytes_eq, bytes_eq→≡}
use scap.Index.{Index}
use scap.Index.Codec.{encode, decode}
use scap.Index.Validate.{Outcome, walk_index, Stats, probe_all}
use scap.Index.Build.{Stat, ident, build}
use scap.Walk.{Record, RootListing, from_records}
use scap.Walk.Arena.{iter}

-- A run ends in a panic, in the one error of the walk, or with a value.
pub data Result (A : Type 0) : Type 0 where
  panic : Result A
  invalid_root : Result A
  ok : A → Result A

infixl 5 ◌>>=◌
abbrev pub ◌>>=◌ : {X Y : Type 0} → Result X → (X → Result Y) → Result Y
panic >>= next = panic
invalid_root >>= next = invalid_root
ok x >>= next = next x

abbrev pub or_panic : {A : Type 0} → Option A → Result A
or_panic none = panic
or_panic (some a) = ok a

-- What one call works on: the root, its exclude patterns, the bytes of its index file if it has one,
-- the open root and its own `statat`, what `statat` answers below it, the clock, and the walk, which
-- keeps records or does not. A re-walk of subtrees always keeps them.
pub record Root : Type 0 where
  pub path : Bytes
  pub file_name : Bytes
  pub exclude : List Bytes
  pub index_file : Option Bytes
  pub opened : Option Stat
  pub root_stat : Option Stat
  pub stats : Stats
  pub now_ns : ℤ
  pub walk_root : Bool → Result RootListing
  pub walk_subtrees : List Bytes → Result RootListing

abbrev pub patterns_eq : List Bytes → List Bytes → Bool
patterns_eq [] [] = true
patterns_eq [] (y ∷ ys) = false
patterns_eq (x ∷ xs) [] = false
patterns_eq (x ∷ xs) (y ∷ ys) = bytes_eq x y && patterns_eq xs ys

unfoldable pub describes : Index → Bytes → Stat → List Bytes → Bool
describes index root stat exclude =
    bytes_eq index.root root
    && ((index.dev == ident stat.st_dev)
        && ((index.ino == ident stat.st_ino) && patterns_eq index.exclude exclude))

unfoldable pub load : Root → Option Index
load r = elim r.index_file [ none ↦ none | some bytes ↦ decode bytes ]

-- The rest of `cached_listing` behind the validation pass: the entries that hold, and a walk of
-- those that do not.
unfoldable pub rejoin : Root → Outcome → Result (Option RootListing)
rejoin r outcome =
    if any is_empty outcome.stale
    then ok none
    else (r.walk_subtrees outcome.stale >>= λ rewalked.
        or_panic (
          from_records (outcome.fresh ++ rewalked.records) rewalked.dirs_read rewalked.excluded
            rewalked.incomplete)
        >>= λ listing. ok (some listing))

abbrev pub from_index : Root → Index → Stat → Result (Option RootListing)
from_index r index stat =
    if not (describes index r.path stat r.exclude)
    then ok none
    else (or_panic (walk_index index (probe_all r.stats index.entries r.file_name)) >>= rejoin r)

abbrev from_parts : Root → Option Index → Option Stat → Result (Option RootListing)
from_parts r none opened = ok none
from_parts r (some index) none = ok none
from_parts r (some index) (some stat) = from_index r index stat

unfoldable pub cached_listing : Root → Result (Option RootListing)
cached_listing r = from_parts r (load r) r.opened

-- The bytes that are handed to `write_atomically`, if any are.
unfoldable pub store : Root → List Record → Option Bytes
store r records = elim (build r.path r.exclude r.now_ns r.root_stat records) [
  | none ↦ none
  | some index ↦ some (encode index)
]

unfoldable pub store_if_complete : Root → RootListing → Option Bytes
store_if_complete r listing = if listing.incomplete then none else store r listing.records

abbrev or_walk : Root → Option RootListing → Result RootListing
or_walk r (some listing) = ok listing
or_walk r none = r.walk_root true

-- The listing, and what was stored of it.
unfoldable pub list_root : Root → Result (RootListing × Option Bytes)
list_root r = cached_listing r >>= λ cached.
    or_walk r cached >>= λ listing. ok (listing, store_if_complete r listing)

-- `sort_unstable` and `==` on lists of paths: the same paths, equally often.
unfoldable pub remove : Bytes → List Bytes → Option (List Bytes)
remove x [] = none
remove x (y ∷ ys) =
    let rest : Option (List Bytes) = elim (remove x ys) [ none ↦ none | some zs ↦ some (y ∷ zs) ] in
    if bytes_eq x y then some ys else rest

unfoldable pub same_paths : List Bytes → List Bytes → Bool
same_paths [] ys = is_empty ys
same_paths (x ∷ xs) ys = elim (remove x ys) [ none ↦ false | some zs ↦ same_paths xs zs ]

unfoldable pub report_diff : RootListing → RootListing → Bool
report_diff cached fresh = not (same_paths (iter cached.arena) (iter fresh.arena))

abbrev differs_from : RootListing → Option RootListing → Bool
differs_from fresh none = false
differs_from fresh (some cached) = report_diff cached fresh

unfoldable pub check_root : Root → Result ((RootListing × Bool) × Option Bytes)
check_root r = cached_listing r >>= λ cached.
    r.walk_root true >>= λ fresh. ok ((fresh, differs_from fresh cached), store_if_complete r fresh)

pub >>=-eq-ok :
    {X Y : Type 0} (first : Result X) (next : X → Result Y) {y : Y}
    → (first >>= next) ≡ ok y
    → (x : X) × (first ≡ ok x) × (next x ≡ ok y)
>>=-eq-ok panic next h = cc
>>=-eq-ok invalid_root next h = cc
>>=-eq-ok (ok x) next h = (x, refl, h)

none-some : {b : Bytes} → none ≡ some b → ⊥
none-some h = cc

not-listed : {l : RootListing} → ok none ≡ ok (some l) → ⊥
not-listed h = cc

stored_complete :
    (r : Root) (listing : RootListing) {bytes : Bytes}
    → store_if_complete r listing ≡ some bytes
    → listing.incomplete ≡ false
unfolding store_if_complete
stored_complete r listing h = elim (Bool-cases listing.incomplete) [
  | inl e ↦ absurd (none-some (rw e at h))
  | inr e ↦ e
]

-- A listing from which a subtree was dropped is never stored.
pub list_root_complete :
    (r : Root) {listing : RootListing} {bytes : Bytes}
    → list_root r ≡ ok (listing, some bytes)
    → listing.incomplete ≡ false
unfolding list_root
list_root_complete r {listing} {bytes} h =
    let (cached, e, h') = >>=-eq-ok (cached_listing r) _ h in
    let (found, f, h'') = >>=-eq-ok (or_walk r cached) _ h' in
    let same : found ≡ listing = cc in
    stored_complete r listing {bytes = bytes} (ap (store_if_complete r) (sym same) ∙ cc)

-- A check answers with what the walk found, and never with what the index says.
pub check_root-walk_root :
    (r : Root) {listing : RootListing} {differs : Bool} {stored : Option Bytes}
    → check_root r ≡ ok ((listing, differs), stored)
    → r.walk_root true ≡ ok listing
unfolding check_root
check_root-walk_root r h =
    let (cached, e, h') = >>=-eq-ok (cached_listing r) _ h in
    let (fresh, f, h'') = >>=-eq-ok (r.walk_root true) _ h' in cc

-- With an index and an open root, the two decide.
pub cached_listing-eq_from_index :
    (r : Root) {index : Index} {stat : Stat}
    → load r ≡ some index
    → r.opened ≡ some stat
    → cached_listing r ≡ from_index r index stat
unfolding cached_listing
cached_listing-eq_from_index r {index} e f =
    ap (λ o. from_parts r o r.opened) e ∙ ap (from_parts r (some index)) f
