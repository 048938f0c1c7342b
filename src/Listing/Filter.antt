-- ===== src/Listing/Filter.antt =====
-- Which repositories a query keeps.
use scap.Base.{
  Bool, true, not, ◌&&◌, ◌||◌, Option, none, some, List, [], ◌∷◌, ◌++◌, ◌==◌, ltb, if◌then◌else◌,
  is_empty, any, all, retain,
}
use scap.Base.Bytes.{Bytes, bytes_eq, starts_with, contains, split_once, to_ascii_lowercase}
use scap.Listing.{Repo, ListArgs}

-- Every tail of `rel` that starts behind a separator, shortest first.
unfoldable pub tails : Bytes → List Bytes
tails [] = []
tails (c ∷ rest) = let shorter = tails rest in if c == b'/' then shorter ++ (rest ∷ []) else shorter

unfoldable pub subpaths : Bytes → List Bytes
unfolding tails
subpaths rel = tails rel ++ (rel ∷ [])

unfoldable pub non_host_path : Bytes → Bytes
non_host_path rel = elim (split_once b'/' rel) [ some (host, path) ↦ path | none ↦ [] ]

unfoldable pub host_component : Bytes → Bytes
host_component rel = elim (split_once b'/' rel) [ some (host, path) ↦ host | none ↦ rel ]

-- What the standard library knows of Unicode: valid UTF-8, and the lower case of a text that is
-- not all ASCII.
pub record Unicode : Type 0 where
  pub is_utf8 : Bytes → Bool
  pub to_lowercase : Bytes → Bytes

abbrev is_ascii : Bytes → Bool
is_ascii s = all (λ b. ltb b 128) s

-- `str::to_lowercase`
abbrev str_lowercase : Unicode → Bytes → Bytes
str_lowercase u s = if is_ascii s then to_ascii_lowercase s else u.to_lowercase s

-- The list's own `lowercase`: ASCII and what is not UTF-8 are folded byte by byte.
unfoldable pub lowercase : Unicode → Bytes → Bytes
lowercase u hay =
    if u.is_utf8 hay && not (is_ascii hay) then u.to_lowercase hay else to_ascii_lowercase hay

-- `memmem`
unfoldable pub contains_text : Bytes → Bytes → Bool
contains_text needle [] = is_empty needle
contains_text needle (x ∷ xs) = starts_with needle (x ∷ xs) || contains_text needle xs

abbrev looks_like_authority : Bytes → Bool
looks_like_authority s = contains b'.' s && not (contains b' ' s)

unfoldable pub split_authority_prefix : Bytes → Option Bytes × Bytes
split_authority_prefix query = elim (split_once b'/' query) [
  | some (head, tail) ↦ if looks_like_authority head then (some head, tail) else (none, query)
  | none ↦ (none, query)
]

abbrev host_passes : Option Bytes → Bytes → Bool
host_passes none rel = true
host_passes (some host) rel = bytes_eq (host_component rel) host

unfoldable pub matches_query : Unicode → Option Bytes → Bytes → Bytes → Bool
matches_query u host_filter q rel =
    let lower = str_lowercase u q in
    let hay = non_host_path rel in
    host_passes host_filter rel
    && (if bytes_eq q lower then contains_text lower (lowercase u hay) else contains_text q hay)

unfoldable pub filter_repos : Unicode → List Repo → ListArgs → List Repo
filter_repos u repos args = elim args.query [
  | none ↦ repos
  | some query ↦
      if args.exact
      then retain (λ r. any (λ p. bytes_eq p query) (subpaths r.rel)) repos
      else let p = split_authority_prefix query in retain (λ r. matches_query u p.0 p.1 r.rel) repos
]
