-- ===== src/Url/Normalize.antt =====
-- Spellings that are no CodeCommit ref: schemes, scp-like addresses, bare hosts and bare paths.
use scap.Base.{
  ℕ, Bool, false, not, ◌&&◌, ◌||◌, Option, none, some, List, [], ◌∷◌, ◌++◌, ◌==◌, if◌then◌else◌,
  all, any, is_empty, length, retain,
}
use scap.Base.Bytes.{
  Bytes, codes, bytes_eq, starts_with, strip_suffix, split, split_on, split_once, rsplit_once,
  contains, trim_start, trim_matches, is_slash, is_alnum,
}
use scap.Url.{Repo, UrlError, Reason, Result, ok, err}

pub data NormalizedKind : Type 0 where
  has_scheme_kind scp host_bare bare : NormalizedKind

pub record Normalized : Type 0 where
  pub value : Bytes
  pub kind : NormalizedKind

abbrev pub is_separator : ℕ → Bool
is_separator c = c == b'/' || c == b'\\'

-- Some `/`- or `\`-separated segment is `..`.
unfoldable pub has_traversal : Bytes → Bool
has_traversal input = any (λ seg. bytes_eq seg (codes "..")) (split_on is_separator input)

abbrev pub is_scheme_byte : ℕ → Bool
is_scheme_byte c = is_alnum c || (c == b'+' || (c == b'-' || c == b'.'))

-- The loop over the bytes: at the first `:` the next two decide.
unfoldable pub has_scheme : Bytes → Bool
has_scheme [] = false
has_scheme (c ∷ rest) =
    let later = has_scheme rest in
    if c == b':'
    then starts_with (codes "//") rest
    else if not (is_scheme_byte c)
    then false
    else later

-- `user@` and the host of the part before the colon.
abbrev pub scp_user_host : Bytes → Option Bytes × Bytes
scp_user_host left = elim (rsplit_once b'@' left) [
  | some (user, host) ↦ (some user, host)
  | none ↦ (none, left)
]

unfoldable pub parse_scp_like : Bytes → Option (Option Bytes × Bytes × Bytes)
parse_scp_like s = elim (split_once b':' s) [
  | none ↦ none
  | some (left, right) ↦
      let p = scp_user_host left in
      if is_empty left || is_empty right
      then none
      else if contains b'/' left
      then none
      else if is_empty p.1
      then none
      else some (p.0, p.1, right)
]

-- `s.split(c).next()`: the first piece.
abbrev pub first_piece : ℕ → Bytes → Bytes
first_piece c s = elim (split_once c s) [ none ↦ s | some (front, back) ↦ front ]

-- The loop over the host: a leading dot and any byte but a letter, digit, `-` or `.` refuse it.
abbrev pub authority_bytes : Bytes → Bool
authority_bytes host = all (λ c. c == b'.' || (is_alnum c || c == b'-')) host

unfoldable pub looks_like_authority : Bytes → Bool
looks_like_authority s =
    let host = first_piece b':' s in
    contains b'.' host && (not (starts_with (codes ".") host) && authority_bytes host)

abbrev pub scp_prefix : Option Bytes → Bytes
scp_prefix none = []
scp_prefix (some u) = u ++ codes "@"

abbrev normalize_host : Bytes → Normalized
normalize_host input =
    if looks_like_authority (first_piece b'/' input) && contains b'/' input
    then record { value = codes "https://" ++ input; kind = host_bare }
    else record { value = input; kind = bare }

unfoldable pub normalize_to_parseable : Bytes → Normalized
normalize_to_parseable input =
    if has_scheme input
    then record { value = input; kind = has_scheme_kind }
    else elim (parse_scp_like input) [
      | some (user, host, path) ↦ record {
        value =
            codes "ssh://"
            ++ (scp_prefix user ++ (host ++ (codes "/" ++ trim_start is_slash path)));
        kind = scp;
      }
      | none ↦ normalize_host input
    ]

-- `strip_suffix(".git").unwrap_or(p)`
abbrev pub without_git : Bytes → Bytes
without_git p = elim (strip_suffix (codes ".git") p) [ none ↦ p | some front ↦ front ]

unfoldable pub trim_repo_path : Bytes → Bytes
trim_repo_path p = trim_matches is_slash (without_git (trim_matches is_slash p))

unfoldable pub build_github_repo : Bytes → Bytes → Bytes → Repo
build_github_repo original owner name =
    let path = codes "github.com" ++ (codes "/" ++ (owner ++ (codes "/" ++ name))) in
    record {
      host = codes "github.com";
      owner = owner;
      name = name;
      vcs_hint = none;
      https_url = codes "https://" ++ path;
      ssh_url = codes "ssh://git@" ++ path;
      original_input = original;
    }

abbrev bare_segments_of : Bytes → List Bytes
bare_segments_of value =
    retain (λ s. not (is_empty s)) (split b'/' (without_git (trim_matches is_slash value)))

-- A project alone: the user stands in for the owner, or the project does.
abbrev bare_project : Bytes → Bytes → Option Bytes → Bool → Result Repo
bare_project original project scap_user complete_user =
    if complete_user
    then elim scap_user [
      | none ↦ err (UrlError.unknown_user original)
      | some user ↦ ok (build_github_repo original user project)
    ]
    else ok (build_github_repo original project project)

abbrev bare_repo : Bytes → List Bytes → Option Bytes → Bool → Result Repo
bare_repo original [] scap_user complete_user = err UrlError.empty
bare_repo original (p ∷ []) scap_user complete_user =
    bare_project original p scap_user complete_user
bare_repo original (o ∷ n ∷ []) scap_user complete_user = ok (build_github_repo original o n)
bare_repo original (o ∷ n ∷ s ∷ ss) scap_user complete_user =
    err (UrlError.malformed original (Reason.bare_segments (length (o ∷ n ∷ s ∷ ss))))

unfoldable pub from_bare : Bytes → Bytes → Option Bytes → Bool → Result Repo
from_bare original value scap_user complete_user =
    bare_repo original (bare_segments_of value) scap_user complete_user
