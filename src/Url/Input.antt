-- ===== src/Url/Input.antt =====
-- `from_input`: the whole way from the input to the repository.
pub mod Traversal
use scap.Base.{
  ℕ, zero, suc, ◌-◌, Bool, true, false, not, ◌&&◌, ◌||◌, Option, none, some, List, [], ◌∷◌, ◌++◌,
  ◌==◌, if◌then◌else◌, is_empty, length, take, last?, ltb,
}
use scap.Base.Bytes.{
  Bytes, codes, bytes_eq, starts_with, strip_prefix, split, join, to_ascii_lowercase,
}
use scap.Url.{Repo, UrlError, Reason, Result, ok, err, ◌>>=◌, Aws, Scheme, GixUrl, Parsed}
use scap.Url.Codecommit.{CodecommitRef, parse_codecommit, finalize_codecommit}
use scap.Url.Normalize.{
  Normalized, NormalizedKind, has_traversal, normalize_to_parseable, trim_repo_path, from_bare,
}

-- `host.contains("hg.")`
abbrev contains_text : Bytes → Bytes → Bool
contains_text p [] = is_empty p
contains_text p (x ∷ xs) = starts_with p (x ∷ xs) || contains_text p xs

abbrev ext_vcs : Bytes → Bytes
ext_vcs n =
    if starts_with (codes "svn") n
    then codes "svn"
    else if bytes_eq n (codes "hg") || starts_with (codes "hg+") n
    then codes "hg"
    else n

abbrev host_vcs : Bytes → Option Bytes
host_vcs host =
    if bytes_eq host (codes "svn.code.sf.net") || bytes_eq host (codes "subversion.assembla.com")
    then some (codes "svn")
    else if contains_text (codes "hg.") host
    then some (codes "hg")
    else none

unfoldable pub detect_vcs : Scheme → Bytes → Option Bytes
detect_vcs (Scheme.ext name) host = some (ext_vcs (to_ascii_lowercase name))
detect_vcs Scheme.file host = host_vcs host
detect_vcs Scheme.other host = host_vcs host

abbrev host_of : Bytes → GixUrl → Result Bytes
host_of original u = elim u.host [
  | some h ↦ ok (to_ascii_lowercase h)
  | none ↦ elim u.scheme [
    | Scheme.file ↦ ok []
    | Scheme.ext _ ↦ err (UrlError.missing_host original)
    | Scheme.other ↦ err (UrlError.missing_host original)
  ]
]

-- The last segment, and the others joined again.
abbrev last_segment : List Bytes → Bytes
last_segment segments = elim (last? segments) [ none ↦ [] | some s ↦ s ]

abbrev owner_of : List Bytes → Bytes
owner_of segments = join (codes "/") (take (length segments - 1) segments)

abbrev ssh_user : Option Bytes → Bytes
ssh_user none = codes "git"
ssh_user (some u) = u

abbrev url_repo : Bytes → GixUrl → Bytes → List Bytes → Repo
url_repo original u host segments =
    let path = host ++ (codes "/" ++ (owner_of segments ++ (codes "/" ++ last_segment segments))) in
    record {
      host = host;
      owner = owner_of segments;
      name = last_segment segments;
      vcs_hint = detect_vcs u.scheme host;
      https_url = codes "https://" ++ path;
      ssh_url = codes "ssh://" ++ (ssh_user u.user ++ (codes "@" ++ path));
      original_input = original;
    }

-- Behind the host: the path has an owner and a name at least.
abbrev from_path : Bytes → GixUrl → Bytes → Bytes → Result Repo
from_path original u host trimmed =
    if is_empty trimmed
    then err (UrlError.missing_path original)
    else if ltb (length (split b'/' trimmed)) 2
    then err (UrlError.malformed original (Reason.expected_owner_repo trimmed))
    else ok (url_repo original u host (split b'/' trimmed))

-- `to_str_lossy` of the URL's path is `lossy`.
unfoldable pub from_url : (Bytes → Bytes) → Bytes → GixUrl → Result Repo
from_url lossy original u = do
  host ← host_of original u
  from_path original u host (trim_repo_path (lossy u.path))

-- What `gix_url::parse` and `to_str_lossy` do, and the environment of the region's lookup.
pub record World : Type 0 where
  pub gix_parse : Bytes → Parsed
  pub lossy : Bytes → Bytes
  pub aws : Aws

abbrev from_normalized : World → Bytes → Normalized → Option Bytes → Bool → Result Repo
from_normalized w input n scap_user complete_user = elim n.kind [
  | NormalizedKind.bare ↦ from_bare input n.value scap_user complete_user
  | _ ↦ elim (w.gix_parse n.value) [
    | Parsed.failed e ↦ err (UrlError.malformed input (Reason.parse_error e))
    | Parsed.url u ↦ from_url w.lossy input u
  ]
]

unfoldable pub from_input : World → Bytes → Option Bytes → Bool → Result Repo
from_input w input scap_user complete_user =
    if is_empty input
    then err UrlError.empty
    else if has_traversal input
    then err (UrlError.path_traversal input)
    else elim (parse_codecommit input) [
      | some codecommit ↦ finalize_codecommit w.aws input codecommit
      | none ↦ from_normalized w input (normalize_to_parseable input) scap_user complete_user
    ]
