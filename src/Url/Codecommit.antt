-- ===== src/Url/Codecommit.antt =====
-- CodeCommit refs: `parse_codecommit`, `finalize_codecommit` and the region that they resolve.
pub mod RoundTrip
use scap.Base.{
  ℕ, suc, Bool, true, false, not, ◌&&◌, ◌||◌, Option, none, some, List, [], ◌∷◌, ◌++◌, ◌==◌, leb,
  if◌then◌else◌, all, is_empty, length, ◌>>=◌, ◌>>◌, guard,
}
use scap.Base.Bytes.{
  Bytes, codes, strip_prefix, split_once, rsplit_once, contains, is_lower, is_digit, is_alnum,
}
use scap.Url.{Repo, UrlError, missing_codecommit_region, Result, ok, err, Aws}
use scap.Url

pub record CodecommitRef : Type 0 where
  pub region : Option Bytes
  pub user : Option Bytes
  pub name : Bytes

-- `[a-z][a-z0-9-]+`
abbrev pub is_region : Bytes → Bool
is_region [] = false
is_region (b ∷ tail) =
    leb 2 (length (b ∷ tail))
    && (is_lower b && all (λ c. is_lower c || (is_digit c || c == b'-')) tail)

-- `[\w.-]+`
abbrev pub is_repo_name : Bytes → Bool
is_repo_name name =
    not (is_empty name) && all (λ b. is_alnum b || (b == b'_' || (b == b'.' || b == b'-'))) name

-- The optional `:<region>:`, and what stands behind it.
abbrev pub take_region : Bytes → Option (Option Bytes × Bytes)
take_region rest = elim (strip_prefix (codes ":") rest) [
  | none ↦ some (none, rest)
  | some with_region ↦
      split_once b':' with_region >>= λ p. guard (is_region p.0) >> some (some p.0, p.1)
]

-- The optional `<profile>@`, which ends at the last `@`.
abbrev pub take_user : Bytes → Option Bytes × Bytes
take_user authority = elim (rsplit_once b'@' authority) [
  | some (user, name) ↦ (some user, name)
  | none ↦ (none, authority)
]

abbrev pub is_bad_user : Option Bytes → Bool
is_bad_user none = false
is_bad_user (some user) = is_empty user || contains b']' user

-- What stands behind `//`.
abbrev pub authority_ref : Option Bytes → Option Bytes × Bytes → Option CodecommitRef
authority_ref region p =
    if is_bad_user p.0
    then none
    else if not (is_repo_name p.1)
    then none
    else some (record { region = region; user = p.0; name = p.1 })

unfoldable pub parse_codecommit : Bytes → Option CodecommitRef
parse_codecommit input = strip_prefix (codes "codecommit:") input >>= λ rest.
    take_region rest >>= λ p.
    strip_prefix (codes "//") p.1 >>= λ authority. authority_ref p.0 (take_user authority)

abbrev pub is_codecommit_input : Bytes → Bool
is_codecommit_input input = elim (parse_codecommit input) [ none ↦ false | some _ ↦ true ]

-- A variable that is set and not empty.
abbrev non_empty : Option Bytes → Option Bytes
non_empty none = none
non_empty (some []) = none
non_empty (some (b ∷ bs)) = some (b ∷ bs)

unfoldable pub resolve_codecommit_region : Aws → Result Bytes
resolve_codecommit_region aws = elim (non_empty aws.region) [
  | some r ↦ ok r
  | none ↦ elim (non_empty aws.default_region) [
    | some r ↦ ok r
    | none ↦ elim aws.lookup [ some r ↦ ok r | none ↦ err missing_codecommit_region ]
  ]
]

abbrev codecommit_host : Aws → Option Bytes → Result Bytes
codecommit_host aws (some r) = ok r
codecommit_host aws none = resolve_codecommit_region aws

abbrev user_prefix : Option Bytes → Bytes
user_prefix none = []
user_prefix (some u) = u ++ codes "@"

abbrev codecommit_repo : Bytes → CodecommitRef → Bytes → Repo
codecommit_repo original ref host =
    let url =
      codes "codecommit://" ++ (user_prefix ref.user ++ (host ++ (codes "/" ++ ref.name))) in
    record {
      host = host;
      owner = [];
      name = ref.name;
      vcs_hint = some (codes "git");
      https_url = url;
      ssh_url = url;
      original_input = original;
    }

unfoldable pub finalize_codecommit : Aws → Bytes → CodecommitRef → Result Repo
finalize_codecommit aws original ref =
    Url.◌>>=◌ (codecommit_host aws ref.region) (λ host. ok (codecommit_repo original ref host))
