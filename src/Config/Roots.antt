-- ===== src/Config/Roots.antt =====
-- Which directories hold repositories: `resolve_roots` and `root_for_url`.
pub mod Clean
pub mod Unique
pub mod Memo
use scap.Base.{
  ℕ, Bool, true, false, not, ◌&&◌, ◌||◌, Option, none, some, List, [], ◌∷◌, ◌++◌, if◌then◌else◌,
  is_empty, last?, head?, any, ◌≡◌, refl, arith,
}
use scap.Base.Bytes.{Bytes, codes, bytes_eq, contains, starts_with, split, rsplit_once}
use scap.RepoPath.{push}
use scap.Url.Codecommit.{is_codecommit_input}
use scap.Config.{Env, Result, ok, err, ConfigError, ConfigSnapshot, no_home_dir, ◌>>=◌}
use scap.Config.Snapshot.{split_paths, non_empty}

-- `Path::components`, less the root: the pieces between separators that are neither empty nor `.`.
abbrev pub is_skipped : Bytes → Bool
is_skipped s = is_empty s || bytes_eq s (codes ".")

abbrev pub is_parent : Bytes → Bool
is_parent s = bytes_eq s (codes "..")

-- `PathBuf::pop` on a path that pushes built: the root stays, one component leaves nothing.
abbrev pub pop : Bytes → Bytes
pop path = elim (rsplit_once b'/' path) [
  | none ↦ []
  | some p ↦ if is_empty p.0 then codes "/" else p.0
]

-- The loop over the components.
abbrev pub clean_onto : Bytes → List Bytes → Bytes
clean_onto out [] = out
clean_onto out (s ∷ ss) =
    clean_onto (if is_skipped s then out else if is_parent s then pop out else push out s) ss

abbrev pub or_dot : Bytes → Bytes
or_dot out = if is_empty out then codes "." else out

abbrev pub root_dir : Bytes → Bytes
root_dir p = if starts_with (codes "/") p then codes "/" else []

unfoldable pub clean_path : Bytes → Bytes
clean_path p = or_dot (clean_onto (root_dir p) (split b'/' p))

unfoldable pub env_roots : Env → Option (List Bytes)
env_roots env = elim (non_empty env.scap_root) [ none ↦ none | some v ↦ some (split_paths v) ]

abbrev pub reverse : List Bytes → List Bytes → List Bytes
reverse [] acc = acc
reverse (x ∷ xs) acc = reverse xs (x ∷ acc)

-- The `seen` set of the loop, and the list that it guards.
abbrev pub member : Bytes → List Bytes → Bool
member x xs = any (bytes_eq x) xs

module _ (canonicalize : Bytes → Option Bytes) where
  abbrev pub resolved : Bytes → Bytes
  resolved root =
      let cleaned = clean_path root in
      elim (canonicalize cleaned) [ none ↦ cleaned | some real ↦ real ]

  unfoldable pub dedup : List Bytes → List Bytes → List Bytes
  dedup seen [] = []
  dedup seen (root ∷ rest) =
      let skipped = dedup seen rest in
      let taken = dedup (resolved root ∷ seen) rest in
      if member (resolved root) seen then skipped else resolved root ∷ taken

  abbrev pub or_home : Env → List Bytes → Result (List Bytes)
  or_home env (root ∷ rest) = ok (root ∷ rest)
  or_home env [] = elim env.home [
    | none ↦ err no_home_dir
    | some home ↦ ok (push home (codes "scap") ∷ [])
  ]

  -- In order of preference: `SCAP_ROOT`, or else the configured roots from the last.
  abbrev pub chosen : ConfigSnapshot → List Bytes
  chosen snapshot = elim (env_roots snapshot.env) [
    | some list ↦ list
    | none ↦ reverse snapshot.roots []
  ]

  abbrev pub extended : ConfigSnapshot → Bool → List Bytes → List Bytes
  extended snapshot wants_all roots =
      let has_env : Bool = elim (env_roots snapshot.env) [ some _ ↦ true | none ↦ false ] in
      if wants_all && not has_env then roots ++ snapshot.url_scoped_roots else roots

  unfoldable pub resolve_roots : ConfigSnapshot → Bool → Result (List Bytes)
  resolve_roots snapshot wants_all = or_home snapshot.env (chosen snapshot) >>= λ roots.
      ok (dedup [] (extended snapshot wants_all roots))

  abbrev primary : ConfigSnapshot → Result Bytes
  primary snapshot = resolve_roots snapshot false >>= λ roots. elim (head? roots) [
    | none ↦ err no_home_dir
    | some root ↦ ok root
  ]

  abbrev or_last_plain : ConfigSnapshot → Option Bytes → Result Bytes
  or_last_plain snapshot (some value) = ok (clean_path value)
  or_last_plain snapshot none = elim (last? snapshot.roots) [
    | some last ↦ ok (clean_path last)
    | none ↦ primary snapshot
  ]

  abbrev first_of : Option (List Bytes) → Option Bytes
  first_of none = none
  first_of (some list) = head? list

  -- Rules (a), (b), (d), (c), (e); `urlmatch` is the answer of the memo.
  unfoldable pub root_for_url :
      ConfigSnapshot → (Bytes → Result (Option Bytes)) → Bytes → Result Bytes
  root_for_url snapshot urlmatch url = elim (first_of (env_roots snapshot.env)) [
    | some root ↦ ok (clean_path root)
    | none ↦
        if starts_with (codes "codecommit://") url || is_codecommit_input url
        then primary snapshot
        else if not (is_empty snapshot.url_scoped_roots)
        then (urlmatch url >>= or_last_plain snapshot)
        else or_last_plain snapshot none
  ]
