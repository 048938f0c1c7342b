-- ===== src/Config/Triggers.antt =====
-- When the configuration is left to `git`: `needs_git_backend` and the stages of `load`.
use scap.Base.{
  ℕ, ◌^◌, ◌≡◌, Bool, true, false, not, ◌&&◌, ◌||◌, Option, none, some, [], ◌∷◌, arith, ltb, ◌==◌,
  if◌then◌else◌, is_empty, all, any,
}
use scap.Base.Bytes.{
  Bytes, codes, bytes_eq, starts_with, is_digit, to_ascii_lowercase, eq_ignore_ascii_case,
}
use scap.Config.{
  Env, Reason, env_override, git_config_count, git_config_parameters, system_probe_ambiguous,
  includeif_unevaluated, Result, ok, err, ConfigSnapshot, GixSection, GixFile,
}
use scap.Config.Boolean.{digits_value}

-- `text.parse::<u64>()`: an optional `+` and digits, below 2^64.
abbrev plus_stripped : Bytes → Bytes
plus_stripped [] = []
plus_stripped (c ∷ s) = if c == b'+' then s else c ∷ s

abbrev parse_u64 : Bytes → Option ℕ
parse_u64 text =
    let digits = plus_stripped text in
    if is_empty digits || not (all is_digit digits)
    then none
    else if ltb (digits_value 10 0 digits) (2 ^ 64)
    then some (digits_value 10 0 digits)
    else none

unfoldable pub git_config_count_applies : Bytes → Bool
git_config_count_applies text =
    if is_empty text
    then false
    else elim (parse_u64 text) [ some count ↦ ltb 0 count | none ↦ true ]

abbrev pub is_some_and {ℓ} : {A : Type ℓ} → (A → Bool) → Option A → Bool
is_some_and p none = false
is_some_and p (some a) = p a

unfoldable pub needs_git_backend : Env → ℕ → Bool → Option Reason
needs_git_backend env system_probe_matches includeif =
    if is_some_and (λ v. bytes_eq v (codes "git")) env.scap_config_backend
    then some env_override
    else if is_some_and git_config_count_applies env.git_config_count
    then some git_config_count
    else if is_some_and (λ v. true) env.git_config_parameters
    then some git_config_parameters
    else if ltb 1 system_probe_matches
    then some system_probe_ambiguous
    else if includeif
    then some includeif_unevaluated
    else none

abbrev is_unevaluable : GixSection → Bool
is_unevaluable section =
    eq_ignore_ascii_case section.name (codes "includeIf")
    && is_some_and
        (λ condition.
          starts_with (codes "onbranch:") (to_ascii_lowercase condition)
          || starts_with (codes "hasconfig:") (to_ascii_lowercase condition))
        section.subsection

unfoldable pub has_unevaluable_includeif : GixFile → Bool
has_unevaluable_includeif file = any is_unevaluable file.sections

-- What `load` calls: the enumeration of the sources, with the number of files that the system
-- probe matched, their parse, the snapshot from the parsed file, and the snapshot from `git`.
pub record Loader : Type 1 where
  pub SourceList : Type 0
  pub enumerate : Env → SourceList
  pub system_probe_matches : SourceList → ℕ
  pub parse : SourceList → Env → Result (Option GixFile)
  pub from_file : Option GixFile → Env → ConfigSnapshot
  pub git_load : Env → Reason → Result ConfigSnapshot

module _ (l : Loader) where
  -- `if let Some(reason) = ... { return git_backend::load(env, reason) }` before the rest.
  abbrev pub or_git : Env → Option Reason → Result ConfigSnapshot → Result ConfigSnapshot
  or_git env (some reason) rest = l.git_load env reason
  or_git env none rest = rest

  abbrev load_parsed : Env → ℕ → Result (Option GixFile) → Result ConfigSnapshot
  load_parsed env matches (err e) = err e
  load_parsed env matches (ok file) =
      or_git env (needs_git_backend env matches (is_some_and has_unevaluable_includeif file))
        (ok (l.from_file file env))

  unfoldable pub load : Env → Result ConfigSnapshot
  load env =
      let matches = l.system_probe_matches (l.enumerate env) in
      or_git env (needs_git_backend env 0 false) (
        or_git env (needs_git_backend env matches false)
          (load_parsed env matches (l.parse (l.enumerate env) env)))

  -- Where the sources parse, the three stages come to the decision that `needs_git_backend` takes
  -- with everything known: its reason goes to `git`, and no reason means the in-process snapshot.
  pub load-needs_git_backend :
      (env : Env) (file : Option GixFile)
      → l.parse (l.enumerate env) env ≡ ok file
      → load env
        ≡ or_git env
            (needs_git_backend env
              (l.system_probe_matches (l.enumerate env))
              (is_some_and has_unevaluable_includeif file))
            (ok (l.from_file file env))
  unfolding load needs_git_backend
  load-needs_git_backend env file e = rw (e, load, or_git) (ground (arith))
