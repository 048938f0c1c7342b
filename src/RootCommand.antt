-- ===== src/RootCommand.antt =====
-- src/cmd/root.rs: the roots that `scap root` prints.
use scap.Base.{
  Bool, true, false, Option, List, [], ◌∷◌, ◌++◌, ◌≡◌, refl, inl, inr, ◌≢◌, Option-cases,
}
use scap.Base.Bytes.{Bytes, codes}
use scap.RepoPath.{push}
use scap.Config.{Env, ConfigSnapshot, Result, ok, err, no_home_dir, ◌>>=◌}
use scap.Config.Roots.{env_roots, resolve_roots, or_home, chosen, extended, dedup, resolved}

-- The lines of the run: every root, or the first.
abbrev pub chosen_lines : Bool → List Bytes → List Bytes
chosen_lines true roots = roots
chosen_lines false [] = []
chosen_lines false (root ∷ roots) = root ∷ []

module _ (canonicalize : Bytes → Option Bytes) where
  unfoldable pub root_lines : ConfigSnapshot → Bool → Result (List Bytes)
  root_lines snapshot all =
      resolve_roots canonicalize snapshot all >>= λ roots. ok (chosen_lines all roots)

  or_home-nonempty : (env : Env) (roots : List Bytes) → or_home canonicalize env roots ≢ ok []
  or_home-nonempty env (root ∷ rest) h = absurd cc
  or_home-nonempty env [] h = elim (Option-cases env.home) [
    | inl e ↦ let k : err no_home_dir ≡ ok [] = rw e at h in absurd cc
    | inr (home, e) ↦ let k : ok (push home (codes "scap") ∷ []) ≡ ok [] = rw e at h in absurd cc
  ]

  extended-cons :
      (snapshot : ConfigSnapshot) (wants_all : Bool) (root : Bytes) (roots : List Bytes)
      → (more : List Bytes) × (extended canonicalize snapshot wants_all (root ∷ roots)
          ≡ root ∷ more)
  extended-cons snapshot false root roots = (roots, refl)
  extended-cons snapshot true root roots = elim (Option-cases (env_roots snapshot.env)) [
    | inl e ↦ (roots ++ snapshot.url_scoped_roots, rw e refl)
    | inr (list, e) ↦ (roots, rw e refl)
  ]

  -- What the two runs have in common.
  abbrev pub IsShared : Result (List Bytes) → Result (List Bytes) → Type 0
  IsShared (err e) one = one ≡ err e
  IsShared (ok lines) one =
      (root : Bytes) × (rest : List Bytes) × (lines ≡ root ∷ rest) × (one ≡ ok (root ∷ []))

  abbrev deduped : ConfigSnapshot → Bool → Result (List Bytes) → Result (List Bytes)
  deduped snapshot all found =
      (found >>= λ roots. ok (dedup canonicalize [] (extended canonicalize snapshot all roots)))
      >>= λ roots. ok (chosen_lines all roots)

  common :
      (snapshot : ConfigSnapshot) (found : Result (List Bytes))
      → found ≢ ok []
      → IsShared (deduped snapshot true found) (deduped snapshot false found)
  unfolding dedup
  common snapshot (err e) h = refl
  common snapshot (ok []) h = absurd (h refl)
  common snapshot (ok (root ∷ roots)) h =
      let (more, e) = extended-cons snapshot true root roots in
      rw e (
        resolved canonicalize root,
        dedup canonicalize (resolved canonicalize root ∷ []) more,
        refl,
        refl,
      )

  -- `scap root` prints the first of the lines of `scap root --all`, of which there is at least one, and
  -- fails as that does.
  pub root_lines-IsShared :
      (snapshot : ConfigSnapshot) → IsShared (root_lines snapshot true) (root_lines snapshot false)
  unfolding root_lines resolve_roots
  root_lines-IsShared snapshot =
      common snapshot (or_home canonicalize snapshot.env (chosen canonicalize snapshot))
        (or_home-nonempty snapshot.env (chosen canonicalize snapshot))
