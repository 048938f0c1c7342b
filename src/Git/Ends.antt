-- ===== src/Git/Ends.antt =====
-- How an update ends.
use scap.Base.{
  true, Option, none, some, List, [], ◌∷◌, ◌++◌, ◌≡◌, refl, Option-cases, Bool-cases, inl, inr,
}
use scap.Base.Bytes.{Bytes, codes}
use scap.Git.{
  GitError, UpdateOptions, Command, Runs, at, submodules, update, pull, update_submodules,
}

-- The commands that ran, and the error that ended them.
pub data EndsWithLast (run : Runs) : List Command × Option GitError → Type 0 where
  last :
      (before : List Command) (command : Command) (error : Option GitError)
      → run before command ≡ error
      → EndsWithLast run (before ++ (command ∷ []), error)

module _ (run : Runs) (dest : Bytes) (opts : UpdateOptions) where
  pull-EndsWithLast : (ran : List Command) → EndsWithLast run (pull run ran dest opts)
  pull-EndsWithLast ran =
      let command = at dest opts.silent (codes "pull" ∷ codes "--ff-only" ∷ []) in
      elim (Option-cases (run ran command)) [
        | inl e ↦ elim (Bool-cases opts.recursive) [
          | inl r ↦
              rw (pull, e, update_submodules, r)
                (last (ran ++ (command ∷ [])) (at dest opts.silent submodules) _ refl)
          | inr r ↦ rw (pull, e, update_submodules, r) (last ran command none e)
        ]
        | inr (error, e) ↦ rw (pull, e) (last ran command (some error) e)
      ]

  -- An update runs at least one command, and what it comes to, an error or success, is what the last
  -- command came to.
  pub update-EndsWithLast : (url : Bytes) → EndsWithLast run (update run url dest opts)
  unfolding update
  update-EndsWithLast url =
      let upstream = at dest true (codes "rev-parse" ∷ codes "@{upstream}" ∷ []) in
      elim (Bool-cases opts.bare) [
        | inl e ↦ rw e (last [] _ _ refl)
        | inr e ↦ elim (Option-cases (run [] upstream)) [
          | inl there ↦ rw (e, there) (pull-EndsWithLast (upstream ∷ []))
          | inr (error, missing) ↦ rw (e, missing) (last (upstream ∷ []) _ _ refl)
        ]
      ]
