-- ===== src/Get/Lock.antt =====
-- What a clone leaves behind when it ends, and what never happens to a repository that is there.
use scap.Base.{
  Bool, true, false, ◌||◌, Option, none, some, List, [], ◌∷◌, ◌++◌, ◌≡◌, refl, inl, inr, Bool-cases,
  any-append, ◌∙◌, any, append_assoc, arith,
}
use scap.Base.Bytes.{Bytes}
use scap.Git.{Files, dest_is_git_repo}
use scap.Get.{
  Effective, Action, rename, clone, remove_tree, create_dirs, open_lock, try_lock, remove_all,
  unlock, remove_file, End, finished, failed, temporary_failure, Machine, Place, Script, continue,
  act, make_parent, to_create, clone_options, clone_and_rename, clean_up, release, under_lock,
  clone_with_lock, process_dest, if_locked, if_opened,
}

-- A run under the lock ends in place, by a rename that succeeded, or cleaned up; either way the lock
-- is given back and its file removed.
pub data Ends (m : Machine) (dest : Bytes) (place : Place) : End × List Action → Type 0 where
  renamed :
      (before : List Action)
      → m before (rename place.tmp_path dest) ≡ true
      → Ends m dest place (
        finished,
        before
            ++ (rename place.tmp_path dest
                ∷ unlock place.lock_path
                ∷ remove_file place.lock_path
                ∷ []),
      )
  cleaned :
      (before : List Action)
      → Ends m dest place (
        failed,
        before
            ++ (remove_tree place.tmp_path
                ∷ unlock place.lock_path
                ∷ remove_file place.lock_path
                ∷ []),
      )

module _ (m : Machine) where
  -- A run that got through ends with an action that succeeded.
  abbrev EndsWith : Action → Bool × List Action → Type 0
  EndsWith a r =
      r.0 ≡ true → (before : List Action) × (r.1 ≡ before ++ (a ∷ [])) × (m before a ≡ true)

  continue-EndsWith :
      (a : Action) (next : Script) (r : Bool × List Action)
      → ((trace : List Action) → EndsWith a (next trace))
      → EndsWith a (continue next r)
  continue-EndsWith a next (true, trace) h = h trace
  continue-EndsWith a next (false, trace) h = λ e. cc

  clone_and_rename-EndsWith :
      (url dest : Bytes) (place : Place) (args : Effective) (trace : List Action)
      → EndsWith (rename place.tmp_path dest) (clone_and_rename m url dest place args trace)
  unfolding clone_and_rename
  clone_and_rename-EndsWith url dest place args trace =
      let last : Action = rename place.tmp_path dest in
      continue-EndsWith last _ (make_parent m (to_create place.parent) trace) (λ s.
        continue-EndsWith last _ (act m (clone url place.tmp_path (clone_options args)) s) (λ t.
          continue-EndsWith last _ (make_parent m (to_create place.parent) t)
            (λ u e. (u, refl, e))))

  release-Ends :
      (dest : Bytes) (place : Place) (r : Bool × List Action)
      → EndsWith (rename place.tmp_path dest) r
      → Ends m dest place (release m place (clean_up m place r))
  release-Ends dest place (true, trace) h =
      let (before, e, done) = h refl in
      rw
        (
          e,
          append_assoc before (rename place.tmp_path dest ∷ [])
              (unlock place.lock_path ∷ remove_file place.lock_path ∷ []),
        )
        (renamed before done)
  release-Ends dest place (false, trace) h =
      rw
        (append_assoc trace (remove_tree place.tmp_path ∷ [])
          (unlock place.lock_path ∷ remove_file place.lock_path ∷ []))
        (cleaned trace)

  -- A run under the lock, whatever fails in it, ends by giving the lock back and removing its file.
  -- Before that the destination was put in place by a rename that succeeded, and the run finished; or
  -- the temporary directory was removed, and the run failed.
  pub under_lock-Ends :
      (url dest : Bytes) (place : Place) (args : Effective) (trace : List Action)
      → Ends m dest place (under_lock m url dest place args trace)
  unfolding under_lock
  under_lock-Ends url dest place args trace =
      release-Ends dest place (clone_and_rename m url dest place args trace)
        (clone_and_rename-EndsWith url dest place args trace)

  or_false : (b : Bool) → (b || false) ≡ b
  or_false b = ground arith

  abbrev pub is_change : Action → Bool
  is_change (clone url tmp opts) = true
  is_change (rename from to) = true
  is_change (remove_tree path) = true
  is_change other = false

  -- Where a repository is there already, no clone, no rename and no removal of a tree
  -- happens.
  pub process_dest-dest_is_git_repo :
      (files : Files) (file_name : Bytes → Option Bytes) (stale : List Bytes) (remote dest : Bytes)
      (place : Place) (args : Effective) (trace : List Action)
      → dest_is_git_repo files file_name dest ≡ true
      → any is_change (process_dest m files file_name stale remote dest place args trace).1
        ≡ any is_change trace
  unfolding process_dest
  process_dest-dest_is_git_repo files file_name stale remote dest place args trace there =
      elim (Bool-cases args.update) [
        | inl e ↦ rw (there, e) (any-append is_change trace _ ∙ or_false (any is_change trace))
        | inr e ↦ rw (there, e) refl
      ]

  abbrev pub is_clone : Action → Bool
  is_clone (clone url tmp opts) = true
  is_clone other = false

  any-remove_all :
      (ps : List Bytes) (trace : List Action)
      → any is_clone trace ≡ false
      → any is_clone (remove_all m ps trace) ≡ false
  unfolding remove_all
  any-remove_all [] trace h = h
  any-remove_all (p ∷ ps) trace h =
      any-remove_all ps (trace ++ (remove_tree p ∷ []))
        (any-append is_clone trace (remove_tree p ∷ []) ∙ rw h)

  -- Up to the lock nothing is cloned.
  any-opening :
      (place : Place) (parent : Option Bytes) (trace : List Action)
      → any is_clone trace ≡ false
      → any is_clone (continue (act m (open_lock place.lock_path)) (make_parent m parent trace)).1
        ≡ false
  any-opening place none trace h = any-append is_clone trace (open_lock place.lock_path ∷ []) ∙ rw h
  any-opening place (some p) trace h = elim (Bool-cases (m trace (create_dirs p))) [
    | inl e ↦
        rw (e, continue)
          (any-append is_clone (trace ++ (create_dirs p ∷ [])) (open_lock place.lock_path ∷ [])
            ∙ rw (any-append is_clone trace (create_dirs p ∷ []), h))
    | inr e ↦ rw (e, continue) (any-append is_clone trace (create_dirs p ∷ []) ∙ rw h)
  ]

  Ends-temporary_failure :
      (dest : Bytes) (place : Place) {r : End × List Action}
      → Ends m dest place r
      → r.0 ≡ temporary_failure
      → ⊥
  Ends-temporary_failure dest place (renamed before h) e = cc
  Ends-temporary_failure dest place (cleaned before) e = cc

  any-if_opened :
      (url dest : Bytes) (place : Place) (args : Effective) (r : Bool × List Action)
      → any is_clone r.1 ≡ false
      → (if_opened m url dest place args r).0 ≡ temporary_failure
      → any is_clone (if_opened m url dest place args r).1 ≡ false
  any-if_opened url dest place args (false, trace) h e = h
  any-if_opened url dest place args (true, trace) h e =
      elim (Bool-cases (m trace (try_lock place.lock_path))) [
        | inl taken ↦ absurd (
            Ends-temporary_failure dest place
              (under_lock-Ends url dest place args (trace ++ (try_lock place.lock_path ∷ [])))
              (rw (if_locked, taken) at e))
        | inr busy ↦
            rw (if_locked, busy) (any-append is_clone trace (try_lock place.lock_path ∷ []) ∙ rw h)
      ]

  -- A run that ends because another process holds the lock has cloned nothing.
  pub clone_with_lock-temporary_failure :
      (stale : List Bytes) (url dest : Bytes) (place : Place) (args : Effective)
      → (clone_with_lock m stale url dest place args []).0 ≡ temporary_failure
      → any is_clone (clone_with_lock m stale url dest place args []).1 ≡ false
  unfolding clone_with_lock
  clone_with_lock-temporary_failure stale url dest place args =
      any-if_opened url dest place args _ (
        any-opening place (to_create place.lock_parent) (remove_all m stale [])
          (any-remove_all stale [] refl))
