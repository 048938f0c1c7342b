-- ===== src/Get/Spared.antt =====
-- A clone removes no directory that another living process writes to.
use scap.Base.{
  ℕ, ◌<◌, ◌^◌, Bool, true, false, Option, none, some, List, [], ◌∷◌, ◌++◌, ◌≡◌, ◌≢◌, refl, inl, inr,
  Bool-cases, ◌∙◌, sym, any, any-append, IsIn, here, there,
}
use scap.Base.Bytes.{Bytes, codes, bytes_eq, bytes_eq→≡, starts_with}
use scap.Base.Int.{pos}
use scap.Base.Decimal.{decimal, decimal_inj}
use scap.Git.Spared.{suffix_inj, living-spared}
use scap.Git.Stale.{Kill, pid_is_alive, stale_tmp_paths}
use scap.Get.{
  Effective, Action, remove_tree, create_dirs, open_lock, try_lock, clone, rename, Machine, Place,
  place_of, Script, continue, act, make_parent, to_create, clone_options, clone_and_rename,
  clean_up, release, under_lock, clone_with_lock, if_opened, remove_all, tmp_path_for,
}

abbrev pub is_removal_of : Bytes → Action → Bool
is_removal_of path (remove_tree p) = bytes_eq p path
is_removal_of path other = false

bytes_eq-ne : (a b : Bytes) → a ≢ b → bytes_eq a b ≡ false
bytes_eq-ne a b h = elim (Bool-cases (bytes_eq a b)) [
  | inl e ↦ absurd (h (bytes_eq→≡ a b e))
  | inr e ↦ e
]

module _ (m : Machine) (path : Bytes) where
  -- No such removal so far.
  abbrev Spares : Bool × List Action → Type 0
  Spares r = any (is_removal_of path) r.1 ≡ false

  act-Spares :
      (a : Action) (trace : List Action)
      → is_removal_of path a ≡ false
      → any (is_removal_of path) trace ≡ false
      → any (is_removal_of path) (trace ++ (a ∷ [])) ≡ false
  act-Spares a trace ha h = any-append (is_removal_of path) trace (a ∷ []) ∙ rw (h, ha) refl

  continue-Spares :
      (next : Script) (r : Bool × List Action)
      → ((trace : List Action) → any (is_removal_of path) trace ≡ false → Spares (next trace))
      → Spares r
      → Spares (continue next r)
  continue-Spares next (true, trace) k h = k trace h
  continue-Spares next (false, trace) k h = h

  make_parent-Spares :
      (parent : Option Bytes) (trace : List Action)
      → any (is_removal_of path) trace ≡ false
      → Spares (make_parent m parent trace)
  make_parent-Spares none trace h = h
  make_parent-Spares (some p) trace h = act-Spares (create_dirs p) trace refl h

  remove_all-Spares :
      (stale : List Bytes) (trace : List Action)
      → (IsIn path stale → ⊥)
      → any (is_removal_of path) trace ≡ false
      → any (is_removal_of path) (remove_all m stale trace) ≡ false
  unfolding remove_all
  remove_all-Spares [] trace fresh h = h
  remove_all-Spares (p ∷ ps) trace fresh h = elim (Bool-cases (bytes_eq p path)) [
    | inl e ↦ absurd (fresh (here (sym (bytes_eq→≡ p path e))))
    | inr e ↦
        remove_all-Spares ps (trace ++ (remove_tree p ∷ [])) (λ i. fresh (there i))
          (act-Spares (remove_tree p) trace e h)
  ]

  clone_and_rename-Spares :
      (url dest : Bytes) (place : Place) (args : Effective) (trace : List Action)
      → any (is_removal_of path) trace ≡ false
      → Spares (clone_and_rename m url dest place args trace)
  unfolding clone_and_rename
  clone_and_rename-Spares url dest place args trace h =
      continue-Spares _ (make_parent m (to_create place.parent) trace)
        (λ s hs.
          continue-Spares _ (act m (clone url place.tmp_path (clone_options args)) s)
            (λ t ht.
              continue-Spares _ (make_parent m (to_create place.parent) t)
                (λ u hu. act-Spares (rename place.tmp_path dest) u refl hu)
                (make_parent-Spares (to_create place.parent) t ht))
            (act-Spares _ s refl hs))
        (make_parent-Spares (to_create place.parent) trace h)

  release-Spares :
      (place : Place) (r : Bool × List Action)
      → bytes_eq place.tmp_path path ≡ false
      → Spares r
      → any (is_removal_of path) (release m place (clean_up m place r)).1 ≡ false
  release-Spares place (true, trace) own h = any-append (is_removal_of path) trace _ ∙ rw h refl
  release-Spares place (false, trace) own h =
      any-append (is_removal_of path) (trace ++ (remove_tree place.tmp_path ∷ [])) _
      ∙ rw (act-Spares (remove_tree place.tmp_path) trace own h) refl

  if_opened-Spares :
      (url dest : Bytes) (place : Place) (args : Effective) (r : Bool × List Action)
      → bytes_eq place.tmp_path path ≡ false
      → Spares r
      → any (is_removal_of path) (if_opened m url dest place args r).1 ≡ false
  unfolding under_lock
  if_opened-Spares url dest place args (false, trace) own h = h
  if_opened-Spares url dest place args (true, trace) own h =
      let s = trace ++ (try_lock place.lock_path ∷ []) in
      let locking = act-Spares (try_lock place.lock_path) trace refl h in
      elim (Bool-cases (m trace (try_lock place.lock_path))) [
        | inl e ↦ rw e (
            release-Spares place (clone_and_rename m url dest place args s) own
              (clone_and_rename-Spares url dest place args s locking))
        | inr e ↦ rw e locking
      ]

  clone_with_lock-Spares :
      (stale : List Bytes) (url dest : Bytes) (place : Place) (args : Effective)
      → bytes_eq place.tmp_path path ≡ false
      → (IsIn path stale → ⊥)
      → any (is_removal_of path) (clone_with_lock m stale url dest place args []).1 ≡ false
  unfolding clone_with_lock
  clone_with_lock-Spares stale url dest place args own fresh =
      let front = remove_all m stale [] in
      let opening = act m (open_lock place.lock_path) in
      let prepared = make_parent m (to_create place.lock_parent) front in
      if_opened-Spares url dest place args (continue opening prepared) own (
        continue-Spares opening prepared (λ s hs. act-Spares (open_lock place.lock_path) s refl hs)
          (make_parent-Spares (to_create place.lock_parent) front
            (remove_all-Spares stale [] fresh refl)))

module _ (m : Machine) (test_kill_process : ℕ → Kill) where
  -- While another process lives, a clone into the same destination does not remove the temporary
  -- directory of that process: neither the scan for stale directories nor the cleaning up does.
  -- The name of the destination is no absolute path.
  pub clone_with_lock-living :
      (read_dir : Bytes → Option (List (Option Bytes))) (parent name url dest : Bytes)
      (args : Effective) (own living : ℕ)
      → starts_with (codes "/") name ≡ false
      → own < 2 ^ 32
      → living < 2 ^ 32
      → own ≢ living
      → pid_is_alive test_kill_process (pos living) ≡ true
      → any
          (is_removal_of (tmp_path_for (some parent) (some name) living))
          (clone_with_lock m
            (stale_tmp_paths test_kill_process read_dir (some parent) (some name))
            url
            dest
            (place_of (some parent) (some name) own)
            args
            []).1
        ≡ false
  unfolding tmp_path_for place_of
  clone_with_lock-living read_dir parent name url dest args own living rel small fits ne alive =
      let tmp_of = λ (pid : ℕ). tmp_path_for (some parent) (some name) pid in
      clone_with_lock-Spares m (tmp_of living)
        (stale_tmp_paths test_kill_process read_dir (some parent) (some name)) url dest
        (place_of (some parent) (some name) own) args
        (bytes_eq-ne (tmp_of own) (tmp_of living) (λ e. ne (
          decimal_inj own living small fits
            (suffix_inj parent name (decimal own) (decimal living) rel e))))
        (living-spared test_kill_process read_dir parent name living rel fits alive)
