-- ===== src/Config/Roots/Unique.antt =====
-- No root is listed twice.
use scap.Base.{
  Bool, true, false, Option, List, [], ◌∷◌, ◌≡◌, refl, ap, sym, ◌∙◌, inl, inr, Bool-cases, any,
}
use scap.Base.Bytes.{Bytes, bytes_eq, bytes_eq→≡}
use scap.Config.{ConfigSnapshot, Result, ok, err, ◌>>=◌}
use scap.Config.Roots.{member, resolved, dedup, resolve_roots, or_home, chosen, extended}

-- Every element is new to the ones in front of it and to `seen`.
unfoldable pub AllNew : List Bytes → List Bytes → Type 0
AllNew seen [] = Unit
AllNew seen (x ∷ xs) = (member x seen ≡ false) × AllNew (x ∷ seen) xs

ne-of : {b : Bool} → b ≡ false → b ≡ true → ⊥
ne-of h k = cc

module _ (canonicalize : Bytes → Option Bytes) where
  dedup-AllNew : (seen roots : List Bytes) → AllNew seen (dedup canonicalize seen roots)
  unfolding dedup AllNew
  dedup-AllNew seen [] = tt
  dedup-AllNew seen (root ∷ rest) = elim (Bool-cases (member (resolved canonicalize root) seen)) [
    | inl e ↦ rw e (dedup-AllNew seen rest)
    | inr e ↦ rw e (e, dedup-AllNew (resolved canonicalize root ∷ seen) rest)
  ]

  -- A root is kept exactly if something that resolves to it is in the list.
  member-dedup :
      (seen roots : List Bytes) (x : Bytes)
      → member x seen ≡ false
      → member x (dedup canonicalize seen roots)
        ≡ any (λ root. bytes_eq x (resolved canonicalize root)) roots
  unfolding dedup
  member-dedup seen [] x h = refl
  member-dedup seen (root ∷ rest) x h =
      let r = resolved canonicalize root in
      elim (Bool-cases (member r seen)) [
        | inl old ↦ elim (Bool-cases (bytes_eq x r)) [
          | inl same ↦ absurd (ne-of h (ap (λ y. member y seen) (bytes_eq→≡ x r same) ∙ old))
          | inr other ↦ rw (old, other) (member-dedup seen rest x h)
        ]
        | inr new ↦ elim (Bool-cases (bytes_eq x r)) [
          | inl same ↦ rw (new, same)
          | inr other ↦ rw (new, other) (member-dedup (r ∷ seen) rest x (rw (other, h)))
        ]
      ]

  chained-AllNew :
      (m : Result (List Bytes)) (k : List Bytes → List Bytes) {roots : List Bytes}
      → (m >>= λ rs. ok (dedup canonicalize [] (k rs))) ≡ ok roots
      → AllNew [] roots
  chained-AllNew (err e) k h = cc
  chained-AllNew (ok rs) k {roots} h =
      let same : dedup canonicalize [] (k rs) ≡ roots = cc in rw (sym same) (dedup-AllNew [] (k rs))

  -- The roots that `resolve_roots` gives are pairwise different, whatever the file system answers.
  pub resolve_roots-AllNew :
      (snapshot : ConfigSnapshot) (wants_all : Bool) {roots : List Bytes}
      → resolve_roots canonicalize snapshot wants_all ≡ ok roots
      → AllNew [] roots
  unfolding resolve_roots
  resolve_roots-AllNew snapshot wants_all h =
      chained-AllNew (or_home canonicalize snapshot.env (chosen canonicalize snapshot))
        (extended canonicalize snapshot wants_all) h
