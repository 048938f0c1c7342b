-- ===== src/Walk/Records.antt =====
-- The listing that `RootListing::from_records` builds, against the records it is built from.
use scap.Base.{
  ℕ, Bool, some, List, [], ◌∷◌, ◌++◌, ◌≡◌, ap, sym, ◌∙◌, Bool-cases, inl, inr, append_assoc,
  append-nil, if◌then◌else◌, >>=-eq-some,
}
use scap.Base.Bytes.{Bytes}
use scap.Walk.{Record, RootListing, is_repo, shown, push_repos, from_records}
use scap.Walk.Arena.{Arena as PathArena, no_paths, push, iter, IsWithin, push-iter, slices}

-- The repositories among the records, as they are listed.
unfoldable pub listed : List Record → List Bytes
listed [] = []
listed (r ∷ rs) = let rest = listed rs in if is_repo r then shown r ∷ rest else rest

push_repos-iter :
    (arena : PathArena) (records : List Record) {grown : PathArena}
    → IsWithin arena
    → push_repos arena records ≡ some grown
    → iter grown ≡ iter arena ++ listed records
unfolding push_repos listed
push_repos-iter arena [] {grown} w h =
    let same : arena ≡ grown = cc in rw (sym same) (sym (append-nil (iter arena)))
push_repos-iter arena (r ∷ rs) {grown} w h = elim (Bool-cases (is_repo r)) [
  | inr e ↦ rw (listed, e) (push_repos-iter arena rs {grown = grown} w (rw (push_repos, e) at h))
  | inl e ↦
      let (next, f, rest) =
        >>=-eq-some (push arena (shown r)) (λ a. push_repos a rs) {b = grown}
          (rw (push_repos, e) at h) in
      let (path, v) = push-iter arena (shown r) w f in
      rw (listed, e)
        (push_repos-iter next rs {grown = grown} v rest
          ∙ rw path (append_assoc (iter arena) (shown r ∷ []) (listed rs)))
]

-- The paths of a listing made from records are those of its repositories, in the order of the
-- records, the root spelled `.`.
pub from_records-iter :
    (records : List Record) (dirs_read excluded : ℕ) (incomplete : Bool) {listing : RootListing}
    → from_records records dirs_read excluded incomplete ≡ some listing
    → iter listing.arena ≡ listed records
unfolding from_records iter slices
from_records-iter records dirs_read excluded incomplete {listing} h =
    let (arena, e, same) = >>=-eq-some (push_repos no_paths records) _ h in
    let built : listing.arena ≡ arena = cc in ap iter built ∙ push_repos-iter no_paths records tt e
