-- ===== src/Url/Input/Traversal.antt =====
-- What the traversal check lets through, and how owner and name come out of a path.
use scap.Base.{
  ℕ, suc, ◌-◌, Bool, true, false, Option, none, List, [], ◌∷◌, ◌++◌, ◌≡◌, refl, sym, ap, ◌∙◌, inl,
  inr, arith, ◌==◌, ltb, all, any, is_empty, length, take, Bool-cases, Option-cases, append_assoc,
}
use scap.Base.Bytes.{
  Bytes, codes, bytes_eq, strip_prefix, contains, split, join, is_alnum, is_slash, trim_end,
  trim_matches,
}
use scap.Base.Split.{
  strip_prefix-eq_some, contains-append, split_once-none, split_once-append, strip_suffix-append,
  split_on-append, join-split,
}
use scap.Url.{UrlError, Repo, Result, ok, err, ◌>>=◌, GixUrl}
use scap.Url.Codecommit.{parse_codecommit}
use scap.Url.Normalize.{
  bare, is_separator, has_traversal, has_scheme, parse_scp_like, looks_like_authority,
  normalize_to_parseable, build_github_repo, from_bare, trim_repo_path, without_git, first_piece,
}
use scap.Url.Input.{
  from_path, host_of, url_repo, World, from_url, from_input, owner_of, last_segment,
}

-- Letters and digits, one at least.
abbrev pub IsWord : Bytes → Type 0
IsWord o = (is_empty o ≡ false) × (all is_alnum o ≡ true)

-- Spelled with the suffix `.git`, the name `..` is no `..` segment.
abbrev pub dotted : Bytes → Bytes
dotted o = o ++ codes "/...git"

word-no : (c : ℕ) (o : Bytes) → is_alnum c ≡ false → all is_alnum o ≡ true → contains c o ≡ false
word-no c [] h k = refl
word-no c (x ∷ o) h k =
    let other : (x == c) ≡ false = elim (Bool-cases (x == c)) [
      | inl same ↦ ground arith
      | inr other ↦ other
    ] in
    rw other (word-no c o h (ground arith))

word-no_separator : (o : Bytes) → all is_alnum o ≡ true → any is_separator o ≡ false
word-no_separator [] k = refl
word-no_separator (x ∷ o) k = ground (arith, word-no_separator o)

word-ne_dots : (o : Bytes) → all is_alnum o ≡ true → bytes_eq o (codes "..") ≡ false
word-ne_dots [] k = refl
word-ne_dots (x ∷ o) k = ground arith

dotted-no_traversal : (o : Bytes) → IsWord o → has_traversal (dotted o) ≡ false
unfolding has_traversal
dotted-no_traversal o w =
    rw (split_on-append is_separator o b'/' (codes "...git") (word-no_separator o w.1) refl)
      (rw (word-ne_dots o w.1))

dotted-no_colon : (o : Bytes) → IsWord o → contains b':' (dotted o) ≡ false
dotted-no_colon o w = contains-append b':' o (codes "/...git") ∙ rw (word-no b':' o refl w.1)

dotted-no_codecommit : (o : Bytes) → IsWord o → parse_codecommit (dotted o) ≡ none
unfolding parse_codecommit
dotted-no_codecommit o w = elim (Option-cases (strip_prefix (codes "codecommit:") (dotted o))) [
  | inl away ↦ rw away
  | inr (r, e) ↦
      let there : contains b':' (dotted o) ≡ true =
        rw (strip_prefix-eq_some (codes "codecommit:") (dotted o) e) refl in
      cc (there, dotted-no_colon o w)
]

colon-has_scheme : (s : Bytes) → contains b':' s ≡ false → has_scheme s ≡ false
unfolding has_scheme
colon-has_scheme [] h = refl
colon-has_scheme (c ∷ rest) h = ground (arith, colon-has_scheme rest)

dotted-no_scp : (o : Bytes) → IsWord o → parse_scp_like (dotted o) ≡ none
unfolding parse_scp_like
dotted-no_scp o w = rw (split_once-none b':' (dotted o) (dotted-no_colon o w), parse_scp_like)

dotted-first : (o : Bytes) → IsWord o → first_piece b'/' (dotted o) ≡ o
dotted-first o w =
    rw (split_once-append b'/' o (codes "...git") (word-no b'/' o refl w.1), first_piece)

word-no_authority : (o : Bytes) → IsWord o → looks_like_authority o ≡ false
unfolding looks_like_authority
word-no_authority o w =
    rw (split_once-none b':' o (word-no b':' o refl w.1), first_piece)
      (rw (word-no b'.' o refl w.1))

dotted-bare :
    (o : Bytes)
    → IsWord o
    → normalize_to_parseable (dotted o) ≡ record { value = dotted o; kind = bare }
unfolding normalize_to_parseable
dotted-bare o w =
    rw (colon-has_scheme (dotted o) (dotted-no_colon o w), dotted-no_scp o w)
      (rw (dotted-first o w) (rw (word-no_authority o w)))

trim_end-append :
    (p : ℕ → Bool) (s : Bytes) (c : ℕ) → p c ≡ false → trim_end p (s ++ (c ∷ [])) ≡ s ++ (c ∷ [])
trim_end-append p [] c h = rw (h, trim_end)
trim_end-append p (x ∷ []) c h = rw (h, trim_end)
trim_end-append p (x ∷ y ∷ s) c h = rw (trim_end-append p (y ∷ s) c h, trim_end)

trim-dotted : (o : Bytes) → IsWord o → trim_matches is_slash (dotted o) ≡ dotted o
trim-dotted [] w = cc
trim-dotted (x ∷ o) w =
    let first : is_slash x ≡ false = ground arith in
    rw (first, sym (append_assoc o (codes "/...gi") (codes "t")))
      (trim_end-append is_slash (x ∷ (o ++ codes "/...gi")) b't' refl)

dotted-without_git : (o : Bytes) → without_git (dotted o) ≡ o ++ codes "/.."
dotted-without_git o =
    ap without_git (sym (append_assoc o (codes "/..") (codes ".git")))
    ∙ rw (strip_suffix-append (o ++ codes "/..") (codes ".git") (λ e. cc), without_git)

word-no_slash : (s : Bytes) → all is_alnum s ≡ true → any is_slash s ≡ false
word-no_slash [] k = refl
word-no_slash (x ∷ s) k = ground (arith, word-no_slash s)

dotted-from_bare :
    (o original : Bytes) (user : Option Bytes) (complete : Bool)
    → IsWord o
    → from_bare original (dotted o) user complete ≡ ok (build_github_repo original o (codes ".."))
unfolding from_bare
dotted-from_bare [] original user complete w = cc
dotted-from_bare (x ∷ o) original user complete w = rw (trim-dotted (x ∷ o) w) (
    rw (dotted-without_git (x ∷ o))
      (rw (split_on-append is_slash (x ∷ o) b'/' (codes "..") (word-no_slash (x ∷ o) w.1) refl)))

-- For every owner of letters and digits, the input `<owner>/...git` passes the traversal check and
-- becomes the repository of that owner whose name is `..`.
pub from_input-dotted :
    (w : World) (o : Bytes) (user : Option Bytes) (complete : Bool)
    → IsWord o
    → from_input w (dotted o) user complete ≡ ok (build_github_repo (dotted o) o (codes ".."))
unfolding from_input
from_input-dotted w [] user complete h = cc
from_input-dotted w (x ∷ o) user complete h =
    rw (dotted-no_traversal (x ∷ o) h, dotted-no_codecommit (x ∷ o) h, dotted-bare (x ∷ o) h)
      (dotted-from_bare (x ∷ o) (dotted (x ∷ o)) user complete h)

join-last :
    (sep a : Bytes) (b : Bytes) (r : List Bytes)
    → join sep (a ∷ take (length r) (b ∷ r)) ++ (sep ++ last_segment (b ∷ r)) ≡ join sep (a ∷ b ∷ r)
join-last sep a b [] = refl
join-last sep a b (c ∷ r) =
    append_assoc a (sep ++ join sep (b ∷ take (length r) (c ∷ r))) (sep ++ last_segment (c ∷ r))
    ∙ ap (λ t. a ++ t)
        (append_assoc sep (join sep (b ∷ take (length r) (c ∷ r))) _
          ∙ ap (λ t. sep ++ t) (join-last sep b c r))

owner-name :
    (ss : List Bytes)
    → ltb (length ss) 2 ≡ false
    → owner_of ss ++ (codes "/" ++ last_segment ss) ≡ join (codes "/") ss
owner-name [] h = cc
owner-name (a ∷ []) h = cc
owner-name (a ∷ b ∷ r) h =
    let shorter : suc (suc (length r)) - 1 ≡ suc (length r) = omega arith in
    rw shorter (join-last (codes "/") a b r)

bind-eq-ok :
    {X Y : Type 0} (first : Result X) (next : X → Result Y) {y : Y}
    → (first >>= next) ≡ ok y
    → (x : X) × (first ≡ ok x) × (next x ≡ ok y)
bind-eq-ok (err why) next h = cc
bind-eq-ok (ok x) next h = (x, refl, h)

from_path-ok :
    (original : Bytes) (u : GixUrl) (host trimmed : Bytes) (repo : Repo)
    → from_path original u host trimmed ≡ ok repo
    → (ltb (length (split b'/' trimmed)) 2 ≡ false)
      × (url_repo original u host (split b'/' trimmed) ≡ repo)
from_path-ok original u host trimmed repo h = elim (Bool-cases (is_empty trimmed)) [
  | inl none_left ↦ absurd (ok_err (rw none_left at h))
  | inr some_left ↦ elim (Bool-cases (ltb (length (split b'/' trimmed)) 2)) [
    | inl few ↦ absurd (ok_err (rw (some_left, few) at h))
    | inr many ↦ (many, ok_inj (rw (some_left, many) at h))
  ]
]
  where
    ok_err : {e : UrlError} → ◌≡◌ {A = Result Repo} (err e) (ok repo) → ⊥
    ok_err p = cc

    ok_inj : {a : Repo} → ◌≡◌ {A = Result Repo} (ok a) (ok repo) → a ≡ repo
    ok_inj p = cc

-- A repository that a URL gives has its owner and name, joined by `/`, for the trimmed path of the
-- URL; both clone URLs end with host, owner and name.
pub from_url-path :
    (lossy : Bytes → Bytes) (original : Bytes) (u : GixUrl) (repo : Repo)
    → from_url lossy original u ≡ ok repo
    → (repo.owner ++ (codes "/" ++ repo.name) ≡ trim_repo_path (lossy u.path))
      × (repo.https_url
          ≡ codes "https://" ++ (repo.host ++ (codes "/" ++ trim_repo_path (lossy u.path))))
unfolding from_url
from_url-path lossy original u repo h =
    let (host, e, k) = bind-eq-ok (host_of original u) _ h in
    let trimmed = trim_repo_path (lossy u.path) in
    let (many, same) = from_path-ok original u host trimmed repo k in
    let whole : owner_of (split b'/' trimmed) ++ (codes "/" ++ last_segment (split b'/' trimmed))
        ≡ trimmed =
      owner-name (split b'/' trimmed) many ∙ join-split b'/' trimmed in
    rw (← same) (whole, ap (λ t. codes "https://" ++ (host ++ (codes "/" ++ t))) whole)
