-- ===== src/Url/Codecommit/RoundTrip.antt =====
-- `parse_codecommit` against the grammar that its comment states.
use scap.Base.{
  true, false, not, ◌||◌, Option, none, some, [], ◌∷◌, ◌++◌, ◌≡◌, refl, sym, ap, ◌∙◌, ◌↔◌, inl, inr,
  arith, ◌==◌, all, is_empty, Option-cases, append_assoc, ◌>>=◌, ◌>>◌, guard, >>=-eq-some,
  guard-eq-some, and-eq_true,
}
use scap.Base.Bytes.{
  Bytes, codes, strip_prefix, split_once, rsplit_once, contains, is_lower, is_digit, is_alnum,
}
use scap.Base.Split.{
  strip_prefix-eq_some, split_once-append, split_once-eq_some, rsplit_once-append, rsplit_once-none,
  rsplit_once-eq_some,
}
use scap.Url.Codecommit.{
  CodecommitRef, is_region, is_repo_name, is_bad_user, take_region, take_user, authority_ref,
  parse_codecommit,
}

-- The spelling of a ref.
abbrev region_text : Option Bytes → Bytes
region_text none = []
region_text (some r) = codes ":" ++ (r ++ codes ":")

abbrev user_text : Option Bytes → Bytes
user_text none = []
user_text (some u) = u ++ codes "@"

abbrev pub codecommit_text : CodecommitRef → Bytes
codecommit_text ref =
    codes "codecommit:"
    ++ (region_text ref.region ++ (codes "//" ++ (user_text ref.user ++ ref.name)))

abbrev HasRegion : Option Bytes → Type 0
HasRegion none = Unit
HasRegion (some r) = is_region r ≡ true

-- A region and a name of the grammar's classes, and a user that is not empty and has no `]`.
pub record IsRef (ref : CodecommitRef) : Type 0 where
  pub region : HasRegion ref.region
  pub user : is_bad_user ref.user ≡ false
  pub name : is_repo_name ref.name ≡ true

class_no_colon :
    (s : Bytes)
    → all (λ c. is_lower c || (is_digit c || c == b'-')) s ≡ true
    → contains b':' s ≡ false
class_no_colon [] h = refl
class_no_colon (c ∷ s) h = ground (arith, class_no_colon s)

region_no_colon : (r : Bytes) → is_region r ≡ true → contains b':' r ≡ false
region_no_colon [] h = refl
region_no_colon (c ∷ s) h = ground (arith, class_no_colon s)

name_no_at :
    (s : Bytes)
    → all (λ b. is_alnum b || (b == b'_' || (b == b'.' || b == b'-'))) s ≡ true
    → contains b'@' s ≡ false
name_no_at [] h = refl
name_no_at (c ∷ s) h = ground (arith, name_no_at s)

repo_name_no_at : (s : Bytes) → is_repo_name s ≡ true → contains b'@' s ≡ false
repo_name_no_at s h = name_no_at s (and-eq_true (not (is_empty s)) _ h).1

take_region-text :
    (region : Option Bytes) (rest : Bytes)
    → HasRegion region
    → take_region (region_text region ++ (codes "//" ++ rest)) ≡ some (region, codes "//" ++ rest)
take_region-text none rest h = refl
take_region-text (some r) rest h = rw (
  append_assoc r (codes ":") (codes "//" ++ rest),
  split_once-append b':' r (codes "//" ++ rest) (region_no_colon r h),
  h,
)

take_user-text :
    (user : Option Bytes) (name : Bytes)
    → is_repo_name name ≡ true
    → take_user (user_text user ++ name) ≡ (user, name)
take_user-text none name h = rw (rsplit_once-none b'@' name (repo_name_no_at name h))
take_user-text (some u) name h =
    rw (append_assoc u (codes "@") name)
      (rw (rsplit_once-append b'@' u name (repo_name_no_at name h), take_user))

parse_codecommit-text :
    (ref : CodecommitRef) → IsRef ref → parse_codecommit (codecommit_text ref) ≡ some ref
unfolding parse_codecommit
parse_codecommit-text ref w = rw (
  take_region-text ref.region (user_text ref.user ++ ref.name) w.region,
  take_user-text ref.user ref.name w.name,
  w.user,
  w.name,
)

take_region_sound :
    (rest : Bytes) {p : Option Bytes × Bytes}
    → take_region rest ≡ some p
    → HasRegion p.0 × (rest ≡ region_text p.0 ++ p.1)
take_region_sound rest {p} h = go (strip_prefix (codes ":") rest) refl h
  where
    go :
        (o : Option Bytes)
        → strip_prefix (codes ":") rest ≡ o
        → ◌≡◌ {A = Option (Option Bytes × Bytes)}
            (elim o [
              | none ↦ some (none, rest)
              | some with_region ↦
                  split_once b':' with_region >>= λ q. guard (is_region q.0) >> some (some q.0, q.1)
            ])
            (some p)
        → HasRegion p.0 × (rest ≡ region_text p.0 ++ p.1)
    go none e k = let same : (none, rest) ≡ p = cc in rw (← same) (tt, refl)
    go (some with_region) e k =
        let (q, e2, k2) = >>=-eq-some (split_once b':' with_region) _ k in
        let (good, k3) = guard-eq-some (is_region q.0) _ k2 in
        let same : (some q.0, q.1) ≡ p = cc in
        let whole = split_once-eq_some b':' with_region e2 in
        rw (← same) (
          good,
          strip_prefix-eq_some (codes ":") rest e
              ∙ ap (λ t. b':' ∷ t) whole.0
              ∙ ap (λ t. b':' ∷ t) (sym (append_assoc q.0 (codes ":") q.1)),
        )

take_user_sound : (a : Bytes) → a ≡ user_text (take_user a).0 ++ (take_user a).1
take_user_sound a = elim (Option-cases (rsplit_once b'@' a)) [
  | inl away ↦ rw (away, take_user)
  | inr (q, e) ↦
      rw (e, take_user) ((rsplit_once-eq_some b'@' a e).0 ∙ sym (append_assoc q.0 (codes "@") q.1))
]

authority_ref_sound :
    (region : Option Bytes) (p : Option Bytes × Bytes) {ref : CodecommitRef}
    → authority_ref region p ≡ some ref
    → (is_bad_user p.0 ≡ false)
      × (is_repo_name p.1 ≡ true)
      × (record { region = region; user = p.0; name = p.1 } ≡ ref)
authority_ref_sound region p h = ground arith

IsRef-parse_codecommit :
    (input : Bytes) (ref : CodecommitRef)
    → parse_codecommit input ≡ some ref
    → (input ≡ codecommit_text ref) × IsRef ref
unfolding parse_codecommit
IsRef-parse_codecommit input ref h =
    let (rest, e1, h1) = >>=-eq-some (strip_prefix (codes "codecommit:") input) _ h in
    let (p, e2, h2) = >>=-eq-some (take_region rest) _ h1 in
    let (authority, e3, h3) = >>=-eq-some (strip_prefix (codes "//") p.1) _ h2 in
    let (user, name, same) = authority_ref_sound p.0 (take_user authority) h3 in
    let (region, split) = take_region_sound rest {p = p} e2 in
    let text : input
        ≡ codes "codecommit:"
          ++ (region_text p.0
              ++ (codes "//" ++ (user_text (take_user authority).0 ++ (take_user authority).1))) =
      strip_prefix-eq_some (codes "codecommit:") input e1
      ∙ ap (λ t. codes "codecommit:" ++ t)
          (split
            ∙ ap (λ t. region_text p.0 ++ t)
                (strip_prefix-eq_some (codes "//") p.1 e3
                  ∙ ap (λ t. codes "//" ++ t) (take_user_sound authority))) in
    rw (← same) (text, record { region = region; user = user; name = name })

-- `parse_codecommit` returns `ref` for exactly one input, the spelling of `ref`, and only for refs
-- of the grammar: a region is a lower-case letter and then at least one of `a-z0-9-`, a user is not
-- empty and has no `]`, a name is not empty and has letters, digits, `_`, `.` and `-` only.
pub parse_codecommit_iff :
    (input : Bytes) (ref : CodecommitRef)
    → (parse_codecommit input ≡ some ref) ↔ ((input ≡ codecommit_text ref) × IsRef ref)
parse_codecommit_iff input ref =
    (IsRef-parse_codecommit input ref, λ (e, w). rw e (parse_codecommit-text ref w))
