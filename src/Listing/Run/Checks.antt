-- ===== src/Listing/Run/Checks.antt =====
-- Runs that check the index, against each other.
use scap.Base.{
  Bool, true, false, ◌||◌, ◌≡◌, refl, sym, ◌∙◌, ap, Option, none, some, List, [], ◌∷◌, map,
  Bool-cases, inl, inr,
}
use scap.Base.Bytes.{Bytes}
use scap.Index.{check}
use scap.Index.Validate.{mode}
use scap.Walk.{RootListing}
use scap.Index.Cache.{Result, ok, panic, invalid_root, Root, check_root-walk_root, >>=-eq-ok}
use scap.Listing.{ListArgs}
use scap.Listing.Filter.{Unicode}
use scap.Listing.Naming.{Naming, name_repositories, repo_at}
use scap.Listing.Run.{
  walk_one, walk_each, is_supported, unsupported_vcs, printed, path_of, paths_of, text_of,
  postprocess, list_walked, run,
}

-- Two lists of roots at the same paths, each of which is walked alike when records are kept. All else
-- can differ, the index file and what is asked of the root among it.
pub data Alike : List Root → List Root → Type 0 where
  no_root : Alike [] []
  root_too :
      {root root' : Root} {roots roots' : List Root}
      → root.path ≡ root'.path
      → root.walk_root true ≡ root'.walk_root true
      → Alike roots roots'
      → Alike (root ∷ roots) (root' ∷ roots')

Alike-paths :
    {roots roots' : List Root} → Alike roots roots' → map path_of roots ≡ map path_of roots'
Alike-paths no_root = refl
Alike-paths (root_too {root = root} {root' = root'} e w h) = rw (e, Alike-paths h) refl

walk_one-same :
    (root root' : Root) {p p' : (RootListing × Bool) × Option Bytes}
    → root.walk_root true ≡ root'.walk_root true
    → walk_one root check ≡ ok p
    → walk_one root' check ≡ ok p'
    → p.0.0 ≡ p'.0.0
unfolding walk_one
walk_one-same root root' {p} {p'} w h h' =
    let walked = check_root-walk_root root {listing = p.0.0} {differs = p.0.1} {stored = p.1} h in
    let walked' =
      check_root-walk_root root' {listing = p'.0.0} {differs = p'.0.1} {stored = p'.1} h' in
    let same : ok p.0.0 ≡ ok p'.0.0 = sym walked ∙ w ∙ walked' in cc

walk_each-same :
    {roots roots' : List Root} {q q' : List RootListing × Bool}
    → Alike roots roots'
    → walk_each check roots ≡ ok q
    → walk_each check roots' ≡ ok q'
    → q.0 ≡ q'.0
unfolding walk_each
walk_each-same {q = q} {q' = q'} no_root h h' =
    let e : ([], false) ≡ q = cc in let e' : ([], false) ≡ q' = cc in ap (λ p. p.0) (sym e ∙ e')
walk_each-same {q = q} {q' = q'}
      (root_too {root = root} {root' = root'} {roots = roots} {roots' = roots'} e w more) h h' =
    let (p, a, k) = >>=-eq-ok (walk_one root check) _ h in
    let (r, b, k2) = >>=-eq-ok (walk_each check roots) _ k in
    let (p', a', k') = >>=-eq-ok (walk_one root' check) _ h' in
    let (r', b', k2') = >>=-eq-ok (walk_each check roots') _ k' in
    let one = walk_one-same root root' {p = p} {p' = p'} w a a' in
    let rest = walk_each-same {q = r} {q' = r'} more b b' in
    let end : (p.0.0 ∷ r.0, p.0.1 || r.1) ≡ q = cc in
    let end' : (p'.0.0 ∷ r'.0, p'.0.1 || r'.1) ≡ q' = cc in
    ap (λ t. t.0) (sym end) ∙ rw (one, rest) refl ∙ ap (λ t. t.0) end'

list_walked-ok :
    (u : Unicode) (args : ListArgs) (roots : List Root) (walked : Result (List RootListing × Bool))
    {text : Bytes} {failing : Bool}
    → list_walked u args roots walked ≡ printed text failing
    → (p : List RootListing × Bool) × (walked ≡ ok p)
list_walked-ok u args roots panic h = absurd cc
list_walked-ok u args roots invalid_root h = absurd cc
list_walked-ok u args roots (ok p) h = (p, refl)

postprocess-same :
    (u : Unicode) (args : ListArgs) (differs differs' : Bool) (named : Option (Bytes × List Naming))
    {text text' : Bytes} {failing failing' : Bool}
    → postprocess u args differs named ≡ printed text failing
    → postprocess u args differs' named ≡ printed text' failing'
    → text ≡ text'
postprocess-same u args differs differs' none h h' = absurd cc
postprocess-same u args differs differs' (some p) {text} {text'} h h' =
    let same : text_of u args (map (repo_at p.0) p.1) ≡ text = cc in
    let same' : text_of u args (map (repo_at p.0) p.1) ≡ text' = cc in sym same ∙ same'

list_walked-same :
    (u : Unicode) (args : ListArgs) {roots roots' : List Root} {text text' : Bytes}
    {failing failing' : Bool}
    → Alike roots roots'
    → list_walked u args roots (walk_each check roots) ≡ printed text failing
    → list_walked u args roots' (walk_each check roots') ≡ printed text' failing'
    → text ≡ text'
list_walked-same u args {roots} {roots'} {text} {text'} {failing} {failing'} alike h h' =
    let (q, walked) =
      list_walked-ok u args roots (walk_each check roots) {text = text} {failing = failing} h in
    let (q', walked') =
      list_walked-ok u args roots' (walk_each check roots') {text = text'} {failing = failing'}
        h' in
    let names = name_repositories (map path_of roots) (map paths_of q.0) in
    let same : name_repositories (map path_of roots') (map paths_of q'.0) ≡ names =
      rw (Alike-paths alike, walk_each-same {q = q} {q' = q'} alike walked walked') refl in
    postprocess-same u args q.1 q'.1 names {text = text} {text' = text'} {failing = failing}
      {failing' = failing'} (rw walked at h)
      (ap (postprocess u args q'.1) (sym same) ∙ rw walked' at h')

-- What `--cache-check` prints does not depend on the index: two such runs over roots that are walked
-- alike print the same, if both get to print, whatever the index files hold. Only their verdicts can
-- differ.
pub run-cache_check :
    (u : Unicode) (list_cache : Bool) (args : ListArgs) {roots roots' : List Root}
    {text text' : Bytes} {index_disagreed index_disagreed' : Bool}
    → Alike roots roots'
    → run u list_cache (record args { cache_check = true; no_cache = false }) roots
      ≡ printed text index_disagreed
    → run u list_cache (record args { cache_check = true; no_cache = false }) roots'
      ≡ printed text' index_disagreed'
    → text ≡ text'
unfolding run mode
run-cache_check u list_cache args {roots} {roots'} {text} {text'} {index_disagreed}
      {index_disagreed'} alike h h' =
    elim (Bool-cases (is_supported args.vcs)) [
      | inr other_vcs ↦
          let e : unsupported_vcs ≡ printed text index_disagreed = rw other_vcs at h in absurd cc
      | inl vcs ↦
          list_walked-same u (record args { cache_check = true; no_cache = false }) {text = text}
            {text' = text'} {failing = index_disagreed} {failing' = index_disagreed'} alike
            (rw vcs at h) (rw vcs at h')
    ]
