-- ===== src/Listing/Run.antt =====
-- src/cmd/list.rs, `run`: one root's listing by the mode of the index, and the command as a whole.
pub mod Checks
use scap.Base.{
  Bool, true, false, not, ◌||◌, ◌≡◌, refl, sym, ◌∙◌, ap, Option, none, some, List, [], ◌∷◌, ◌++◌,
  if◌then◌else◌, map, any, Bool-cases, inl, inr,
}
use scap.Base.Bytes.{Bytes, codes, bytes_eq}
use scap.Base.Sort.{sort_unstable, IsSorted, sort_unstable-IsSorted, sort_unstable-sum, times}
use scap.Index.{Mode, off, on, check}
use scap.Index.Validate.{mode}
use scap.Walk.{RootListing}
use scap.Walk.Arena.{iter}
use scap.Index.Cache.{
  Result, ok, panic, invalid_root, ◌>>=◌, Root, list_root, check_root, check_root-walk_root,
  >>=-eq-ok,
}
use scap.Listing.{Repo, ListArgs}
use scap.Listing.Filter.{Unicode, filter_repos}
use scap.Listing.Naming.{Naming, name_repositories, repo_at}
use scap.Listing.Naming.Buffer.{plain_from, name_repositories-plain}
use scap.Listing.Unique.{format_unique}

-- A listing, whether the index disagreed with it, and what was written to the index.
unfoldable pub walk_one : Root → Mode → Result ((RootListing × Bool) × Option Bytes)
walk_one root off = root.walk_root false >>= λ listing. ok ((listing, false), none)
walk_one root on = list_root root >>= λ p. ok ((p.0, false), p.1)
walk_one root check = check_root root

-- The roots in order; the first error ends the run.
unfoldable pub walk_each : Mode → List Root → Result (List RootListing × Bool)
walk_each how [] = ok ([], false)
walk_each how (root ∷ roots) =
    walk_one root how >>= λ p. walk_each how roots >>= λ q. ok (p.0.0 ∷ q.0, p.0.1 || q.1)

unfoldable pub is_supported : Option Bytes → Bool
is_supported none = true
is_supported (some vcs) =
    any (λ known. bytes_eq vcs known) (codes "git" ∷ codes "github" ∷ codes "codecommit" ∷ [])

abbrev pub abs_of : Repo → Bytes
abs_of repo = repo.abs

abbrev pub rel_of : Repo → Bytes
rel_of repo = repo.rel

-- The lines of the chosen form, before they are sorted.
unfoldable pub render : ListArgs → List Repo → List Bytes
render args repos =
    if args.unique
    then format_unique repos
    else if args.full_path
    then map abs_of repos
    else map rel_of repos

-- Each line with a newline behind it.
unfoldable pub lines_text : List Bytes → Bytes
lines_text [] = []
lines_text (line ∷ lines) = line ++ (b'\n' ∷ lines_text lines)

-- How the command ends: what it has printed, and whether it then fails.
pub data Ended : Type 0 where
  unsupported_vcs walk_failed panicked : Ended
  printed : Bytes → Bool → Ended

abbrev pub path_of : Root → Bytes
path_of root = root.path

abbrev pub paths_of : RootListing → List Bytes
paths_of listing = iter listing.arena

abbrev pub text_of : Unicode → ListArgs → List Repo → Bytes
text_of u args repos = lines_text (sort_unstable (render args (filter_repos u repos args)))

abbrev pub postprocess : Unicode → ListArgs → Bool → Option (Bytes × List Naming) → Ended
postprocess u args index_disagreed none = panicked
postprocess u args index_disagreed (some (paths, spans)) =
    printed (text_of u args (map (repo_at paths) spans)) index_disagreed

abbrev pub list_walked : Unicode → ListArgs → List Root → Result (List RootListing × Bool) → Ended
list_walked u args roots panic = panicked
list_walked u args roots invalid_root = walk_failed
list_walked u args roots (ok (listings, index_disagreed)) =
    postprocess u args index_disagreed
      (name_repositories (map path_of roots) (map paths_of listings))

-- The roots are those of `resolve_roots(true)`.
unfoldable pub run : Unicode → Bool → ListArgs → List Root → Ended
run u list_cache args roots =
    let how = mode args.cache args.no_cache args.cache_check list_cache in
    let ended = list_walked u args roots (walk_each how roots) in
    if not (is_supported args.vcs) then unsupported_vcs else ended

-- The repositories of the roots, by the plain description of the naming.
abbrev pub plain_repos : List Root → List RootListing → List Repo
plain_repos roots listings =
    plain_from (map path_of roots) 0 (map path_of roots) (map paths_of listings)

-- If the kind of repository is supported and every root is walked, the command prints, and does not
-- panic: the lines are in byte order, and they are, each as often, those of the chosen form of the
-- repositories that pass the filter, of the repositories named by the first root that contains each.
-- It fails behind that just if the index disagreed with a root.
pub run-printed :
    (u : Unicode) (list_cache : Bool) (args : ListArgs) (roots : List Root)
    {listings : List RootListing} {index_disagreed : Bool}
    → is_supported args.vcs ≡ true
    → walk_each (mode args.cache args.no_cache args.cache_check list_cache) roots
      ≡ ok (listings, index_disagreed)
    → (lines : List Bytes) × (run u list_cache args roots
        ≡ printed (lines_text lines) index_disagreed)
      × IsSorted lines
      × ((line : Bytes)
          → times line lines
            ≡ times line (render args (filter_repos u (plain_repos roots listings) args)))
unfolding run
run-printed u list_cache args roots {listings} {index_disagreed} vcs walked =
    let (p, named, repos) = name_repositories-plain (map path_of roots) (map paths_of listings) in
    let lines = render args (filter_repos u (plain_repos roots listings) args) in
    (
      sort_unstable lines,
      rw (vcs, walked, named, repos) refl,
      sort_unstable-IsSorted lines,
      λ line. sort_unstable-sum (λ x. if bytes_eq x line then 1 else 0) lines,
    )
