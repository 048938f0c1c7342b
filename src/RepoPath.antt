-- ===== src/RepoPath.antt =====
-- src/path.rs: where a repository lives under a root. A `PathBuf` is its bytes.
use scap.Base.{Bool, not, ◌||◌, List, [], ◌∷◌, ◌++◌, if◌then◌else◌, is_empty, retain}
use scap.Base.Bytes.{Bytes, codes, starts_with, ends_with, split}
use scap.Url.{Repo}

-- `PathBuf::push`: an absolute path replaces, any other is put behind a separator.
abbrev pub push : Bytes → Bytes → Bytes
push path segment =
    if starts_with (codes "/") segment
    then segment
    else if is_empty path || ends_with (codes "/") path
    then path ++ segment
    else path ++ (codes "/" ++ segment)

abbrev pub push_all : Bytes → List Bytes → Bytes
push_all path [] = path
push_all path (s ∷ ss) = push_all (push path s) ss

-- The owner's segments, without the empty ones.
abbrev pub owner_segments : Repo → List Bytes
owner_segments repo = retain (λ s. not (is_empty s)) (split b'/' repo.owner)

abbrev pub leaf_name : Repo → Bool → Bytes
leaf_name repo bare = if bare then repo.name ++ codes ".git" else repo.name

unfoldable pub rel_path : Repo → Bool → Bytes
rel_path repo bare = push (push_all (push [] repo.host) (owner_segments repo)) (leaf_name repo bare)

unfoldable pub dest_path : Bytes → Repo → Bool → Bytes
dest_path root repo bare = push root (rel_path repo bare)
