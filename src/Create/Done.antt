-- ===== src/Create/Done.antt =====
-- What the creation of a repository touches.
use scap.Base.{
  Bool, true, false, Option, none, some, List, [], ◌∷◌, if◌then◌else◌, is_empty, ◌≡◌, refl,
  Bool-cases, inl, inr, ◌⊎◌,
}
use scap.Base.Bytes.{Bytes, codes, bytes_eq, bytes_eq→≡}
use scap.Config.{ConfigError}
use scap.Config
use scap.Remove.{ReadDir, entries, not_found, not_a_directory, unreadable, is_not_exist_or_empty}
use scap.RepoPath.{dest_path}
use scap.Url.{Repo, UrlError}
use scap.Url
use scap.Create.{
  CreateArgs, Action, create_dir_all, spawn_git, Place, validate_vcs, in_dir, at_dest, at_root,
  of_repo, configured, create,
}

-- No kind of repository is asked for, or one that is git's.
pub data IsGit : Option Bytes → Type 0 where
  any_kind : IsGit none
  is_git : IsGit (some (codes "git"))
  is_github : IsGit (some (codes "github"))
  is_codecommit : IsGit (some (codes "codecommit"))

validate_vcs-IsGit : (vcs : Option Bytes) → validate_vcs vcs ≡ true → IsGit vcs
unfolding validate_vcs
validate_vcs-IsGit none h = any_kind
validate_vcs-IsGit (some vcs) h = elim (Bool-cases (bytes_eq vcs (codes "git"))) [
  | inl e ↦ rw (bytes_eq→≡ vcs (codes "git") e) is_git
  | inr e ↦ elim (Bool-cases (bytes_eq vcs (codes "github"))) [
    | inl f ↦ rw (bytes_eq→≡ vcs (codes "github") f) is_github
    | inr f ↦ elim (Bool-cases (bytes_eq vcs (codes "codecommit"))) [
      | inl g ↦ rw (bytes_eq→≡ vcs (codes "codecommit") g) is_codecommit
      | inr g ↦ let no : false ≡ true = rw (e, f, g) at h in absurd cc
    ]
  ]
]

free-cases :
    (r : ReadDir) → is_not_exist_or_empty r ≡ some true → (r ≡ not_found) ⊎ (r ≡ entries false)
unfolding is_not_exist_or_empty
free-cases (entries true) h = absurd cc
free-cases (entries false) h = inr refl
free-cases not_found h = inl refl
free-cases not_a_directory h = absurd cc
free-cases unreadable h = absurd cc

module _ (p : Place) (args : CreateArgs) where
  -- The directory is the one of the target's repository below the root of its URL, and it is missing or
  -- empty; the kind of repository that is asked for is git's.
  pub record IsFree (dest : Bytes) : Type 0 where
    pub user : Option Bytes
    pub complete_user : Bool
    pub repo : Repo
    pub root : Bytes
    pub of_user : p.user ≡ Config.ok user
    pub completing : p.complete_user ≡ Config.ok complete_user
    pub named : p.from_input args.target user complete_user ≡ Url.ok repo
    pub kind : IsGit args.vcs
    pub rooted : p.root_for_url repo.https_url ≡ Config.ok root
    pub placed : dest ≡ dest_path root repo args.bare
    pub free : (p.read_dir dest ≡ not_found) ⊎ (p.read_dir dest ≡ entries false)

  -- `git init`, bare if that is asked for.
  abbrev inits : Bytes → Action
  inits dest =
      spawn_git dest (if args.bare then codes "init" ∷ codes "--bare" ∷ [] else codes "init" ∷ [])

  -- What is done: nothing, or the directory is made and then, if that succeeds, `git init` runs in it.
  abbrev pub IsDone : List Action → Type 0
  IsDone actions =
      (actions ≡ [])
      ⊎ ((dest : Bytes) × IsFree dest
          × (actions ≡ (
              if p.can_create dest
              then create_dir_all dest ∷ inits dest ∷ []
              else create_dir_all dest ∷ [])))

  in_dir-actions :
      (dest : Bytes) (made : Bool)
      → (in_dir p args dest made).1
        ≡ (if made then create_dir_all dest ∷ inits dest ∷ [] else create_dir_all dest ∷ [])
  in_dir-actions dest true = refl
  in_dir-actions dest false = refl

  -- The repository that the target names for the configured user.
  record IsNamed (repo : Repo) : Type 0 where
    user : Option Bytes
    complete_user : Bool
    of_user : p.user ≡ Config.ok user
    completing : p.complete_user ≡ Config.ok complete_user
    named : p.from_input args.target user complete_user ≡ Url.ok repo

  module _ (kind : IsGit args.vcs) where
    at_dest-IsDone :
        (repo : Repo) (root : Bytes) (found : Option Bool)
        → IsNamed repo
        → p.root_for_url repo.https_url ≡ Config.ok root
        → is_not_exist_or_empty (p.read_dir (dest_path root repo args.bare)) ≡ found
        → IsDone (at_dest p args (dest_path root repo args.bare) found).1
    at_dest-IsDone repo root none n e f = inl refl
    at_dest-IsDone repo root (some false) n e f = inl refl
    at_dest-IsDone repo root (some true) n e f =
        let dest = dest_path root repo args.bare in
        inr (
          dest,
          record {
            user = n.user;
            complete_user = n.complete_user;
            repo = repo;
            root = root;
            of_user = n.of_user;
            completing = n.completing;
            named = n.named;
            kind = kind;
            rooted = e;
            placed = refl;
            free = free-cases (p.read_dir dest) f;
          },
          in_dir-actions dest (p.can_create dest),
        )

    at_root-IsDone :
        (repo : Repo) (found : Config.Result Bytes)
        → IsNamed repo
        → p.root_for_url repo.https_url ≡ found
        → IsDone (at_root p args repo found).1
    at_root-IsDone repo (Config.err e) n h = inl refl
    at_root-IsDone repo (Config.ok root) n h =
        at_dest-IsDone repo root
          (is_not_exist_or_empty (p.read_dir (dest_path root repo args.bare))) n h refl

    configured-IsDone :
        (user : Config.Result (Option Bytes)) (complete_user : Config.Result Bool)
        → p.user ≡ user
        → p.complete_user ≡ complete_user
        → IsDone (configured p args user complete_user).1
    configured-IsDone (Config.err e) complete_user h k = inl refl
    configured-IsDone (Config.ok user) (Config.err e) h k = inl refl
    configured-IsDone (Config.ok user) (Config.ok complete_user) h k =
        named (p.from_input args.target user complete_user) refl
      where
        named :
            (r : Url.Result Repo)
            → p.from_input args.target user complete_user ≡ r
            → IsDone (of_repo p args r).1
        named (Url.err e) n = inl refl
        named (Url.ok repo) n =
            at_root-IsDone repo (p.root_for_url repo.https_url)
              (record {
                user = user;
                complete_user = complete_user;
                of_user = h;
                completing = k;
                named = n;
              })
              refl

  -- The command touches nothing, or it makes the directory of the repository that the target names for
  -- the configured user, below the root of its URL, where there is none or an empty one and the kind
  -- asked for is git's, and once that is made runs `git init` in it and nothing else.
  pub create-IsDone : IsDone (create p args).1
  unfolding create
  create-IsDone = elim (Bool-cases (is_empty args.target)) [
    | inl blank ↦ rw blank (inl refl)
    | inr named ↦ elim (Bool-cases (validate_vcs args.vcs)) [
      | inl known ↦
          rw (named, known)
            (configured-IsDone (validate_vcs-IsGit args.vcs known) p.user p.complete_user refl refl)
      | inr alien ↦ rw (named, alien) (inl refl)
    ]
  ]
