-- ===== src/Remove/Asked.antt =====
-- What the removal of a tree stands on.
use scap.Base.{
  ℕ, Bool, true, false, Option, none, some, List, [], ◌∷◌, if◌then◌else◌, is_empty, ◌==◌, ◌≡◌, refl,
  Bool-cases, inl, inr, ap, ◌++◌, ◌⊎◌, All, ==_iff,
}
use scap.Base.Bytes.{Bytes, codes, bytes_eq, bytes_eq→≡, trim_end}
use scap.Config.{ConfigError}
use scap.Config
use scap.RepoPath.{dest_path}
use scap.Url.{Repo, UrlError}
use scap.Url
use scap.Remove.{
  RmArgs, ReadDir, entries, not_found, not_a_directory, unreadable, World, would_remove,
  is_not_exist_or_empty, is_line_end, confirm, remove, at_dest, at_root, of_repo, rm,
}

-- Line ends and nothing else.
abbrev pub AllLineEnds : Bytes → Type 0
AllLineEnds cs = All (λ c. (c ≡ 10) ⊎ (c ≡ 13)) cs

-- A line that says `y`.
abbrev pub SaysYes : Option Bytes → Type 0
SaysYes response = (ends : Bytes) × (response ≡ some (codes "y" ++ ends)) × AllLineEnds ends

is_line_end-cases : (c : ℕ) → is_line_end c ≡ true → (c ≡ 10) ⊎ (c ≡ 13)
is_line_end-cases c h = elim (Bool-cases (c == 10)) [
  | inl e ↦ inl ((==_iff c 10).0 e)
  | inr e ↦ let r : (c == 13) ≡ true = rw e at h in inr ((==_iff c 13).0 r)
]

trim_end-nil : (line : Bytes) → trim_end is_line_end line ≡ [] → AllLineEnds line
trim_end-nil [] h = tt
trim_end-nil (c ∷ line) h = go (λ e. trim_end-nil line e) (trim_end is_line_end line) refl h
  where
    go :
        (trim_end is_line_end line ≡ [] → AllLineEnds line)
        → (rest : Bytes) → trim_end is_line_end line ≡ rest
        → elim rest [ [] ↦ if is_line_end c then [] else c ∷ [] | y ∷ ys ↦ c ∷ y ∷ ys ] ≡ []
        → AllLineEnds (c ∷ line)
    go later (y ∷ ys) e k = absurd cc
    go later [] e k = elim (Bool-cases (is_line_end c)) [
      | inl ended ↦ (is_line_end-cases c ended, later e)
      | inr other ↦ let no : c ∷ [] ≡ [] = rw other at k in absurd cc
    ]

trim_end-one :
    (line : Bytes) (y : ℕ)
    → trim_end is_line_end line ≡ y ∷ []
    → (ends : Bytes) × (line ≡ y ∷ ends) × AllLineEnds ends
trim_end-one [] y h = absurd cc
trim_end-one (c ∷ line) y h = go (trim_end is_line_end line) refl h
  where
    go :
        (rest : Bytes)
        → trim_end is_line_end line ≡ rest
        → elim rest [ [] ↦ if is_line_end c then [] else c ∷ [] | z ∷ zs ↦ c ∷ z ∷ zs ] ≡ y ∷ []
        → (ends : Bytes) × (c ∷ line ≡ y ∷ ends) × AllLineEnds ends
    go (z ∷ zs) e k = absurd cc
    go [] e k = elim (Bool-cases (is_line_end c)) [
      | inl ended ↦ let no : [] ≡ y ∷ [] = rw ended at k in absurd cc
      | inr other ↦
          let same : c ∷ [] ≡ y ∷ [] = rw other at k in
          let one : c ≡ y = cc in (line, ap (λ b. b ∷ line) one, trim_end-nil line e)
    ]

confirm-SaysYes : (response : Option Bytes) → confirm response ≡ some true → SaysYes response
unfolding confirm
confirm-SaysYes none h = absurd cc
confirm-SaysYes (some line) h =
    let yes : bytes_eq (trim_end is_line_end line) (codes "y") ≡ true = cc in
    let (ends, e, all) =
      trim_end-one line 121 (bytes_eq→≡ (trim_end is_line_end line) (codes "y") yes) in
    (ends, ap some e, all)

in_use-entries : (r : ReadDir) → is_not_exist_or_empty r ≡ some false → r ≡ entries true
unfolding is_not_exist_or_empty
in_use-entries (entries true) h = refl
in_use-entries (entries false) h = absurd cc
in_use-entries not_found h = absurd cc
in_use-entries not_a_directory h = absurd cc
in_use-entries unreadable h = absurd cc

module _ (w : World) (args : RmArgs) where
  -- What the removal of a tree stands on: it is the directory of the target's repository below the
  -- root of its URL and has an entry, the run is not dry, and the user has answered `y`.
  pub record IsAsked (tree : Bytes) : Type 0 where
    pub repo : Repo
    pub root : Bytes
    pub named : w.from_input args.target ≡ Url.ok repo
    pub rooted : w.root_for_url repo.https_url ≡ Config.ok root
    pub placed : tree ≡ dest_path root repo args.bare
    pub in_use : w.read_dir tree ≡ entries true
    pub for_real : args.dry_run ≡ false
    pub confirmed : SaysYes w.response

  -- The trees that a run tries to remove: none, or one that is asked for.
  pub data Removes : List Bytes → Type 0 where
    nothing : Removes []
    tree_asked : {tree : Bytes} → IsAsked tree → Removes (tree ∷ [])

  at_dest-Removes :
      (repo : Repo) (root : Bytes) (found : Option Bool)
      → w.from_input args.target ≡ Url.ok repo
      → w.root_for_url repo.https_url ≡ Config.ok root
      → is_not_exist_or_empty (w.read_dir (dest_path root repo args.bare)) ≡ found
      → Removes (at_dest w args (dest_path root repo args.bare) found).1
  at_dest-Removes repo root none e f g = nothing
  at_dest-Removes repo root (some true) e f g = nothing
  at_dest-Removes repo root (some false) e f g = unless_dry args.dry_run refl
    where
      answered :
          args.dry_run ≡ false
          → (answer : Option Bool) → confirm w.response ≡ answer
          → Removes (remove w args (dest_path root repo args.bare) answer).1
      answered real none a = nothing
      answered real (some false) a = nothing
      answered real (some true) a = tree_asked (record {
        repo = repo;
        root = root;
        named = e;
        rooted = f;
        placed = refl;
        in_use = in_use-entries (w.read_dir (dest_path root repo args.bare)) g;
        for_real = real;
        confirmed = confirm-SaysYes w.response a;
      })

      unless_dry :
          (dry : Bool)
          → args.dry_run ≡ dry
          → Removes
              (if dry
                then (would_remove (dest_path root repo args.bare), [])
                else remove w args (dest_path root repo args.bare) (confirm w.response)).1
      unless_dry true d = nothing
      unless_dry false d = answered d (confirm w.response) refl

  at_root-Removes :
      (repo : Repo) (r : Config.Result Bytes)
      → w.from_input args.target ≡ Url.ok repo
      → w.root_for_url repo.https_url ≡ r
      → Removes (at_root w args repo r).1
  at_root-Removes repo (Config.err e) f g = nothing
  at_root-Removes repo (Config.ok root) f g =
      at_dest-Removes repo root (is_not_exist_or_empty (w.read_dir (dest_path root repo args.bare)))
        f g refl

  of_repo-Removes :
      (r : Url.Result Repo) → w.from_input args.target ≡ r → Removes (of_repo w args r).1
  of_repo-Removes (Url.err e) f = nothing
  of_repo-Removes (Url.ok repo) f = at_root-Removes repo (w.root_for_url repo.https_url) f refl

  -- A run removes nothing, or it tries to remove one tree: the directory of the target's repository,
  -- if it has an entry, the run is not dry, and the line that the user has typed is `y` and line ends.
  pub rm-Removes : Removes (rm w args).1
  unfolding rm
  rm-Removes = elim (Bool-cases (is_empty args.target)) [
    | inl e ↦ rw e nothing
    | inr e ↦ rw e (of_repo-Removes (w.from_input args.target) refl)
  ]
