-- ===== src/Walk/Lookup.antt =====
-- Lookups in the tree of nodes: by a name, by a path, and through the names of one directory.
use scap.Base.{
  ℕ, suc, ◌+◌, ◌^◌, ◌<◌, ◌≡◌, ◌≢◌, refl, sym, ap, ◌∙◌, Bool, true, false, not, ◌&&◌, ◌||◌, ◌⊎◌, inl,
  inr, Option, none, some, List, [], ◌∷◌, ◌++◌, if◌then◌else◌, is_empty, any, arith, Bool-cases,
  append-nil, ◌==◌, ==_refl,
}
use scap.Base.Bytes.{
  Bytes, codes, bytes_eq, bytes_eq→≡, contains, split, split_on, split_once, cons_head,
}
use scap.Base.Split.{
  contains-append, split_once-append, split_once-none, split_on-none, split_on-cons,
}
use scap.Walk.Entries.{Kind, from_file_type, is_dots, kept, names_length}
use scap.Walk.Sys.{got, is_got, decides, is_repo_dir, join_rel, cstr}
use scap.Walk.Tree.{
  Node, Nodes, dir, link, file, nil, entry, dangling, to_file, to_dir, find, stat_found, stat_below,
  stat_path, open_found, open_from, listing, stream_of, reported, type_of, resolves, git_there,
  AllNamed,
}

-- Each name of the list is found in the directory.
abbrev pub AllFound : Nodes → Nodes → Type 0
AllFound whole nil = Unit
AllFound whole (entry name node rest) = (find whole name ≡ some node) × AllFound whole rest

AllFound-entry :
    (name : Bytes) (node : Node) (rest ns : Nodes)
    → find rest name ≡ none
    → AllFound rest ns
    → AllFound (entry name node rest) ns
AllFound-entry name node rest nil h k = tt
AllFound-entry name node rest (entry n m ns) h k = (
  elim (Bool-cases (bytes_eq name n)) [
    | inl same ↦ absurd (
        let e : name ≡ n = bytes_eq→≡ name n same in
        let missing : find rest n ≡ none = ap (find rest) (sym e) ∙ h in let present = k.0 in cc)
    | inr other_name ↦ rw other_name k.0
  ],
  AllFound-entry name node rest ns h k.1,
)

pub AllNamed-AllFound : (ns : Nodes) → AllNamed ns → AllFound ns ns
unfolding AllNamed
AllNamed-AllFound nil h = tt
AllNamed-AllFound (entry name node rest) h = (
  rw (scap.Base.Bytes.bytes_eq_refl name) refl,
  AllFound-entry name node rest rest h.1 (AllNamed-AllFound rest h.3),
)

-- The entries of a directory as the reader sees them.
abbrev pub kinds : Bool → Nodes → List (Bytes × Kind)
kinds typed nil = []
kinds typed (entry name node rest) =
    (name, from_file_type (reported typed (type_of node))) ∷ kinds typed rest

kept-listing : (typed : Bool) (ns : Nodes) → AllNamed ns → kept (listing typed ns) ≡ kinds typed ns
unfolding kept AllNamed
kept-listing typed nil h = refl
kept-listing typed (entry name node rest) h =
    let named : is_dots name ≡ false = (h.0).1 in
    let below = kept-listing typed rest h.3 in rw (named, below)

pub kept-stream_of :
    (typed : Bool) (ns : Nodes) → AllNamed ns → kept (stream_of typed ns) ≡ kinds typed ns
unfolding kept
kept-stream_of typed ns h = kept-listing typed ns h

pub names_length-listing :
    (typed : Bool) (ns : Nodes) → names_length (listing typed ns) ≡ names_length (listing true ns)
names_length-listing typed nil = refl
names_length-listing typed (entry name node rest) = omega (arith, names_length-listing typed rest)

pub stat_path-name :
    (ns : Nodes) (name : Bytes)
    → contains b'/' name ≡ false
    → stat_path ns name ≡ stat_found (find ns name)
stat_path-name ns name h = rw (stat_path, split_once-none b'/' name h) refl

pub stat_path-below :
    (ns : Nodes) (name back : Bytes)
    → contains b'/' name ≡ false
    → stat_path ns (name ++ (b'/' ∷ back)) ≡ stat_below (find ns name) back
stat_path-below ns name back h = rw (stat_path, split_once-append b'/' name back h) refl

is_got-stat_found : (node : Option Node) → is_got (stat_found node) ≡ resolves node
is_got-stat_found none = refl
is_got-stat_found (some (dir readable ns)) = refl
is_got-stat_found (some (link dangling)) = refl
is_got-stat_found (some (link to_file)) = refl
is_got-stat_found (some (link (to_dir git))) = refl
is_got-stat_found (some file) = refl

pub is_got-stat_path-git : (ns : Nodes) → is_got (stat_path ns (codes ".git")) ≡ git_there ns
is_got-stat_path-git ns = is_got-stat_found (find ns (codes ".git"))

pub open_from-snoc :
    (node : Option Node) (names : List Bytes) (ns : Nodes) (name : Bytes)
    → open_from node names ≡ got ns
    → open_from node (names ++ (name ∷ [])) ≡ open_found (find ns name)
open_from-snoc none [] ns name h = cc
open_from-snoc (some (dir true ms)) [] ns name h = let e : ms ≡ ns = cc in rw e refl
open_from-snoc (some (dir false ms)) [] ns name h = cc
open_from-snoc (some (link target)) [] ns name h = cc
open_from-snoc (some file) [] ns name h = cc
open_from-snoc none (n ∷ more) ns name h = cc
open_from-snoc (some (dir readable ms)) (n ∷ more) ns name h =
    open_from-snoc (find ms n) more ns name h
open_from-snoc (some (link target)) (n ∷ more) ns name h = cc
open_from-snoc (some file) (n ∷ more) ns name h = cc

-- The first piece of a cons is never missing, so a longer rest only adds pieces behind.
pub split-name : (c : ℕ) (name : Bytes) → contains c name ≡ false → split c name ≡ name ∷ []
split-name c name h = split_on-none (λ x. x == c) name (any-contains name h)
  where
    any-contains : (s : Bytes) → contains c s ≡ false → any (λ x. x == c) s ≡ false
    any-contains [] k = refl
    any-contains (x ∷ s) k = ground (arith, any-contains s (ground arith))

cons_head-snoc :
    (x : ℕ) (pieces : List Bytes) (last : Bytes)
    → pieces ≢ []
    → cons_head x (pieces ++ (last ∷ [])) ≡ cons_head x pieces ++ (last ∷ [])
cons_head-snoc x [] last h = absurd (h refl)
cons_head-snoc x (p ∷ ps) last h = refl

split_on-nonempty : (p : ℕ → Bool) (s : Bytes) → split_on p s ≢ []
split_on-nonempty p s h = let (f, r, e) = split_on-cons p s in cc

-- A name behind a separator is the last piece.
pub split-snoc :
    (c : ℕ) (s name : Bytes)
    → contains c name ≡ false
    → split c (s ++ (c ∷ name)) ≡ split c s ++ (name ∷ [])
split-snoc c [] name h = rw (==_refl c, split-name c name h) refl
split-snoc c (x ∷ s) name h = elim (Bool-cases (x == c)) [
  | inl here ↦ rw (here, split-snoc c s name h) refl
  | inr later ↦
      rw (later, split-snoc c s name h)
        (cons_head-snoc x (split c s) name (split_on-nonempty (λ y. y == c) s))
]

-- Where the reader stands: at the root, or at a path from it.
abbrev pub IsAt : Nodes → Bytes → Nodes → Type 0
IsAt root [] ns = ns ≡ root
IsAt root (x ∷ rel) ns = open_from (some (dir true root)) (split b'/' (x ∷ rel)) ≡ got ns

-- The path of a child opens the child.
pub open_from-join_rel :
    (root : Nodes) (rel name : Bytes) (ns : Nodes)
    → contains b'/' name ≡ false
    → IsAt root rel ns
    → open_from (some (dir true root)) (split b'/' (join_rel rel name)) ≡ open_found (find ns name)
unfolding join_rel
open_from-join_rel root [] name ns h at_root =
    rw (split-name b'/' name h) (ap (λ ms. open_found (find ms name)) (sym at_root))
open_from-join_rel root (x ∷ rel) name ns h at_path =
    rw (split-snoc b'/' (x ∷ rel) name h)
      (open_from-snoc (some (dir true root)) (split b'/' (x ∷ rel)) ns name at_path)

pub contains-join_rel :
    (c : ℕ) (rel name : Bytes)
    → contains c rel ≡ false
    → contains c name ≡ false
    → contains c (codes "/") ≡ false
    → contains c (join_rel rel name) ≡ false
unfolding join_rel
contains-join_rel c [] name h k slash = k
contains-join_rel c (x ∷ rel) name h k slash =
    rw (contains-append c (x ∷ rel) (b'/' ∷ name)) (ground (arith, h, k, slash))

pub cstr-some : (bytes : Bytes) → contains 0 bytes ≡ false → cstr bytes ≡ some bytes
unfolding cstr
cstr-some bytes h = rw h refl

decides-resolves :
    (typed : Bool) (node : Node)
    → decides (resolves (some node)) (from_file_type (reported typed (type_of node)))
      ≡ resolves (some node)
decides-resolves true (dir readable ns) = refl
decides-resolves true (link target) = refl
decides-resolves true file = refl
decides-resolves false (dir readable ns) = refl
decides-resolves false (link target) = refl
decides-resolves false file = refl

is_repo_dir-resolves :
    (typed : Bool) (ns : Nodes) (answer : Bool)
    → answer ≡ resolves (find ns (codes ".git"))
    → is_repo_dir (kinds typed ns) answer ≡ answer
unfolding is_repo_dir
is_repo_dir-resolves typed nil answer h = sym h
is_repo_dir-resolves typed (entry name node rest) answer h =
    elim (Bool-cases (bytes_eq name (codes ".git"))) [
      | inl here ↦
          let e : answer ≡ resolves (some node) = rw here at h in
          rw (here, e) (decides-resolves typed node)
      | inr later ↦
          let e : answer ≡ resolves (find rest (codes ".git")) = rw later at h in
          rw later (is_repo_dir-resolves typed rest answer e)
    ]

-- The scan of the entries answers as the lookup of `.git` does.
pub is_repo_dir-git_there :
    (typed : Bool) (ns : Nodes) → is_repo_dir (kinds typed ns) (git_there ns) ≡ git_there ns
is_repo_dir-git_there typed ns = is_repo_dir-resolves typed ns (git_there ns) refl
