-- ===== src/Walk/Tree.antt =====
-- A file system that stands still: a tree of named nodes, the kernel's answers on it, and the
-- repositories that a walk of it has to list.
use scap.Base.{
  ℕ, ◌+◌, suc, ◌^◌, ◌<◌, ◌≡◌, Bool, true, false, ◌||◌, Option, none, some, List, [], ◌∷◌, ◌++◌,
  if◌then◌else◌, is_empty,
}
use scap.Base.Bytes.{Bytes, codes, bytes_eq, contains, ends_with, split, split_once}
use scap.Walk.Entries.{FileType, directory, symlink, regular, untyped, is_dots, names_length}
use scap.Walk.Sys.{
  noent, notdir, loop, acces, Answer, failed, got, whole, Mtime, Os, join_rel, shown_rel,
  is_excluded,
}

-- What a link leads to; of a directory it matters only whether it has a `.git`.
pub data Target : Type 0 where
  dangling to_file : Target
  to_dir : Bool → Target

-- A directory can be searched, and read if its mark says so.
mutual
  pub data Node : Type 0 where
    dir : Bool → Nodes → Node
    link : Target → Node
    file : Node

  pub data Nodes : Type 0 where
    nil : Nodes
    entry : Bytes → Node → Nodes → Nodes

abbrev pub find : Nodes → Bytes → Option Node
find nil name = none
find (entry n node rest) name =
    let later = find rest name in if bytes_eq n name then some node else later

abbrev pub stat_link : Target → Answer FileType
stat_link dangling = failed noent
stat_link to_file = got regular
stat_link (to_dir git) = got directory

abbrev pub stat_found : Option Node → Answer FileType
stat_found none = failed noent
stat_found (some (dir readable ns)) = got directory
stat_found (some (link target)) = stat_link target
stat_found (some file) = got regular

-- A path of two components: the second is `.git` whenever the reader asks.
abbrev pub stat_below : Option Node → Bytes → Answer FileType
stat_below (some (dir readable ns)) name = stat_found (find ns name)
stat_below (some (link (to_dir git))) name = if git then got directory else failed noent
stat_below (some (link dangling)) name = failed noent
stat_below (some (link to_file)) name = failed notdir
stat_below (some file) name = failed notdir
stat_below none name = failed noent

abbrev pub stat_path : Nodes → Bytes → Answer FileType
stat_path ns path = elim (split_once b'/' path) [
  | none ↦ stat_found (find ns path)
  | some (front, back) ↦ stat_below (find ns front) back
]

abbrev pub type_of : Node → FileType
type_of (dir readable ns) = directory
type_of (link target) = symlink
type_of file = regular

abbrev pub lstat_found : Option Node → Answer FileType
lstat_found none = failed noent
lstat_found (some node) = got (type_of node)

abbrev pub open_found : Option Node → Answer Nodes
open_found (some (dir true ns)) = got ns
open_found (some (dir false ns)) = failed acces
open_found (some (link target)) = failed loop
open_found (some file) = failed notdir
open_found none = failed noent

-- Every component but the last has to be a directory, and the last one readable.
abbrev pub open_from : Option Node → List Bytes → Answer Nodes
open_from node [] = open_found node
open_from (some (dir readable ns)) (name ∷ more) = open_from (find ns name) more
open_from (some (link target)) (name ∷ more) = failed notdir
open_from (some file) (name ∷ more) = failed notdir
open_from none (name ∷ more) = failed noent

-- What `readdir` reports where the file system has no types.
abbrev pub reported : Bool → FileType → FileType
reported typed type = if typed then type else untyped

abbrev pub listing : Bool → Nodes → List (Bytes × FileType)
listing typed nil = []
listing typed (entry name node rest) = (name, reported typed (type_of node)) ∷ listing typed rest

abbrev pub stream_of : Bool → Nodes → List (Bytes × FileType)
stream_of typed ns =
    (codes ".", reported typed directory)
    ∷ (codes "..", reported typed directory)
    ∷ listing typed ns

-- The kernel on the tree below `root`; `typed` says whether `readdir` reports types.
abbrev pub os_of : Nodes → Bool → (Nodes → Option Mtime) → Os
os_of root typed fstat = record {
  Fd = Nodes;
  open_rel = λ rel. open_from (some (dir true root)) (split b'/' rel);
  open_child = λ ns name. open_found (find ns name);
  read_dir = λ ns. whole (stream_of typed ns);
  fstat = fstat;
  lstat = λ ns name. lstat_found (find ns name);
  stat = stat_path;
}

abbrev pub resolves : Option Node → Bool
resolves none = false
resolves (some (dir readable ns)) = true
resolves (some (link dangling)) = false
resolves (some (link to_file)) = true
resolves (some (link (to_dir git))) = true
resolves (some file) = true

abbrev pub git_there : Nodes → Bool
git_there ns = resolves (find ns (codes ".git"))

abbrev pub leads_to_repo : Bytes → Target → Bool
leads_to_repo name dangling = false
leads_to_repo name to_file = false
leads_to_repo name (to_dir git) = ends_with (codes ".git") name || git

abbrev pub one_if : Bool → Bytes → List Bytes
one_if true rel = shown_rel rel ∷ []
one_if false rel = []

-- The repositories below a directory, by the rules alone: a directory with a `.git` that resolves is
-- one, and nothing below it is; so is a directory or a link to a directory that is named `*.git`,
-- and a link to a directory with a `.git`. Excluded paths are passed over.
unfoldable mutual
  pub found_in : List (Bytes → Bool) → Bytes → Nodes → List Bytes
  found_in exclude rel nil = []
  found_in exclude rel (entry name node rest) =
      found_node exclude (join_rel rel name) name node ++ found_in exclude rel rest

  pub found_node : List (Bytes → Bool) → Bytes → Bytes → Node → List Bytes
  found_node exclude rel name (dir readable ns) =
      let below = if readable then found_in exclude rel ns else [] in
      if is_excluded exclude rel
      then []
      else if ends_with (codes ".git") name || git_there ns
      then shown_rel rel ∷ []
      else below
  found_node exclude rel name (link target) =
      if is_excluded exclude rel then [] else one_if (leads_to_repo name target) rel
  found_node exclude rel name file = []

unfoldable pub found_dir : List (Bytes → Bool) → Bytes → Nodes → List Bytes
found_dir exclude rel ns = if git_there ns then shown_rel rel ∷ [] else found_in exclude rel ns

-- How many directories there are below one, and with a node.
unfoldable mutual
  pub dirs_in : Nodes → ℕ
  dirs_in nil = 0
  dirs_in (entry name node rest) = dirs_of node + dirs_in rest

  pub dirs_of : Node → ℕ
  dirs_of (dir readable ns) = suc (dirs_in ns)
  dirs_of (link target) = 0
  dirs_of file = 0

-- A name of the file system.
abbrev pub IsName : Bytes → Type 0
IsName name =
    (is_empty name ≡ false)
    × (is_dots name ≡ false)
    × (contains 0 name ≡ false)
    × (contains b'/' name ≡ false)

-- Names are names, no directory has one twice, and each directory's come to fewer than 2^32 bytes.
unfoldable mutual
  pub AllNamed : Nodes → Type 0
  AllNamed nil = Unit
  AllNamed (entry name node rest) =
      IsName name × (find rest name ≡ none) × IsNamed node × AllNamed rest

  pub IsNamed : Node → Type 0
  IsNamed (dir readable ns) = AllNamed ns × (names_length (stream_of true ns) < 2 ^ 32)
  IsNamed (link target) = Unit
  IsNamed file = Unit

-- Every directory can be read.
unfoldable mutual
  pub AllReadable : Nodes → Type 0
  AllReadable nil = Unit
  AllReadable (entry name node rest) = IsReadable node × AllReadable rest

  pub IsReadable : Node → Type 0
  IsReadable (dir readable ns) = (readable ≡ true) × AllReadable ns
  IsReadable (link target) = Unit
  IsReadable file = Unit
