-- ===== src/Config/Snapshot.antt =====
-- The snapshot from a parsed file: `from_file`, `boolean_of` and the overrides by variables.
use scap.Base.{
  Bool, true, false, not, ◌&&◌, Option, none, some, List, [], ◌∷◌, ◌++◌, if◌then◌else◌, is_empty,
}
use scap.Base.Bytes.{Bytes, codes, strip_suffix, split, eq_ignore_ascii_case}
use scap.Config.{Env, Backend, Reason, ConfigSnapshot, GixSection, GixFile}
use scap.Config.Boolean.{git_boolean}

-- `filter_map`
abbrev pub filter_map : (Bytes → Option Bytes) → List Bytes → List Bytes
filter_map f [] = []
filter_map f (x ∷ xs) = let rest = filter_map f xs in elim (f x) [ none ↦ rest | some y ↦ y ∷ rest ]

unfoldable pub normalize_exclude : Bytes → Option Bytes
normalize_exclude pattern =
    let folded : Bytes = elim (strip_suffix (codes "/") pattern) [
      | none ↦ pattern
      | some front ↦ front
    ] in
    if is_empty folded then none else some folded

-- A variable that is set and not empty.
abbrev pub non_empty : Option Bytes → Option Bytes
non_empty none = none
non_empty (some []) = none
non_empty (some (b ∷ bs)) = some (b ∷ bs)

-- `split_paths` on unix.
abbrev pub split_paths : Bytes → List Bytes
split_paths value = split b':' value

-- `to_string_lossy` is `lossy`.
unfoldable pub effective_list_exclude : (Bytes → Bytes) → Env → List Bytes → List Bytes
effective_list_exclude lossy env from_config = elim (non_empty env.scap_list_exclude) [
  | none ↦ filter_map normalize_exclude from_config
  | some value ↦ filter_map (λ pattern. normalize_exclude (lossy pattern)) (split_paths value)
]

unfoldable pub effective_list_cache : Env → Bool → Bool
effective_list_cache env from_config = elim (non_empty env.scap_list_cache) [
  | none ↦ from_config
  | some value ↦ git_boolean (some value)
]

abbrev is_plain : Bytes → GixSection → Bool
is_plain section candidate =
    eq_ignore_ascii_case candidate.name section
    && elim candidate.subsection [ none ↦ true | some _ ↦ false ]

-- The loop over the sections: the last value wins.
unfoldable pub boolean_of : List GixSection → Bytes → Bytes → Option Bool → Option Bool
boolean_of [] section name found = found
boolean_of (candidate ∷ rest) section name found = boolean_of rest section name (
    if not (is_plain section candidate) then found else elim (candidate.value_implicit name) [
      | none ↦ found
      | some value ↦ some (git_boolean value)
    ])

abbrev or_false : Option Bool → Bool
or_false none = false
or_false (some b) = b

abbrev or_nil : Option (List Bytes) → List Bytes
or_nil none = []
or_nil (some vs) = vs

-- Interpolation, the trim of the user's name, and the decoding that they stand on.
pub record Values : Type 0 where
  pub interpolate : Bytes → Env → Option Bytes
  pub lossy : Bytes → Bytes
  pub trim : Bytes → Bytes

-- A value that cannot be interpolated keeps its spelling; an empty one is dropped.
unfoldable pub interpolate_value : Values → Env → Bytes → Option Bytes
interpolate_value v env value =
    if is_empty value
    then none
    else elim (v.interpolate value env) [ some p ↦ some p | none ↦ some (v.lossy value) ]

abbrev is_url_section : GixSection → Bool
is_url_section section =
    eq_ignore_ascii_case section.name (codes "scap")
    && elim section.subsection [ none ↦ false | some _ ↦ true ]

unfoldable pub url_roots : Values → Env → List GixSection → List Bytes
url_roots v env [] = []
url_roots v env (section ∷ rest) =
    (if is_url_section section
      then filter_map (interpolate_value v env) (section.values (codes "root"))
      else [])
    ++ url_roots v env rest

abbrev trimmed_user : Values → Option Bytes → Option Bytes
trimmed_user v none = none
trimmed_user v (some u) = some (v.trim (v.lossy u))

abbrev map_lossy : Values → List Bytes → List Bytes
map_lossy v [] = []
map_lossy v (x ∷ xs) = v.lossy x ∷ map_lossy v xs

abbrev file_reason : List Bytes → Reason
file_reason [] = Reason.plain
file_reason (r ∷ rs) = Reason.url_sections

abbrev no_file : GixFile
no_file = record { sections = []; strings = λ key. none; string = λ key. none }

-- With no file every value is the one that an empty file gives.
unfoldable pub from_file : Values → Option GixFile → Env → ConfigSnapshot
from_file v parsed env =
    let file : GixFile = elim parsed [ none ↦ no_file | some f ↦ f ] in
    let urls = url_roots v env file.sections in
    record {
      env = env;
      roots = filter_map (interpolate_value v env) (or_nil (file.strings (codes "scap.root")));
      url_scoped_roots = urls;
      user = trimmed_user v (file.string (codes "scap.user"));
      complete_user =
          or_false (boolean_of file.sections (codes "scap") (codes "completeUser") none);
      list_exclude =
          effective_list_exclude v.lossy env
            (map_lossy v (or_nil (file.strings (codes "scap.listExclude"))));
      list_cache =
          effective_list_cache env
            (or_false (boolean_of file.sections (codes "scap") (codes "listCache") none));
      backend = Backend.in_process;
      reason = file_reason urls;
    }
