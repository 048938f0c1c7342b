-- ===== src/Startup.antt =====
-- src/lib.rs and src/cli.rs: the filter of the log, and the command that a run comes to.
use scap.Base.{
  Bool, true, false, Option, none, some, List, [], ◌∷◌, ◌++◌, ◌≡◌, refl, sym, ap, if◌then◌else◌,
  inl, inr, Bool-cases, Option-cases, all,
}
use scap.Base.Bytes.{Bytes, codes}
use scap.Create.{CreateArgs}
use scap.Get.Run.{GetArgs}
use scap.Listing.{ListArgs}
use scap.Remove.{RmArgs}

-- A filter of directives, or the bare level.
pub data Filter : Type 0 where
  directives : Bytes → Filter
  warn_level : Filter

-- `env` is the environment, where a value that is not UTF-8 is as good as none, and `parses` tells
-- whether the library takes a text for directives.
module _ (env : Bytes → Option Bytes) (parses : Bytes → Bool) where
  -- `get_or_insert`
  abbrev pub or_first : Option Bytes → Bytes → Option Bytes
  or_first none value = some value
  or_first (some first) value = some first

  unfoldable pub resolve_from : List Bytes → Option Bytes → Option Bytes × Option Bytes
  resolve_from [] invalid = (none, invalid)
  resolve_from (var ∷ vars) invalid = elim (env var) [
    | none ↦ resolve_from vars invalid
    | some value ↦
        let later = resolve_from vars (or_first invalid value) in
        if parses value then (some value, none) else later
  ]

  abbrev pub log_vars : List Bytes
  log_vars = codes "SCAP_LOG" ∷ codes "RUST_LOG" ∷ []

  unfoldable pub resolve_log_env : Option Bytes × Option Bytes
  resolve_log_env = resolve_from log_vars none

  unfoldable pub build_subscriber : Option Bytes → Filter
  build_subscriber none = warn_level
  build_subscriber (some text) = if parses text then directives text else warn_level

  -- A variable that is not set, or holds what does not parse.
  abbrev pub is_useless : Bytes → Bool
  is_useless var = elim (env var) [
    | none ↦ true
    | some value ↦ if parses value then false else true
  ]

  abbrev pub first_set : Option Bytes → List Bytes → Option Bytes
  first_set invalid [] = invalid
  first_set invalid (var ∷ vars) = elim (env var) [
    | none ↦ first_set invalid vars
    | some value ↦ first_set (or_first invalid value) vars
  ]

  -- The first useful variable, or the report of the first one that is set.
  pub data IsResolved (vars : List Bytes) (invalid : Option Bytes)
      : Option Bytes × Option Bytes → Type 0 where
    useful :
        (front : List Bytes) (var : Bytes) (back : List Bytes) (value : Bytes)
        → vars ≡ front ++ (var ∷ back)
        → all is_useless front ≡ true
        → env var ≡ some value
        → parses value ≡ true
        → IsResolved vars invalid (some value, none)
    useless : all is_useless vars ≡ true → IsResolved vars invalid (none, first_set invalid vars)

  IsResolved-cons :
      (var : Bytes) (vars : List Bytes) (invalid first : Option Bytes)
      {r : Option Bytes × Option Bytes}
      → is_useless var ≡ true
      → first_set invalid (var ∷ vars) ≡ first_set first vars
      → IsResolved vars first r
      → IsResolved (var ∷ vars) invalid r
  IsResolved-cons var vars invalid first u e (useful front v back value s a h p) =
      useful (var ∷ front) v back value (ap (◌∷◌ var) s) (rw (u, a) refl) h p
  IsResolved-cons var vars invalid first u e (useless a) = rw (sym e) (useless (rw (u, a) refl))

  resolve_from-IsResolved :
      (vars : List Bytes) (invalid : Option Bytes)
      → IsResolved vars invalid (resolve_from vars invalid)
  unfolding resolve_from
  resolve_from-IsResolved [] invalid = useless refl
  resolve_from-IsResolved (var ∷ vars) invalid = elim (Option-cases (env var)) [
    | inl unset ↦
        rw (resolve_from, unset)
          (IsResolved-cons var vars invalid invalid (rw (is_useless, unset) refl)
            (rw (first_set, unset) refl) (resolve_from-IsResolved vars invalid))
    | inr (value, is_set) ↦ elim (Bool-cases (parses value)) [
      | inl good ↦ rw (resolve_from, is_set, good) (useful [] var vars value refl refl is_set good)
      | inr bad ↦
          rw (resolve_from, is_set, bad)
            (IsResolved-cons var vars invalid (or_first invalid value)
              (rw (is_useless, is_set, bad) refl) (rw (first_set, is_set) refl)
              (resolve_from-IsResolved vars (or_first invalid value)))
    ]
  ]

  -- The filter of the log is that of the first of the two variables that is set to what parses, and
  -- nothing is reported then; or it is the bare level, and what the first set variable holds, if one
  -- is set, is reported.
  pub resolve_log_env-IsResolved : IsResolved log_vars none resolve_log_env
  unfolding resolve_log_env
  resolve_log_env-IsResolved = resolve_from-IsResolved log_vars none

-- `Cli`, and the runs that a command is handed to.
pub data Cmd : Type 0 where
  get : GetArgs → Cmd
  list : ListArgs → Cmd
  rm : RmArgs → Cmd
  root : Bool → Cmd
  create : CreateArgs → Cmd

pub record Runs (Out : Type 0) : Type 0 where
  pub run_get : GetArgs → Out
  pub run_list : ListArgs → Out
  pub run_rm : RmArgs → Out
  pub run_root : Bool → Out
  pub run_create : CreateArgs → Out

unfoldable pub dispatch : {Out : Type 0} → Runs Out → Cmd → Out
dispatch runs (get args) = runs.run_get args
dispatch runs (list args) = runs.run_list args
dispatch runs (rm args) = runs.run_rm args
dispatch runs (root all) = runs.run_root all
dispatch runs (create args) = runs.run_create args
