-- ===== src/Config/Roots/Memo.antt =====
-- `urlmatch`: one answer of `git config --get-urlmatch` per url, remembered for the process.
use scap.Base.{
  ℕ, suc, Bool, false, Option, none, some, List, [], ◌∷◌, if◌then◌else◌, is_empty, ◌≡◌, refl, ap,
  ◌∙◌, inl, inr, ◌⊎◌, Bool-cases,
}
use scap.Base.Int.{ℤ, pos, negsuc, int_eq}
use scap.Base.Bytes.{Bytes, bytes_eq, bytes_eq_refl, bytes_eq→≡}
use scap.Config.{Result, ok, err, git_required, git_spawn, git_config_failed, invalid_utf8}

-- What a process that ran leaves: its exit code, none after a signal, and its standard output.
pub record Output : Type 0 where
  pub code : Option ℤ
  pub stdout : Bytes

-- The machine at one lookup: whether a `git` is on the path, what running it gives, and the text
-- functions of the standard library.
pub record Git : Type 0 where
  pub program : Option Bytes
  pub run : Bytes → Bytes → Option Output
  pub is_utf8 : Bytes → Bool
  pub trim : Bytes → Bytes

pub record UrlmatchMemo : Type 0 where
  pub cells : List (Bytes × Option (Option Bytes))
  pub spawns : ℕ

-- The entry of a url: none where the url has no cell or its cell is empty.
abbrev pub slot : List (Bytes × Option (Option Bytes)) → Bytes → Option (Option Bytes)
slot [] url = none
slot (cell ∷ cells) url = let rest = slot cells url in if bytes_eq cell.0 url then cell.1 else rest

abbrev pub fill :
    List (Bytes × Option (Option Bytes))
    → Bytes
    → Option (Option Bytes)
    → List (Bytes × Option (Option Bytes))
fill [] url answer = (url, answer) ∷ []
fill (cell ∷ cells) url answer =
    let rest = fill cells url answer in
    if bytes_eq cell.0 url then (url, answer) ∷ cells else cell ∷ rest

abbrev path_of : Bytes → Option Bytes
path_of trimmed = if is_empty trimmed then none else some trimmed

-- What the exit code makes of the output.
unfoldable pub read_output : Git → Output → Result (Option Bytes)
read_output git output = elim output.code [
  | none ↦ err (git_config_failed (negsuc 0))
  | some status ↦
      if int_eq status (pos 0)
      then if git.is_utf8 output.stdout
        then ok (path_of (git.trim output.stdout))
        else err invalid_utf8
      else if int_eq status (pos 1)
      then ok none
      else err (git_config_failed status)
]

-- The count goes up once the process has run.
unfoldable pub urlmatch_spawn : Git → Bytes → ℕ → Result (Option Bytes) × ℕ
urlmatch_spawn git url spawns = elim git.program [
  | none ↦ (err git_required, spawns)
  | some program ↦ elim (git.run program url) [
    | none ↦ (err git_spawn, spawns)
    | some output ↦ (read_output git output, suc spawns)
  ]
]

abbrev or_default :
    List (Bytes × Option (Option Bytes)) → Bytes → List (Bytes × Option (Option Bytes))
or_default cells url = fill cells url (slot cells url)

abbrev settle :
    List (Bytes × Option (Option Bytes))
    → Bytes
    → Result (Option Bytes) × ℕ
    → Result (Option Bytes) × UrlmatchMemo
settle cells url (err e, spawns) = (err e, record { cells = cells; spawns = spawns })
settle cells url (ok answer, spawns) =
    (ok answer, record { cells = fill cells url (some answer); spawns = spawns })

-- A slot that holds an answer gives it; an empty one is settled by a process.
abbrev from_slot :
    List (Bytes × Option (Option Bytes))
    → Bytes
    → ℕ
    → Option (Option Bytes)
    → Result (Option Bytes) × ℕ
    → Result (Option Bytes) × UrlmatchMemo
from_slot cells url spawns (some answer) spawned =
    (ok answer, record { cells = cells; spawns = spawns })
from_slot cells url spawns none spawned = settle cells url spawned

unfoldable pub urlmatch : Git → UrlmatchMemo → Bytes → Result (Option Bytes) × UrlmatchMemo
urlmatch git memo url =
    let cells = or_default memo.cells url in
    from_slot cells url memo.spawns (slot cells url) (urlmatch_spawn git url memo.spawns)

-- A run of lookups, each with the machine as it is at that time.
unfoldable pub lookups : UrlmatchMemo → List (Git × Bytes) → UrlmatchMemo
lookups memo [] = memo
lookups memo (l ∷ ls) = lookups (urlmatch l.0 memo l.1).1 ls

slot-fill_same :
    (cells : List (Bytes × Option (Option Bytes))) (url : Bytes) (answer : Option (Option Bytes))
    → slot (fill cells url answer) url ≡ answer
slot-fill_same [] url answer = rw (bytes_eq_refl url)
slot-fill_same (cell ∷ cells) url answer = elim (Bool-cases (bytes_eq cell.0 url)) [
  | inl e ↦ rw (e, bytes_eq_refl url)
  | inr e ↦ rw (e, slot-fill_same cells url answer, e)
]

slot-fill_other :
    (cells : List (Bytes × Option (Option Bytes))) (url other : Bytes)
    (answer : Option (Option Bytes))
    → bytes_eq other url ≡ false
    → slot (fill cells other answer) url ≡ slot cells url
slot-fill_other [] url other answer ne = rw ne
slot-fill_other (cell ∷ cells) url other answer ne = elim (Bool-cases (bytes_eq cell.0 other)) [
  | inl e ↦
      let same : bytes_eq cell.0 url ≡ false =
        ap (λ k. bytes_eq k url) (bytes_eq→≡ cell.0 other e) ∙ ne in
      rw (e, ne, same)
  | inr e ↦ rw (e, slot-fill_other cells url other answer ne)
]

-- A remembered answer survives a fill that keeps its value.
slot-or_default :
    (cells : List (Bytes × Option (Option Bytes))) (other url : Bytes)
    → slot (or_default cells other) url ≡ slot cells url
slot-or_default cells other url = elim (Bool-cases (bytes_eq other url)) [
  | inl e ↦
      let same = bytes_eq→≡ other url e in
      ap (λ k. slot (or_default cells k) url) same ∙ slot-fill_same cells url (slot cells url)
  | inr e ↦ slot-fill_other cells url other (slot cells other) e
]

-- An answer in the memo is what the next lookup gives, with no process.
urlmatch-known :
    (git : Git) (memo : UrlmatchMemo) (url : Bytes) {answer : Option Bytes}
    → slot memo.cells url ≡ some answer
    → ((urlmatch git memo url).0 ≡ ok answer) × ((urlmatch git memo url).1.spawns ≡ memo.spawns)
unfolding urlmatch
urlmatch-known git memo url known =
    rw (slot-or_default memo.cells url url ∙ known, urlmatch, from_slot) (refl, refl)

-- Settling keeps the answers of the other urls.
settle-keeps :
    (cells : List (Bytes × Option (Option Bytes))) (other url : Bytes)
    (spawned : Result (Option Bytes) × ℕ)
    → bytes_eq other url ≡ false
    → slot (settle cells other spawned).1.cells url ≡ slot cells url
settle-keeps cells other url (err e, spawns) ne = refl
settle-keeps cells other url (ok answer, spawns) ne =
    slot-fill_other cells url other (some answer) ne

from_slot-keeps :
    (cells : List (Bytes × Option (Option Bytes))) (other url : Bytes) (spawns : ℕ)
    (found : Option (Option Bytes)) (spawned : Result (Option Bytes) × ℕ)
    → (bytes_eq other url ≡ false) ⊎ ((answer : Option Bytes) × (found ≡ some answer))
    → slot (from_slot cells other spawns found spawned).1.cells url ≡ slot cells url
from_slot-keeps cells other url spawns (some answer) spawned h = refl
from_slot-keeps cells other url spawns none spawned (inl ne) =
    settle-keeps cells other url spawned ne
from_slot-keeps cells other url spawns none spawned (inr (answer, e)) = cc

urlmatch-keeps :
    (git : Git) (memo : UrlmatchMemo) (other url : Bytes) {answer : Option Bytes}
    → slot memo.cells url ≡ some answer
    → slot (urlmatch git memo other).1.cells url ≡ some answer
unfolding urlmatch
urlmatch-keeps git memo other url {answer} known =
    let cells = or_default memo.cells other in
    let kept : slot cells url ≡ some answer = slot-or_default memo.cells other url ∙ known in
    let spawned = urlmatch_spawn git other memo.spawns in
    let safe : (bytes_eq other url ≡ false) ⊎ ((a : Option Bytes) × (slot cells other ≡ some a)) =
      elim (Bool-cases (bytes_eq other url)) [
        | inl e ↦ inr (answer, ap (slot cells) (bytes_eq→≡ other url e) ∙ kept)
        | inr ne ↦ inl ne
      ] in
    from_slot-keeps cells other url memo.spawns (slot cells other) spawned safe ∙ kept

from_slot-fills :
    (cells : List (Bytes × Option (Option Bytes))) (url : Bytes) (spawns : ℕ)
    (found : Option (Option Bytes)) (spawned : Result (Option Bytes) × ℕ) {answer : Option Bytes}
    → slot cells url ≡ found
    → (from_slot cells url spawns found spawned).0 ≡ ok answer
    → slot (from_slot cells url spawns found spawned).1.cells url ≡ some answer
from_slot-fills cells url spawns (some a) spawned h e = cc
from_slot-fills cells url spawns none (err x, n) h e = cc
from_slot-fills cells url spawns none (ok a, n) h e = slot-fill_same cells url (some a) ∙ cc

urlmatch-fills :
    (git : Git) (memo : UrlmatchMemo) (url : Bytes) {answer : Option Bytes}
    → (urlmatch git memo url).0 ≡ ok answer
    → slot (urlmatch git memo url).1.cells url ≡ some answer
unfolding urlmatch
urlmatch-fills git memo url e =
    let cells = or_default memo.cells url in
    from_slot-fills cells url memo.spawns (slot cells url) (urlmatch_spawn git url memo.spawns) refl
      e

lookups-keeps :
    (ls : List (Git × Bytes)) (memo : UrlmatchMemo) (url : Bytes) {answer : Option Bytes}
    → slot memo.cells url ≡ some answer
    → slot (lookups memo ls).cells url ≡ some answer
unfolding lookups
lookups-keeps [] memo url known = known
lookups-keeps (l ∷ ls) memo url known =
    lookups-keeps ls (urlmatch l.0 memo l.1).1 url (urlmatch-keeps l.0 memo l.1 url known)

-- Once a lookup of a url has succeeded, every later lookup of it gives the same answer and runs no
-- process, whatever lookups stand between and whatever the machine would answer by then.
pub urlmatch-stable :
    (git later : Git) (memo : UrlmatchMemo) (url : Bytes) (between : List (Git × Bytes))
    {answer : Option Bytes}
    → (urlmatch git memo url).0 ≡ ok answer
    → ((urlmatch later (lookups (urlmatch git memo url).1 between) url).0 ≡ ok answer)
      × ((urlmatch later (lookups (urlmatch git memo url).1 between) url).1.spawns
          ≡ (lookups (urlmatch git memo url).1 between).spawns)
urlmatch-stable git later memo url between e =
    urlmatch-known later (lookups (urlmatch git memo url).1 between) url
      (lookups-keeps between (urlmatch git memo url).1 url (urlmatch-fills git memo url e))
