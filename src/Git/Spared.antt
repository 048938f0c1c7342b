-- ===== src/Git/Spared.antt =====
-- Which directories the scan next to a destination gives up, and that a living process keeps its own.
use scap.Base.{
  append_cancel, IsIn, here, there, ltb, ℕ, ◌<◌, ◌^◌, Bool, true, false, not, Option, none, some,
  List, [], ◌∷◌, ◌++◌, ◌≡◌, ◌≢◌, refl, inl, inr, ◌↔◌, ap, sym, ◌∙◌, Bool-cases, Option-cases,
  >>=-eq-some, guard-eq-some, append_assoc, arith, is_empty, ◌||◌,
}
use scap.Base.Bytes.{Bytes, codes, strip_prefix, starts_with, ends_with}
use scap.Base.Split.{strip_prefix-append, strip_prefix-eq_some}
use scap.Base.Decimal.{parse_i32, decimal, parse_i32-decimal, i32_of}
use scap.Base.Int.{ℤ, pos}
use scap.RepoPath.{push}
use scap.Git.Stale.{
  Kill, pid_is_alive, left_over, collect_stale, stale_tmp_paths, stale_in, keep_some,
}

push_inj :
    (p a b : Bytes)
    → starts_with (codes "/") a ≡ false
    → starts_with (codes "/") b ≡ false
    → push p a ≡ push p b
    → a ≡ b
push_inj p a b ra rb h = elim (Bool-cases (is_empty p || ends_with (codes "/") p)) [
  | inl e ↦ append_cancel p a b (rw (ra, rb, e) at h)
  | inr e ↦ append_cancel (codes "/") a b (append_cancel p _ _ (rw (ra, rb, e) at h))
]

tmp_name_rel :
    (name s : Bytes)
    → starts_with (codes "/") name ≡ false
    → starts_with (codes "/") (name ++ (codes ".tmp-" ++ s)) ≡ false
tmp_name_rel [] s h = refl
tmp_name_rel (c ∷ cs) s h = h

-- The number behind the name is found in the path.
pub suffix_inj :
    (parent name s t : Bytes)
    → starts_with (codes "/") name ≡ false
    → push parent (name ++ (codes ".tmp-" ++ s)) ≡ push parent (name ++ (codes ".tmp-" ++ t))
    → s ≡ t
suffix_inj parent name s t rel h = append_cancel (codes ".tmp-") s t (
    append_cancel name _ _
      (push_inj parent _ _ (tmp_name_rel name s rel) (tmp_name_rel name t rel) h))

i32_of-eq : (pid : ℕ) {z : ℤ} → some z ≡ i32_of false pid → z ≡ pos pid
i32_of-eq pid h = elim (Bool-cases (ltb pid (2 ^ 31))) [
  | inl e ↦ let r : some _ ≡ some (pos pid) = rw e at h in cc
  | inr e ↦ let r : some _ ≡ none = rw e at h in cc
]

module _ (test_kill_process : ℕ → Kill) where
  -- An entry of the parent named for a number that is no living process.
  pub data LeftBehind (parent name : Bytes) (entries : List (Option Bytes)) : Bytes → Type 0 where
    left :
        (pid_str : Bytes) {pid : ℤ}
        → IsIn (some (name ++ (codes ".tmp-" ++ pid_str))) entries
        → parse_i32 pid_str ≡ some pid
        → pid_is_alive test_kill_process pid ≡ false
        → LeftBehind parent name entries (push parent (name ++ (codes ".tmp-" ++ pid_str)))

  not-eq_true : (b : Bool) → not b ≡ true → b ≡ false
  not-eq_true b h = ground arith

  some-inj : {a b : Bytes} → some a ≡ some b → a ≡ b
  some-inj h = cc

  weaken :
      (parent name : Bytes) (entry : Option Bytes) (entries : List (Option Bytes)) {path : Bytes}
      → LeftBehind parent name entries path
      → LeftBehind parent name (entry ∷ entries) path
  weaken parent name entry entries (left pid_str i p d) = left pid_str (there i) p d

  left_over-LeftBehind :
      (parent name : Bytes) (file_name : Bytes) (entries : List (Option Bytes)) {path : Bytes}
      → left_over test_kill_process parent (name ++ codes ".tmp-") file_name ≡ some path
      → LeftBehind parent name (some file_name ∷ entries) path
  left_over-LeftBehind parent name file_name entries {path} h =
      let prefix = name ++ codes ".tmp-" in
      let (pid_str, cut, h1) = >>=-eq-some (strip_prefix prefix file_name) _ h in
      let (pid, parsed, h2) = >>=-eq-some (parse_i32 pid_str) _ h1 in
      let (dead, e) = guard-eq-some (not (pid_is_alive test_kill_process pid)) _ h2 in
      let whole : file_name ≡ name ++ (codes ".tmp-" ++ pid_str) =
        strip_prefix-eq_some prefix file_name cut ∙ append_assoc name (codes ".tmp-") pid_str in
      let same : path ≡ push parent (name ++ (codes ".tmp-" ++ pid_str)) =
        some-inj (sym e) ∙ ap (push parent) whole in
      rw same (left pid_str (here (ap some (sym whole))) parsed (not-eq_true _ dead))

  LeftBehind-left_over :
      (parent name pid_str : Bytes) {pid : ℤ}
      → parse_i32 pid_str ≡ some pid
      → pid_is_alive test_kill_process pid ≡ false
      → left_over test_kill_process parent
          (name ++ codes ".tmp-")
          (name ++ (codes ".tmp-" ++ pid_str))
        ≡ some (push parent (name ++ (codes ".tmp-" ++ pid_str)))
  LeftBehind-left_over parent name pid_str p d =
      let cut : strip_prefix (name ++ codes ".tmp-") (name ++ (codes ".tmp-" ++ pid_str))
          ≡ some pid_str =
        ap (strip_prefix (name ++ codes ".tmp-")) (sym (append_assoc name (codes ".tmp-") pid_str))
        ∙ strip_prefix-append (name ++ codes ".tmp-") pid_str in
      rw (cut, p, d) refl

  collect_stale-LeftBehind :
      (parent name : Bytes) (entries : List (Option Bytes)) {path : Bytes}
      → IsIn path (collect_stale test_kill_process parent (name ++ codes ".tmp-") entries)
      → LeftBehind parent name entries path
  unfolding collect_stale
  collect_stale-LeftBehind parent name [] i = elim i [ ]
  collect_stale-LeftBehind parent name (none ∷ entries) i =
      weaken parent name none entries (collect_stale-LeftBehind parent name entries i)
  collect_stale-LeftBehind parent name (some file_name ∷ entries) {path} i =
      elim (Option-cases (left_over test_kill_process parent (name ++ codes ".tmp-") file_name)) [
        | inl e ↦
            weaken parent name _ entries
              (collect_stale-LeftBehind parent name entries {path = path} (rw (e, keep_some) at i))
        | inr (p, e) ↦ elim (rw (e, keep_some) at i) [
          | here same ↦ left_over-LeftBehind parent name file_name entries (e ∙ ap some (sym same))
          | there i1 ↦
              weaken parent name _ entries
                (collect_stale-LeftBehind parent name entries {path = path} i1)
        ]
      ]

  kept-IsIn :
      (found : Option Bytes) (paths : List Bytes) (path : Bytes)
      → IsIn path paths
      → IsIn path (keep_some test_kill_process found paths)
  kept-IsIn none paths path i = i
  kept-IsIn (some p) paths path i = there i

  LeftBehind-collect_stale :
      (parent name pid_str : Bytes) {pid : ℤ} (entries : List (Option Bytes))
      → IsIn (some (name ++ (codes ".tmp-" ++ pid_str))) entries
      → parse_i32 pid_str ≡ some pid
      → pid_is_alive test_kill_process pid ≡ false
      → IsIn
          (push parent (name ++ (codes ".tmp-" ++ pid_str)))
          (collect_stale test_kill_process parent (name ++ codes ".tmp-") entries)
  unfolding collect_stale
  LeftBehind-collect_stale parent name pid_str [] i p d = elim i [ ]
  LeftBehind-collect_stale parent name pid_str (entry ∷ entries) (there i) p d =
      kept-IsIn _ _ _ (LeftBehind-collect_stale parent name pid_str entries i p d)
  LeftBehind-collect_stale parent name pid_str (entry ∷ entries) (here e) p d =
      rw (sym e, LeftBehind-left_over parent name pid_str p d) (here refl)

  LeftBehind-IsIn :
      (parent name : Bytes) (entries : List (Option Bytes)) {path : Bytes}
      → LeftBehind parent name entries path
      → IsIn path (collect_stale test_kill_process parent (name ++ codes ".tmp-") entries)
  LeftBehind-IsIn parent name entries (left pid_str i p d) =
      LeftBehind-collect_stale parent name pid_str entries i p d

  -- Where the parent of the destination can be read, the scan gives up exactly the directories that
  -- are named for the destination, `.tmp-` and a number that is no living process.
  pub stale_tmp_paths_iff :
      (read_dir : Bytes → Option (List (Option Bytes))) (parent name : Bytes)
      (entries : List (Option Bytes)) (path : Bytes)
      → read_dir parent ≡ some entries
      → IsIn path (stale_tmp_paths test_kill_process read_dir (some parent) (some name))
        ↔ LeftBehind parent name entries path
  unfolding stale_tmp_paths
  stale_tmp_paths_iff read_dir parent name entries path h =
      rw (h, stale_in)
        (collect_stale-LeftBehind parent name entries, LeftBehind-IsIn parent name entries)

  living-not-LeftBehind :
      (parent name : Bytes) (entries : List (Option Bytes)) (pid : ℕ) {path : Bytes}
      → starts_with (codes "/") name ≡ false
      → pid < 2 ^ 32
      → pid_is_alive test_kill_process (pos pid) ≡ true
      → LeftBehind parent name entries path
      → path ≢ push parent (name ++ (codes ".tmp-" ++ decimal pid))
  living-not-LeftBehind parent name entries pid rel small alive (left pid_str {pid = pid1} i p d)
        e =
      let same : pid_str ≡ decimal pid = suffix_inj parent name pid_str (decimal pid) rel e in
      let read : some pid1 ≡ i32_of false pid =
        sym p ∙ ap parse_i32 same ∙ parse_i32-decimal pid small in
      let same_pid : pid1 ≡ pos pid = i32_of-eq pid read in cc

  -- The scan does not give up the temporary directory of a living process.
  pub living-spared :
      (read_dir : Bytes → Option (List (Option Bytes))) (parent name : Bytes) (pid : ℕ)
      → starts_with (codes "/") name ≡ false
      → pid < 2 ^ 32
      → pid_is_alive test_kill_process (pos pid) ≡ true
      → IsIn
          (push parent (name ++ (codes ".tmp-" ++ decimal pid)))
          (stale_tmp_paths test_kill_process read_dir (some parent) (some name))
      → ⊥
  unfolding stale_tmp_paths decimal
  living-spared read_dir parent name pid rel small alive i = elim (Option-cases (read_dir parent)) [
    | inl e ↦ elim (rw (e, stale_in) at i) [ ]
    | inr (entries, e) ↦
        living-not-LeftBehind parent name entries pid rel small alive
          ((stale_tmp_paths_iff read_dir parent name entries _ e).0 i) refl
  ]
