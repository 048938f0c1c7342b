-- ===== src/Walk/Children.antt =====
-- The reader at a child directory of the still tree: what it lists or queues for it.
use scap.Base.{
  suc, ◌≡◌, refl, ap, ◌∙◌, Bool, true, false, Option, some, [], ◌∷◌, if◌then◌else◌, ◌⊎◌, inl, inr,
  Bool-cases,
}
use scap.Base.Bytes.{Bytes, codes, ends_with}
use scap.Walk.Sys.{
  Mtime, Os, Ctx, DetectStrategy, open_scan, stat_first, is_stat_first, shown_rel, is_excluded,
  join_rel,
}
use scap.Walk.Reader.{Reading, read_child_dir}
use scap.Walk.Tree.{
  dirs_in, Nodes, dir, find, os_of, git_there, found_in, found_node, found_dir, IsName, IsReadable,
}
use scap.Walk.Ledger.{IsScannable, IsSmall, IsPlace, IsFine, Adds, HasRoom, Adds-same, Adds-emitted}
use scap.Walk.Queued.{has_git-dir, Adds-eq, IsSettled, of_child, queued-Adds}

strategy : (detect : DetectStrategy) → (detect ≡ open_scan) ⊎ (detect ≡ stat_first)
strategy open_scan = inl refl
strategy stat_first = inr refl

module _ (root : Nodes) (typed : Bool) (fstat : Nodes → Option Mtime) (ctx : Ctx) where
  abbrev disk : Os
  disk = os_of root typed fstat

  IsScannable-settled :
      (readable : Bool) (below : Nodes)
      → ctx.detect ≡ open_scan
      → (ctx.detect ≡ stat_first) ⊎ IsReadable (dir readable below)
      → readable ≡ true
  unfolding IsReadable
  IsScannable-settled readable below scan (inl first) = absurd cc
  IsScannable-settled readable below scan (inr able) = able.0

  below-IsScannable :
      (readable : Bool) (below : Nodes)
      → (ctx.detect ≡ stat_first) ⊎ IsReadable (dir readable below)
      → IsScannable ctx.detect below
  unfolding IsReadable
  below-IsScannable readable below (inl first) = inl first
  below-IsScannable readable below (inr able) = inr able.1

  of_child-plain :
      (readable : Bool) (child : Bytes) (below : Nodes)
      → git_there below ≡ false
      → of_child root typed fstat ctx readable child below
        ≡ (if readable then found_in ctx.exclude child below else [])
  unfolding found_dir
  of_child-plain true child below h = rw h refl
  of_child-plain false child below h = refl

  of_child-repo :
      (readable : Bool) (child : Bytes) (below : Nodes)
      → readable ≡ true
      → git_there below ≡ true
      → of_child root typed fstat ctx readable child below ≡ shown_rel child ∷ []
  unfolding found_dir
  of_child-repo true child below h k = rw k refl
  of_child-repo false child below h k = absurd cc

  pub read_child_dir-Adds :
      (rel name : Bytes) (ns below : Nodes) (readable : Bool) (r : Reading disk)
      → IsPlace root typed fstat ctx rel ns
      → IsName name
      → find ns name ≡ some (dir readable below)
      → IsSmall below
      → (ctx.detect ≡ stat_first) ⊎ IsReadable (dir readable below)
      → IsFine root typed fstat ctx r
      → HasRoom root typed fstat ctx r
          (found_node ctx.exclude (join_rel rel name) name (dir readable below))
      → Adds root typed fstat ctx
          (suc (dirs_in below))
          r
          (found_node ctx.exclude (join_rel rel name) name (dir readable below))
          (read_child_dir disk ctx ns name (join_rel rel name) r)
  unfolding read_child_dir found_node found_dir
  read_child_dir-Adds rel name ns below readable r place named here small able h room =
      let child = join_rel rel name in
      let scannable = below-IsScannable readable below able in
      let queued = λ (settle : IsSettled root typed fstat ctx readable below).
        queued-Adds root typed fstat ctx rel name ns below readable r place named here small
          scannable settle h in
      elim (Bool-cases (is_excluded ctx.exclude child)) [
        | inl excluded ↦ rw excluded (Adds-same root typed fstat ctx _ r _ h (λ f. refl) refl)
        | inr listed ↦ elim (Bool-cases (ends_with (codes ".git") name)) [
          | inl bare ↦
              rw (listed, bare)
                (Adds-emitted root typed fstat ctx _ child r h
                  (rw (found_node, listed, bare) at room))
          | inr plain ↦
              let probe = has_git-dir root typed fstat ctx ns name readable below named here in
              elim (Bool-cases (git_there below)) [
                | inl git ↦ elim (strategy ctx.detect) [
                  | inl scan ↦
                      rw (listed, plain, git, ap is_stat_first scan)
                        (Adds-eq root typed fstat ctx _ r _
                          (of_child-repo readable child below
                            (IsScannable-settled readable below scan able) git)
                          (queued (inl (IsScannable-settled readable below scan able))))
                  | inr first ↦
                      rw (listed, plain, git, ap is_stat_first first, probe ∙ ap some git)
                        (Adds-emitted root typed fstat ctx _ child r h
                          (rw (found_node, listed, plain, git) at room))
                ]
                | inr bare ↦
                    let tail =
                      Adds-eq root typed fstat ctx _ r _ (of_child-plain readable child below bare)
                        (queued (inr bare)) in
                    elim (strategy ctx.detect) [
                      | inl scan ↦ rw (listed, plain, bare, ap is_stat_first scan) tail
                      | inr first ↦
                          rw (listed, plain, bare, ap is_stat_first first, probe ∙ ap some bare)
                            tail
                    ]
              ]
        ]
      ]
