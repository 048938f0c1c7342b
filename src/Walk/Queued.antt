-- ===== src/Walk/Queued.antt =====
-- A child directory of the still tree that the reader queues: where its job stands, and what it has
-- to list.
use scap.Base.{
  ℕ, ◌<◌, arith, suc, ◌≡◌, refl, sym, ap, ◌∙◌, Bool, true, false, Option, none, some, List, [], ◌∷◌,
  ◌++◌, arith, ◌>>=◌, ◌⊎◌, inl, inr, leb, Bool-cases, is_empty,
}
use scap.Base.Bytes.{Bytes, codes, contains}
use scap.Base.Split.{contains-append}
use scap.Walk.Sys.{got, Mtime, Os, Ctx, join_rel}
use scap.Walk.Reader.{Reading, has_git, opened, queue_child, after_child}
use scap.Walk.Tree.{
  dirs_in, Nodes, Node, dir, find, open_found, os_of, git_there, found_dir, IsName,
}
use scap.Walk.Lookup.{
  stat_path-below, is_got-stat_path-git, open_from-join_rel, contains-join_rel, cstr-some, IsAt,
}
use scap.Walk.Ledger.{
  behind_job, IsScannable, IsSmall, IsPlace, opened_root, to_list, IsJob, IsFine, Adds, Adds-same,
  Adds-queued,
}

is_empty-join_rel :
    (rel name : Bytes) → is_empty name ≡ false → is_empty (join_rel rel name) ≡ false
unfolding join_rel
is_empty-join_rel [] name h = h
is_empty-join_rel (x ∷ rel) name h = refl

module _ (root : Nodes) (typed : Bool) (fstat : Nodes → Option Mtime) (ctx : Ctx) where
  abbrev disk : Os
  disk = os_of root typed fstat

  -- Below a directory that can be searched the probe of `.git` finds what a read would.
  pub has_git-dir :
      (ns : Nodes) (name : Bytes) (readable : Bool) (below : Nodes)
      → IsName name
      → find ns name ≡ some (dir readable below)
      → has_git disk ns name ≡ some (git_there below)
  has_git-dir ns name readable below named here =
      let clean : contains 0 (name ++ codes "/.git") ≡ false =
        rw (contains-append 0 name (codes "/.git")) (ground (arith, named.2)) in
      rw
        (
          cstr-some (name ++ codes "/.git") clean,
          stat_path-below ns name (codes ".git") named.3,
          here,
        )
        (ap some (is_got-stat_path-git below))

  opened_root-child :
      (rel name : Bytes) (ns : Nodes) (node : Node)
      → IsPlace root typed fstat ctx rel ns
      → IsName name
      → find ns name ≡ some node
      → opened_root root typed fstat ctx (join_rel rel name) ≡ open_found (some node)
  opened_root-child rel name ns node place named here =
      open_from-join_rel root rel name ns named.3 place.1 ∙ ap open_found here

  IsAt-opened :
      (rel : Bytes) (ns : Nodes)
      → is_empty rel ≡ false
      → opened_root root typed fstat ctx rel ≡ got ns
      → IsAt root rel ns
  IsAt-opened [] ns h e = absurd cc
  IsAt-opened (x ∷ rel) ns h e = e

  child-IsPlace :
      (rel name : Bytes) (ns below : Nodes)
      → IsPlace root typed fstat ctx rel ns
      → IsName name
      → find ns name ≡ some (dir true below)
      → IsSmall below
      → IsScannable ctx.detect below
      → IsPlace root typed fstat ctx (join_rel rel name) below
  child-IsPlace rel name ns below place named here small scannable = (
    contains-join_rel 0 rel name place.0 named.2 refl,
    IsAt-opened (join_rel rel name) below (is_empty-join_rel rel name named.0)
        (opened_root-child rel name ns (dir true below) place named here),
    small,
    scannable,
  )

  child-IsJob :
      (rel name : Bytes) (ns below : Nodes) (readable : Bool)
      → IsPlace root typed fstat ctx rel ns
      → IsName name
      → find ns name ≡ some (dir readable below)
      → IsSmall below
      → IsScannable ctx.detect below
      → IsJob root typed fstat ctx none (join_rel rel name)
  child-IsJob rel name ns below true place named here small scannable = (
    contains-join_rel 0 rel name place.0 named.2 refl,
    λ ms e.
        let back = opened_root-child rel name ns (dir true below) place named here in
        let same : below ≡ ms = cc in
        rw (sym same) (child-IsPlace rel name ns below place named here small scannable),
  )
  child-IsJob rel name ns below false place named here small scannable = (
    contains-join_rel 0 rel name place.0 named.2 refl,
    λ ms e.
        let back = opened_root-child rel name ns (dir false below) place named here in absurd cc,
  )

  pub Adds-eq :
      (n : ℕ) (r : Reading disk) {xs ys : List Bytes} (result : Option (Reading disk))
      → xs ≡ ys
      → Adds root typed fstat ctx n r xs result
      → Adds root typed fstat ctx n r ys result
  Adds-eq n r result e h = rw (sym e) h

  -- The probe settles a directory that cannot be read.
  abbrev pub IsSettled : Bool → Nodes → Type 0
  IsSettled readable below = (readable ≡ true) ⊎ (git_there below ≡ false)

  -- What the queue gets for a child directory.
  abbrev pub of_child : Bool → Bytes → Nodes → List Bytes
  of_child true child below = found_dir ctx.exclude child below
  of_child false child below = []

  to_list-child :
      (rel name : Bytes) (ns below : Nodes) (readable : Bool)
      → IsPlace root typed fstat ctx rel ns
      → IsName name
      → find ns name ≡ some (dir readable below)
      → to_list root typed fstat ctx none (join_rel rel name)
        ≡ of_child readable (join_rel rel name) below
  to_list-child rel name ns below true place named here =
      rw (opened_root-child rel name ns (dir true below) place named here) refl
  to_list-child rel name ns below false place named here =
      rw (opened_root-child rel name ns (dir false below) place named here) refl

  behind_job-child :
      (rel name : Bytes) (ns below : Nodes) (readable : Bool)
      → IsPlace root typed fstat ctx rel ns
      → IsName name
      → find ns name ≡ some (dir readable below)
      → behind_job root typed fstat ctx none (join_rel rel name) < suc (dirs_in below)
  behind_job-child rel name ns below true place named here =
      rw (opened_root-child rel name ns (dir true below) place named here) (omega arith)
  behind_job-child rel name ns below false place named here =
      rw (opened_root-child rel name ns (dir false below) place named here) (omega arith)

  pub queued-Adds :
      (rel name : Bytes) (ns below : Nodes) (readable : Bool) (r : Reading disk)
      → IsPlace root typed fstat ctx rel ns
      → IsName name
      → find ns name ≡ some (dir readable below)
      → IsSmall below
      → IsScannable ctx.detect below
      → IsSettled readable below
      → IsFine root typed fstat ctx r
      → Adds root typed fstat ctx
          (suc (dirs_in below))
          r
          (of_child readable (join_rel rel name) below)
          (queue_child disk ctx ns name (join_rel rel name) r
            >>= after_child disk ctx (join_rel rel name))
  unfolding queue_child opened
  queued-Adds rel name ns below readable r place named here small scannable settle h =
      let by_path =
        Adds-queued root typed fstat ctx none (join_rel rel name) r.live_fds r h
          (child-IsJob rel name ns below readable place named here small scannable)
          (behind_job-child rel name ns below readable place named here) in
      elim (Bool-cases (leb ctx.fd_cap r.live_fds)) [
        | inl capped ↦
            rw capped
              (Adds-eq _ r _ (to_list-child rel name ns below readable place named here) by_path)
        | inr free ↦ rw (free, cstr-some name named.2, here) (at_once readable here settle)
      ]
    where
      at_once :
          (readable : Bool)
          → find ns name ≡ some (dir readable below)
          → IsSettled readable below
          → Adds root typed fstat ctx
              (suc (dirs_in below))
              r
              (of_child readable (join_rel rel name) below)
              (opened disk ns name (join_rel rel name) r (open_found (some (dir readable below)))
                >>= after_child disk ctx (join_rel rel name))
      at_once true found settle =
          Adds-queued root typed fstat ctx (some below) (join_rel rel name) (suc r.live_fds) r h
            (child-IsPlace rel name ns below place named found small scannable) (omega arith)
      at_once false found (inl readable_too) = absurd cc
      at_once false found (inr none_there) =
          rw (has_git-dir ns name false below named found, none_there)
            (Adds-same root typed fstat ctx _ r _ h (λ f. refl) refl)
