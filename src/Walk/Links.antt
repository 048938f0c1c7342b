-- ===== src/Walk/Links.antt =====
-- The reader at a link of the still tree.
use scap.Base.{
  ◌≡◌, refl, Bool, true, false, Option, some, ◌++◌, if◌then◌else◌, arith, inl, inr, Bool-cases,
}
use scap.Base.Bytes.{Bytes, codes, contains, ends_with}
use scap.Base.Split.{contains-append}
use scap.Walk.Entries.{FileType}
use scap.Walk.Sys.{failed, got, noent, Mtime, Os, Ctx, is_got, is_excluded}
use scap.Walk.Reader.{Reading, emitted, has_git, linked, read_symlink}
use scap.Walk.Tree.{
  Nodes, link, Target, dangling, to_file, to_dir, find, os_of, leads_to_repo, one_if, stat_link,
  found_node, IsName,
}
use scap.Walk.Lookup.{stat_path-name, stat_path-below, cstr-some}
use scap.Walk.Ledger.{IsFine, Adds, HasRoom, Adds-same, Adds-emitted}

module _ (root : Nodes) (typed : Bool) (fstat : Nodes → Option Mtime) (ctx : Ctx) where
  abbrev disk : Os
  disk = os_of root typed fstat

  -- Behind a link to a directory the probe of `.git` answers what the link says.
  has_git-link :
      (ns : Nodes) (name : Bytes) (git : Bool)
      → IsName name
      → find ns name ≡ some (link (to_dir git))
      → has_git disk ns name ≡ some git
  has_git-link ns name git named here =
      let clean : contains 0 (name ++ codes "/.git") ≡ false =
        rw (contains-append 0 name (codes "/.git")) (ground (arith, named.2)) in
      rw
        (
          cstr-some (name ++ codes "/.git") clean,
          stat_path-below ns name (codes ".git") named.3,
          here,
        )
        (answered_git git)
    where
      answered_git :
          (git : Bool)
          → ◌≡◌ {A = Option Bool}
              (some (is_got (if git then got FileType.directory else failed noent)))
              (some git)
      answered_git true = refl
      answered_git false = refl

  behind :
      (rel : Bytes) (git : Bool) (r : Reading disk)
      → IsFine root typed fstat ctx r
      → HasRoom root typed fstat ctx r (one_if git rel)
      → Adds root typed fstat ctx 0 r (one_if git rel) (if git then emitted disk rel r else some r)
  behind rel true r h room = Adds-emitted root typed fstat ctx _ rel r h room
  behind rel false r h room = Adds-same root typed fstat ctx _ r r h (λ f. refl) refl

  pub read_symlink-Adds :
      (rel name : Bytes) (ns : Nodes) (target : Target) (r : Reading disk)
      → IsName name
      → find ns name ≡ some (link target)
      → IsFine root typed fstat ctx r
      → HasRoom root typed fstat ctx r (found_node ctx.exclude rel name (link target))
      → Adds root typed fstat ctx 0 r
          (found_node ctx.exclude rel name (link target))
          (read_symlink disk ctx ns name rel r)
  unfolding read_symlink found_node
  read_symlink-Adds rel name ns target r named here h room =
      elim (Bool-cases (is_excluded ctx.exclude rel)) [
        | inl excluded ↦ rw excluded (Adds-same root typed fstat ctx _ r _ h (λ f. refl) refl)
        | inr listed ↦
            rw (listed, cstr-some name named.2, stat_path-name ns name named.3, here)
              (followed target here (rw (found_node, listed) at room))
      ]
    where
      followed :
          (target : Target)
          → find ns name ≡ some (link target)
          → HasRoom root typed fstat ctx r (one_if (leads_to_repo name target) rel)
          → Adds root typed fstat ctx 0 r
              (one_if (leads_to_repo name target) rel)
              (linked disk ctx ns name rel r (stat_link target))
      followed dangling found room = Adds-same root typed fstat ctx _ r r h (λ f. refl) refl
      followed to_file found room = Adds-same root typed fstat ctx _ r r h (λ f. refl) refl
      followed (to_dir git) found room = elim (Bool-cases (ends_with (codes ".git") name)) [
        | inl bare ↦ rw bare (Adds-emitted root typed fstat ctx _ rel r h (rw bare at room))
        | inr plain ↦
            rw (plain, has_git-link ns name git named found) (behind rel git r h (rw plain at room))
      ]
