-- ===== src/Get/Run/There.antt =====
-- A run over targets whose repositories are there.
use scap.Base.{
  Bool, true, false, not, Option, none, some, List, [], ◌∷◌, ◌++◌, ◌≡◌, ◌≢◌, refl, inl, inr,
  Bool-cases, is_empty, if◌then◌else◌,
}
use scap.Base.Bytes.{Bytes}
use scap.Config
use scap.Git.{dest_is_git_repo}
use scap.Get.{Effective, Action, update_repo, Machine, finished, failed, process_dest, remote_of}
use scap.Get.Run.{
  World, ended, Outcome, failed_to_get, resolve, process_target, process_targets, stops,
  unless_stopped, at_resolved,
}
use scap.RepoPath.{dest_path}
use scap.Url.{Repo}
use scap.Url

-- The address that a repository is got from: the input itself for a path, else one of its URLs.
pub data IsRemote (args : Effective) (repo : Repo) : Bytes → Type 0 where
  of_path : repo.host ≡ [] → IsRemote args repo repo.original_input
  by_ssh : repo.host ≢ [] → args.ssh ≡ true → IsRemote args repo repo.ssh_url
  by_https : repo.host ≢ [] → args.ssh ≡ false → IsRemote args repo repo.https_url

is_empty-false : (bs : Bytes) → bs ≢ [] → is_empty bs ≡ false
is_empty-false [] h = absurd (h refl)
is_empty-false (b ∷ bs) h = refl

remote_of-IsRemote :
    (args : Effective) (repo : Repo) {remote : Bytes}
    → IsRemote args repo remote
    → remote_of args repo ≡ remote
unfolding remote_of
remote_of-IsRemote args repo (of_path h) = rw h refl
remote_of-IsRemote args repo (by_ssh h s) = rw (is_empty-false repo.host h, s) refl
remote_of-IsRemote args repo (by_https h s) = rw (is_empty-false repo.host h, s) refl

module _ (m : Machine) (w : World) (args : Effective) where
  -- Targets whose repositories are there, whatever is done meanwhile, with the address and the
  -- directory of each.
  pub data AreThere : List Bytes → List (Bytes × Bytes) → Type 0 where
    none_left : AreThere [] []
    there_too :
        {target : Bytes} {targets : List Bytes} {repo : Repo} {remote root : Bytes}
        {found : List (Bytes × Bytes)}
        → w.from_input target args.user args.complete_user ≡ Url.ok repo
        → IsRemote args repo remote
        → w.root_for_url remote ≡ Config.ok root
        → ((trace : List Action)
            → dest_is_git_repo (w.files trace) w.file_name (dest_path root repo args.bare) ≡ true)
        → AreThere targets found
        → AreThere (target ∷ targets) ((remote, dest_path root repo args.bare) ∷ found)

  -- The update of a repository, with its submodules unless these are declined.
  abbrev pub update_of : Bytes × Bytes → Action
  update_of (remote, dest) = update_repo remote dest (record {
    bare = args.bare;
    recursive = if args.no_recursive then false else true;
    silent = args.silent;
  })

  -- What is done for repositories that are there: nothing without `update`, else an update of each, up
  -- to the first that fails, which ends the run with an error that names its target.
  pub data Brings
      : List Bytes
        → List (Bytes × Bytes)
        → List Action
        → Option Outcome × List Action
        → Type 0 where
    all_done : {trace : List Action} → Brings [] [] trace (none, trace)
    left_alone :
        {target : Bytes} {targets : List Bytes} {place : Bytes × Bytes}
        {places : List (Bytes × Bytes)} {trace : List Action} {r : Option Outcome × List Action}
        → args.update ≡ false
        → Brings targets places trace r
        → Brings (target ∷ targets) (place ∷ places) trace r
    updated :
        {target : Bytes} {targets : List Bytes} {place : Bytes × Bytes}
        {places : List (Bytes × Bytes)} {trace : List Action} {r : Option Outcome × List Action}
        → args.update ≡ true
        → m trace (update_of place) ≡ true
        → Brings targets places (trace ++ (update_of place ∷ [])) r
        → Brings (target ∷ targets) (place ∷ places) trace r
    update_failed :
        {target : Bytes} {targets : List Bytes} {place : Bytes × Bytes}
        {places : List (Bytes × Bytes)} {trace : List Action}
        → args.update ≡ true
        → m trace (update_of place) ≡ false
        → Brings
            (target ∷ targets)
            (place ∷ places)
            trace
            (some (failed_to_get target), trace ++ (update_of place ∷ []))

  resolve-there :
      (target : Bytes) (repo : Repo) {remote root : Bytes}
      → w.from_input target args.user args.complete_user ≡ Url.ok repo
      → IsRemote args repo remote
      → w.root_for_url remote ≡ Config.ok root
      → resolve m w args target ≡ inr (repo, dest_path root repo args.bare)
  unfolding resolve
  resolve-there target repo named remote rooted =
      rw (resolve, named, remote_of-IsRemote args repo remote, rooted) refl

  not-if : (b : Bool) → not b ≡ (if b then false else true)
  not-if true = refl
  not-if false = refl

  -- What becomes of one target that is there.
  process_target-left :
      (target : Bytes) (repo : Repo) (dest : Bytes) (trace : List Action)
      → resolve m w args target ≡ inr (repo, dest)
      → dest_is_git_repo (w.files trace) w.file_name dest ≡ true
      → args.update ≡ false
      → process_target m w args target trace ≡ (ended finished, trace)
  unfolding process_target process_dest
  process_target-left target repo dest trace found there plain =
      rw (found, at_resolved, there, plain) refl

  process_target-updated :
      (target : Bytes) (repo : Repo) (remote dest : Bytes) (trace : List Action) (worked : Bool)
      → resolve m w args target ≡ inr (repo, dest)
      → IsRemote args repo remote
      → dest_is_git_repo (w.files trace) w.file_name dest ≡ true
      → args.update ≡ true
      → m trace (update_of (remote, dest)) ≡ worked
      → process_target m w args target trace
        ≡ (ended (if worked then finished else failed), trace ++ (update_of (remote, dest) ∷ []))
  unfolding process_target process_dest
  process_target-updated target repo remote dest trace worked found address there asked result =
      rw
        (
          found,
          at_resolved,
          remote_of-IsRemote args repo address,
          there,
          asked,
          not-if args.no_recursive,
          result,
        )
        refl

  -- A run over targets whose repositories are all there leaves these alone without `update`. With it,
  -- each is updated from its address, in order, up to the first update that fails, and that ends the
  -- run with an error that names the target.
  pub process_targets-Brings :
      (targets : List Bytes) (found : List (Bytes × Bytes)) (trace : List Action)
      → AreThere targets found
      → Brings targets found trace (process_targets m w args targets trace)
  unfolding process_targets stops
  process_targets-Brings targets found trace none_left = all_done
  process_targets-Brings targets found trace
        (there_too {target = target} {targets = more} {repo = repo} {remote = remote} {root = root}
          {found = places} named address rooted there rest) =
      let dest = dest_path root repo args.bare in
      let place : Bytes × Bytes = (remote, dest) in
      let resolved =
        resolve-there target repo {remote = remote} {root = root} named address rooted in
      elim (Bool-cases args.update) [
        | inr plain ↦
            let same = process_target-left target repo dest trace resolved (there trace) plain in
            rw (same, stops, unless_stopped)
              (left_alone plain (process_targets-Brings more places trace rest))
        | inl asked ↦ elim (Bool-cases (m trace (update_of place))) [
          | inl worked ↦
              let same =
                process_target-updated target repo remote dest trace true resolved address
                  (there trace) asked worked in
              rw (same, stops, unless_stopped)
                (updated asked worked
                  (process_targets-Brings more places (trace ++ (update_of place ∷ [])) rest))
          | inr broken ↦
              let same =
                process_target-updated target repo remote dest trace false resolved address
                  (there trace) asked broken in
              rw (same, stops, unless_stopped) (update_failed asked broken)
        ]
      ]
