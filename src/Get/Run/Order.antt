-- ===== src/Get/Run/Order.antt =====
-- How far a run over several targets gets.
use scap.Base.{Option, none, some, List, [], ◌∷◌, ◌++◌, ◌≡◌}
use scap.Base.Bytes.{Bytes}
use scap.Config
use scap.Get.{Effective, Action, Machine, finished, failed, temporary_failure}
use scap.Get.Run.{
  World, TargetEnd, bad_url, no_root, ended, Outcome, failed_to_get, exited, process_target,
}
use scap.Url.{Repo}
use scap.Url

-- How the run ends with a target that does not come through: a lock that another process holds is
-- code 75 of the process, everything else is an error that names the target.
pub data EndsRun (target : Bytes) : TargetEnd → Outcome → Type 0 where
  on_bad_url : {e : Url.UrlError} → EndsRun target (bad_url e) (failed_to_get target)
  on_no_root : {e : Config.ConfigError} → EndsRun target (no_root e) (failed_to_get target)
  on_failure : EndsRun target (ended failed) (failed_to_get target)
  on_held_lock : EndsRun target (ended temporary_failure) (exited 75)

module _ (m : Machine) (w : World) (args : Effective) where
  -- Targets that come through, one after the other.
  pub data Passes : List Bytes → List Action → List Action → Type 0 where
    none_asked : {trace : List Action} → Passes [] trace trace
    passed :
        {target : Bytes} {targets : List Bytes} {trace mid last : List Action}
        → process_target m w args target trace ≡ (ended finished, mid)
        → Passes targets mid last
        → Passes (target ∷ targets) trace last

  -- The targets in front all came through, and the next one ended the run.
  pub data StopsAt (trace : List Action) : List Bytes → Option Outcome × List Action → Type 0 where
    through :
        (targets : List Bytes) (last : List Action)
        → Passes targets trace last
        → StopsAt trace targets (none, last)
    stopped :
        (front : List Bytes) (target : Bytes) (back : List Bytes) (before last : List Action)
        (e : TargetEnd) (outcome : Outcome)
        → Passes front trace before
        → process_target m w args target before ≡ (e, last)
        → EndsRun target e outcome
        → StopsAt trace (front ++ (target ∷ back)) (some outcome, last)
