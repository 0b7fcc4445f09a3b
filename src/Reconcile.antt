-- ===== src/Reconcile.antt =====
-- src/waitd.py, `reconcile_loops`: the timers of the loops that the service knows, repaired from
-- the files of the loops.
use wait_skill.Prelude.{
  Bool, true, false, not, ◌&&◌, ◌||◌, String, Option, none, some, List, [], ◌∷◌, ◌++◌, ◌==◌, ℕ,
  Result, ok, err, elem, if◌then◌else◌,
}
use wait_skill.Loop.State.{LoopState, GoalFiles, Owner, Status, goal_is_open, is_active, is_waiting}
use wait_skill.Loop.Lifecycle.{cancel}
use wait_skill.Registry.State.{Watcher, ids}
use wait_skill.Jobs.Parse.{Outside}
use wait_skill.Jobs.Submit.{Submission, take_up}
use wait_skill.Jobs.Timers.{Clock, timer_argv, id_text}
pub mod Steps
pub mod Repaired
mod Tests

-- A file of a loop: it is not there, cannot be loaded, or holds a state. The known files are
-- named as `LoopStore` resolves them.
pub data LoopFile : Type 0 where
  absent broken : LoopFile
  holds : LoopState → LoopFile

abbrev pub LoopStore : Type 0
LoopStore = String → LoopFile

-- What the service takes from outside: the files of goals, what a submission from a directory
-- takes, and whether the command that cancels a loop runs to its end. One that does not has
-- changed nothing.
pub record Service : Type 0 where
  pub goals : GoalFiles
  pub outside : Outside
  pub submission : (cwd : String) → Submission
  pub clock : Clock
  pub runs_cancel : (path : String) → Bool
  pub now : ℕ

pub data Monitor : Type 0 where
  troubled : (path : String) → Monitor
  linked : (path : String) → Owner → Status → Monitor

pub record Reconciled : Type 0 where
  pub store : LoopStore
  pub watchers : List Watcher
  pub monitors : List Monitor

-- The identifiers that `save` protects; `loops` are the files with their directories.
abbrev pub protected_id : LoopFile → List String → List String
protected_id absent ids = ids
protected_id broken ids = ids
protected_id (holds s) ids = elim s.watch_id [ none ↦ ids | some id ↦ id ∷ ids ]

abbrev pub protected_ids : LoopStore → (loops : List (String × String)) → List String
protected_ids store [] = []
protected_ids store ((path, cwd) ∷ loops) = protected_id (store path) (protected_ids store loops)

abbrev pub report : Monitor → Reconciled → Reconciled
report m r = record r { monitors = r.monitors ++ m ∷ [] }

abbrev pub link : (path : String) → LoopState → Reconciled → Reconciled
link path s r = elim s.goal [ none ↦ r | some owner ↦ report (linked path owner s.status) r ]

abbrev pub written : (path : String) → LoopState → LoopStore → LoopStore
written path s store at = if at == path then holds s else store at

-- `submit` of the timer, and what comes of it.
abbrev pub start_timer :
    Service
    → (loops : List (String × String)) (path cwd : String) → LoopState
    → Reconciled
    → Reconciled
start_timer v loops path cwd s r =
    elim (take_up v.outside (v.submission cwd) (protected_ids r.store loops) v.now
      (timer_argv v.clock s path) r.watchers) [
        | err e ↦ report (troubled path) r
        | ok behind ↦ record r { watchers = behind }
      ]

abbrev pub paths : List (String × String) → List String
paths [] = []
paths ((path, cwd) ∷ loops) = path ∷ paths loops

-- What is done with a loop that may wait.
abbrev pub follow_up :
    Service
    → (loops : List (String × String)) (path cwd : String) → LoopState
    → Reconciled
    → Reconciled
follow_up v loops path cwd s r =
    let seen = link path s r in
    if not (is_active s.status) || not (is_waiting s.phase)
    then seen
    else if elem (id_text s) (ids seen.watchers)
    then seen
    else start_timer v loops path cwd s seen

-- A loop whose goal or node is no longer open is cancelled first.
abbrev pub end_monitor :
    Service
    → (loops : List (String × String)) (path cwd : String) → LoopState
    → Reconciled
    → Reconciled
end_monitor v loops path cwd s r =
    if v.runs_cancel path
    then elim (cancel v.now s) [
      | err e ↦ report (troubled path) r
      | ok s' ↦ follow_up v loops path cwd s' (record r { store = written path s' r.store })
    ]
    else report (troubled path) r

abbrev pub visit :
    Service
    → (loops : List (String × String)) (path cwd : String) → LoopFile
    → Reconciled
    → Reconciled
visit v loops path cwd absent r = r
visit v loops path cwd broken r = report (troubled path) r
visit v loops path cwd (holds s) r =
    if is_active s.status && not (goal_is_open v.goals s)
    then end_monitor v loops path cwd s r
    else follow_up v loops path cwd s r

unfoldable pub reconcile_one :
    Service → (loops : List (String × String)) → String × String → Reconciled → Reconciled
reconcile_one v loops (path, cwd) r = visit v loops path cwd (r.store path) r

abbrev pub reconcile_from :
    Service → (loops left : List (String × String)) → Reconciled → Reconciled
reconcile_from v loops [] r = r
reconcile_from v loops (entry ∷ left) r =
    reconcile_from v loops left (reconcile_one v loops entry r)

-- `reconcile_loops`
unfoldable pub reconcile_loops :
    Service → (loops : List (String × String)) → LoopStore → List Watcher → Reconciled
reconcile_loops v loops store watchers =
    reconcile_from v loops loops (record { store = store; watchers = watchers; monitors = [] })
