-- ===== src/Daemon/Crashes.antt =====
-- The life of a watch of src/waitd.py: runs of `_run_watch`, each of which may stop anywhere, as
-- when the service is killed, and is taken up by `restore` from the files that it has left.
use wait_skill.Prelude.{
  ◌+◌, ◌≤◌, Bool, ◌≡◌, ◌∙◌, refl, sym, ap, List, [], ◌∷◌, true, false, ◌++◌, arith, subst,
}
use wait_skill.Daemon.State.{Action, save_log, save_record, execute, notify, Disk, settle}
use wait_skill.Daemon.Program.{Options, World, is_early}
use wait_skill.Daemon.Watch.{run_watch}
use wait_skill.Daemon.Once.{executions, count, guarded, guarded-executions}
use wait_skill.Daemon.Starts.{run_watch-guarded}

-- The files and the actions so far. What a run meets may differ from run to run. A watch that has
-- ended, so that its record is not active, is not taken up.
pub data Life (o : Options) (first : Disk) : Disk → List Action → Type 0 where
  submitted : Life o first first []
  ran :
      {d d' : Disk} {acts acts' : List Action} (w : World) (was_cancelled : Bool)
      (before rest : List Action)
      → Life o first d acts
      → d.entry.active ≡ true
      → before ++ rest ≡ run_watch o w was_cancelled d
      → d' ≡ settle before d
      → acts' ≡ acts ++ before
      → Life o first d' acts'

executions-append : (xs ys : List Action) → executions (xs ++ ys) ≡ executions xs + executions ys
executions-append [] ys = omega arith
executions-append (save_log r ∷ xs) ys = executions-append xs ys
executions-append (save_record e ∷ xs) ys = executions-append xs ys
executions-append (execute ∷ xs) ys = omega (arith, executions-append xs ys)
executions-append (notify k ∷ xs) ys = executions-append xs ys

Life-bound :
    (o : Options) (first d : Disk) (acts : List Action)
    → Life o first d acts
    → executions acts + count (is_early d.entry.phase) ≤ count (is_early first.entry.phase)
Life-bound o first d acts submitted = omega arith
Life-bound o first d acts
      (ran {d = from} {acts = earlier} w was_cancelled before rest life live split now all_acts) =
    let early = is_early from.entry.phase in
    let safe = ap (guarded early false) split ∙ run_watch-guarded o w was_cancelled from in
    let step = guarded-executions early false before rest from refl safe in
    let old = Life-bound o first from earlier life in
    subst
      (λ x. executions acts + count (is_early x.entry.phase) ≤ count (is_early first.entry.phase))
      (sym now) (omega (arith, executions-append earlier before, ap executions all_acts, step, old))

-- However often the service is stopped, at whatever points, and however the surroundings change,
-- the waiting program of a watch is started once at most, and not at all when the watch is first
-- in a phase behind `queued`. The notification of a failure of the watcher itself is no part of a
-- run.
pub Life-executions :
    (o : Options) (first d : Disk) (acts : List Action)
    → Life o first d acts
    → executions acts ≤ count (is_early first.entry.phase)
Life-executions o first d acts life = omega (arith, Life-bound o first d acts life)
