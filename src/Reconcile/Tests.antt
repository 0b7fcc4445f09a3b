-- ===== src/Reconcile/Tests.antt =====
-- A service that finds a waiting loop without its timer.
use wait_skill.Prelude.{◌≡◌, refl, elem, true, [], ◌∷◌, ◌==◌, if◌then◌else◌, inl}
use wait_skill.Goal.Samples.{program}
use wait_skill.Loop.Samples.{loop_program, goal_files, loop_waiting}
use wait_skill.Watch.Arguments.{partition, is_legacy}
use wait_skill.Registry.State.{ids}
use wait_skill.Jobs.Options.{has_value, is_value, is_option, joins_value, looks_like_option}
use wait_skill.Jobs.Parse.{has_same_path}
use wait_skill.Jobs.Samples.{outside, submission, clock}
use wait_skill.Reconcile.{Service, LoopStore, absent, holds, reconcile_loops}
use wait_skill.Reconcile.Repaired.{reconcile_loops-repairs}

abbrev service : Service
service = record {
  goals = goal_files;
  outside = outside;
  submission = λ cwd. submission;
  clock = clock;
  runs_cancel = λ path. true;
  now = 1060;
}

abbrev store : LoopStore
store path = if path == "/loop.json" then holds loop_waiting else absent

reconcile_loops-repairs_example :
    elem "w1" (ids (reconcile_loops service (("/loop.json", "/work") ∷ []) store []).watchers)
    ≡ true
unfolding program loop_program partition is_legacy has_value is_value is_option joins_value
    looks_like_option has_same_path
reconcile_loops-repairs_example =
    reconcile_loops-repairs service (("/loop.json", "/work") ∷ []) "/loop.json" "/work" "w1"
      loop_waiting (inl refl) refl refl refl refl refl refl refl refl refl refl refl refl refl store
      [] refl
