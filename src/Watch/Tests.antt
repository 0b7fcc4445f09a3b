-- ===== src/Watch/Tests.antt =====
-- Watchers of small goals and loops.
use wait_skill.Prelude.{
  ◌≡◌, refl, elem, true, false, none, some, ok, String, List, [], ◌∷◌, ◌++◌, ◌==◌, if◌then◌else◌,
}
use wait_skill.Goal.State.{GoalState, codex, cursor, ready, running}
use wait_skill.Goal.Waits.{wake_node}
use wait_skill.Goal.Wakes.{wake-twice}
use wait_skill.Goal.Samples.{
  program, receipt, goal_both, goal_prepared, goal_waiting, goal_awake, goal_dropped,
}
use wait_skill.Loop.State.{GoalFiles}
use wait_skill.Loop.Samples.{loop_program, goal_files, loop_new, loop_waiting}
use wait_skill.Watch.Owner.{
  WatchArgs, goal_wait_phase, loop_wait_is_current, goal_watch, is_prepared_watch, is_active_watch,
  is_invalid,
}
use wait_skill.Watch.Ownership.{
  prepare-goal_wait_phase, activate-goal_wait_phase, abort-goal_wait_phase, wake-goal_wait_phase,
  complete-loop_wait_is_current,
}
use wait_skill.Watch.Delivery.{notification_command, notification_command-message, EndsWith}
use wait_skill.Watch.Arguments.{
  partition, item_of, absolute_wait_argv, IsOptions, no_options, bare, joined, valued,
  absolute_wait_argv-append,
}
use Prim.Native.String

abbrev holding : GoalState → GoalFiles
holding g path = if path == "/goal.json" then some g else none

abbrev watch : WatchArgs
watch = goal_watch goal_both "/goal.json" "deploy" "w1"

prepare-goal_wait_phase_example : goal_wait_phase (holding goal_prepared) watch ≡ is_prepared_watch
unfolding program
prepare-goal_wait_phase_example =
    prepare-goal_wait_phase (holding goal_prepared) "/goal.json" "deploy" goal_both goal_prepared
      refl (λ p. p) "deployment" "check it" "/log" "/lock" "/started" "w1" "t11" "t12" "w1" refl

activate-goal_wait_phase_example : goal_wait_phase (holding goal_waiting) watch ≡ is_active_watch
unfolding program
activate-goal_wait_phase_example =
    activate-goal_wait_phase (holding goal_waiting) "/goal.json" "deploy" goal_prepared goal_waiting
      refl (λ p. some receipt) (λ p. true) 50 "w1" "t13" watch (holding goal_prepared) refl refl
      refl prepare-goal_wait_phase_example refl

abort-goal_wait_phase_example : goal_wait_phase (holding goal_dropped) watch ≡ is_invalid
unfolding program
abort-goal_wait_phase_example =
    abort-goal_wait_phase (holding goal_dropped) "/goal.json" "deploy" goal_waiting goal_dropped
      refl "w1" "t20" watch refl refl refl

wake-goal_wait_phase_example : goal_wait_phase (holding goal_awake) watch ≡ is_invalid
unfolding program
wake-goal_wait_phase_example =
    wake-goal_wait_phase (holding goal_awake) "/goal.json" "deploy" goal_waiting goal_awake refl
      "w1" ready (some "live") "t20" "t21" running watch refl refl refl

wake-twice_example :
    wake_node "deploy" "w1" ready (some "live") "t30" "t31" goal_awake
    ≡ ok (goal_awake, running, true)
unfolding program
wake-twice_example =
    wake-twice "deploy" "w1" ready (some "live") "t20" "t21" "t30" "t31" goal_waiting goal_awake
      running false refl

abbrev loop_watch : WatchArgs
loop_watch = record {
  client = codex;
  thread = some "session";
  no_notify = false;
  event_id = some "w1";
  goal_state = none;
  goal_node = none;
  loop_state = some "/loop.json";
}

complete-loop_wait_is_current_example :
    loop_wait_is_current goal_files (λ p. some loop_waiting) "/loop.json" loop_watch ≡ true
unfolding loop_program
complete-loop_wait_is_current_example =
    complete-loop_wait_is_current goal_files goal_files (λ p. some loop_waiting) "/loop.json"
      "not yet" "w1" 1050 1051 loop_new loop_waiting loop_watch refl refl refl refl refl refl refl

notification_command-message_example :
    EndsWith "go on" ("cursor-agent" ∷ "--print" ∷ "--resume=s" ∷ "--force" ∷ "go on" ∷ [])
unfolding notification_command
notification_command-message_example =
    notification_command-message "python" "codex.py" cursor "s" "go on" none ("--force" ∷ [])
      ("cursor-agent" ∷ "--print" ∷ "--resume=s" ∷ "--force" ∷ "go on" ∷ []) refl

abbrev beside : String → String
beside path = String.◌++◌ "/work/" path

abbrev options : List String
options = "--label" ∷ "x" ∷ "--log-file" ∷ "a" ∷ "--lock-file=b" ∷ []

options-IsOptions : IsOptions options
unfolding item_of partition elem
options-IsOptions = bare refl (bare refl (valued refl (joined {path = "b"} refl no_options)))

absolute_wait_argv-append_example :
    absolute_wait_argv beside (options ++ "--" ∷ "make" ∷ "--log-file" ∷ "a" ∷ [])
    ≡ absolute_wait_argv beside options ++ "--" ∷ "make" ∷ "--log-file" ∷ "a" ∷ []
absolute_wait_argv-append_example =
    absolute_wait_argv-append beside options ("make" ∷ "--log-file" ∷ "a" ∷ []) options-IsOptions
