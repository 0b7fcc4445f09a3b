-- ===== src/Jobs/Tests.antt =====
-- Submissions of small goals and loops.
use wait_skill.Prelude.{none, some, ◌==◌, if◌then◌else◌}
use wait_skill.Goal.State.{GoalState, WaitMetadata}
use wait_skill.Goal.Samples.{goal_both, goal_prepared}
use wait_skill.Loop.State.{GoalFiles}
use wait_skill.Jobs.Waits.Prepared.{prepared_for}
use wait_skill.Prelude.{false, ◌*◌}
use wait_skill.Goal.Store.{held}
use wait_skill.Jobs.Waits.Submitted.{Desk, registered, no_receipt}

abbrev holding : GoalState → GoalFiles
holding g path = if path == "/goal.json" then some g else none

abbrev prepared_wait : WaitMetadata
prepared_wait =
    prepared_for goal_both (λ p. p) "deployment" "check it" "/log" "/lock" "/started" "session" "w1"
      "t11"

-- The watcher's receipt does not come, and the prepared wait is taken back.
abbrev desk : Desk
desk = record {
  answer = λ argv. registered;
  receipt_file = λ path pauses. no_receipt;
  time = λ pauses. 50 * pauses;
  goal_file = λ pauses. held goal_prepared;
  is_same = λ x y. false;
  source = "agent";
  now = "t20";
}
