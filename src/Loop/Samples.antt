-- ===== src/Loop/Samples.antt =====
-- A small loop, which monitors a node of a goal, on which the tests run the transitions of
-- src/loop.py.
use wait_skill.Prelude.{false, [], ◌∷◌, String, ℕ, Option, none, some, elem, ◌==◌, if◌then◌else◌}
use wait_skill.Prelude.Text.{blank, has_line_break}
use wait_skill.Prelude.Dict.{lookup}
use wait_skill.Goal.State.{codex}
use wait_skill.Goal.Checks.{is_single_line}
use wait_skill.Goal.Samples.{goal_waiting}
use wait_skill.Loop.State.{
  LoopState, LoopEvent, GoalFiles, active, running, waiting, validate_identity, validate_phase,
  validate_numbers, validate_wait, validate, goal_is_open,
}
use wait_skill.Loop.Lifecycle.{
  append_event, cancel, record_run, end_loop, schedule, complete, due, require_active_wait,
  expire_now, begin_now, begin, expire, first_state, link_goal, init, run, LoopSpec,
}

-- A line `unfolding loop_program` opens all transitions.
unfoldable pub loop_program : Unit {0}
unfolding elem lookup blank has_line_break is_single_line validate_identity validate_phase
    validate_numbers validate_wait validate goal_is_open append_event cancel record_run end_loop
    schedule complete due require_active_wait expire_now begin_now begin expire first_state
    link_goal init run
loop_program = tt

-- The one file that holds a goal.
abbrev pub goal_files : GoalFiles
goal_files path = if path == "/goal.json" then some goal_waiting else none

abbrev pub monitor : LoopSpec
monitor = record {
  task = "watch the deployment";
  event_note = "check the deployment";
  client = codex;
  session = "session";
  remote = none;
  no_notify = false;
  interval = 60;
  duration = 600;
  max_iterations = some 3;
  goal_state = some "/goal.json";
  goal_node = some "deploy";
}

abbrev pub event : String → Option ℕ → Option String → ℕ → LoopEvent
event operation iteration id at = record {
  at = at;
  operation = operation;
  iteration = iteration;
  id = id;
}

abbrev pub loop_new : LoopState
loop_new = record {
  task = "watch the deployment";
  event_note = some "check the deployment";
  client = codex;
  session = "session";
  remote = none;
  no_notify = false;
  interval_seconds = 60;
  deadline_at = 1600;
  max_iterations = some 3;
  status = active;
  phase = some running;
  iteration = 1;
  next_run_at = none;
  watch_id = none;
  last_event_id = none;
  runs = [];
  events = event "init" none none 1000 ∷ [];
  goal = some (record { state = "/goal.json"; node = "deploy" });
}

abbrev pub loop_waiting : LoopState
loop_waiting = record loop_new {
  phase = some waiting;
  next_run_at = some 1110;
  watch_id = some "w1";
  runs = record { iteration = 1; summary = "not yet"; completed_at = 1050 } ∷ [];
  events = event "init" none none 1000 ∷ event "schedule" (some 1) (some "w1") 1051 ∷ [];
}

abbrev pub loop_second : LoopState
loop_second = record loop_waiting {
  iteration = 2;
  phase = some running;
  next_run_at = none;
  watch_id = none;
  last_event_id = some "w1";
  events =
      event "init" none none 1000
      ∷ event "schedule" (some 1) (some "w1") 1051
      ∷ event "begin" (some 2) (some "w1") 1112
      ∷ [];
}
