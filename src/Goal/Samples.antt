-- ===== src/Goal/Samples.antt =====
-- Small goals on which the tests run the operations of src/goal.py.
use wait_skill.Prelude.{
  Option, take, ℕ, true, false, String, List, [], ◌∷◌, none, some, elem, dedupe, leb, if◌then◌else◌,
  ◌+◌, ◌&&◌, ◌++◌,
}
use mathlib.Core.List.{flat_map}
use wait_skill.Prelude.Text.{blank, has_line_break}
use wait_skill.Prelude.Dict.{
  Dict, lookup, insert, contains, keys, values, select_values, map_values,
}
use wait_skill.Goal.State.{
  Kind, NodeStatus, Phase, Detail, GoalEvent, GoalNode, GoalState, codex, agent, local, external,
  pending, dispatching, running, waiting, completed, opened, prepared, active, text, texts,
  event_name, optional_text, ready, node_kind,
}
use wait_skill.Goal.Paths.{Folding, folded_path, is_ancestor, same_part, begins, paths_overlap}
use wait_skill.Goal.Queries.{
  get_node, node_is_ready, raw_ready_nodes, nodes_with_status, nodes_conflict, conflicting_node_ids,
  missing_artifacts_of, select_ready, ready_nodes, orphaned_from, orphaned_wait_ids, lint_ready,
  lint_node, lint_nodes, lint, activity_of, activity_open, activity,
}
use wait_skill.Goal.Checks.{
  require_string, require_present, require_optional, require_string_list, require_nonempty_list,
  require_string_map, is_node_id, is_single_line, validate_watch_event, validate_note,
  validate_wait, validate_node_lifecycle, validate_assignment, validate_node_assignment,
  validate_attempt, validate_attempts,
}
use wait_skill.Goal.Acyclic.{
  meet, finish_top, round, run_search, work, search_root, search_roots, validate_acyclic,
}
use wait_skill.Goal.Validate.{
  validate_fields, has_missing_dependency, has_foreign_input, validate_node, validate_nodes,
  validate_event, validate_event_list, begins_with_init, validate_events, all_nodes_completed,
  validate_verification, validate_header, validate_outcome, validate,
}
use wait_skill.Goal.Graph.{
  record_event, set_node, create, edit_node, NodeSpec, new_node, find_target, attach, add_node,
}
use wait_skill.Goal.Agents.{
  check_startable, prepare_agent, attach_agent, check_local, start_node, abort_agent,
}
use wait_skill.Goal.Waits.{
  Receipt, value, startup_receipt_deadline, prepare_external_wait, activate_external_wait,
  abort_external_wait, deliver, wake_node,
}
use wait_skill.Goal.Lifecycle.{
  complete_node, fail_node, retry_node, verify, pause, resume, cancel_one, cancel, finish,
}
use wait_skill.Goal.Commands.{Host, run, to_dict, WaitSpec}

-- A line `unfolding program` opens all operations.
unfoldable pub program : Unit {0}
unfolding elem dedupe blank has_line_break lookup insert contains keys values select_values
    map_values folded_path is_ancestor same_part begins paths_overlap get_node node_is_ready
    raw_ready_nodes nodes_with_status nodes_conflict conflicting_node_ids missing_artifacts_of
    select_ready ready_nodes orphaned_from orphaned_wait_ids lint_ready lint_node lint_nodes lint
    activity_of activity_open activity require_string require_present require_optional
    require_string_list require_nonempty_list require_string_map is_node_id is_single_line
    validate_watch_event validate_note validate_wait validate_node_lifecycle validate_assignment
    validate_node_assignment validate_attempt validate_attempts meet finish_top round run_search
    work search_root search_roots validate_acyclic validate_fields has_missing_dependency
    has_foreign_input validate_node validate_nodes validate_event validate_event_list
    begins_with_init validate_events all_nodes_completed validate_verification validate_header
    validate_outcome validate record_event set_node create edit_node new_node find_target attach
    add_node check_startable prepare_agent attach_agent check_local start_node abort_agent
    startup_receipt_deadline prepare_external_wait activate_external_wait abort_external_wait
    deliver wake_node complete_node fail_node retry_node verify pause resume cancel_one cancel
    finish run to_dict flat_map
program = tt

-- Case folding of ASCII letters.
abbrev pub ascii_fold : Folding
ascii_fold c = (if leb b'A' c && leb c b'Z' then c + 32 else c) ∷ []

abbrev pub receipt : Receipt
receipt = record {
  event = value "watcher_started";
  event_id = value "w1";
  goal_node = value "deploy";
  client = value "codex";
  thread = value "session";
  log_file = value "/log";
  lock_file = value "/lock";
  activation_deadline = some 100;
}

abbrev pub host : Host
host = record {
  fold = ascii_fold;
  absolute = λ p. p;
  read_receipt = λ p. some receipt;
  held = λ p. true;
}

abbrev pub spec : Kind → List String → List String → NodeSpec
spec kind depends_on write_paths = record {
  title = "step";
  kind = kind;
  depends_on = depends_on;
  acceptance = [];
  read_only = false;
  write_paths = write_paths;
  inputs = [];
  expected_artifacts = [];
}

abbrev pub wait_spec : WaitSpec
wait_spec = record {
  label = "deployment";
  event_note = "check it";
  log_file = "/log";
  lock_file = "/lock";
  startup_file = "/started";
}

abbrev pub node : Kind → List String → List String → GoalNode
node kind depends_on write_paths = record {
  title = "step";
  kind = kind;
  depends_on = depends_on;
  status = pending;
  acceptance = [];
  read_only = false;
  write_paths = write_paths;
  inputs = [];
  expected_artifacts = [];
  artifacts = [];
  result = none;
  wait = none;
  last_event = none;
  assignment = none;
  attempts = [];
  started_at = none;
  completed_at = none;
  failed_at = none;
}

abbrev pub goal : Dict GoalNode → List GoalEvent → GoalState
goal nodes events = record {
  objective = "ship it";
  status = opened;
  client = codex;
  thread = some "session";
  verification = none;
  created_at = "t0";
  updated_at = "t0";
  nodes = nodes;
  events = events;
  result = none;
  completed_at = none;
}

abbrev pub event : ℕ → String → String → Option String → Option (Dict Detail) → GoalEvent
event seq at operation node_id details = record {
  seq = seq;
  at = at;
  operation = operation;
  source = none;
  node_id = node_id;
  details = details;
}

abbrev pub added : ℕ → String → String → Kind → List String → GoalEvent
added seq at id kind deps =
    event seq at "add_node" (some id)
      (some (("depends_on", texts deps) ∷ ("kind", node_kind kind) ∷ []))

-- The nodes and events that a run passes through.
abbrev pub deploy : GoalNode
deploy = node external [] ("/srv/a" ∷ [])

abbrev pub report : GoalNode
report = node local [] ("/srv/b" ∷ [])

abbrev pub close : GoalNode
close = node agent ("report" ∷ []) ("/srv/c" ∷ [])

abbrev pub started : String → GoalNode → GoalNode
started at n = record n { status = running; started_at = some at }

abbrev pub deploy_waiting : Phase → NodeStatus → GoalNode
deploy_waiting phase status = record deploy {
  status = status;
  started_at = some "t6";
  wait = some (record {
    label = "deployment";
    client = codex;
    thread = "session";
    log_file = "/log";
    lock_file = "/lock";
    startup_file = "/started";
    since = "t11";
    watch_id = "w1";
    phase = phase;
    event_note = some "check it";
  });
}

abbrev pub report_done : GoalNode
report_done = record report {
  status = completed;
  started_at = some "t9";
  result = some "done";
  completed_at = some "t14";
}

abbrev pub close_dispatching : GoalNode
close_dispatching = record close {
  status = dispatching;
  assignment = some (record {
    phase = prepared;
    dispatch_token = "d1";
    prepared_at = "t16";
    agent_id = none;
    assigned_at = none;
  });
}

abbrev pub all_events : List GoalEvent
all_events =
    event 1 "t1" "init" none none
    ∷ added 2 "t2" "deploy" external []
    ∷ added 3 "t3" "report" local []
    ∷ added 4 "t4" "close" agent ("report" ∷ [])
    ∷ event 5 "t7" "start_node" (some "deploy") none
    ∷ event 6 "t10" "start_node" (some "report") none
    ∷ event 7 "t12" "prepare_wait" (some "deploy") (some (("watch_id", text "w1") ∷ []))
    ∷ event 8 "t13" "activate_wait" (some "deploy") (some (("watch_id", text "w1") ∷ []))
    ∷ event 9 "t15" "complete_node" (some "report") (some (("artifacts", texts []) ∷ []))
    ∷ event 10 "t17" "prepare_agent" (some "close") (some (("dispatch_token", text "d1") ∷ []))
    ∷ []

abbrev pub goal_at : ℕ → Dict GoalNode → GoalState
goal_at count nodes = goal nodes (take count all_events)

abbrev pub new_goal : GoalState
new_goal = goal_at 1 []

abbrev pub goal_one : GoalState
goal_one = goal_at 2 (("deploy", deploy) ∷ [])

abbrev pub goal_two : GoalState
goal_two = goal_at 3 (("deploy", deploy) ∷ ("report", report) ∷ [])

abbrev pub three : GoalNode → GoalNode → GoalNode → Dict GoalNode
three a b c = ("deploy", a) ∷ ("report", b) ∷ ("close", c) ∷ []

abbrev pub goal_three : GoalState
goal_three = goal_at 4 (three deploy report close)

abbrev pub goal_started : GoalState
goal_started = goal_at 5 (three (started "t6" deploy) report close)

abbrev pub goal_both : GoalState
goal_both = goal_at 6 (three (started "t6" deploy) (started "t9" report) close)

abbrev pub goal_prepared : GoalState
goal_prepared = goal_at 7 (three (deploy_waiting prepared running) (started "t9" report) close)

abbrev pub goal_waiting : GoalState
goal_waiting = goal_at 8 (three (deploy_waiting active waiting) (started "t9" report) close)

abbrev pub goal_reported : GoalState
goal_reported = goal_at 9 (three (deploy_waiting active waiting) report_done close)

abbrev pub goal_closing : GoalState
goal_closing = goal_at 10 (three (deploy_waiting active waiting) report_done close_dispatching)

abbrev pub goal_awake : GoalState
goal_awake = record goal_waiting {
  nodes =
      three
        (record (started "t6" deploy) {
          last_event =
              some (record { event_id = "w1"; event = ready; status = some "live"; at = "t20" });
        })
        (started "t9" report) close;
  events =
      take 8 all_events
      ++ event 9 "t21" "wake_node" (some "deploy") (
          some (
            ("event", event_name ready)
            ∷ ("event_id", text "w1")
            ∷ ("status", optional_text (some "live"))
            ∷ []))
        ∷ [];
}

abbrev pub goal_dropped : GoalState
goal_dropped = record goal_waiting {
  nodes = three (started "t6" deploy) (started "t9" report) close;
  events =
      take 8 all_events
      ++ event 9 "t20" "abort_wait" (some "deploy") (some (("watch_id", text "w1") ∷ [])) ∷ [];
}
