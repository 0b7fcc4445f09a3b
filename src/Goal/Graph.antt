-- ===== src/Goal/Graph.antt =====
-- src/goal.py, `GoalGraph`: the events, a new graph, and the operations that shape the graph.
-- An operation takes what it reads from the clock and from `uuid` as arguments, in the order of
-- the calls, and returns the new state. Each raises before it writes.
use wait_skill.Prelude.{
  ◌+◌, Bool, ◌&&◌, String, List, [], ◌∷◌, ◌++◌, Option, none, some, Result, ok, ◌>>=◌, ◌>>◌,
  raise_if, raise_unless, length, dedupe, ◌==◌, if◌then◌else◌,
}
use wait_skill.Prelude.Dict.{Dict, insert, contains}
use wait_skill.Goal.State.{
  Client, Kind, Detail, GoalNode, GoalState, Error, same_status, is_open, pending, opened, text,
  texts, node_kind, plain, invalid_node_id, node_exists, goal_not_open, not_editable,
  unknown_dependencies, wrong_status,
}
use wait_skill.Goal.Queries.{get_node}
use wait_skill.Goal.Checks.{require_optional, is_node_id}
use wait_skill.Goal.Validate.{validate, has_missing_dependency}

-- `details` is dropped when it is empty.
abbrev pub given_details : Dict Detail → Option (Dict Detail)
given_details [] = none
given_details (d ∷ ds) = some (d ∷ ds)

unfoldable pub record_event :
    String → Option String → Dict Detail → (at : String) → GoalState → GoalState
record_event operation node_id details at g = record g {
  events =
      g.events
      ++ record {
        seq = length g.events + 1;
        at = at;
        operation = operation;
        source = none;
        node_id = node_id;
        details = given_details details;
      }
        ∷ [];
}

-- Writes to the dict of a node, which is shared with `nodes`.
unfoldable pub set_node : String → GoalNode → GoalState → GoalState
set_node id n g = record g { nodes = insert id n g.nodes }

unfoldable pub create :
    (objective : String) (thread : Option String) (client : Client) (now later : String)
    → Result Error GoalState
create objective thread client now later = do
  let empty : GoalState = record {
    objective = objective;
    status = opened;
    client = client;
    thread = thread;
    verification = none;
    created_at = now;
    updated_at = now;
    nodes = [];
    events = [];
    result = none;
    completed_at = none;
  }
  let g = record_event "init" none [] later empty
  validate g
  ok g

unfoldable pub edit_node :
    (id title : String) (depends_on acceptance : List String) (now : String) (g : GoalState)
    → Result Error GoalState
edit_node id title depends_on acceptance now g = do
  n ← get_node id g.nodes
  raise_unless (is_open g.status && same_status n.status pending) not_editable
  let n' = record n { title = title; depends_on = depends_on; acceptance = acceptance }
  ok (record_event "edit_node" (some id) [] now (set_node id n' g))

-- The arguments of `add_node` that describe the new node.
pub record NodeSpec : Type 0 where
  pub title : String
  pub kind : Kind
  pub depends_on : List String
  pub acceptance : List String
  pub read_only : Bool
  pub write_paths : List String
  pub inputs : Dict String
  pub expected_artifacts : List String

unfoldable pub new_node : NodeSpec → GoalNode
new_node s = record {
  title = s.title;
  kind = s.kind;
  depends_on = dedupe s.depends_on;
  status = pending;
  acceptance = dedupe s.acceptance;
  read_only = s.read_only;
  write_paths = dedupe s.write_paths;
  inputs = s.inputs;
  expected_artifacts = dedupe s.expected_artifacts;
  artifacts = [];
  result = none;
  wait = none;
  last_event = none;
  assignment = none;
  attempts = [];
  started_at = none;
  completed_at = none;
  failed_at = none;
}

-- `self.get_node(before) if before else None`, and the check of the target's status.
unfoldable pub find_target :
    Option String → Dict GoalNode → Result Error (Option (String × GoalNode))
find_target none nodes = ok none
find_target (some before) nodes = if before == "" then ok none else (do
  n ← get_node before nodes
  raise_unless (same_status n.status pending) (wrong_status before n.status)
  ok (some (before, n)))

-- The target is made to depend on the new node.
unfoldable pub attach : String → Option (String × GoalNode) → GoalState → GoalState
attach id none g = g
attach id (some (before, n)) g =
    set_node before (record n { depends_on = dedupe (n.depends_on ++ id ∷ []) }) g

abbrev pub optional_detail : String → Option String → Dict Detail
optional_detail key none = []
optional_detail key (some v) = (key, text v) ∷ []

unfoldable pub add_node :
    (id : String) (spec : NodeSpec) (before reason : Option String) (now : String) (g : GoalState)
    → Result Error GoalState
add_node id spec before reason now g = do
  raise_unless (is_node_id id) (invalid_node_id id)
  raise_unless (is_open g.status) (goal_not_open g.status)
  require_optional (plain "reason") reason
  raise_if (contains id g.nodes) (node_exists id)
  raise_if (has_missing_dependency g.nodes spec.depends_on) unknown_dependencies
  target ← find_target before g.nodes
  let grown = attach id target (set_node id (new_node spec) g)
  let details =
      ("depends_on", texts (dedupe spec.depends_on))
      ∷ ("kind", node_kind spec.kind)
      ∷ (optional_detail "before" before ++ optional_detail "reason" reason)
  ok (record_event "add_node" (some id) details now (record grown { verification = none }))
