-- ===== src/Goal/Validate.antt =====
-- src/goal.py, `GoalGraph.validate` and the checks it makes of nodes, events and verification.
use wait_skill.Prelude.{
  ℕ, ◌+◌, Bool, true, false, not, ◌&&◌, ◌||◌, String, List, [], ◌∷◌, Option, none, some, ok, ◌>>◌,
  raise_if, raise_unless, all, any, is_empty, elem, nat_eq, ◌==◌, if◌then◌else◌,
}
use wait_skill.Prelude.Dict.{Dict, contains, values}
use wait_skill.Goal.State.{
  Verification, GoalEvent, GoalNode, GoalState, same_status, is_finished, completed, plain, of_node,
  of_event, unverified_nodes, verification_missing, result_not_finished, invalid_node_id,
  read_only_writes, missing_dependencies, foreign_inputs, no_init, bad_sequence,
}
use wait_skill.Goal.Checks.{
  Check, require_string, require_present, require_optional, require_string_list,
  require_nonempty_list, require_string_map, is_node_id, validate_wait, validate_node_lifecycle,
  validate_node_assignment, validate_attempts, present,
}
use wait_skill.Goal.Acyclic.{validate_acyclic}

-- The checks of a node that do not look at the other nodes.
unfoldable pub validate_fields : String → GoalNode → Check
validate_fields id n = do
  raise_unless (is_node_id id) (invalid_node_id id)
  require_string (of_node id "title") n.title
  require_string_list (of_node id "depends_on") n.depends_on
  require_string_list (of_node id "acceptance") n.acceptance
  require_string_list (of_node id "write_paths") n.write_paths
  raise_if (n.read_only && not (is_empty n.write_paths)) (read_only_writes id)
  require_string_map (of_node id "inputs") n.inputs
  require_string_list (of_node id "expected_artifacts") n.expected_artifacts
  require_string_list (of_node id "artifacts") n.artifacts
  require_optional (of_node id "result") n.result

unfoldable pub has_missing_dependency : Dict GoalNode → List String → Bool
has_missing_dependency nodes ds = any (λ d. not (contains d nodes)) ds

unfoldable pub has_foreign_input : GoalNode → Bool
has_foreign_input n = any (λ source. not (elem source n.depends_on)) (values n.inputs)

unfoldable pub validate_node : Dict GoalNode → String → GoalNode → Check
validate_node nodes id n = do
  validate_fields id n
  validate_node_lifecycle id n
  validate_node_assignment id n
  validate_attempts id 0 n.attempts
  raise_if (has_missing_dependency nodes n.depends_on) (missing_dependencies id)
  raise_if (has_foreign_input n) (foreign_inputs id)
  validate_wait id n

unfoldable pub validate_nodes : Dict GoalNode → Dict GoalNode → Check
validate_nodes nodes [] = ok tt
validate_nodes nodes ((id, n) ∷ rest) = do validate_node nodes id n; validate_nodes nodes rest

unfoldable pub validate_event : ℕ → GoalEvent → Check
validate_event expected e = do
  raise_unless (nat_eq e.seq expected) (bad_sequence expected)
  require_string (of_event expected "at") e.at
  require_string (of_event expected "operation") e.operation
  require_optional (of_event expected "node_id") e.node_id

unfoldable pub validate_event_list : ℕ → List GoalEvent → Check
validate_event_list expected [] = ok tt
validate_event_list expected (e ∷ es) = do
  validate_event expected e
  validate_event_list (expected + 1) es

unfoldable pub begins_with_init : List GoalEvent → Bool
begins_with_init [] = false
begins_with_init (e ∷ es) = e.operation == "init"

unfoldable pub validate_events : List GoalEvent → Check
validate_events es = do raise_unless (begins_with_init es) no_init; validate_event_list 1 es

-- There is a node, and every node is completed.
unfoldable pub all_nodes_completed : Dict GoalNode → Bool
all_nodes_completed nodes =
    not (is_empty nodes) && all (λ n. same_status n.status completed) (values nodes)

unfoldable pub validate_verification : GoalState → Check
validate_verification g = elim g.verification [
  | none ↦ ok tt
  | some v ↦ (do
    require_string (plain "verification.summary") v.summary
    require_nonempty_list (plain "verification.checks") v.checks
    require_string (plain "verification.verified_at") v.verified_at
    raise_unless (all_nodes_completed g.nodes) unverified_nodes)
]

abbrev pub is_verified : Option Verification → Bool
is_verified none = false
is_verified (some v) = true

unfoldable pub validate_header : GoalState → Check
validate_header g = do
  require_string (plain "objective") g.objective
  require_optional (plain "thread") g.thread
  require_string (plain "created_at") g.created_at
  require_string (plain "updated_at") g.updated_at
  require_optional (plain "result") g.result
  require_optional (plain "completed_at") g.completed_at

unfoldable pub validate_outcome : GoalState → Check
validate_outcome g =
    if is_finished g.status
    then (do
      raise_unless (is_verified g.verification) verification_missing
      require_present (plain "result") g.result
      require_present (plain "completed_at") g.completed_at)
    else raise_if (present g.result || present g.completed_at) result_not_finished

unfoldable pub validate : GoalState → Check
validate g = do
  validate_header g
  validate_nodes g.nodes g.nodes
  validate_events g.events
  validate_verification g
  validate_outcome g
  validate_acyclic g.nodes
