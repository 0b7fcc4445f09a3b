-- ===== src/Goal/Agents.antt =====
-- src/goal.py, `GoalGraph`: reserving, starting and releasing a node.
use wait_skill.Prelude.{
  Bool, false, not, ◌&&◌, ◌||◌, String, [], ◌∷◌, Option, none, some, Result, ok, err, ◌>>=◌, ◌>>◌,
  raise_if, raise_unless, is_empty, ◌==◌, if◌then◌else◌,
}
use wait_skill.Goal.State.{
  Assignment, GoalNode, GoalState, Error, same_status, is_agent, is_open, pending, dispatching,
  running, waiting, prepared, active, text, plain, not_ready, conflicts, unresolved_dispatch,
  goal_not_open, wrong_kind, not_prepared, token_mismatch, agent_only_options, type_error,
}
use wait_skill.Goal.Paths.{Folding}
use wait_skill.Goal.Queries.{get_node, node_is_ready, nodes_with_status, conflicting_node_ids}
use wait_skill.Goal.Checks.{Check, require_present, present}
use wait_skill.Goal.Graph.{record_event, set_node}

-- The checks that `prepare_agent` and `start_node` share: no dispatch is unresolved, the node is
-- ready, and it conflicts with no running or waiting node.
unfoldable pub check_startable : Folding → String → GoalNode → GoalState → Check
check_startable fold id n g = do
  raise_unless (node_is_ready n g.nodes) (not_ready id)
  raise_unless
      (is_empty (conflicting_node_ids fold n (nodes_with_status (running ∷ waiting ∷ []) g.nodes)))
      (conflicts id)

abbrev pub has_dispatch : GoalState → Bool
has_dispatch g = not (is_empty (nodes_with_status (dispatching ∷ []) g.nodes))

unfoldable pub prepare_agent :
    Folding → (id token now later : String) (g : GoalState) → Result Error (GoalState × String)
prepare_agent fold id token now later g = do
  raise_unless (is_open g.status) (goal_not_open g.status)
  raise_if (has_dispatch g) (unresolved_dispatch id)
  n ← get_node id g.nodes
  raise_unless (is_agent n.kind) (wrong_kind id n.kind)
  check_startable fold id n g
  let a : Assignment = record {
    phase = prepared;
    dispatch_token = token;
    prepared_at = now;
    agent_id = none;
    assigned_at = none;
  }
  let n' = record n { status = dispatching; assignment = some a }
  ok (
    record_event "prepare_agent" (some id) (("dispatch_token", text token) ∷ []) later
        (set_node id n' g),
    token,
  )

-- The assignment of a node that is being dispatched; the subscript of None raises.
abbrev pub current_assignment : GoalNode → Result Error Assignment
current_assignment n = elim n.assignment [ none ↦ err (type_error "assignment") | some a ↦ ok a ]

abbrev pub matches : Option String → String → Bool
matches none s = false
matches (some t) s = s == t

-- The branch of `start_node` for an agent node: its assignment becomes active.
unfoldable pub attach_agent :
    String
    → GoalNode
    → (agent_id dispatch_token : Option String) (now : String) → Result Error GoalNode
attach_agent id n agent_id dispatch_token now = do
  raise_unless (same_status n.status dispatching) (not_prepared id)
  a ← current_assignment n
  require_present (plain "agent_id") agent_id
  require_present (plain "dispatch_token") dispatch_token
  raise_unless (matches dispatch_token a.dispatch_token) (token_mismatch id)
  let a' = record a { phase = active; agent_id = agent_id; assigned_at = some now }
  ok (record n { assignment = some a' })

-- The branch for other nodes, which changes nothing.
unfoldable pub check_local :
    Folding
    → String
    → GoalNode
    → (agent_id dispatch_token : Option String) (g : GoalState) → Result Error GoalNode
check_local fold id n agent_id dispatch_token g = do
  raise_if (present agent_id || present dispatch_token) (agent_only_options id)
  raise_if (has_dispatch g) (unresolved_dispatch id)
  check_startable fold id n g
  ok n

-- `now` is read by the branch for an agent node only.
unfoldable pub start_node :
    Folding
    → (id : String) (agent_id dispatch_token : Option String) (now started at : String)
      (g : GoalState)
    → Result Error GoalState
start_node fold id agent_id dispatch_token now started at g = do
  raise_unless (is_open g.status) (goal_not_open g.status)
  n ← get_node id g.nodes
  n' ←
      if is_agent n.kind
      then attach_agent id n agent_id dispatch_token now
      else check_local fold id n agent_id dispatch_token g
  let running_node = record n' { status = running; started_at = some started }
  ok (record_event "start_node" (some id) [] at (set_node id running_node g))

unfoldable pub abort_agent :
    (id dispatch_token now : String) (g : GoalState) → Result Error GoalState
abort_agent id dispatch_token now g = do
  raise_unless (is_open g.status) (goal_not_open g.status)
  n ← get_node id g.nodes
  raise_unless (is_agent n.kind && same_status n.status dispatching) (not_prepared id)
  a ← current_assignment n
  raise_unless (a.dispatch_token == dispatch_token) (token_mismatch id)
  let n' = record n { status = pending; assignment = none }
  ok (
      record_event "abort_agent" (some id) (("dispatch_token", text dispatch_token) ∷ []) now
        (set_node id n' g))
