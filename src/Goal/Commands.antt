-- ===== src/Goal/Commands.antt =====
-- src/goal.py, the subcommands that edit a goal: each calls one operation of the graph.
-- A command holds the parsed arguments, and what the operation reads from the clock and `uuid`.
use wait_skill.Prelude.{
  ℕ, String, List, [], ◌∷◌, Option, Result, ok, ◌>>=◌, ◌>>◌, raise_unless, nat_eq, length,
}
use wait_skill.Prelude.Dict.{Dict, insert}
use wait_skill.Goal.State.{GoalState, Error, duplicate_inputs, WaitEvent}
use wait_skill.Goal.Paths.{Folding}
use wait_skill.Goal.Queries.{LockTest}
use wait_skill.Goal.Graph.{NodeSpec, edit_node, add_node}
use wait_skill.Goal.Agents.{prepare_agent, start_node, abort_agent}
use wait_skill.Goal.Waits.{
  Receipt, prepare_external_wait, activate_external_wait, abort_external_wait, wake_node,
}
use wait_skill.Goal.Lifecycle.{
  complete_node, fail_node, retry_node, verify, pause, resume, cancel, finish,
}

-- The arguments of the preparation of a wait.
pub record WaitSpec : Type 0 where
  pub label : String
  pub event_note : String
  pub log_file : String
  pub lock_file : String
  pub startup_file : String

pub data Command : Type 0 where
  add_command :
      (id : String) (spec : NodeSpec) (inputs : List (String × String))
      (before reason : Option String) (now : String)
      → Command
  edit_command : (id title : String) (depends_on acceptance : List String) (now : String) → Command
  prepare_agent_command : (id token now later : String) → Command
  abort_agent_command : (id dispatch_token now : String) → Command
  start_command :
      (id : String) (agent_id dispatch_token : Option String) (now started at : String) → Command
  wait_command : (id : String) (spec : WaitSpec) (token now later : String) → Command
  activate_wait_command : (time : ℕ) (id watch_id now : String) → Command
  abort_wait_command : (id watch_id now : String) → Command
  wake_command :
      (id event_id : String) (event : WaitEvent) (external_status : Option String)
      (now later : String)
      → Command
  complete_command : (id summary : String) (artifacts : List String) (now later : String) → Command
  fail_command : (id summary now later : String) → Command
  retry_command : (id now : String) → Command
  verify_command : (summary : String) (checks : List String) (now later : String) → Command
  pause_command resume_command cancel_command : (now : String) → Command
  finish_command : (summary now later : String) → Command

-- What a command reads of its surroundings: the case folding, absolute paths, receipts and locks.
pub record Host : Type 0 where
  pub fold : Folding
  pub absolute : String → String
  pub read_receipt : String → Option Receipt
  pub held : LockTest

-- `dict(pairs)`: a later pair replaces the value of an earlier one.
unfoldable pub to_dict : Dict String → List (String × String) → Dict String
to_dict m [] = m
to_dict m ((k, v) ∷ rest) = to_dict (insert k v m) rest

unfoldable pub run : Host → Command → GoalState → Result Error GoalState
run h (add_command id spec inputs before reason now) g = do
  let named = to_dict [] inputs
  raise_unless (nat_eq (length named) (length inputs)) (duplicate_inputs id)
  add_node id (record spec { inputs = named }) before reason now g
run h (edit_command id title depends_on acceptance now) g =
    edit_node id title depends_on acceptance now g
run h (prepare_agent_command id token now later) g = do
  r ← prepare_agent h.fold id token now later g
  ok r.0
run h (abort_agent_command id dispatch_token now) g = abort_agent id dispatch_token now g
run h (start_command id agent_id dispatch_token now started at) g =
    start_node h.fold id agent_id dispatch_token now started at g
run h (wait_command id spec token now later) g = do
  r ←
      prepare_external_wait h.absolute id spec.label spec.event_note spec.log_file spec.lock_file
        spec.startup_file token now later g
  ok r.0
run h (activate_wait_command time id watch_id now) g =
    activate_external_wait h.read_receipt h.held time id watch_id now g
run h (abort_wait_command id watch_id now) g = abort_external_wait id watch_id now g
run h (wake_command id event_id event external_status now later) g = do
  r ← wake_node id event_id event external_status now later g
  ok r.0
run h (complete_command id summary artifacts now later) g =
    complete_node id summary artifacts now later g
run h (fail_command id summary now later) g = fail_node id summary now later g
run h (retry_command id now) g = retry_node id now g
run h (verify_command summary checks now later) g = verify summary checks now later g
run h (pause_command now) g = pause now g
run h (resume_command now) g = resume now g
run h (cancel_command now) g = cancel now g
run h (finish_command summary now later) g = finish summary now later g
