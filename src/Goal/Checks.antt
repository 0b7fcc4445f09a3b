-- ===== src/Goal/Checks.antt =====
-- src/goal.py, the helpers that check one value, and the checks of one node.
-- The checks of the JSON types of fields are held by the types of the model.
use wait_skill.Prelude.{
  ℕ, ◌+◌, Bool, true, false, not, ◌&&◌, ◌||◌, String, List, [], ◌∷◌, Option, none, some, Result, ok,
  err, ◌>>◌, raise_if, raise_unless, all, any, is_empty, leb, nat_eq, ◌==◌, length, if◌then◌else◌,
}
use wait_skill.Prelude.Text.{codes, blank, has_line_break, is_alnum}
use wait_skill.Prelude.Dict.{Dict, values, keys}
use wait_skill.Goal.State.{
  Kind, Phase, WatchEvent, Assignment, Attempt, GoalNode, Label, Error, same_status, status_in,
  is_agent, is_external, is_prepared, pending, dispatching, running, waiting, completed, failed,
  cancelled, prepared, active, of_node, of_attempt, not_text, not_texts, not_text_map, empty_list,
  invalid_event_note, wait_not_external, wait_wrong_status, wait_missing, started_early,
  dispatching_not_agent, missing_artifacts, completed_at_early, artifacts_early, result_early,
  failed_at_early, assignment_not_agent, assignment_has_agent, assignment_wrong_phase, bad_outcome,
}
use wait_skill.Goal.Queries.{missing_artifacts_of}

abbrev pub Check : Type 0
Check = Result Error (Unit {0})

unfoldable pub require_string : Label → String → Check
require_string label s = raise_if (blank s) (not_text label)

-- A value that must be there: `require_string(node.get("started_at"), …)`.
unfoldable pub require_present : Label → Option String → Check
require_present label none = err (not_text label)
require_present label (some s) = require_string label s

-- A key that may be absent, and `allow_none=True`.
unfoldable pub require_optional : Label → Option String → Check
require_optional label none = ok tt
require_optional label (some s) = require_string label s

unfoldable pub require_string_list : Label → List String → Check
require_string_list label xs = raise_if (any blank xs) (not_texts label)

unfoldable pub require_nonempty_list : Label → List String → Check
require_nonempty_list label xs = do
  require_string_list label xs
  raise_if (is_empty xs) (empty_list label)

unfoldable pub require_string_map : Label → Dict String → Check
require_string_map label m =
    raise_if (any blank (keys m) || any blank (values m)) (not_text_map label)

-- `NODE_ID.fullmatch`: a letter or digit, then at most 127 letters, digits, dots, `_` or `-`.
abbrev pub is_id_char : ℕ → Bool
is_id_char c = is_alnum c || nat_eq c b'.' || nat_eq c b'_' || nat_eq c b'-'

abbrev pub is_id : List ℕ → Bool
is_id [] = false
is_id (c ∷ cs) = is_alnum c && (all is_id_char cs && leb (length cs) 127)

unfoldable pub is_node_id : String → Bool
is_node_id id = is_id (codes id)

-- `runtime.single_line_note` accepts the text.
unfoldable pub is_single_line : String → Bool
is_single_line s = not (blank s) && not (has_line_break s)

unfoldable pub validate_watch_event : Label → Option WatchEvent → Check
validate_watch_event label none = ok tt
validate_watch_event label (some e) = do
  require_string label e.event_id
  require_string label e.at
  require_optional label e.status

unfoldable pub validate_note : String → Option String → Check
validate_note id none = ok tt
validate_note id (some note) = raise_unless (is_single_line note) (invalid_event_note id)

unfoldable pub validate_wait : String → GoalNode → Check
validate_wait id n = do
  elim n.wait [
    | none ↦ raise_if (same_status n.status waiting) (wait_missing id)
    | some w ↦ (do
      raise_unless (is_external n.kind) (wait_not_external id)
      require_string (of_node id "wait.label") w.label
      require_string (of_node id "wait.thread") w.thread
      require_string (of_node id "wait.log_file") w.log_file
      require_string (of_node id "wait.lock_file") w.lock_file
      require_string (of_node id "wait.startup_file") w.startup_file
      require_string (of_node id "wait.since") w.since
      require_string (of_node id "wait.watch_id") w.watch_id
      validate_note id w.event_note
      raise_unless (same_status n.status (if is_prepared w.phase then running else waiting))
          (wait_wrong_status id))
  ]
  validate_watch_event (of_node id "last_event") n.last_event

abbrev pub present : Option String → Bool
present none = false
present (some _) = true

unfoldable pub validate_node_lifecycle : String → GoalNode → Check
validate_node_lifecycle id n = do
  require_optional (of_node id "started_at") n.started_at
  require_optional (of_node id "completed_at") n.completed_at
  require_optional (of_node id "failed_at") n.failed_at
  if status_in (running ∷ waiting ∷ completed ∷ []) n.status
      then require_present (of_node id "started_at") n.started_at
      else raise_if (status_in (pending ∷ dispatching ∷ []) n.status && present n.started_at)
          (started_early id)
  raise_if (same_status n.status dispatching && not (is_agent n.kind)) (dispatching_not_agent id)
  if same_status n.status completed
      then (do
        require_present (of_node id "result") n.result
        require_present (of_node id "completed_at") n.completed_at
        raise_unless (is_empty (missing_artifacts_of n n.artifacts)) (missing_artifacts id))
      else (do
        raise_if (present n.completed_at) (completed_at_early id)
        raise_unless (is_empty n.artifacts) (artifacts_early id))
  if same_status n.status failed
      then (do
        require_present (of_node id "result") n.result
        require_present (of_node id "failed_at") n.failed_at)
      else raise_if (not (same_status n.status completed) && present n.result) (result_early id)
  raise_if (not (same_status n.status failed) && present n.failed_at) (failed_at_early id)

abbrev pub phase_of : Option Assignment → Option Phase
phase_of none = none
phase_of (some a) = some a.phase

abbrev pub same_phase : Option Phase → Option Phase → Bool
same_phase none none = true
same_phase (some prepared) (some prepared) = true
same_phase (some active) (some active) = true
same_phase _ _ = false

abbrev pub is_prepared_phase : Option Phase → Bool
is_prepared_phase (some prepared) = true
is_prepared_phase _ = false

-- The phase of the assignment that the status of an agent node calls for.
abbrev pub expected_phase : GoalNode → Option Phase
expected_phase n =
    if same_status n.status dispatching
      || (same_status n.status cancelled && is_prepared_phase (phase_of n.assignment))
    then some prepared
    else if present n.started_at
    then some active
    else none

unfoldable pub validate_assignment : String → Kind → Assignment → Check
validate_assignment id kind a = do
  raise_unless (is_agent kind) (assignment_not_agent id)
  require_string (of_node id "assignment.dispatch_token") a.dispatch_token
  require_string (of_node id "assignment.prepared_at") a.prepared_at
  if is_prepared a.phase
      then raise_if (present a.agent_id || present a.assigned_at) (assignment_has_agent id)
      else (do
        require_present (of_node id "assignment.agent_id") a.agent_id
        require_present (of_node id "assignment.assigned_at") a.assigned_at)

unfoldable pub validate_node_assignment : String → GoalNode → Check
validate_node_assignment id n = do
  elim n.assignment [ none ↦ ok tt | some a ↦ validate_assignment id n.kind a ]
  raise_if (is_agent n.kind && not (same_phase (phase_of n.assignment) (expected_phase n)))
      (assignment_wrong_phase id)

unfoldable pub validate_attempt : String → ℕ → Attempt → Check
validate_attempt id index a = do
  raise_unless (a.outcome == "failed") (bad_outcome id index)
  require_present (of_attempt id index "result") a.result
  require_string (of_attempt id index "failed_at") a.failed_at
  require_optional (of_attempt id index "started_at") a.started_at
  elim a.assignment [
    | none ↦ ok tt
    | some s ↦ (do
      require_present (of_attempt id index "assignment.agent_id") s.agent_id
      require_present (of_attempt id index "assignment.assigned_at") s.assigned_at)
  ]
  validate_watch_event (of_attempt id index "last_event") a.last_event

unfoldable pub validate_attempts : String → ℕ → List Attempt → Check
validate_attempts id index [] = ok tt
validate_attempts id index (a ∷ rest) = do
  validate_attempt id index a
  validate_attempts id (index + 1) rest
