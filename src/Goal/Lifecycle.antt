-- ===== src/Goal/Lifecycle.antt =====
-- src/goal.py, `GoalGraph`: the end of a node, and the life of the goal.
use wait_skill.Prelude.{
  Bool, not, String, List, [], ◌∷◌, ◌++◌, none, some, Result, ok, err, ◌>>=◌, ◌>>◌, raise_if,
  raise_unless, is_empty, dedupe, if◌then◌else◌,
}
use wait_skill.Prelude.Dict.{map_values, select_values}
use wait_skill.Goal.State.{
  Attempt, Verification, GoalNode, GoalState, Error, same_status, status_in, is_open, is_paused,
  is_finished, pending, dispatching, running, completed, failed, cancelled, opened, paused,
  finished, stopped, texts, missing_artifacts, goal_not_open, wrong_status, dispatch_first,
  no_nodes, incomplete_nodes, not_verified, key_error,
}
use wait_skill.Goal.Queries.{get_node, missing_artifacts_of}
use wait_skill.Goal.Validate.{is_verified}
use wait_skill.Goal.Graph.{record_event, set_node}

unfoldable pub complete_node :
    (id summary : String) (artifacts : List String) (now later : String) (g : GoalState)
    → Result Error GoalState
complete_node id summary artifacts now later g = do
  n ← get_node id g.nodes
  raise_unless (same_status n.status running) (wrong_status id n.status)
  let found = dedupe artifacts
  raise_unless (is_empty (missing_artifacts_of n found)) (missing_artifacts id)
  let n' = record n {
    status = completed;
    result = some summary;
    artifacts = found;
    completed_at = some now;
  }
  ok (
      record_event "complete_node" (some id) (("artifacts", texts found) ∷ []) later
        (record (set_node id n' g) { verification = none }))

unfoldable pub fail_node : (id summary now later : String) (g : GoalState) → Result Error GoalState
fail_node id summary now later g = do
  n ← get_node id g.nodes
  raise_if (status_in (completed ∷ failed ∷ cancelled ∷ []) n.status) (wrong_status id n.status)
  raise_if (same_status n.status dispatching) (dispatch_first id)
  let n' = record n { status = failed; result = some summary; failed_at = some now; wait = none }
  ok (
      record_event "fail_node" (some id) [] later
        (record (set_node id n' g) { verification = none }))

unfoldable pub retry_node : (id now : String) (g : GoalState) → Result Error GoalState
retry_node id now g = do
  raise_unless (is_open g.status) (goal_not_open g.status)
  n ← get_node id g.nodes
  raise_unless (same_status n.status failed) (wrong_status id n.status)
  failed_at ← elim n.failed_at [ none ↦ err (key_error "failed_at") | some t ↦ ok t ]
  let a : Attempt = record {
    outcome = "failed";
    result = n.result;
    failed_at = failed_at;
    started_at = n.started_at;
    assignment = n.assignment;
    last_event = n.last_event;
  }
  let n' = record n {
    attempts = n.attempts ++ a ∷ [];
    status = pending;
    result = none;
    wait = none;
    last_event = none;
    assignment = none;
    started_at = none;
    failed_at = none;
  }
  ok (
      record_event "retry_node" (some id) [] now
        (record (set_node id n' g) { verification = none }))

abbrev pub is_incomplete : GoalNode → Bool
is_incomplete n = not (same_status n.status completed)

unfoldable pub verify :
    (summary : String) (checks : List String) (now later : String) (g : GoalState)
    → Result Error GoalState
verify summary checks now later g = do
  raise_unless (is_open g.status) (goal_not_open g.status)
  raise_if (is_empty g.nodes) no_nodes
  raise_unless (is_empty (select_values is_incomplete g.nodes)) incomplete_nodes
  let v : Verification = record { summary = summary; checks = dedupe checks; verified_at = now }
  ok (
      record_event "verify_goal" none (("checks", texts checks) ∷ []) later
        (record g { verification = some v }))

unfoldable pub pause : (now : String) (g : GoalState) → Result Error GoalState
pause now g = do
  raise_unless (is_open g.status) (goal_not_open g.status)
  ok (record_event "pause_goal" none [] now (record g { status = paused }))

unfoldable pub resume : (now : String) (g : GoalState) → Result Error GoalState
resume now g = do
  raise_unless (is_paused g.status) (goal_not_open g.status)
  ok (record_event "resume_goal" none [] now (record g { status = opened }))

unfoldable pub cancel_one : GoalNode → GoalNode
cancel_one n =
    if status_in (completed ∷ failed ∷ []) n.status
    then n
    else record n { status = cancelled; wait = none }

unfoldable pub cancel : (now : String) (g : GoalState) → Result Error GoalState
cancel now g = do
  raise_if (is_finished g.status) (goal_not_open g.status)
  ok (
      record_event "cancel_goal" none [] now
        (record g { status = stopped; nodes = map_values cancel_one g.nodes }))

unfoldable pub finish : (summary now later : String) (g : GoalState) → Result Error GoalState
finish summary now later g = do
  raise_unless (is_open g.status) (goal_not_open g.status)
  raise_unless (is_verified g.verification) not_verified
  ok (
      record_event "finish_goal" none [] later
        (record g { status = finished; result = some summary; completed_at = some now }))
